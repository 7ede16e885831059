-- ===== src/Fs/FileLock/Steps.antt =====
-- Lock and Unlock keep the invariant.
use go_irodsclient.Base.{
  ℕ, ◌-◌, ◌<◌, ◌≡◌, refl, false, Option, none, some, ◌==◌, arith, Bool-cases, inl, inr,
}
use go_irodsclient.Base.Maps.{lookup, lookup-insert, lookup-erase}
use go_irodsclient.Fs.FileLock.{
  FileLocks, World, Mode, write, read, crowd, set, more, put, take_reference, drop_reference, enter,
  leave, left_with, Reachable, starts, enters, acquires, leaves, finishes, new_file_locks,
}
use go_irodsclient.Fs.FileLock.Invariant.{Inv, acquire-Inv, finish-Inv}

abbrev entered : Mode → FileLocks × ℕ → World → World
entered m (s, l) w = let c = crowd m w in put m s (record c { waiting = more c.waiting l }) w

entered-Inv :
    (m : Mode) (path : ℕ) (entry : Option ℕ) (w : World)
    → lookup path w.manager.locks ≡ entry
    → Inv w
    → Inv (entered m (take_reference entry path w.manager) w)
entered-Inv write path (some l) w e v = record {
  counted = λ k. ground (arith, v.counted k);
  listed = λ p k h. let (a, b) = v.listed p k h in (a, ground (arith, b));
  found = λ k h. v.found k (ground (arith, h, e, v.listed path k));
  unused = λ k h. ground (arith, v.unused k h, v.listed path l e);
  written = v.written;
  being_read = v.being_read;
  one_writer = v.one_writer;
  no_readers = v.no_readers;
}
entered-Inv write path none w e v =
    let l = w.manager.next_id in
    record {
      counted = λ k. ground (arith, v.counted k, v.unused l);
      listed = λ p k h.
          ground (arith, h, lookup-insert path p l w.manager.locks, v.listed p k, v.unused l);
      found = λ k h. ground (
        arith,
        h,
        e,
        lookup-insert path (set w.manager.path l path k) l w.manager.locks,
        v.found k,
      );
      unused = λ k h. ground (arith, v.unused k);
      written = v.written;
      being_read = v.being_read;
      one_writer = v.one_writer;
      no_readers = v.no_readers;
    }
entered-Inv read path (some l) w e v = record {
  counted = λ k. ground (arith, v.counted k);
  listed = λ p k h. let (a, b) = v.listed p k h in (a, ground (arith, b));
  found = λ k h. v.found k (ground (arith, h, e, v.listed path k));
  unused = λ k h. ground (arith, v.unused k h, v.listed path l e);
  written = v.written;
  being_read = v.being_read;
  one_writer = v.one_writer;
  no_readers = v.no_readers;
}
entered-Inv read path none w e v =
    let l = w.manager.next_id in
    record {
      counted = λ k. ground (arith, v.counted k, v.unused l);
      listed = λ p k h.
          ground (arith, h, lookup-insert path p l w.manager.locks, v.listed p k, v.unused l);
      found = λ k h. ground (
        arith,
        h,
        e,
        lookup-insert path (set w.manager.path l path k) l w.manager.locks,
        v.found k,
      );
      unused = λ k h. ground (arith, v.unused k);
      written = v.written;
      being_read = v.being_read;
      one_writer = v.one_writer;
      no_readers = v.no_readers;
    }

-- Unlock with the path of an object that is held finds that object.
pub held-found :
    (m : Mode) (l : ℕ) (w : World)
    → 0 < (crowd m w).holding l
    → Inv w
    → lookup (w.manager.path l) w.manager.locks ≡ some l
held-found write l w h v = v.found l (omega (arith, h, v.counted l))
held-found read l w h v = v.found l (omega (arith, h, v.counted l))

left-Inv :
    (m : Mode) (l : ℕ) (w : World)
    → 0 < (crowd m w).holding l
    → Inv w
    → Inv (left_with m l (drop_reference (some l) (w.manager.path l) w.manager) w)
left-Inv write l w h v =
    let some_left : 0 < w.manager.references l = omega (arith, h, v.counted l) in
    elim (Bool-cases (w.manager.references l - 1 == 0)) [
      | inl e ↦
          let z : (w.manager.references l == 0) ≡ false = ground (arith, some_left) in
          simp (z, e)
            (record {
              counted = λ k. ground (arith, h, v.counted k);
              listed = λ p k i. ground (
                arith,
                i,
                lookup-erase (w.manager.path l) p w.manager.locks,
                v.listed p k,
                v.found l some_left,
              );
              found = λ k i. ground (
                arith,
                i,
                e,
                lookup-erase (w.manager.path l) (w.manager.path k) w.manager.locks,
                v.found k,
                v.found l some_left,
              );
              unused = λ k i. ground (arith, v.unused k i);
              written = λ k. ground (arith, h, v.written k);
              being_read = v.being_read;
              one_writer = v.one_writer;
              no_readers = v.no_readers;
            })
      | inr e ↦
          let z : (w.manager.references l == 0) ≡ false = ground (arith, some_left) in
          simp (z, e)
            (record {
              counted = λ k. ground (arith, h, v.counted k);
              listed = λ p k i. let (a, b) = v.listed p k i in (a, ground (arith, b, e));
              found = λ k i. v.found k (ground (arith, i, some_left));
              unused = λ k i. ground (arith, v.unused k i);
              written = λ k. ground (arith, h, v.written k);
              being_read = v.being_read;
              one_writer = v.one_writer;
              no_readers = v.no_readers;
            })
    ]
left-Inv read l w h v =
    let some_left : 0 < w.manager.references l = omega (arith, h, v.counted l) in
    elim (Bool-cases (w.manager.references l - 1 == 0)) [
      | inl e ↦
          let z : (w.manager.references l == 0) ≡ false = ground (arith, some_left) in
          simp (z, e)
            (record {
              counted = λ k. ground (arith, h, v.counted k);
              listed = λ p k i. ground (
                arith,
                i,
                lookup-erase (w.manager.path l) p w.manager.locks,
                v.listed p k,
                v.found l some_left,
              );
              found = λ k i. ground (
                arith,
                i,
                e,
                lookup-erase (w.manager.path l) (w.manager.path k) w.manager.locks,
                v.found k,
                v.found l some_left,
              );
              unused = λ k i. ground (arith, v.unused k i);
              written = v.written;
              being_read = λ k. ground (arith, h, v.being_read k);
              one_writer = v.one_writer;
              no_readers = v.no_readers;
            })
      | inr e ↦
          let z : (w.manager.references l == 0) ≡ false = ground (arith, some_left) in
          simp (z, e)
            (record {
              counted = λ k. ground (arith, h, v.counted k);
              listed = λ p k i. let (a, b) = v.listed p k i in (a, ground (arith, b, e));
              found = λ k i. v.found k (ground (arith, i, some_left));
              unused = λ k i. ground (arith, v.unused k i);
              written = v.written;
              being_read = λ k. ground (arith, h, v.being_read k);
              one_writer = v.one_writer;
              no_readers = v.no_readers;
            })
    ]

leave-Inv : (m : Mode) (l : ℕ) (w : World) → 0 < (crowd m w).holding l → Inv w → Inv (leave m l w)
unfolding leave
leave-Inv m l w h v = rw (held-found m l w h v) (left-Inv m l w h v)

enter-Inv : (m : Mode) (path : ℕ) (w : World) → Inv w → Inv (enter m path w)
unfolding enter
enter-Inv m path w v = entered-Inv m path (lookup path w.manager.locks) w refl v

pub Reachable-Inv : (w : World) → Reachable w → Inv w
unfolding new_file_locks lookup
Reachable-Inv _ starts = record {
  counted = λ l. refl;
  listed = λ p l h. ground (arith, h);
  found = λ l h. absurd (omega (arith, h));
  unused = λ l h. refl;
  written = λ l. refl;
  being_read = λ l. refl;
  one_writer = λ l. omega arith;
  no_readers = λ l h. refl;
}
Reachable-Inv _ (enters m path w r) = enter-Inv m path w (Reachable-Inv w r)
Reachable-Inv _ (acquires m l w r h f) = acquire-Inv m l w h f (Reachable-Inv w r)
Reachable-Inv _ (leaves m l w r h) = leave-Inv m l w h (Reachable-Inv w r)
Reachable-Inv _ (finishes m l w r h) = finish-Inv m l w h (Reachable-Inv w r)
