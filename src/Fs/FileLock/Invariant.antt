-- ===== src/Fs/FileLock/Invariant.antt =====
-- What holds of the locks between any two steps.
use go_irodsclient.Base.{ℕ, ◌+◌, ◌≤◌, ◌<◌, ◌≡◌, true, some, arith}
use go_irodsclient.Base.Maps.{lookup}
use go_irodsclient.Fs.FileLock.{World, Mode, write, read, crowd, acquire, finish, is_free}

-- The references of an object count the calls that wait or hold; the map has an object at its path for as
-- long as it has references; and the mutexes are held by the calls that hold or leave.
pub record Inv (w : World) : Type 0 where
  pub counted :
      (l : ℕ)
      → w.manager.references l
        ≡ w.writing.waiting l + w.writing.holding l + (w.reading.waiting l + w.reading.holding l)
  pub listed :
      (p l : ℕ)
      → lookup p w.manager.locks ≡ some l
      → (w.manager.path l ≡ p) × (0 < w.manager.references l)
  pub found :
      (l : ℕ) → 0 < w.manager.references l → lookup (w.manager.path l) w.manager.locks ≡ some l
  pub unused : (l : ℕ) → w.manager.next_id ≤ l → w.manager.references l ≡ 0
  pub written : (l : ℕ) → w.manager.writers l ≡ w.writing.holding l + w.writing.leaving l
  pub being_read : (l : ℕ) → w.manager.readers l ≡ w.reading.holding l + w.reading.leaving l
  pub one_writer : (l : ℕ) → w.manager.writers l ≤ 1
  pub no_readers : (l : ℕ) → 0 < w.manager.writers l → w.manager.readers l ≡ 0

pub acquire-Inv :
    (m : Mode) (l : ℕ) (w : World)
    → 0 < (crowd m w).waiting l
    → is_free m l w.manager ≡ true
    → Inv w
    → Inv (acquire m l w)
unfolding acquire
acquire-Inv write l w h f v = record {
  counted = λ k. ground (arith, h, v.counted k);
  listed = v.listed;
  found = v.found;
  unused = v.unused;
  written = λ k. ground (arith, v.written k);
  being_read = v.being_read;
  one_writer = λ k. ground (arith, f, v.one_writer k);
  no_readers = λ k e. ground (arith, f, e, v.no_readers k);
}
acquire-Inv read l w h f v = record {
  counted = λ k. ground (arith, h, v.counted k);
  listed = v.listed;
  found = v.found;
  unused = v.unused;
  written = v.written;
  being_read = λ k. ground (arith, v.being_read k);
  one_writer = v.one_writer;
  no_readers = λ k e. ground (arith, f, e, v.no_readers k);
}

pub finish-Inv :
    (m : Mode) (l : ℕ) (w : World) → 0 < (crowd m w).leaving l → Inv w → Inv (finish m l w)
unfolding finish
finish-Inv write l w h v = record {
  counted = v.counted;
  listed = v.listed;
  found = v.found;
  unused = v.unused;
  written = λ k. ground (arith, h, v.written k);
  being_read = v.being_read;
  one_writer = λ k. ground (arith, v.one_writer k);
  no_readers = λ k e. ground (arith, e, v.no_readers k);
}
finish-Inv read l w h v = record {
  counted = v.counted;
  listed = v.listed;
  found = v.found;
  unused = v.unused;
  written = v.written;
  being_read = λ k. ground (arith, h, v.being_read k);
  one_writer = v.one_writer;
  no_readers = λ k e. ground (arith, e, v.no_readers k);
}
