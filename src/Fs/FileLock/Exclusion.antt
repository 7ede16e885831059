-- ===== src/Fs/FileLock/Exclusion.antt =====
-- Mutual exclusion by path, and that what is locked can be unlocked.
use go_irodsclient.Base.{ℕ, ◌-◌, ◌<◌, ◌≡◌, refl, false, some, ◌==◌, arith, Bool-cases, inl, inr}
use go_irodsclient.Fs.FileLock.{
  FileLocks, World, Mode, write, read, crowd, unlock, drop_reference, Reachable,
}
use go_irodsclient.Fs.FileLock.Invariant.{Inv}
use go_irodsclient.Fs.FileLock.Steps.{held-found, Reachable-Inv}

-- Whatever threads lock and unlock, in any order: two lock objects that are held for the same path are the
-- same object, and while a call holds it for writing no other call holds it, for writing or for reading.
pub Reachable-excludes :
    (a b : ℕ) (m : Mode) (w : World)
    → Reachable w
    → w.manager.path a ≡ w.manager.path b
    → 0 < w.writing.holding a
    → 0 < (crowd m w).holding b
    → (a ≡ b) × (w.writing.holding a ≡ 1) × (w.reading.holding a ≡ 0)
Reachable-excludes a b m w r e h k =
    let v = Reachable-Inv w r in
    let f = held-found write a w h v in
    let g = held-found m b w k v in
    (
      ground (arith, f, g, e),
      omega (arith, h, v.written a, v.one_writer a),
      omega (arith, v.being_read a, v.no_readers a (omega (arith, h, v.written a))),
    )

drops :
    (l path : ℕ) (s : FileLocks)
    → 0 < s.references l
    → (t : FileLocks) × (drop_reference (some l) path s ≡ some (t, l))
drops l path s h =
    let z : (s.references l == 0) ≡ false = ground (arith, h) in
    elim (Bool-cases (s.references l - 1 == 0)) [
      | inl e ↦ simp (z, e) (_, refl)
      | inr e ↦ simp (z, e) (_, refl)
    ]

has_references :
    (m : Mode) (l : ℕ) (w : World) → 0 < (crowd m w).holding l → Inv w → 0 < w.manager.references l
has_references write l w h v = omega (arith, h, v.counted l)
has_references read l w h v = omega (arith, h, v.counted l)

-- A call that holds a lock can always unlock it: Unlock by its path succeeds, and unlocks the object that the
-- call holds.
pub Reachable-unlocks :
    (m : Mode) (l : ℕ) (w : World)
    → Reachable w
    → 0 < (crowd m w).holding l
    → (s : FileLocks) × (unlock (w.manager.path l) w.manager ≡ some (s, l))
unfolding unlock
Reachable-unlocks m l w r h =
    let v = Reachable-Inv w r in
    rw (held-found m l w h v) (drops l (w.manager.path l) w.manager (has_references m l w h v))
