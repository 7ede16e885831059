-- ===== src/Fs/FileLock.antt =====
-- fs/file_lock.go: locks of files by path, each with a count of references. Paths are only compared, and are
-- numbers; lock objects are numbers with their fields by object. What Lock and Unlock do under the manager's
-- mutex is one step, what they do with the file's own sync.RWMutex another.
pub mod Invariant
pub mod Steps
pub mod Exclusion
mod Tests
use go_irodsclient.Base.{
  ℕ, ◌+◌, ◌-◌, ◌<◌, ◌≡◌, Bool, true, false, ◌&&◌, List, [], Option, none, some, ◌==◌, if◌then◌else◌,
}
use go_irodsclient.Base.Maps.{lookup, insert, erase}

-- FileLocks: the map of locks; the path and the references of each FileLock; how many hold its
-- RWMutex for writing and for reading; and the next object.
pub record FileLocks : Type 0 where
  pub locks : List (ℕ × ℕ)
  pub path : ℕ → ℕ
  pub references : ℕ → ℕ
  pub writers : ℕ → ℕ
  pub readers : ℕ → ℕ
  pub next_id : ℕ

abbrev pub set : (ℕ → ℕ) → ℕ → ℕ → ℕ → ℕ
set f a n b = if a == b then n else f b

unfoldable pub new_file_locks : FileLocks
new_file_locks = record {
  locks = [];
  path = λ l. 0;
  references = λ l. 0;
  writers = λ l. 0;
  readers = λ l. 0;
  next_id = 0;
}

-- Lock and RLock under the mutex, for what the map has at the path: the object that is locked next. A new
-- object has an RWMutex that nobody has touched.
abbrev pub take_reference : Option ℕ → ℕ → FileLocks → FileLocks × ℕ
take_reference (some l) path s =
    (record s { references = set s.references l (s.references l + 1) }, l)
take_reference none path s =
    let l = s.next_id in
    (
      record s {
        locks = insert path l s.locks;
        path = set s.path l path;
        references = set s.references l 1;
        next_id = l + 1;
      },
      l,
    )

unfoldable pub lock : ℕ → FileLocks → FileLocks × ℕ
lock path s = take_reference (lookup path s.locks) path s

-- Unlock and RUnlock under the mutex: the object that is unlocked next, or the error that there is no lock
-- or that it has no references.
abbrev pub drop_reference : Option ℕ → ℕ → FileLocks → Option (FileLocks × ℕ)
drop_reference none path s = none
drop_reference (some l) path s =
    let left = s.references l - 1 in
    let t = record s { references = set s.references l left } in
    let u = record t { locks = erase path s.locks } in
    if s.references l == 0 then none else if left == 0 then some (u, l) else some (t, l)

unfoldable pub unlock : ℕ → FileLocks → Option (FileLocks × ℕ)
unlock path s = drop_reference (lookup path s.locks) path s

-- Lock and Unlock write, RLock and RUnlock read.
pub data Mode : Type 0 where
  write read : Mode

-- sync.RWMutex: many readers or one writer.
abbrev pub is_free : Mode → ℕ → FileLocks → Bool
is_free write l s = (s.writers l == 0) && (s.readers l == 0)
is_free read l s = s.writers l == 0

abbrev pub lock_mutex : Mode → ℕ → FileLocks → FileLocks
lock_mutex write l s = record s { writers = set s.writers l (s.writers l + 1) }
lock_mutex read l s = record s { readers = set s.readers l (s.readers l + 1) }

abbrev pub unlock_mutex : Mode → ℕ → FileLocks → FileLocks
unlock_mutex write l s = record s { writers = set s.writers l (s.writers l - 1) }
unlock_mutex read l s = record s { readers = set s.readers l (s.readers l - 1) }

-- How many calls of a mode wait for the mutex of an object, hold it after Lock has returned, and have left
-- the first part of Unlock.
pub record Crowd : Type 0 where
  pub waiting : ℕ → ℕ
  pub holding : ℕ → ℕ
  pub leaving : ℕ → ℕ

pub record World : Type 0 where
  pub manager : FileLocks
  pub writing : Crowd
  pub reading : Crowd

abbrev pub crowd : Mode → World → Crowd
crowd write w = w.writing
crowd read w = w.reading

abbrev pub put : Mode → FileLocks → Crowd → World → World
put write s c w = record w { manager = s; writing = c }
put read s c w = record w { manager = s; reading = c }

abbrev pub more : (ℕ → ℕ) → ℕ → ℕ → ℕ
more f l = set f l (f l + 1)

abbrev pub fewer : (ℕ → ℕ) → ℕ → ℕ → ℕ
fewer f l = set f l (f l - 1)

-- A thread calls Lock or RLock.
unfoldable pub enter : Mode → ℕ → World → World
unfolding lock
enter m path w =
    let (s, l) = lock path w.manager in
    let c = crowd m w in put m s (record c { waiting = more c.waiting l }) w

-- It gets the mutex.
unfoldable pub acquire : Mode → ℕ → World → World
acquire m l w =
    let c = crowd m w in
    put m (lock_mutex m l w.manager)
      (record c { waiting = fewer c.waiting l; holding = more c.holding l }) w

-- A thread that holds the mutex of `l` calls Unlock or RUnlock with the path of `l`.
abbrev pub left_with : Mode → ℕ → Option (FileLocks × ℕ) → World → World
left_with m l none w = w
left_with m l (some (s, k)) w =
    let c = crowd m w in
    put m s (record c { holding = fewer c.holding l; leaving = more c.leaving k }) w

unfoldable pub leave : Mode → ℕ → World → World
unfolding unlock
leave m l w = left_with m l (unlock (w.manager.path l) w.manager) w

-- It unlocks the mutex.
unfoldable pub finish : Mode → ℕ → World → World
finish m l w =
    let c = crowd m w in
    put m (unlock_mutex m l w.manager) (record c { leaving = fewer c.leaving l }) w

abbrev pub nobody : Crowd
nobody = record { waiting = λ l. 0; holding = λ l. 0; leaving = λ l. 0 }

pub data Reachable : World → Type 0 where
  starts : Reachable (record { manager = new_file_locks; writing = nobody; reading = nobody })
  enters : (m : Mode) (path : ℕ) (w : World) → Reachable w → Reachable (enter m path w)
  acquires :
      (m : Mode) (l : ℕ) (w : World)
      → Reachable w
      → 0 < (crowd m w).waiting l
      → is_free m l w.manager ≡ true
      → Reachable (acquire m l w)
  leaves :
      (m : Mode) (l : ℕ) (w : World)
      → Reachable w
      → 0 < (crowd m w).holding l
      → Reachable (leave m l w)
  finishes :
      (m : Mode) (l : ℕ) (w : World)
      → Reachable w
      → 0 < (crowd m w).leaving l
      → Reachable (finish m l w)
