-- ===== src/Fs/FileLock/Tests.antt =====
-- Runs of the file locks.
use go_irodsclient.Base.{ℕ, ◌≡◌, refl, some, arith}
use go_irodsclient.Base.Maps.{lookup, insert}
use go_irodsclient.Fs.FileLock.{
  FileLocks, World, write, nobody, new_file_locks, lock, unlock, enter, acquire, Reachable, starts,
  enters, acquires,
}
use go_irodsclient.Fs.FileLock.Exclusion.{Reachable-excludes, Reachable-unlocks}

abbrev first : ℕ
first = 0

abbrev quiet : World
quiet = record { manager = new_file_locks; writing = nobody; reading = nobody }

-- Two threads call Lock for path 5, and the first gets the mutex.
abbrev contested : World
contested = enter write 5 (acquire write 0 (enter write 5 quiet))

contested-Reachable : Reachable contested
unfolding enter acquire lock lookup insert new_file_locks
contested-Reachable =
    enters write 5 (acquire write 0 (enter write 5 quiet))
      (acquires write 0 (enter write 5 quiet) (enters write 5 quiet starts) (omega arith) refl)

Reachable-excludes_example :
    (first ≡ first) × (contested.writing.holding 0 ≡ 1) × (contested.reading.holding 0 ≡ 0)
unfolding enter acquire lock lookup insert new_file_locks
Reachable-excludes_example =
    Reachable-excludes first first write contested contested-Reachable refl (omega arith)
      (omega arith)

Reachable-unlocks_example :
    (s : FileLocks) × (unlock (contested.manager.path 0) contested.manager ≡ some (s, 0))
unfolding enter acquire lock lookup insert new_file_locks
Reachable-unlocks_example = Reachable-unlocks write 0 contested contested-Reachable (omega arith)
