-- ===== src/Session/Calls.antt =====
-- irods/session/session.go: AcquireConnection and AcquireNewConnection with the mutex of the session. A call by one
-- goroutine is a function of the session; what happens while it waits for a connection without the mutex is an
-- argument: the session as the others leave it, and what Get of the pool then gives.
pub mod Locking
mod Tests
use go_irodsclient.Base.{ℕ, ◌+◌, Bool, true, false, not, Option, none, some, ltb, if◌then◌else◌}
use go_irodsclient.Session.Pool.{Dial}
use go_irodsclient.Session.Sharing.{
  Failure, Peer, Session, put_to_share, share_it, check_parallel, Acquired, acquired, pool_full,
  error, acquire_connection,
}

pub record Guarded : Type 0 where
  pub session : Session
  pub locked : Bool
  pub connection_creation_timeout : ℕ
  pub wait_connection : Bool

-- How a call ends: with a connection, with an error, waiting for the mutex forever, or with the fatal error of unlocking
-- a mutex that is not locked.
pub data Called : Type 0 where
  got : ℕ → Called
  erred : Called
  blocked : Called
  fatal : Called

abbrev pub is_pending : ℕ → ℕ → Option Failure → Bool
is_pending now timeout none = false
is_pending now timeout (some f) = if f.permanent then true else not (ltb (f.time + timeout) now)

-- getPendingError
unfoldable pub get_pending_error : ℕ → Guarded → Bool
get_pending_error now g =
    is_pending now g.connection_creation_timeout g.session.last_connection_error

-- The end of a call that waited, under the mutex; an error of the Get that waits is not kept in the session.
abbrev pub after_wait : Peer → Guarded × Option ℕ → Guarded × Called
after_wait peer (g, none) = (g, erred)
after_wait peer (g, some c) =
    (record g { session = check_parallel peer c (share_it c g.session) }, got c)

-- What follows on acquireConnection; all ends unlock the mutex.
abbrev pub after_acquire :
    Bool → Peer → Guarded × Option ℕ → Session × Acquired → Guarded → Guarded × Called
after_acquire allow_shared peer woken (s, acquired c) g =
    (record g { session = s; locked = false }, got c)
after_acquire allow_shared peer woken (s, error) g =
    (record g { session = s; locked = false }, erred)
after_acquire allow_shared peer woken (s, pool_full) g =
    let waited = after_wait peer woken in
    let refused : Guarded × Called = (record g { session = s; locked = false }, erred) in
    if g.wait_connection then (if allow_shared then refused else waited) else refused

-- AcquireConnection; behind a pending error it returns without unlocking.
unfoldable pub acquire_connection_call :
    Bool → Peer → Guarded × Option ℕ → Dial → ℕ → Guarded → Guarded × Called
unfolding get_pending_error acquire_connection put_to_share
acquire_connection_call allow_shared peer woken dial now g =
    let held = record g { locked = true } in
    if g.locked
    then (g, blocked)
    else if get_pending_error now g
    then (held, erred)
    else after_acquire allow_shared peer woken
        (acquire_connection false allow_shared false dial peer now g.session) held

-- The deferred Unlock of AcquireNewConnection, on the session that the call leaves.
abbrev pub unlock_again : Guarded × Called → Guarded × Called
unlock_again (g, r) = if g.locked then (record g { locked = false }, r) else (g, fatal)

unfoldable pub acquire_new_connection :
    Bool → Peer → Guarded × Option ℕ → Dial → ℕ → Guarded → Guarded × Called
unfolding get_pending_error acquire_connection put_to_share
acquire_new_connection allow_shared peer woken dial now g =
    let held = record g { locked = true } in
    if g.locked
    then (g, blocked)
    else if get_pending_error now g
    then unlock_again (held, erred)
    else unlock_again (
        after_acquire allow_shared peer woken
          (acquire_connection true allow_shared false dial peer now g.session) held)
