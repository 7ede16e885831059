-- ===== src/Session/Calls/Locking.antt =====
-- What the calls leave of the mutex of the session.
use go_irodsclient.Base.{
  ℕ, ◌≡◌, refl, ◌∙◌, ap, ◌≤◌, ◌+◌, ◌⊎◌, arith, Bool, true, false, Option, none, some, if◌then◌else◌,
  Bool-cases, inl, inr,
}
use go_irodsclient.Session.Pool.{Pool, Dial, Got, conn, full, failed, get}
use go_irodsclient.Session.Sharing.{
  Failure, Peer, Session, after_get, Acquired, acquired, pool_full, error, acquire_connection,
}
use go_irodsclient.Session.Calls.{
  Guarded, Called, is_pending, erred, blocked, fatal, get_pending_error, after_wait, after_acquire,
  acquire_connection_call, unlock_again, acquire_new_connection,
}

after_wait-locked :
    (peer : Peer) (g : Guarded) (o : Option ℕ) → (after_wait peer (g, o)).0.locked ≡ g.locked
after_wait-locked peer g none = refl
after_wait-locked peer g (some c) = refl

unlocked_either :
    (b : Bool) (x y : Guarded × Called)
    → x.0.locked ≡ false
    → y.0.locked ≡ false
    → (if b then x else y).0.locked ≡ false
unlocked_either true x y h k = h
unlocked_either false x y h k = k

after_acquire-locked :
    (allow_shared : Bool) (peer : Peer) (woken : Guarded × Option ℕ) (found : Session × Acquired)
    (g : Guarded)
    → woken.0.locked ≡ false
    → (after_acquire allow_shared peer woken found g).0.locked ≡ false
after_acquire-locked allow_shared peer woken (s, acquired c) g h = refl
after_acquire-locked allow_shared peer woken (s, error) g h = refl
after_acquire-locked allow_shared peer woken (s, pool_full) g h =
    let waited = after_wait peer woken in
    let refused : Guarded × Called = (record g { session = s; locked = false }, erred) in
    unlocked_either g.wait_connection (if allow_shared then refused else waited) refused
      (unlocked_either allow_shared refused waited refl
        (after_wait-locked peer woken.0 woken.1 ∙ h))
      refl

unlock_twice : (r : Guarded × Called) → r.0.locked ≡ false → (unlock_again r).1 ≡ fatal
unlock_twice (g, r) h = rw h refl

-- On a session whose mutex is free, and is free again when a wait for a connection ends: AcquireConnection
-- leaves the mutex locked exactly if there is a pending error, and then it fails and every call that follows
-- blocks; AcquireNewConnection fails if there is a pending error, and otherwise, whatever the pool answers, it
-- unlocks the mutex once more than it locked it.
pub acquire_connection_call-locked :
    (allow_shared again : Bool) (peer : Peer) (woken : Guarded × Option ℕ) (dial : Dial)
    (now later : ℕ) (g : Guarded)
    → g.locked ≡ false
    → woken.0.locked ≡ false
    → let pending = get_pending_error now g in
      let r = acquire_connection_call allow_shared peer woken dial now g in
      (r.0.locked ≡ pending)
      × ((if pending then r.1 else erred) ≡ erred)
      × ((if pending then (acquire_connection_call again peer woken dial later r.0).1 else blocked)
          ≡ blocked)
      × ((if pending then (acquire_new_connection again peer woken dial later r.0).1 else blocked)
          ≡ blocked)
      × ((acquire_new_connection allow_shared peer woken dial now g).1
          ≡ (if pending then erred else fatal))
unfolding acquire_connection_call acquire_new_connection
acquire_connection_call-locked allow_shared again peer woken dial now later g free woken_free =
    elim (Bool-cases (get_pending_error now g)) [
      | inl e ↦ rw (free, e) (refl, refl, refl, refl, refl)
      | inr e ↦
          rw (free, e)
            (
              after_acquire-locked allow_shared peer woken
                  (acquire_connection false allow_shared false dial peer now g.session)
                  (record g { locked = true }) woken_free,
              refl,
              refl,
              refl,
              unlock_twice
                  (after_acquire allow_shared peer woken
                    (acquire_connection true allow_shared false dial peer now g.session)
                    (record g { locked = true }))
                  (after_acquire-locked allow_shared peer woken
                    (acquire_connection true allow_shared false dial peer now g.session)
                    (record g { locked = true }) woken_free),
            )
    ]

after_get-failed :
    (allow_shared : Bool) (peer : Peer) (now : ℕ) (r : Pool × Got) (s : Session)
    → r.1 ≡ failed
    → after_get allow_shared peer now r s ≡ (
      record s {
        pool = r.0;
        last_connection_error = some (record { permanent = peer.permanent_failure; time = now });
      },
      error,
    )
after_get-failed allow_shared peer now (p, failed) s e = refl
after_get-failed allow_shared peer now (p, conn c new) s e = absurd (ground (arith, e))
after_get-failed allow_shared peer now (p, full) s e = absurd (ground (arith, e))

still_pending :
    (permanent : Bool) (time now timeout : ℕ)
    → (permanent ≡ true) ⊎ (now ≤ time + timeout)
    → is_pending now timeout (some (record { permanent = permanent; time = time })) ≡ true
still_pending true time now timeout h = refl
still_pending false time now timeout h = ground (arith, h)

behind_pending :
    (allow_shared again : Bool) (peer : Peer) (woken : Guarded × Option ℕ) (dial : Dial)
    (now later : ℕ) (g : Guarded)
    → g.locked ≡ false
    → get_pending_error now g ≡ true
    → let r = acquire_connection_call allow_shared peer woken dial now g in
      (r.1 ≡ erred)
      × (r.0.session ≡ g.session)
      × ((acquire_connection_call again peer woken dial later r.0).1 ≡ blocked)
unfolding acquire_connection_call
behind_pending allow_shared again peer woken dial now later g free pending =
    rw (free, pending) (refl, refl, refl)

-- A call of AcquireConnection on a session with a free mutex and no pending error, for which the pool can make no
-- connection, fails, keeps its failure with its time and frees the mutex. Until the timeout after it, and for ever if
-- the failure is permanent, the next call fails although the pool was not asked, and every call after that blocks.
pub acquire_connection_call-failed :
    (allow_shared next_shared again : Bool) (peer : Peer) (woken : Guarded × Option ℕ)
    (dial next : Dial) (now later last : ℕ) (g : Guarded)
    → g.locked ≡ false
    → get_pending_error now g ≡ false
    → (get false false dial now g.session.pool).1 ≡ failed
    → (peer.permanent_failure ≡ true) ⊎ (later ≤ now + g.connection_creation_timeout)
    → let first = acquire_connection_call allow_shared peer woken dial now g in
      let second = acquire_connection_call next_shared peer woken next later first.0 in
      let third = acquire_connection_call again peer woken next last second.0 in
      (first.1 ≡ erred)
      × (first.0.locked ≡ false)
      × (first.0.session.last_connection_error
          ≡ some (record { permanent = peer.permanent_failure; time = now }))
      × (second.1 ≡ erred)
      × (second.0.session ≡ first.0.session)
      × (third.1 ≡ blocked)
unfolding acquire_connection_call acquire_connection get_pending_error
acquire_connection_call-failed allow_shared next_shared again peer woken dial next now later last g
      free none_pending failing soon =
    let kept : Failure = record { permanent = peer.permanent_failure; time = now } in
    let r = get false false dial now g.session.pool in
    let s = record g.session { pool = r.0; last_connection_error = some kept } in
    let h = record g { session = s; locked = false } in
    let e : acquire_connection_call allow_shared peer woken dial now g ≡ (h, erred) =
      rw (free, none_pending)
        (ap (λ t. after_acquire allow_shared peer woken t (record g { locked = true }))
          (after_get-failed allow_shared peer now r g.session failing)) in
    let b =
      behind_pending next_shared again peer woken next later last h refl
        (still_pending peer.permanent_failure now later g.connection_creation_timeout soon) in
    rw e (refl, refl, refl, b.0, b.1, b.2)
