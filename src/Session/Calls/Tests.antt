-- ===== src/Session/Calls/Tests.antt =====
-- Calls on a session behind a pending error.
use go_irodsclient.Base.{
  ℕ, ◌≡◌, refl, true, false, inr, arith, [], Option, none, some, if◌then◌else◌,
}
use go_irodsclient.Session.Pool.{fresh_conn, dialed, not_created, get}
use go_irodsclient.Session.Sharing.{Peer, Session}
use go_irodsclient.Session.Calls.{
  Guarded, got, erred, blocked, fatal, get_pending_error, acquire_connection_call,
  acquire_new_connection,
}
use go_irodsclient.Session.Calls.Locking.{
  acquire_connection_call-locked, acquire_connection_call-failed,
}

abbrev idle : Session
idle = record {
  pool = record {
    config = record {
      initial_cap = 0;
      max_idle = 2;
      max_cap = 3;
      lifespan = 100;
      idle_timeout = 10;
    };
    idle = [];
    occupied = [];
    max_connections_real = 0;
    callbacks = [];
    metrics = none;
    terminated = false;
    broadcasts = 0;
    next_id = 9;
    store = λ c. fresh_conn 0 true;
  };
  shared_connections = [];
  last_connection_error = none;
  support_parallel_upload = false;
  support_parallel_upload_set = false;
  start_new_transaction = true;
  commit_fail = false;
  poormans_rollback_fail = false;
}

abbrev peer : Peer
peer = record { permanent_failure = false; parallel = true }

-- A transient failure at the time 10, which stands until the time 30.
abbrev failing : Guarded
failing = record {
  session = record idle { last_connection_error = some (record { permanent = false; time = 10 }) };
  locked = false;
  connection_creation_timeout = 20;
  wait_connection = true;
}

acquire_connection_call-locked_example :
    let woken : Guarded × Option ℕ = (failing, none) in
    let pending = get_pending_error 25 failing in
    let r = acquire_connection_call false peer woken dialed 25 failing in
    (r.0.locked ≡ pending)
    × ((if pending then r.1 else erred) ≡ erred)
    × ((if pending then (acquire_connection_call true peer woken dialed 50 r.0).1 else blocked)
        ≡ blocked)
    × ((if pending then (acquire_new_connection true peer woken dialed 50 r.0).1 else blocked)
        ≡ blocked)
    × ((acquire_new_connection false peer woken dialed 25 failing).1
        ≡ (if pending then erred else fatal))
acquire_connection_call-locked_example =
    acquire_connection_call-locked false true peer (failing, none) dialed 25 50 failing refl refl

-- Behind the error, the session blocks even when the error would no longer stand; without it, AcquireConnection
-- gives a connection, and AcquireNewConnection ends the program.
calls :
    ((acquire_connection_call false peer (failing, none) dialed 31 failing).1 ≡ got 9)
    × ((acquire_new_connection false peer (failing, none) dialed 31 failing).1 ≡ fatal)
    × ((acquire_connection_call false peer
          (failing, none)
          dialed
          31
          (acquire_connection_call false peer (failing, none) dialed 25 failing).0).1
        ≡ blocked)
unfolding acquire_connection_call acquire_new_connection
calls = (refl, refl, refl)

-- Without the failure. Below, a call cannot connect at the time 50.
abbrev without_error : Guarded
without_error = record failing { session = idle }

acquire_connection_call-failed_example :
    let woken : Guarded × Option ℕ = (failing, none) in
    let first = acquire_connection_call false peer woken not_created 50 without_error in
    let second = acquire_connection_call true peer woken dialed 60 first.0 in
    let third = acquire_connection_call false peer woken dialed 100 second.0 in
    (first.1 ≡ erred)
    × (first.0.locked ≡ false)
    × (first.0.session.last_connection_error ≡ some (record { permanent = false; time = 50 }))
    × (second.1 ≡ erred)
    × (second.0.session ≡ first.0.session)
    × (third.1 ≡ blocked)
unfolding get_pending_error get
acquire_connection_call-failed_example =
    acquire_connection_call-failed false true false peer (failing, none) not_created dialed 50 60
      100 without_error refl refl refl (inr (omega arith))
