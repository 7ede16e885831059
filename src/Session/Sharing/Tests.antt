-- ===== src/Session/Sharing/Tests.antt =====
-- Runs of the sharing of connections.
use go_irodsclient.Base.{
  ℕ, ◌-◌, ◌≤◌, ◌<◌, ◌≡◌, refl, true, false, [], ◌∷◌, none, some, contains, ◌⊎◌, arith,
}
use go_irodsclient.Base.Maps.{lookup, insert}
use go_irodsclient.Session.Pool.{fresh_conn, dialed}
use go_irodsclient.Session.Sharing.{
  Peer, Session, Given, share_in_use, find_min_share, return_connection, acquire_connection,
}
use go_irodsclient.Session.Sharing.Counts.{SharesLeast, share_in_use-SharesLeast}
use go_irodsclient.Session.Sharing.Acquire.{Answers, acquire_connection-Answers}
use go_irodsclient.Session.Sharing.Return.{return_connection-shared}

abbrev busy : Session
busy = record {
  pool = record {
    config = record {
      initial_cap = 0;
      max_idle = 2;
      max_cap = 3;
      lifespan = 100;
      idle_timeout = 10;
    };
    idle = [];
    occupied = 7 ∷ 8 ∷ [];
    max_connections_real = 0;
    callbacks = [];
    metrics = none;
    terminated = false;
    broadcasts = 0;
    next_id = 9;
    store = λ c. fresh_conn 0 true;
  };
  shared_connections = (7, 3) ∷ (8, 2) ∷ [];
  last_connection_error = none;
  support_parallel_upload = false;
  support_parallel_upload_set = false;
  start_new_transaction = true;
  commit_fail = false;
  poormans_rollback_fail = false;
}

least_runs : share_in_use ((7, 3) ∷ (8, 2) ∷ []) ≡ some ((7, 3) ∷ (8, 3) ∷ [], 8)
unfolding share_in_use find_min_share insert
least_runs = refl

share_in_use-SharesLeast_example :
    SharesLeast ((7, 3) ∷ (8, 2) ∷ []) (share_in_use ((7, 3) ∷ (8, 2) ∷ []))
share_in_use-SharesLeast_example =
    share_in_use-SharesLeast ((7, 3) ∷ (8, 2) ∷ []) (omega arith, (omega arith, tt))

counts_positive : (n : ℕ) → lookup 8 ((7, 3) ∷ (8, 2) ∷ []) ≡ some n → 0 < n
unfolding lookup
counts_positive n e = ground (arith, e)

abbrev given : Given
given = record { conn = 8; socket_failed = false; transaction_dirty = true }

abbrev after : Session
after = (return_connection given false true 5 busy).0

return_connection-shared_example :
    ((2 ≤ 1)
      × (lookup 8 after.shared_connections ≡ none)
      × (contains 8 after.pool.occupied ≡ false))
    ⊎ ((1 < 2) × (lookup 8 after.shared_connections ≡ some (2 - 1)) × (after.pool ≡ busy.pool))
unfolding lookup
return_connection-shared_example = return_connection-shared given false true 5 2 busy refl

abbrev peer : Peer
peer = record { permanent_failure = false; parallel = true }

acquire_connection-Answers_example :
    Answers true dialed peer 5 busy (acquire_connection false true false dialed peer 5 busy)
unfolding lookup
acquire_connection-Answers_example =
    acquire_connection-Answers false true false dialed peer 5 busy (omega arith, (omega arith, tt))
      (refl, (refl, tt))

-- The new connection has one share, and what it supports is known.
acquires :
    let t = (acquire_connection false true false dialed peer 5 busy).0 in
    (t.shared_connections ≡ (7, 3) ∷ (8, 2) ∷ (9, 1) ∷ []) × (t.support_parallel_upload ≡ true)
unfolding acquire_connection insert lookup
acquires = (refl, refl)
