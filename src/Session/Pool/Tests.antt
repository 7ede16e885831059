-- ===== src/Session/Pool/Tests.antt =====
-- Runs of the pool.
use go_irodsclient.Base.{◌≡◌, refl, true, false, List, [], ◌∷◌, Option, some, arith}
use go_irodsclient.Session.Pool.{
  Config, Metrics, Pool, dialed, not_connected, conn, get, fresh_conn,
}
use go_irodsclient.Session.Pool.Lifecycle.{init, new_pool}
use go_irodsclient.Session.Pool.Steps.{Call, gets, gives_back, discards, ticks, adds, step, run}
use go_irodsclient.Session.Pool.Moves.{Inv}
use go_irodsclient.Session.Pool.Reachable.{reachable-Inv}
use go_irodsclient.Session.Pool.Callbacks.{Told, run-Told}
use go_irodsclient.Session.Pool.Gauge.{Gauged, run-Gauged}
use go_irodsclient.Session.Pool.Service.{Served, step-Served}
use go_irodsclient.Session.Pool.Handing.{Handed, get-Handed}

abbrev small : Config
small = record { initial_cap = 1; max_idle = 1; max_cap = 2; lifespan = 100; idle_timeout = 10 }

abbrev quiet : Option Metrics
quiet = some (record { connections_occupied = 0; pool_failures = 0 })

-- Both connections are taken, one is given back, one is discarded.
abbrev busy : List Call
busy =
    adds 4
    ∷ gets false false dialed 1
    ∷ gets false false dialed 2
    ∷ gives_back 0 3
    ∷ discards 1
    ∷ ticks 50
    ∷ []

abbrev two_idle : Pool
two_idle = record {
  config = small;
  idle = 0 ∷ 1 ∷ [];
  occupied = [];
  max_connections_real = 0;
  callbacks = [];
  metrics = quiet;
  terminated = false;
  broadcasts = 0;
  next_id = 2;
  store = λ c. fresh_conn 0 true;
}

-- The last of two idle connections is reused.
reuse_runs : (get false false dialed 5 two_idle).1 ≡ conn 1 false
unfolding get
reuse_runs = refl

busy_runs : (run busy (init 0 (dialed ∷ []) (new_pool small quiet)).0).idle ≡ []
unfolding run init new_pool
busy_runs = refl

reachable-Inv_example : Inv (run busy (init 0 (dialed ∷ []) (new_pool small quiet)).0)
reachable-Inv_example = reachable-Inv small quiet 0 (dialed ∷ []) busy (omega arith)

run-Told_example : Told (run busy two_idle)
run-Told_example = run-Told busy two_idle tt

run-Gauged_example : Gauged (run busy (new_pool small quiet))
unfolding step new_pool
run-Gauged_example =
    run-Gauged busy (new_pool small quiet) (tt, (tt, (tt, (tt, (refl, (tt, tt))))))
      (record { unique = λ x. omega arith; fresh = λ x k. refl; bounded = omega arith }) refl

step-Served_example : Served two_idle (step (gives_back 0 3) two_idle)
step-Served_example = step-Served (gives_back 0 3) two_idle

get-Handed_example :
    Handed false false
      (not_connected true)
      two_idle
      (get false false (not_connected true) 5 two_idle)
get-Handed_example = get-Handed false false (not_connected true) 5 two_idle
