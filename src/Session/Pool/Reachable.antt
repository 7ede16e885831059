-- ===== src/Session/Pool/Reachable.antt =====
-- The pools that a program can reach, from NewConnectionPool on.
use go_irodsclient.Base.{
  ℕ, ◌+◌, ◌-◌, ◌≤◌, ◌<◌, refl, true, List, [], ◌∷◌, ◌++◌, arith, ◌==◌, Option, length,
  length-append, Bool-cases, inl, inr,
}
use go_irodsclient.Session.Pool.{
  Config, Metrics, Pool, Dial, not_created, not_connected, dialed, call_callbacks, fresh_conn,
  update,
}
use go_irodsclient.Session.Pool.Lifecycle.{
  init_from, init, new_pool, add_usage_callback, remove_usage_callback,
}
use go_irodsclient.Session.Pool.Steps.{
  Call, gets, gives_back, discards, releases, ticks, adds, removes, step, run,
}
use go_irodsclient.Session.Pool.Counting.{count-append}
use go_irodsclient.Session.Pool.Moves.{
  Inv, Shrinks-Inv, return_conn-Shrinks, discard-Shrinks, release-Shrinks, reap-Shrinks,
}
use go_irodsclient.Session.Pool.Invariant.{get-Inv}

pub step-Inv : (call : Call) (p : Pool) → Inv p → Inv (step call p)
unfolding step add_usage_callback remove_usage_callback
step-Inv (gets new no_connect dial now) p v = get-Inv new no_connect dial now p v
step-Inv (gives_back c now) p v = Shrinks-Inv (return_conn-Shrinks c now p) v
step-Inv (discards c) p v = Shrinks-Inv (discard-Shrinks c p) v
step-Inv releases p v = Shrinks-Inv (release-Shrinks p) v
step-Inv (ticks now) p v = Shrinks-Inv (reap-Shrinks now p.idle p refl) v
step-Inv (adds id) p v = record { unique = v.unique; fresh = v.fresh; bounded = v.bounded }
step-Inv (removes id) p v = record { unique = v.unique; fresh = v.fresh; bounded = v.bounded }

pub run-Inv : (calls : List Call) (p : Pool) → Inv p → Inv (run calls p)
unfolding run
run-Inv [] p v = v
run-Inv (call ∷ calls) p v = run-Inv calls (step call p) (step-Inv call p v)

abbrev opened : ℕ → Pool → Pool
opened now p = call_callbacks (record p {
  idle = p.idle ++ p.next_id ∷ [];
  next_id = p.next_id + 1;
  store = update p.store p.next_id (fresh_conn now true);
})

opened-Inv :
    (now : ℕ) (p : Pool)
    → Inv p
    → length p.idle + length p.occupied < p.config.max_cap
    → Inv (opened now p)
opened-Inv now p v h = record {
  unique = λ x. ground (arith, count-append x p.idle (p.next_id ∷ []), v.unique x, v.fresh x);
  fresh = λ x k. ground (arith, count-append x p.idle (p.next_id ∷ []), v.fresh x);
  bounded = omega (arith, length-append p.idle (p.next_id ∷ []));
}

init_from-Inv :
    (i now left : ℕ) (dials : List Dial) (p : Pool)
    → Inv p
    → length p.idle + length p.occupied + left ≤ p.config.max_cap
    → Inv (init_from i now left dials p).0
unfolding init_from
init_from-Inv i now left [] p v h = v
init_from-Inv i now left (not_created ∷ dials) p v h = record {
  unique = v.unique;
  fresh = v.fresh;
  bounded = v.bounded;
}
init_from-Inv i now left (not_connected e ∷ dials) p v h = record {
  unique = v.unique;
  fresh = v.fresh;
  bounded = v.bounded;
}
init_from-Inv i now left (dialed ∷ dials) p v h = elim (Bool-cases (left == 0)) [
  | inl e ↦ rw e v
  | inr e ↦ rw e (
      init_from-Inv (i + 1) now (left - 1) dials (opened now p) (opened-Inv now p v (ground arith))
        (ground (arith, length-append p.idle (p.next_id ∷ []))))
]

-- Whatever calls follow NewConnectionPool, whose configuration has no more initial than possible
-- connections: no connection is idle and occupied at once or twice in a list, the identifiers not given yet
-- are nowhere, and idle and occupied connections together are at most MaxCap.
pub reachable-Inv :
    (config : Config) (metrics : Option Metrics) (now : ℕ) (dials : List Dial) (calls : List Call)
    → config.initial_cap ≤ config.max_cap
    → Inv (run calls (init now dials (new_pool config metrics)).0)
unfolding init new_pool
reachable-Inv config metrics now dials calls h =
    run-Inv calls (init now dials (new_pool config metrics)).0 (
      init_from-Inv 0 now config.initial_cap dials (call_callbacks (new_pool config metrics))
        (record { unique = λ x. omega arith; fresh = λ x k. refl; bounded = omega arith })
        (omega arith))
