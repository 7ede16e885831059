-- ===== src/Session/Pool/Lifecycle.antt =====
-- irods/session/pool.go: Release, the goroutine that closes expired idle connections, init, and the
-- registration of usage callbacks.
use go_irodsclient.Base.{
  ℕ, ◌+◌, ◌-◌, Bool, true, false, List, [], ◌∷◌, ◌++◌, Option, none, some, ltb, ◌==◌, if◌then◌else◌,
}
use go_irodsclient.Session.Pool.{
  Config, Pool, Metrics, Usage, Dial, not_created, not_connected, dialed, usage, call_callbacks,
  count_failure, update, disconnect, broadcast, fresh_conn,
}

-- The loops of `Release` over the idle and over the occupied connections.
unfoldable pub close_idle : List ℕ → Pool → Pool
close_idle [] p = p
close_idle (c ∷ rest) p = close_idle rest (call_callbacks (disconnect c (record p { idle = rest })))

unfoldable pub close_occupied : List ℕ → Pool → Pool
close_occupied [] p = p
close_occupied (c ∷ rest) p = close_occupied rest (disconnect c p)

abbrev pub clear_connections : Option Metrics → Option Metrics
clear_connections none = none
clear_connections (some m) = some (record m { connections_occupied = 0 })

-- `Release`
unfoldable pub release : Pool → Pool
unfolding close_idle close_occupied
release p =
    let q = close_idle p.idle (record p { terminated = true }) in
    let r = broadcast (call_callbacks (record (close_occupied q.occupied q) { occupied = [] })) in
    let s = record r { callbacks = []; metrics = clear_connections r.metrics } in
    if p.terminated then p else s

-- Whether the cleaner takes a connection: idle for too long, or too old.
abbrev pub is_expired : ℕ → Pool → ℕ → Bool
is_expired now p c =
    if ltb ((p.store c).accessed + p.config.idle_timeout) now
    then true
    else ltb ((p.store c).created + p.config.lifespan) now

-- One tick of the goroutine of NewConnectionPool, which stops at the first front that it keeps.
unfoldable pub reap : ℕ → List ℕ → Pool → Pool
reap now [] p = p
reap now (c ∷ rest) p =
    let more = reap now rest (call_callbacks (disconnect c (record p { idle = rest }))) in
    if is_expired now p c then more else p

-- The loop of `init` over the answers to its dials: whether it succeeds.
unfoldable pub init_from : ℕ → ℕ → ℕ → List Dial → Pool → Pool × Bool
init_from i now left [] p = (p, left == 0)
init_from i now left (not_created ∷ dials) p =
    (record p { metrics = count_failure p.metrics }, false)
init_from i now left (not_connected is_connection_error ∷ dials) p = (
  record p {
    metrics = count_failure p.metrics;
    max_connections_real = if is_connection_error then i else p.max_connections_real;
  },
  false,
)
init_from i now left (dialed ∷ dials) p =
    let q = record p {
      idle = p.idle ++ p.next_id ∷ [];
      next_id = p.next_id + 1;
      store = update p.store p.next_id (fresh_conn now true);
    } in
    let more = init_from (i + 1) now (left - 1) dials (call_callbacks q) in
    if left == 0 then (p, true) else more

-- AddUsageCallback, with the identifier that xid gives, and RemoveUsageCallback.
unfoldable pub add_usage_callback : ℕ → Pool → Pool
add_usage_callback id p = record p { callbacks = (id, usage p) ∷ p.callbacks }

abbrev pub forget : ℕ → List (ℕ × Usage) → List (ℕ × Usage)
forget id [] = []
forget id ((k, u) ∷ rest) = let more = forget id rest in if k == id then more else (k, u) ∷ more

unfoldable pub remove_usage_callback : ℕ → Pool → Pool
remove_usage_callback id p = record p { callbacks = forget id p.callbacks }

-- The pool that NewConnectionPool builds before `init`, and with `init`.
unfoldable pub new_pool : Config → Option Metrics → Pool
new_pool config metrics = record {
  config = config;
  idle = [];
  occupied = [];
  max_connections_real = 0;
  callbacks = [];
  metrics = metrics;
  terminated = false;
  broadcasts = 0;
  next_id = 0;
  store = λ c. fresh_conn 0 false;
}

unfoldable pub init : ℕ → List Dial → Pool → Pool × Bool
unfolding init_from
init now dials p = init_from 0 now p.config.initial_cap dials (call_callbacks p)
