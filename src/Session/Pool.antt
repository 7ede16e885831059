-- ===== src/Session/Pool.antt =====
-- irods/session/pool.go: the pool of connections. Each operation runs under the pool's mutex, so it is a
-- function of the state; the time and what the network answers are arguments. Connections are
-- identifiers with their fields in a store, a new one gets the identifier `next_id`.
pub mod Lifecycle
pub mod Steps
pub mod Counting
pub mod Moves
pub mod Invariant
pub mod Reachable
pub mod Callbacks
pub mod Gauge
pub mod Service
pub mod Handing
mod Tests
use go_irodsclient.Base.{
  ℕ, ◌+◌, ◌-◌, Bool, true, false, List, [], ◌∷◌, ◌++◌, Option, none, some, ltb, leb, ◌==◌,
  if◌then◌else◌, length, contains, without,
}

-- The fields of ConnectionPoolConfig that the pool reads.
pub record Config : Type 0 where
  pub initial_cap : ℕ
  pub max_idle : ℕ
  pub max_cap : ℕ
  pub lifespan : ℕ
  pub idle_timeout : ℕ

-- The fields of a connection that the pool reads.
pub record ConnState : Type 0 where
  pub connected : Bool
  pub created : ℕ
  pub accessed : ℕ

-- What a usage callback is told: connections occupied, idle and possible.
pub record Usage : Type 0 where
  pub occupied : ℕ
  pub idle : ℕ
  pub max : ℕ

-- The counters of metrics.IRODSMetrics that the pool moves.
pub record Metrics : Type 0 where
  pub connections_occupied : ℕ
  pub pool_failures : ℕ

-- ConnectionPool. `idle` from front to back, `occupied` the keys of the map, `callbacks` the registered
-- callbacks, each with what it was told last, `broadcasts` the number of calls of waitCond.Broadcast.
pub record Pool : Type 0 where
  pub config : Config
  pub idle : List ℕ
  pub occupied : List ℕ
  pub max_connections_real : ℕ
  pub callbacks : List (ℕ × Usage)
  pub metrics : Option Metrics
  pub terminated : Bool
  pub broadcasts : ℕ
  pub next_id : ℕ
  pub store : ℕ → ConnState

-- What NewIRODSConnection and Connect do: the first fails, the second fails, with an error that is a
-- connection error or not, or both succeed.
pub data Dial : Type 0 where
  not_created : Dial
  not_connected : Bool → Dial
  dialed : Dial

-- A connection and whether it is new, a ConnectionPoolFullError, or another error.
pub data Got : Type 0 where
  conn : ℕ → Bool → Got
  full : Got
  failed : Got

abbrev pub max_real : Pool → ℕ
max_real p =
    if p.max_connections_real == 0
    then p.config.max_cap
    else if ltb p.max_connections_real p.config.max_cap
    then p.max_connections_real
    else p.config.max_cap

abbrev pub usage : Pool → Usage
usage p = record { occupied = length p.occupied; idle = length p.idle; max = max_real p }

abbrev pub tell : Usage → List (ℕ × Usage) → List (ℕ × Usage)
tell u [] = []
tell u ((id, _) ∷ rest) = (id, u) ∷ tell u rest

-- callCallbacks
abbrev pub call_callbacks : Pool → Pool
call_callbacks p = record p { callbacks = tell (usage p) p.callbacks }

abbrev pub count_occupied : Option Metrics → Option Metrics
count_occupied none = none
count_occupied (some m) = some (record m { connections_occupied = m.connections_occupied + 1 })

-- DecreaseConnectionsOccupied stops at 0, as `-` does.
abbrev pub count_released : Option Metrics → Option Metrics
count_released none = none
count_released (some m) = some (record m { connections_occupied = m.connections_occupied - 1 })

abbrev pub count_failure : Option Metrics → Option Metrics
count_failure none = none
count_failure (some m) = some (record m { pool_failures = m.pool_failures + 1 })

abbrev pub update : (ℕ → ConnState) → ℕ → ConnState → ℕ → ConnState
update f c s d = if c == d then s else f d

abbrev pub is_connected : Pool → ℕ → Bool
is_connected p c = (p.store c).connected

-- conn.Disconnect
abbrev pub disconnect : ℕ → Pool → Pool
disconnect c p = record p { store = update p.store c (record (p.store c) { connected = false }) }

abbrev pub broadcast : Pool → Pool
broadcast p = record p { broadcasts = p.broadcasts + 1 }

-- `occupiedConnections[conn] = true`
abbrev pub occupy : ℕ → List ℕ → List ℕ
occupy c cs = if contains c cs then cs else c ∷ cs

-- list.Back and its removal: what stands before it, and the last element.
unfoldable pub pop_back : ℕ → List ℕ → List ℕ × ℕ
pop_back x [] = ([], x)
pop_back x (y ∷ ys) = let (rest, last) = pop_back y ys in (x ∷ rest, last)

abbrev pub fresh_conn : ℕ → Bool → ConnState
fresh_conn now up = record { connected = up; created = now; accessed = now }

abbrev pub take_new : Bool → ℕ → Pool → Pool × Got
take_new up now p =
    let c = p.next_id in
    let q = call_callbacks (record p {
      occupied = occupy c p.occupied;
      next_id = c + 1;
      store = update p.store c (fresh_conn now up);
    }) in
    (record q { metrics = count_occupied q.metrics }, conn c true)

-- The failed Connect: a connection error lowers the number of possible connections.
abbrev pub rejected : Pool → Pool × Got
rejected p =
    let q =
      call_callbacks (record p { max_connections_real = length p.occupied + length p.idle }) in
    (q, if ltb 0 q.max_connections_real then full else failed)

-- The part of `get` behind "create a new if not exists".
unfoldable pub create : Bool → Dial → ℕ → Pool → Pool × Got
create no_connect not_created now p = (record p { metrics = count_failure p.metrics }, failed)
create no_connect dialed now p = take_new (if no_connect then false else true) now p
create no_connect (not_connected is_connection_error) now p =
    if no_connect
    then take_new false now p
    else if is_connection_error
    then rejected (record p { metrics = count_failure p.metrics })
    else (record p { metrics = count_failure p.metrics }, failed)

-- "close an idle connection and create a new one"
abbrev pub drop_front : ℕ → List ℕ → Pool → Pool
drop_front c rest p =
    let q = record p { idle = rest } in
    call_callbacks (if is_connected q c then disconnect c q else q)

-- "reuse", from the back
abbrev pub reuse : ℕ → List ℕ → Pool → Pool × Got
reuse c rest p =
    let q = call_callbacks (record p { idle = rest; occupied = occupy c p.occupied }) in
    (record q { metrics = count_occupied q.metrics }, conn c false)

abbrev pub discard_back : List ℕ → Pool → Pool
discard_back rest p = call_callbacks (record p { idle = rest })

unfoldable pub get_idle : Bool → Bool → Dial → ℕ → List ℕ → Pool → Pool × Got
unfolding create pop_back
get_idle new no_connect dial now [] p = create no_connect dial now p
get_idle true no_connect dial now (c ∷ rest) p = create no_connect dial now (drop_front c rest p)
get_idle false no_connect dial now (c ∷ cs) p =
    let (rest, last) = pop_back c cs in
    if is_connected p last
    then reuse last rest p
    else create no_connect dial now (discard_back rest p)

-- `get`
unfoldable pub get : Bool → Bool → Dial → ℕ → Pool → Pool × Got
unfolding get_idle
get new no_connect dial now p =
    if leb (max_real p) (length p.occupied)
    then (p, full)
    else get_idle new no_connect dial now p.idle p

pub data Outcome : Type 0 where
  returns : Got → Outcome
  waits : Outcome

abbrev pub wait_if_full : Bool → Got → Outcome
wait_if_full wait full = if wait then waits else returns full
wait_if_full wait g = returns g

-- One round of the loop of `Get`: the call returns, or parks on the condition until a broadcast.
unfoldable pub get_round : Bool → Bool → Bool → Dial → ℕ → Pool → Pool × Outcome
unfolding get
get_round new no_connect wait dial now p =
    let (q, g) = get new no_connect dial now p in (q, wait_if_full wait g)

-- The loop of `Return` over the front, for as long as there are too many idle connections.
unfoldable pub trim : List ℕ → Pool → Pool
trim [] p = p
trim (c ∷ rest) p =
    let more = trim rest (disconnect c (call_callbacks (record p { idle = rest }))) in
    if ltb p.config.max_idle (length (c ∷ rest)) then more else p

abbrev pub put_back : ℕ → ℕ → Pool → Pool
put_back c now p =
    if is_connected p c
    then (if ltb ((p.store c).created + p.config.lifespan) now
        then broadcast (disconnect c p)
        else (let q = call_callbacks (record p { idle = p.idle ++ c ∷ [] }) in
            broadcast (trim q.idle q)))
    else broadcast p

abbrev pub release_occupied : ℕ → Pool → Pool
release_occupied c p =
    let q = call_callbacks (record p { occupied = without c p.occupied }) in
    record q { metrics = count_released q.metrics }

-- `Return`; the result says whether it returns nil.
unfoldable pub return_conn : ℕ → ℕ → Pool → Pool × Bool
unfolding trim
return_conn c now p =
    if contains c p.occupied then (put_back c now (release_occupied c p), true) else (p, false)

-- `Discard`
unfoldable pub discard : ℕ → Pool → Pool
discard c p =
    let q = release_occupied c p in broadcast (if is_connected q c then disconnect c q else q)
