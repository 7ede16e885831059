-- ===== src/Session/Pool/Gauge.antt =====
-- The metric of occupied connections.
use go_irodsclient.Base.{
  ℕ, ◌+◌, ◌≡◌, refl, Bool, true, false, List, [], ◌∷◌, Option, none, some, ltb, leb, if◌then◌else◌,
  length, contains, without, Bool-cases, inl, inr, arith,
}
use go_irodsclient.Session.Pool.{
  Pool, Metrics, Dial, not_created, not_connected, dialed, max_real, get, get_idle, create,
  take_new, drop_front, discard_back, pop_back, trim, put_back, return_conn, discard, is_connected,
  occupy, call_callbacks, release_occupied, disconnect, count_occupied, count_released,
  count_failure,
}
use go_irodsclient.Session.Pool.Lifecycle.{
  clear_connections, release, reap, is_expired, add_usage_callback, remove_usage_callback,
}
use go_irodsclient.Session.Pool.Steps.{
  Call, gets, gives_back, discards, releases, ticks, adds, removes, step, run,
}
use go_irodsclient.Session.Pool.Counting.{count, contains-count, length-without, length-occupy}
use go_irodsclient.Session.Pool.Moves.{Inv, Shrinks-Inv}
use go_irodsclient.Session.Pool.Invariant.{discard_back-Shrinks, drop_front-Shrinks, back_counts}
use go_irodsclient.Session.Pool.Reachable.{step-Inv}

abbrev Shows : Option Metrics → ℕ → Type 0
Shows none n = Unit
Shows (some m) n = m.connections_occupied ≡ n

-- The metric, where one is kept, shows the number of occupied connections.
abbrev pub Gauged : Pool → Type 0
Gauged p = Shows p.metrics (length p.occupied)

count_occupied-Shows :
    (m : Option Metrics) (c : ℕ) (occupied : List ℕ)
    → count c occupied ≡ 0
    → Shows m (length occupied)
    → Shows (count_occupied m) (length (occupy c occupied))
count_occupied-Shows none c occupied e h = tt
count_occupied-Shows (some m) c occupied e h = omega (arith, h, length-occupy c occupied e)

count_released-Shows :
    (m : Option Metrics) (c : ℕ) (occupied : List ℕ)
    → count c occupied ≡ 1
    → Shows m (length occupied)
    → Shows (count_released m) (length (without c occupied))
count_released-Shows none c occupied e h = tt
count_released-Shows (some m) c occupied e h = omega (arith, h, e, length-without c occupied)

count_failure-Shows : (m : Option Metrics) (n : ℕ) → Shows m n → Shows (count_failure m) n
count_failure-Shows none n h = tt
count_failure-Shows (some m) n h = h

take_new-Gauged : (up : Bool) (now : ℕ) (p : Pool) → Inv p → Gauged p → Gauged (take_new up now p).0
take_new-Gauged up now p v h =
    count_occupied-Shows p.metrics p.next_id p.occupied
      (omega (arith, v.fresh p.next_id (omega arith))) h

create-Gauged :
    (no_connect : Bool) (dial : Dial) (now : ℕ) (p : Pool)
    → Inv p
    → Gauged p
    → Gauged (create no_connect dial now p).0
unfolding create
create-Gauged no_connect not_created now p v h = count_failure-Shows p.metrics _ h
create-Gauged no_connect dialed now p v h =
    take_new-Gauged (if no_connect then false else true) now p v h
create-Gauged true (not_connected e) now p v h = take_new-Gauged false now p v h
create-Gauged false (not_connected true) now p v h = count_failure-Shows p.metrics _ h
create-Gauged false (not_connected false) now p v h = count_failure-Shows p.metrics _ h

drop_front-Gauged : (c : ℕ) (rest : List ℕ) (p : Pool) → Gauged p → Gauged (drop_front c rest p)
drop_front-Gauged c rest p h = elim (Bool-cases (is_connected (record p { idle = rest }) c)) [
  | inl e ↦ simp e h
  | inr e ↦ simp e h
]

get_idle-Gauged :
    (new no_connect : Bool) (dial : Dial) (now : ℕ) (idle : List ℕ) (p : Pool)
    → p.idle ≡ idle
    → Inv p
    → Gauged p
    → Gauged (get_idle new no_connect dial now idle p).0
unfolding get_idle
get_idle-Gauged new no_connect dial now [] p e v h = create-Gauged no_connect dial now p v h
get_idle-Gauged true no_connect dial now (c ∷ rest) p e v h =
    create-Gauged no_connect dial now (drop_front c rest p)
      (Shrinks-Inv (drop_front-Shrinks c rest p e) v) (drop_front-Gauged c rest p h)
get_idle-Gauged false no_connect dial now (c ∷ cs) p e v h =
    let last = (pop_back c cs).1 in
    let one : count last (last ∷ []) ≡ 1 = ground arith in
    elim (Bool-cases (is_connected p last)) [
      | inl up ↦ simp up (
          count_occupied-Shows p.metrics last p.occupied
            (omega (arith, v.unique last, back_counts c cs p e last, one)) h)
      | inr down ↦ simp down (
          create-Gauged no_connect dial now (discard_back (pop_back c cs).0 p)
            (Shrinks-Inv (discard_back-Shrinks c cs p e) v) h)
    ]

get-Gauged :
    (new no_connect : Bool) (dial : Dial) (now : ℕ) (p : Pool)
    → Inv p
    → Gauged p
    → Gauged (get new no_connect dial now p).0
unfolding get
get-Gauged new no_connect dial now p v h =
    elim (Bool-cases (leb (max_real p) (length p.occupied))) [
      | inl e ↦ simp e h
      | inr e ↦ simp e (get_idle-Gauged new no_connect dial now p.idle p refl v h)
    ]

trim-Gauged : (idle : List ℕ) (p : Pool) → Gauged p → Gauged (trim idle p)
unfolding trim
trim-Gauged [] p h = h
trim-Gauged (c ∷ rest) p h = elim (Bool-cases (ltb p.config.max_idle (length (c ∷ rest)))) [
  | inl t ↦ simp t (trim-Gauged rest (disconnect c (call_callbacks (record p { idle = rest }))) h)
  | inr t ↦ simp t h
]

release_occupied-Gauged :
    (c : ℕ) (p : Pool)
    → contains c p.occupied ≡ true
    → Inv p
    → Gauged p
    → Gauged (release_occupied c p)
release_occupied-Gauged c p e v h =
    count_released-Shows p.metrics c p.occupied
      (ground (arith, contains-count c p.occupied, v.unique c)) h

put_back-Gauged : (c now : ℕ) (p : Pool) → Gauged p → Gauged (put_back c now p)
put_back-Gauged c now p h = elim (Bool-cases (is_connected p c)) [
  | inr e ↦ simp e h
  | inl e ↦ elim (Bool-cases (ltb ((p.store c).created + p.config.lifespan) now)) [
    | inl f ↦ simp (e, f) h
    | inr f ↦ simp (e, f) (trim-Gauged _ _ h)
  ]
]

return_conn-Gauged : (c now : ℕ) (p : Pool) → Inv p → Gauged p → Gauged (return_conn c now p).0
unfolding return_conn
return_conn-Gauged c now p v h = elim (Bool-cases (contains c p.occupied)) [
  | inl e ↦
      simp e (put_back-Gauged c now (release_occupied c p) (release_occupied-Gauged c p e v h))
  | inr e ↦ simp e h
]

discard-Gauged :
    (c : ℕ) (p : Pool) → contains c p.occupied ≡ true → Inv p → Gauged p → Gauged (discard c p)
unfolding discard
discard-Gauged c p e v h = elim (Bool-cases (is_connected (release_occupied c p) c)) [
  | inl t ↦ simp t (release_occupied-Gauged c p e v h)
  | inr t ↦ simp t (release_occupied-Gauged c p e v h)
]

reap-Gauged : (now : ℕ) (idle : List ℕ) (p : Pool) → Gauged p → Gauged (reap now idle p)
unfolding reap
reap-Gauged now [] p h = h
reap-Gauged now (c ∷ rest) p h = elim (Bool-cases (is_expired now p c)) [
  | inl t ↦
      simp t (reap-Gauged now rest (call_callbacks (disconnect c (record p { idle = rest }))) h)
  | inr t ↦ simp t h
]

clear_connections-Shows : (m : Option Metrics) → Shows (clear_connections m) 0
clear_connections-Shows none = tt
clear_connections-Shows (some m) = refl

release-Gauged : (p : Pool) → Gauged p → Gauged (release p)
unfolding release
release-Gauged p h = elim (Bool-cases p.terminated) [
  | inl t ↦ simp t h
  | inr t ↦ simp t (clear_connections-Shows _)
]

-- A caller discards only connections that it holds.
abbrev pub Proper : Call → Pool → Type 0
Proper (gets new no_connect dial now) p = Unit
Proper (gives_back c now) p = Unit
Proper (discards c) p = contains c p.occupied ≡ true
Proper releases p = Unit
Proper (ticks now) p = Unit
Proper (adds id) p = Unit
Proper (removes id) p = Unit

abbrev pub AllProper : List Call → Pool → Type 0
AllProper [] p = Unit
AllProper (call ∷ calls) p = Proper call p × AllProper calls (step call p)

step-Gauged : (call : Call) (p : Pool) → Proper call p → Inv p → Gauged p → Gauged (step call p)
unfolding step add_usage_callback remove_usage_callback
step-Gauged (gets new no_connect dial now) p ok v h = get-Gauged new no_connect dial now p v h
step-Gauged (gives_back c now) p ok v h = return_conn-Gauged c now p v h
step-Gauged (discards c) p ok v h = discard-Gauged c p ok v h
step-Gauged releases p ok v h = release-Gauged p h
step-Gauged (ticks now) p ok v h = reap-Gauged now p.idle p h
step-Gauged (adds id) p ok v h = h
step-Gauged (removes id) p ok v h = h

-- Where callers discard only connections that are occupied, the metric of occupied connections stays equal
-- to their number, whatever calls are made on the pool.
pub run-Gauged :
    (calls : List Call) (p : Pool) → AllProper calls p → Inv p → Gauged p → Gauged (run calls p)
unfolding run
run-Gauged [] p ok v h = h
run-Gauged (call ∷ calls) p (ok, more) v h =
    run-Gauged calls (step call p) more (step-Inv call p v) (step-Gauged call p ok v h)
