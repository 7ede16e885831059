-- ===== src/Session/Pool/Service.antt =====
-- What the calls of the pool leave for the other callers: few idle connections, and a wake-up.
use go_irodsclient.Base.{
  ℕ, ◌+◌, ◌≤◌, ◌<◌, ◌≡◌, refl, Bool, true, false, List, [], ◌∷◌, ◌++◌, ltb, leb, if◌then◌else◌,
  length, contains, Bool-cases, inl, inr, arith, ap, ◌∙◌,
}
use go_irodsclient.Session.Pool.{
  Pool, Dial, not_created, not_connected, dialed, max_real, get, get_idle, create, take_new,
  drop_front, discard_back, pop_back, trim, put_back, return_conn, discard, is_connected, occupy,
  call_callbacks, release_occupied, disconnect,
}
use go_irodsclient.Session.Pool.Lifecycle.{
  release, reap, close_idle, close_occupied, is_expired, add_usage_callback, remove_usage_callback,
}
use go_irodsclient.Session.Pool.Steps.{
  Call, gets, gives_back, discards, releases, ticks, adds, removes, step,
}
use go_irodsclient.Session.Pool.Counting.{length-pop_back}

-- A call keeps the idle connections within MaxIdle, and wakes the waiting callers when it frees a
-- connection.
pub record Served (p q : Pool) : Type 0 where
  pub roomy : length p.idle ≤ p.config.max_idle → length q.idle ≤ q.config.max_idle
  pub wakes : length q.occupied < length p.occupied → p.broadcasts < q.broadcasts

-- A part of a call that frees no connection.
record Quiet (p q : Pool) : Type 0 where
  less_idle : length q.idle ≤ length p.idle
  same_idle : q.config.max_idle ≡ p.config.max_idle
  more_occupied : length p.occupied ≤ length q.occupied

Quiet-refl : (p : Pool) → Quiet p p
Quiet-refl p = record { less_idle = omega arith; same_idle = refl; more_occupied = omega arith }

Quiet-trans : {p q r : Pool} → Quiet p q → Quiet q r → Quiet p r
Quiet-trans s t = record {
  less_idle = omega (arith, s.less_idle, t.less_idle);
  same_idle = t.same_idle ∙ s.same_idle;
  more_occupied = omega (arith, s.more_occupied, t.more_occupied);
}

Quiet-Served : {p q : Pool} → Quiet p q → Served p q
Quiet-Served s = record {
  roomy = λ h. omega (arith, h, s.less_idle, s.same_idle);
  wakes = λ h. omega (arith, h, s.more_occupied);
}

length-occupy : (c : ℕ) (s : List ℕ) → length s ≤ length (occupy c s)
length-occupy c s = ground arith

take_new-Quiet : (up : Bool) (now : ℕ) (p : Pool) → Quiet p (take_new up now p).0
take_new-Quiet up now p = record {
  less_idle = omega arith;
  same_idle = refl;
  more_occupied = length-occupy p.next_id p.occupied;
}

create-Quiet :
    (no_connect : Bool) (dial : Dial) (now : ℕ) (p : Pool)
    → Quiet p (create no_connect dial now p).0
unfolding create
create-Quiet no_connect not_created now p = record {
  less_idle = omega arith;
  same_idle = refl;
  more_occupied = omega arith;
}
create-Quiet no_connect dialed now p = take_new-Quiet (if no_connect then false else true) now p
create-Quiet true (not_connected e) now p = take_new-Quiet false now p
create-Quiet false (not_connected true) now p = record {
  less_idle = omega arith;
  same_idle = refl;
  more_occupied = omega arith;
}
create-Quiet false (not_connected false) now p = record {
  less_idle = omega arith;
  same_idle = refl;
  more_occupied = omega arith;
}

drop_front-Quiet :
    (c : ℕ) (rest : List ℕ) (p : Pool) → p.idle ≡ c ∷ rest → Quiet p (drop_front c rest p)
drop_front-Quiet c rest p e = record {
  less_idle = ground (arith, ap length e);
  same_idle = ground arith;
  more_occupied = ground arith;
}

get_idle-Quiet :
    (new no_connect : Bool) (dial : Dial) (now : ℕ) (idle : List ℕ) (p : Pool)
    → p.idle ≡ idle
    → Quiet p (get_idle new no_connect dial now idle p).0
unfolding get_idle
get_idle-Quiet new no_connect dial now [] p e = create-Quiet no_connect dial now p
get_idle-Quiet true no_connect dial now (c ∷ rest) p e =
    Quiet-trans (drop_front-Quiet c rest p e)
      (create-Quiet no_connect dial now (drop_front c rest p))
get_idle-Quiet false no_connect dial now (c ∷ cs) p e =
    let shorter : length (pop_back c cs).0 ≤ length p.idle =
      omega (arith, ap length e, length-pop_back c cs) in
    elim (Bool-cases (is_connected p (pop_back c cs).1)) [
      | inl up ↦ simp up (record {
        less_idle = shorter;
        same_idle = refl;
        more_occupied = length-occupy (pop_back c cs).1 p.occupied;
      })
      | inr down ↦
          let q = discard_back (pop_back c cs).0 p in
          simp down (
            Quiet-trans {q = q}
              (record { less_idle = shorter; same_idle = refl; more_occupied = omega arith })
              (create-Quiet no_connect dial now q))
    ]

get-Quiet :
    (new no_connect : Bool) (dial : Dial) (now : ℕ) (p : Pool)
    → Quiet p (get new no_connect dial now p).0
unfolding get
get-Quiet new no_connect dial now p = elim (Bool-cases (leb (max_real p) (length p.occupied))) [
  | inl e ↦ simp e (Quiet-refl p)
  | inr e ↦ simp e (get_idle-Quiet new no_connect dial now p.idle p refl)
]

reap-Quiet : (now : ℕ) (idle : List ℕ) (p : Pool) → p.idle ≡ idle → Quiet p (reap now idle p)
unfolding reap
reap-Quiet now [] p e = Quiet-refl p
reap-Quiet now (c ∷ rest) p e =
    let q = call_callbacks (disconnect c (record p { idle = rest })) in
    elim (Bool-cases (is_expired now p c)) [
      | inl t ↦ simp t (
          Quiet-trans {q = q}
            (record {
              less_idle = omega (arith, ap length e);
              same_idle = refl;
              more_occupied = omega arith;
            })
            (reap-Quiet now rest q refl))
      | inr t ↦ simp t (Quiet-refl p)
    ]

-- After `trim` there are at most MaxIdle idle connections, however many there were.
trim-roomy :
    (idle : List ℕ) (p : Pool)
    → p.idle ≡ idle
    → length (trim idle p).idle ≤ (trim idle p).config.max_idle
unfolding trim
trim-roomy [] p e = omega (arith, ap length e)
trim-roomy (c ∷ rest) p e =
    let q = disconnect c (call_callbacks (record p { idle = rest })) in
    elim (Bool-cases (ltb p.config.max_idle (length (c ∷ rest)))) [
      | inl t ↦ simp t (trim-roomy rest q refl)
      | inr t ↦ simp t (ground (arith, ap length e))
    ]

trim-broadcasts : (idle : List ℕ) (p : Pool) → (trim idle p).broadcasts ≡ p.broadcasts
unfolding trim
trim-broadcasts [] p = refl
trim-broadcasts (c ∷ rest) p =
    let q = disconnect c (call_callbacks (record p { idle = rest })) in
    elim (Bool-cases (ltb p.config.max_idle (length (c ∷ rest)))) [
      | inl t ↦ simp t (trim-broadcasts rest q)
      | inr t ↦ simp t refl
    ]

put_back-Served :
    (c now : ℕ) (p q : Pool)
    → q.idle ≡ p.idle
    → q.config.max_idle ≡ p.config.max_idle
    → q.broadcasts ≡ p.broadcasts
    → Served p (put_back c now q)
put_back-Served c now p q e f g = elim (Bool-cases (is_connected q c)) [
  | inr t ↦
      simp t
        (record { roomy = λ h. omega (arith, h, ap length e, f); wakes = λ h. omega (arith, g) })
  | inl t ↦ elim (Bool-cases (ltb ((q.store c).created + q.config.lifespan) now)) [
    | inl u ↦
        simp (t, u)
          (record { roomy = λ h. omega (arith, h, ap length e, f); wakes = λ h. omega (arith, g) })
    | inr u ↦
        let r = call_callbacks (record q { idle = q.idle ++ c ∷ [] }) in
        simp (t, u)
          (record {
            roomy = λ h. trim-roomy r.idle r refl;
            wakes = λ h. omega (arith, g, trim-broadcasts r.idle r);
          })
  ]
]

return_conn-Served : (c now : ℕ) (p : Pool) → Served p (return_conn c now p).0
unfolding return_conn
return_conn-Served c now p = elim (Bool-cases (contains c p.occupied)) [
  | inl e ↦ simp e (put_back-Served c now p (release_occupied c p) refl refl refl)
  | inr e ↦ simp e (Quiet-Served (Quiet-refl p))
]

discard-Served : (c : ℕ) (p : Pool) → Served p (discard c p)
unfolding discard
discard-Served c p = elim (Bool-cases (is_connected (release_occupied c p) c)) [
  | inl e ↦ simp e (record { roomy = λ h. h; wakes = λ h. omega arith })
  | inr e ↦ simp e (record { roomy = λ h. h; wakes = λ h. omega arith })
]

close_idle-rest :
    (idle : List ℕ) (p : Pool)
    → p.idle ≡ idle
    → ((close_idle idle p).idle ≡ []) × ((close_idle idle p).broadcasts ≡ p.broadcasts)
unfolding close_idle
close_idle-rest [] p e = (e, refl)
close_idle-rest (c ∷ rest) p e =
    close_idle-rest rest (call_callbacks (disconnect c (record p { idle = rest }))) refl

close_occupied-rest :
    (cs : List ℕ) (p : Pool)
    → ((close_occupied cs p).idle ≡ p.idle) × ((close_occupied cs p).broadcasts ≡ p.broadcasts)
unfolding close_occupied
close_occupied-rest [] p = (refl, refl)
close_occupied-rest (c ∷ rest) p = close_occupied-rest rest (disconnect c p)

release-Served : (p : Pool) → Served p (release p)
unfolding release
release-Served p =
    let p' = record p { terminated = true } in
    let q = close_idle p.idle p' in
    let (e, f) = close_idle-rest p.idle p' refl in
    let (g, h) = close_occupied-rest q.occupied q in
    elim (Bool-cases p.terminated) [
      | inl t ↦ simp t (Quiet-Served (Quiet-refl p))
      | inr t ↦ simp t (record {
        roomy = λ k. omega (arith, ap length e, ap length g);
        wakes = λ k. omega (arith, f, h);
      })
    ]

-- Every call of the pool that is made with at most MaxIdle idle connections leaves at most that many, and
-- every call that makes the number of occupied connections smaller wakes the callers that wait for one.
pub step-Served : (call : Call) (p : Pool) → Served p (step call p)
unfolding step add_usage_callback remove_usage_callback
step-Served (gets new no_connect dial now) p = Quiet-Served (get-Quiet new no_connect dial now p)
step-Served (gives_back c now) p = return_conn-Served c now p
step-Served (discards c) p = discard-Served c p
step-Served releases p = release-Served p
step-Served (ticks now) p = Quiet-Served (reap-Quiet now p.idle p refl)
step-Served (adds id) p = record { roomy = λ h. h; wakes = λ h. omega arith }
step-Served (removes id) p = record { roomy = λ h. h; wakes = λ h. omega arith }
