-- ===== src/Session/Pool/Callbacks.antt =====
-- What the usage callbacks know of the pool.
use go_irodsclient.Base.{
  ℕ, ◌+◌, ◌≡◌, refl, Bool, true, false, List, [], ◌∷◌, ltb, leb, ◌==◌, length, contains, All,
  Bool-cases, inl, inr,
}
use go_irodsclient.Session.Pool.{
  Pool, Usage, Dial, not_created, not_connected, dialed, max_real, usage, tell, get, get_idle,
  create, drop_front, discard_back, pop_back, trim, put_back, return_conn, discard, is_connected,
  call_callbacks, release_occupied, disconnect,
}
use go_irodsclient.Session.Pool.Lifecycle.{
  forget, release, reap, is_expired, add_usage_callback, remove_usage_callback,
}
use go_irodsclient.Session.Pool.Steps.{
  Call, gets, gives_back, discards, releases, ticks, adds, removes, step, run,
}

abbrev TheSame : Usage → List (ℕ × Usage) → Type 0
TheSame u callbacks = All (λ callback. callback.1 ≡ u) callbacks

-- What each callback was told last is how the pool is used now.
abbrev pub Told : Pool → Type 0
Told p = TheSame (usage p) p.callbacks

tell-TheSame : (u : Usage) (callbacks : List (ℕ × Usage)) → TheSame u (tell u callbacks)
tell-TheSame u [] = tt
tell-TheSame u ((id, _) ∷ rest) = (refl, tell-TheSame u rest)

forget-TheSame :
    (id : ℕ) (u : Usage) (callbacks : List (ℕ × Usage))
    → TheSame u callbacks
    → TheSame u (forget id callbacks)
forget-TheSame id u [] h = tt
forget-TheSame id u ((k, _) ∷ rest) (e, h) = elim (Bool-cases (k == id)) [
  | inl t ↦ rw t (forget-TheSame id u rest h)
  | inr t ↦ rw t (e, forget-TheSame id u rest h)
]

create-Told :
    (no_connect : Bool) (dial : Dial) (now : ℕ) (p : Pool)
    → Told p
    → Told (create no_connect dial now p).0
unfolding create
create-Told no_connect not_created now p h = h
create-Told no_connect dialed now p h = tell-TheSame _ p.callbacks
create-Told true (not_connected e) now p h = tell-TheSame _ p.callbacks
create-Told false (not_connected true) now p h = tell-TheSame _ p.callbacks
create-Told false (not_connected false) now p h = h

get_idle-Told :
    (new no_connect : Bool) (dial : Dial) (now : ℕ) (idle : List ℕ) (p : Pool)
    → Told p
    → Told (get_idle new no_connect dial now idle p).0
unfolding get_idle
get_idle-Told new no_connect dial now [] p h = create-Told no_connect dial now p h
get_idle-Told true no_connect dial now (c ∷ rest) p h =
    create-Told no_connect dial now (drop_front c rest p) (tell-TheSame _ _)
get_idle-Told false no_connect dial now (c ∷ cs) p h =
    elim (Bool-cases (is_connected p (pop_back c cs).1)) [
      | inl up ↦ simp up (tell-TheSame _ p.callbacks)
      | inr down ↦
          simp down
            (create-Told no_connect dial now (discard_back (pop_back c cs).0 p) (tell-TheSame _ _))
    ]

get-Told :
    (new no_connect : Bool) (dial : Dial) (now : ℕ) (p : Pool)
    → Told p
    → Told (get new no_connect dial now p).0
unfolding get
get-Told new no_connect dial now p h = elim (Bool-cases (leb (max_real p) (length p.occupied))) [
  | inl e ↦ simp e h
  | inr e ↦ simp e (get_idle-Told new no_connect dial now p.idle p h)
]

trim-Told : (idle : List ℕ) (p : Pool) → Told p → Told (trim idle p)
unfolding trim
trim-Told [] p h = h
trim-Told (c ∷ rest) p h = elim (Bool-cases (ltb p.config.max_idle (length (c ∷ rest)))) [
  | inl t ↦
      simp t (
        trim-Told rest (disconnect c (call_callbacks (record p { idle = rest })))
          (tell-TheSame _ _))
  | inr t ↦ simp t h
]

put_back-Told : (c now : ℕ) (p : Pool) → Told p → Told (put_back c now p)
put_back-Told c now p h = elim (Bool-cases (is_connected p c)) [
  | inr e ↦ simp e h
  | inl e ↦ elim (Bool-cases (ltb ((p.store c).created + p.config.lifespan) now)) [
    | inl f ↦ simp (e, f) h
    | inr f ↦ simp (e, f) (trim-Told _ _ (tell-TheSame _ _))
  ]
]

return_conn-Told : (c now : ℕ) (p : Pool) → Told p → Told (return_conn c now p).0
unfolding return_conn
return_conn-Told c now p h = elim (Bool-cases (contains c p.occupied)) [
  | inl e ↦ simp e (put_back-Told c now (release_occupied c p) (tell-TheSame _ _))
  | inr e ↦ simp e h
]

discard-Told : (c : ℕ) (p : Pool) → Told (discard c p)
unfolding discard
discard-Told c p = elim (Bool-cases (is_connected (release_occupied c p) c)) [
  | inl e ↦ simp e (tell-TheSame _ p.callbacks)
  | inr e ↦ simp e (tell-TheSame _ p.callbacks)
]

reap-Told : (now : ℕ) (idle : List ℕ) (p : Pool) → Told p → Told (reap now idle p)
unfolding reap
reap-Told now [] p h = h
reap-Told now (c ∷ rest) p h = elim (Bool-cases (is_expired now p c)) [
  | inl t ↦ simp t (
      reap-Told now rest (call_callbacks (disconnect c (record p { idle = rest })))
        (tell-TheSame _ _))
  | inr t ↦ simp t h
]

release-Told : (p : Pool) → Told p → Told (release p)
unfolding release
release-Told p h = elim (Bool-cases p.terminated) [ inl t ↦ simp t h | inr t ↦ simp t tt ]

step-Told : (call : Call) (p : Pool) → Told p → Told (step call p)
unfolding step add_usage_callback remove_usage_callback
step-Told (gets new no_connect dial now) p h = get-Told new no_connect dial now p h
step-Told (gives_back c now) p h = return_conn-Told c now p h
step-Told (discards c) p h = discard-Told c p
step-Told releases p h = release-Told p h
step-Told (ticks now) p h = reap-Told now p.idle p h
step-Told (adds id) p h = (refl, h)
step-Told (removes id) p h = forget-TheSame id (usage p) p.callbacks h

-- Where the usage callbacks have been told how the pool is used, they have been told so after any calls of
-- the pool: no call leaves a callback with old numbers.
pub run-Told : (calls : List Call) (p : Pool) → Told p → Told (run calls p)
unfolding run
run-Told [] p h = h
run-Told (call ∷ calls) p h = run-Told calls (step call p) (step-Told call p h)
