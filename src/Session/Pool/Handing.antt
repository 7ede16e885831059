-- ===== src/Session/Pool/Handing.antt =====
-- What `get` answers, and what `Return` then does with the connection.
use go_irodsclient.Base.{
  ℕ, ◌+◌, ◌≤◌, ◌<◌, ◌≡◌, refl, Bool, true, false, List, [], ◌∷◌, ltb, leb, length, contains,
  Bool-cases, inl, inr, ◌⊎◌, ◌≢◌, arith,
}
use go_irodsclient.Session.Pool.{
  Pool, Dial, not_created, not_connected, dialed, Got, conn, full, failed, max_real, get, get_idle,
  create, drop_front, discard_back, pop_back, is_connected, occupy,
}
use go_irodsclient.Session.Pool.Counting.{count, contains-count}
use go_irodsclient.Session.Pool.Invariant.{back_counts}

-- What an answer of `get` says about the pool before and after.
abbrev pub Handed : Bool → Bool → Dial → Pool → Pool × Got → Type 0
Handed new no_connect dial p (q, conn c true) =
    (c ≡ p.next_id) × ((contains c q.occupied ≡ true) × (length p.occupied < max_real p))
Handed new no_connect dial p (q, conn c false) =
    (new ≡ false)
    × ((contains c p.idle ≡ true)
        × ((is_connected q c ≡ true)
            × ((contains c q.occupied ≡ true) × (length p.occupied < max_real p))))
Handed new no_connect dial p (q, full) =
    (max_real p ≤ length p.occupied)
    ⊎ ((no_connect ≡ false)
        × ((dial ≡ not_connected true)
            × (q.max_connections_real ≡ length q.occupied + length q.idle)))
Handed new no_connect dial p (q, failed) = dial ≢ dialed

occupied_now : (c : ℕ) (s : List ℕ) → contains c (occupy c s) ≡ true
occupied_now c s = ground (arith)

create-Handed :
    (new no_connect : Bool) (dial : Dial) (now : ℕ) (p q : Pool)
    → q.next_id ≡ p.next_id
    → length p.occupied < max_real p
    → Handed new no_connect dial p (create no_connect dial now q)
unfolding create
create-Handed new no_connect not_created now p q e h = λ k. ground (arith, k)
create-Handed new no_connect dialed now p q e h = (e, (occupied_now q.next_id q.occupied, h))
create-Handed new true (not_connected x) now p q e h = (e, (occupied_now q.next_id q.occupied, h))
create-Handed new false (not_connected true) now p q e h =
    elim (Bool-cases (ltb 0 (length q.occupied + length q.idle))) [
      | inl t ↦ rw t (inr (refl, (refl, refl)))
      | inr t ↦ rw t (λ k. ground (arith, k))
    ]
create-Handed new false (not_connected false) now p q e h = λ k. ground (arith, k)

drop_front-next_id : (c : ℕ) (rest : List ℕ) (p : Pool) → (drop_front c rest p).next_id ≡ p.next_id
drop_front-next_id c rest p = ground arith

get_idle-Handed :
    (new no_connect : Bool) (dial : Dial) (now : ℕ) (idle : List ℕ) (p : Pool)
    → p.idle ≡ idle
    → length p.occupied < max_real p
    → Handed new no_connect dial p (get_idle new no_connect dial now idle p)
unfolding get_idle
get_idle-Handed new no_connect dial now [] p e h = create-Handed new no_connect dial now p p refl h
get_idle-Handed true no_connect dial now (c ∷ rest) p e h =
    create-Handed true no_connect dial now p (drop_front c rest p) (drop_front-next_id c rest p) h
get_idle-Handed false no_connect dial now (c ∷ cs) p e h =
    let last = (pop_back c cs).1 in
    let one : count last (last ∷ []) ≡ 1 = ground arith in
    elim (Bool-cases (is_connected p last)) [
      | inl up ↦ simp up (
          (
            refl,
            (
              ground (arith, contains-count last p.idle, back_counts c cs p e last, one),
              (refl, (occupied_now last p.occupied, h)),
            ),
          ))
      | inr down ↦
          simp down
            (create-Handed false no_connect dial now p (discard_back (pop_back c cs).0 p) refl h)
    ]

-- What `get` answers, whatever is asked for and whatever the dial does. A connection that it hands out is
-- occupied afterwards, and there was room for it; a new one has an identifier that was not given out before,
-- one that is not new was not asked to be new, was idle and is connected. It answers that the pool is full
-- only where all possible connections are occupied, or where the server rejected a connection and the possible
-- ones are set to those that there are. It fails only where the dial did.
pub get-Handed :
    (new no_connect : Bool) (dial : Dial) (now : ℕ) (p : Pool)
    → Handed new no_connect dial p (get new no_connect dial now p)
unfolding get
get-Handed new no_connect dial now p = elim (Bool-cases (leb (max_real p) (length p.occupied))) [
  | inl e ↦ simp e (inl (ground arith))
  | inr e ↦ simp e (get_idle-Handed new no_connect dial now p.idle p refl (ground arith))
]
