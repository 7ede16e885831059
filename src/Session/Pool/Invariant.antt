-- ===== src/Session/Pool/Invariant.antt =====
-- No connection is in two places, and the pool stays within its capacity.
use go_irodsclient.Base.{
  ℕ, suc, ◌+◌, ◌<◌, ◌≡◌, refl, Bool, true, false, List, [], ◌∷◌, arith, leb, if◌then◌else◌, length,
  Bool-cases, inl, inr, ap, ◌∙◌,
}
use go_irodsclient.Session.Pool.{
  Pool, Dial, not_created, not_connected, dialed, max_real, get, get_idle, create, take_new,
  drop_front, reuse, discard_back, pop_back, is_connected,
}
use go_irodsclient.Session.Pool.Counting.{
  count, count-append, count-occupy, length-occupy, count-pop_back, length-pop_back,
}
use go_irodsclient.Session.Pool.Moves.{Inv, Shrinks, Shrinks-Inv}

-- A new connection has an identifier that is nowhere, and there must be room for it.
take_new-Inv :
    (up : Bool) (now : ℕ) (p : Pool)
    → Inv p
    → length p.idle + length p.occupied < p.config.max_cap
    → Inv (take_new up now p).0
take_new-Inv up now p v h =
    let e : count p.next_id p.occupied ≡ 0 = omega (arith, v.fresh p.next_id (omega arith)) in
    record {
      unique = λ x. ground (arith, count-occupy x p.next_id p.occupied e, v.unique x, v.fresh x);
      fresh = λ x k. ground (arith, count-occupy x p.next_id p.occupied e, v.fresh x);
      bounded = omega (arith, length-occupy p.next_id p.occupied e);
    }

create-Inv :
    (no_connect : Bool) (dial : Dial) (now : ℕ) (p : Pool)
    → Inv p
    → length p.idle + length p.occupied < p.config.max_cap
    → Inv (create no_connect dial now p).0
unfolding create
create-Inv no_connect not_created now p v h = record {
  unique = v.unique;
  fresh = v.fresh;
  bounded = v.bounded;
}
create-Inv no_connect dialed now p v h = take_new-Inv (if no_connect then false else true) now p v h
create-Inv true (not_connected e) now p v h = take_new-Inv false now p v h
create-Inv false (not_connected true) now p v h = record {
  unique = v.unique;
  fresh = v.fresh;
  bounded = v.bounded;
}
create-Inv false (not_connected false) now p v h = record {
  unique = v.unique;
  fresh = v.fresh;
  bounded = v.bounded;
}

-- The front leaves the idle list.
pub drop_front-Shrinks :
    (c : ℕ) (rest : List ℕ) (p : Pool) → p.idle ≡ c ∷ rest → Shrinks p (drop_front c rest p)
drop_front-Shrinks c rest p e = record {
  fewer = λ x. ground (arith, ap (count x) e);
  shorter = ground (arith, ap length e);
  same_next = ground arith;
  same_config = ground arith;
}

-- The back leaves the idle list, or goes over to the occupied connections.
module _ (c : ℕ) (cs : List ℕ) (p : Pool) (e : p.idle ≡ c ∷ cs) where
  pub back_counts :
      (x : ℕ) → count x p.idle ≡ count x (pop_back c cs).0 + count x ((pop_back c cs).1 ∷ [])
  back_counts x =
      ap (count x) e
      ∙ (count-pop_back x c cs ∙ count-append x (pop_back c cs).0 ((pop_back c cs).1 ∷ []))

  back_length : length p.idle ≡ suc (length (pop_back c cs).0)
  back_length = omega (arith, ap length e, length-pop_back c cs)

  pub discard_back-Shrinks : Shrinks p (discard_back (pop_back c cs).0 p)
  discard_back-Shrinks = record {
    fewer = λ x. omega (arith, back_counts x);
    shorter = omega (arith, back_length);
    same_next = refl;
    same_config = refl;
  }

  reuse-Shrinks : Inv p → Shrinks p (reuse (pop_back c cs).1 (pop_back c cs).0 p).0
  reuse-Shrinks v =
      let last = (pop_back c cs).1 in
      let one : count last (last ∷ []) ≡ 1 = ground arith in
      let none_there : count last p.occupied ≡ 0 =
        omega (arith, v.unique last, back_counts last, one) in
      record {
        fewer = λ x. ground (arith, count-occupy x last p.occupied none_there, back_counts x);
        shorter = omega (arith, length-occupy last p.occupied none_there, back_length);
        same_next = refl;
        same_config = refl;
      }

get_idle-Inv :
    (new no_connect : Bool) (dial : Dial) (now : ℕ) (p : Pool) (idle : List ℕ)
    → p.idle ≡ idle
    → Inv p
    → length p.occupied < p.config.max_cap
    → Inv (get_idle new no_connect dial now idle p).0
unfolding get_idle
get_idle-Inv new no_connect dial now p [] e v h =
    create-Inv no_connect dial now p v (omega (arith, ap length e))
get_idle-Inv true no_connect dial now p (c ∷ rest) e v h =
    create-Inv no_connect dial now (drop_front c rest p)
      (Shrinks-Inv (drop_front-Shrinks c rest p e) v) (ground (arith, ap length e, v.bounded))
get_idle-Inv false no_connect dial now p (c ∷ cs) e v h =
    elim (Bool-cases (is_connected p (pop_back c cs).1)) [
      | inl up ↦ rw up (Shrinks-Inv (reuse-Shrinks c cs p e v) v)
      | inr down ↦ rw down (
          create-Inv no_connect dial now (discard_back (pop_back c cs).0 p)
            (Shrinks-Inv (discard_back-Shrinks c cs p e) v)
            (omega (arith, back_length c cs p e, v.bounded)))
    ]

pub get-Inv :
    (new no_connect : Bool) (dial : Dial) (now : ℕ) (p : Pool)
    → Inv p
    → Inv (get new no_connect dial now p).0
unfolding get
get-Inv new no_connect dial now p v = elim (Bool-cases (leb (max_real p) (length p.occupied))) [
  | inl e ↦ rw e v
  | inr e ↦ rw e (get_idle-Inv new no_connect dial now p p.idle refl v (ground arith))
]
