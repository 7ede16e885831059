-- ===== src/Session/Pool/Moves.antt =====
-- Operations that only move connections from place to place, or close some.
use go_irodsclient.Base.{
  ℕ, ◌+◌, ◌≤◌, ◌<◌, ◌≡◌, refl, true, List, [], ◌∷◌, ◌++◌, arith, ltb, length, contains,
  length-append, Bool-cases, inl, inr, ap, ◌∙◌,
}
use go_irodsclient.Session.Pool.{
  Pool, trim, put_back, return_conn, discard, is_connected, call_callbacks, release_occupied,
  disconnect, broadcast,
}
use go_irodsclient.Session.Pool.Lifecycle.{release, close_idle, close_occupied, reap, is_expired}
use go_irodsclient.Session.Pool.Counting.{
  count, count-append, count-without, length-without, contains-count,
}

-- In how many places a connection is.
abbrev pub places : ℕ → Pool → ℕ
places x p = count x p.idle + count x p.occupied

pub record Inv (p : Pool) : Type 0 where
  pub unique : (x : ℕ) → places x p ≤ 1
  pub fresh : (x : ℕ) → p.next_id ≤ x → places x p ≡ 0
  pub bounded : length p.idle + length p.occupied ≤ p.config.max_cap

-- An operation that only moves connections, or closes some.
pub record Shrinks (p q : Pool) : Type 0 where
  pub fewer : (x : ℕ) → places x q ≤ places x p
  pub shorter : length q.idle + length q.occupied ≤ length p.idle + length p.occupied
  pub same_next : q.next_id ≡ p.next_id
  pub same_config : q.config.max_cap ≡ p.config.max_cap

pub Shrinks-Inv : {p q : Pool} → Shrinks p q → Inv p → Inv q
Shrinks-Inv s v = record {
  unique = λ x. omega (arith, s.fewer x, v.unique x);
  fresh = λ x h. omega (arith, s.fewer x, s.same_next, v.fresh x (omega (arith, s.same_next)));
  bounded = omega (arith, s.shorter, s.same_config, v.bounded);
}

Shrinks-refl : (p : Pool) → Shrinks p p
Shrinks-refl p = record {
  fewer = λ x. omega arith;
  shorter = omega arith;
  same_next = refl;
  same_config = refl;
}

pub Shrinks-trans : {p q r : Pool} → Shrinks p q → Shrinks q r → Shrinks p r
Shrinks-trans s t = record {
  fewer = λ x. omega (arith, s.fewer x, t.fewer x);
  shorter = omega (arith, s.shorter, t.shorter);
  same_next = t.same_next ∙ s.same_next;
  same_config = t.same_config ∙ s.same_config;
}

-- The front is closed, whatever else happens to it.
close_front-Shrinks :
    (c : ℕ) (rest : List ℕ) (p q : Pool)
    → p.idle ≡ c ∷ rest
    → q.idle ≡ rest
    → q.occupied ≡ p.occupied
    → q.next_id ≡ p.next_id
    → q.config.max_cap ≡ p.config.max_cap
    → Shrinks p q
close_front-Shrinks c rest p q e f g h k = record {
  fewer = λ x. ground (arith, ap (count x) e, ap (count x) f, ap (count x) g);
  shorter = omega (arith, ap length e, ap length f, ap length g);
  same_next = h;
  same_config = k;
}

abbrev close_next : ℕ → List ℕ → Pool → Pool
close_next c rest p = disconnect c (call_callbacks (record p { idle = rest }))

trim-Shrinks : (idle : List ℕ) (p : Pool) → p.idle ≡ idle → Shrinks p (trim idle p)
unfolding trim
trim-Shrinks [] p e = Shrinks-refl p
trim-Shrinks (c ∷ rest) p e = elim (Bool-cases (ltb p.config.max_idle (length (c ∷ rest)))) [
  | inl t ↦ rw t (
      Shrinks-trans (close_front-Shrinks c rest p (close_next c rest p) e refl refl refl refl)
        (trim-Shrinks rest (close_next c rest p) refl))
  | inr t ↦ rw t (Shrinks-refl p)
]

pub reap-Shrinks :
    (now : ℕ) (idle : List ℕ) (p : Pool) → p.idle ≡ idle → Shrinks p (reap now idle p)
unfolding reap
reap-Shrinks now [] p e = Shrinks-refl p
reap-Shrinks now (c ∷ rest) p e =
    let q = call_callbacks (disconnect c (record p { idle = rest })) in
    elim (Bool-cases (is_expired now p c)) [
      | inl t ↦ rw t (
          Shrinks-trans (close_front-Shrinks c rest p q e refl refl refl refl)
            (reap-Shrinks now rest q refl))
      | inr t ↦ rw t (Shrinks-refl p)
    ]

release_occupied-Shrinks : (c : ℕ) (p : Pool) → Shrinks p (release_occupied c p)
release_occupied-Shrinks c p = record {
  fewer = λ x. ground (arith, count-without x c p.occupied);
  shorter = omega (arith, length-without c p.occupied);
  same_next = refl;
  same_config = refl;
}

abbrev appended : ℕ → Pool → Pool
appended c p = call_callbacks (record p { idle = p.idle ++ c ∷ [] })

-- A connection that was occupied goes to the back of the idle list.
appended-Shrinks :
    (c : ℕ) (p : Pool)
    → contains c p.occupied ≡ true
    → Shrinks p (appended c (release_occupied c p))
appended-Shrinks c p h =
    let there : 0 < count c p.occupied = ground (arith, contains-count c p.occupied) in
    record {
      fewer =
          λ x. ground (arith, there, count-append x p.idle (c ∷ []), count-without x c p.occupied);
      shorter = omega (arith, there, length-append p.idle (c ∷ []), length-without c p.occupied);
      same_next = refl;
      same_config = refl;
    }

same_lists-Shrinks :
    (p q : Pool)
    → q.idle ≡ p.idle
    → q.occupied ≡ p.occupied
    → q.next_id ≡ p.next_id
    → q.config.max_cap ≡ p.config.max_cap
    → Shrinks p q
same_lists-Shrinks p q f g h k = record {
  fewer = λ x. omega (arith, ap (count x) f, ap (count x) g);
  shorter = omega (arith, ap length f, ap length g);
  same_next = h;
  same_config = k;
}

put_back-Shrinks :
    (c now : ℕ) (p q : Pool) → Shrinks p q → Shrinks p (appended c q) → Shrinks p (put_back c now q)
put_back-Shrinks c now p q s t = elim (Bool-cases (is_connected q c)) [
  | inr e ↦ rw e (Shrinks-trans s (same_lists-Shrinks q (broadcast q) refl refl refl refl))
  | inl e ↦ elim (Bool-cases (ltb ((q.store c).created + q.config.lifespan) now)) [
    | inl f ↦
        rw (e, f)
          (Shrinks-trans s (same_lists-Shrinks q (broadcast (disconnect c q)) refl refl refl refl))
    | inr f ↦
        let r = appended c q in
        rw (e, f)
          (Shrinks-trans t (
            Shrinks-trans (trim-Shrinks r.idle r refl)
              (same_lists-Shrinks (trim r.idle r) (broadcast (trim r.idle r)) refl refl refl refl)))
  ]
]

pub return_conn-Shrinks : (c now : ℕ) (p : Pool) → Shrinks p (return_conn c now p).0
unfolding return_conn
return_conn-Shrinks c now p = elim (Bool-cases (contains c p.occupied)) [
  | inl e ↦ rw e (
      put_back-Shrinks c now p (release_occupied c p) (release_occupied-Shrinks c p)
        (appended-Shrinks c p e))
  | inr e ↦ rw e (Shrinks-refl p)
]

pub discard-Shrinks : (c : ℕ) (p : Pool) → Shrinks p (discard c p)
unfolding discard
discard-Shrinks c p =
    let q = release_occupied c p in
    let s = release_occupied-Shrinks c p in
    elim (Bool-cases (is_connected q c)) [
      | inl e ↦
          rw e (
            Shrinks-trans s (same_lists-Shrinks q (broadcast (disconnect c q)) refl refl refl refl))
      | inr e ↦ rw e (Shrinks-trans s (same_lists-Shrinks q (broadcast q) refl refl refl refl))
    ]

pub close_idle-Shrinks :
    (idle : List ℕ) (p : Pool)
    → p.idle ≡ idle
    → Shrinks p (close_idle idle p) × ((close_idle idle p).idle ≡ [])
unfolding close_idle
close_idle-Shrinks [] p e = (Shrinks-refl p, e)
close_idle-Shrinks (c ∷ rest) p e =
    let q = call_callbacks (disconnect c (record p { idle = rest })) in
    let (s, f) = close_idle-Shrinks rest q refl in
    (Shrinks-trans (close_front-Shrinks c rest p q e refl refl refl refl) s, f)

pub close_occupied-Shrinks :
    (cs : List ℕ) (p : Pool)
    → Shrinks p (close_occupied cs p) × ((close_occupied cs p).idle ≡ p.idle)
unfolding close_occupied
close_occupied-Shrinks [] p = (Shrinks-refl p, refl)
close_occupied-Shrinks (c ∷ rest) p =
    let (s, f) = close_occupied-Shrinks rest (disconnect c p) in
    (Shrinks-trans (same_lists-Shrinks p (disconnect c p) refl refl refl refl) s, f)

closed_all-Shrinks :
    (p q r : Pool)
    → Shrinks p q
    → q.idle ≡ []
    → r.idle ≡ q.idle
    → r.occupied ≡ []
    → r.next_id ≡ q.next_id
    → r.config.max_cap ≡ q.config.max_cap
    → Shrinks p r
closed_all-Shrinks p q r s e f g h k = record {
  fewer = λ x. ground (arith, ap (count x) e, ap (count x) f, ap (count x) g, s.fewer x);
  shorter = omega (arith, ap length e, ap length f, ap length g, s.shorter);
  same_next = h ∙ s.same_next;
  same_config = k ∙ s.same_config;
}

pub release-Shrinks : (p : Pool) → Shrinks p (release p)
unfolding release
release-Shrinks p =
    let p' = record p { terminated = true } in
    let q = close_idle p.idle p' in
    let (s, e) = close_idle-Shrinks p.idle p' refl in
    let (t, f) = close_occupied-Shrinks q.occupied q in
    elim (Bool-cases p.terminated) [
      | inl d ↦ simp d (Shrinks-refl p)
      | inr d ↦ simp d (
          closed_all-Shrinks p (close_occupied q.occupied q) _
            (Shrinks-trans (same_lists-Shrinks p p' refl refl refl refl) (Shrinks-trans s t))
            (f ∙ e) refl refl refl refl)
    ]
