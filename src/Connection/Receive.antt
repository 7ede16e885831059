-- ===== src/Connection/Receive.antt =====
-- A read does not depend on how the stream was cut into pieces.
use go_irodsclient.Base.{
  ℕ, ◌-◌, ◌≤◌, ◌≡◌, refl, ap, List, [], ◌∷◌, ◌++◌, Bytes, arith, ltb, length, take, drop,
  length-append, zero, suc, Bool-cases, inl, inr,
}
use go_irodsclient.Connection.{Arrival, piece, last_piece, broken_piece, read_error, ok, read_bytes}

-- The bytes that arrive in reads that report no error, before the first read that reports one or the end.
abbrev pub joined : List Arrival → Bytes
joined [] = []
joined (piece s ∷ rest) = s ++ joined rest
joined (last_piece s ∷ rest) = []
joined (broken_piece s ∷ rest) = []
joined (read_error ∷ rest) = []

take_short : (s t : Bytes) (n : ℕ) → n ≤ length s → take n (s ++ t) ≡ take n s
take_short s t zero h = refl
take_short [] t (suc n) h = absurd (omega arith)
take_short (x ∷ s) t (suc n) h = ap (◌∷◌ x) (take_short s t n (omega arith))

drop_short : (s t : Bytes) (n : ℕ) → n ≤ length s → drop n (s ++ t) ≡ drop n s ++ t
drop_short s t zero h = refl
drop_short [] t (suc n) h = absurd (omega arith)
drop_short (x ∷ s) t (suc n) h = drop_short s t n (omega arith)

take_long : (s t : Bytes) (n : ℕ) → length s ≤ n → take n (s ++ t) ≡ s ++ take (n - length s) t
take_long [] t n h = let e : n - 0 ≡ n = omega arith in rw e
take_long (x ∷ s) t zero h = absurd (omega arith)
take_long (x ∷ s) t (suc n) h =
    let e : suc n - suc (length s) ≡ n - length s = omega arith in
    rw e (ap (◌∷◌ x) (take_long s t n (omega arith)))

drop_long : (s t : Bytes) (n : ℕ) → length s ≤ n → drop n (s ++ t) ≡ drop (n - length s) t
drop_long [] t n h = let e : n - 0 ≡ n = omega arith in rw e
drop_long (x ∷ s) t zero h = absurd (omega arith)
drop_long (x ∷ s) t (suc n) h =
    let e : suc n - suc (length s) ≡ n - length s = omega arith in
    rw e (drop_long s t n (omega arith))

-- However the stream is cut: a call for no more bytes than arrive in reads that report no error gives exactly the
-- first of them and leaves the others, in order. Nothing is said of bytes that come together with io.EOF or another
-- error.
pub read_bytes-take :
    (cs : List Arrival) (n : ℕ)
    → n ≤ length (joined cs)
    → (rest : List Arrival) × (read_bytes cs n ≡ (rest, ok (take n (joined cs))))
      × (joined rest ≡ drop n (joined cs))
unfolding read_bytes
read_bytes-take [] zero h = ([], refl, refl)
read_bytes-take [] (suc n) h = absurd (omega arith)
read_bytes-take (read_error ∷ cs) zero h = (read_error ∷ cs, refl, refl)
read_bytes-take (read_error ∷ cs) (suc n) h = absurd (omega arith)
read_bytes-take (last_piece s ∷ cs) zero h = (last_piece s ∷ cs, refl, refl)
read_bytes-take (last_piece s ∷ cs) (suc n) h = absurd (omega arith)
read_bytes-take (broken_piece s ∷ cs) zero h = (broken_piece s ∷ cs, refl, refl)
read_bytes-take (broken_piece s ∷ cs) (suc n) h = absurd (omega arith)
read_bytes-take (piece s ∷ cs) zero h = (piece s ∷ cs, refl, refl)
read_bytes-take (piece s ∷ cs) (suc n) h = elim (Bool-cases (ltb (suc n) (length s))) [
  | inl e ↦
      let l : suc n ≤ length s = ground arith in
      (
        piece (drop (suc n) s) ∷ cs,
        ground (arith, take_short s (joined cs) (suc n) l),
        rw (drop_short s (joined cs) (suc n) l),
      )
  | inr e ↦
      let l : length s ≤ suc n = ground arith in
      let m : suc n - length s ≤ length (joined cs) = omega (arith, length-append s (joined cs)) in
      let (rest, f, g) = read_bytes-take cs (suc n - length s) m in
      (
        rest,
        ground (arith, take_long s (joined cs) (suc n) l),
        rw (drop_long s (joined cs) (suc n) l) g,
      )
]
