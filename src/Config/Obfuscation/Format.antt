-- ===== src/Config/Obfuscation/Format.antt =====
-- The frame of an encoded file, and which files `Decode` accepts.
use go_irodsclient.Base.{
  ℕ, zero, suc, ◌+◌, ◌-◌, ◌%◌, ◌≤◌, ◌<◌, ◌≡◌, ◌↔◌, ◌⊎◌, inl, inr, refl, List, [], ◌∷◌, ◌++◌, none,
  some, Bytes, arith, length, get_elem?, Option-cases, All,
}
use go_irodsclient.Config.Obfuscation.{decode, encode, encode_from, offset_at, next_shift, seq_list}
use go_irodsclient.Config.Obfuscation.RoundTrip.{before_nul, encode_layout}
use go_irodsclient.Config.Obfuscation.Wheel.{encode_byte_pos}

encode_from_frame :
    (uid seq b : ℕ) (s : Bytes)
    → (length (encode_from uid seq b s) ≡ length (before_nul s))
      × All (λ c. 0 < c) (encode_from uid seq b s)
unfolding encode_from
encode_from_frame uid seq b [] = (refl, tt)
encode_from_frame uid seq b (c ∷ s) =
    ground
      (arith, encode_from_frame uid seq (next_shift b) s, encode_byte_pos (offset_at uid seq b) c)

-- An encoded file begins with a dot and five bytes, then 'e', then the encoded password, as long as
-- the password up to its first NUL and free of NULs, and one NUL ends it.
pub encode_frame :
    (uid mtime : ℕ) (password : Bytes)
    → (a b c d e : ℕ) × (body : Bytes) × (encode uid mtime password
        ≡ (b'.' ∷ a ∷ b ∷ c ∷ d ∷ e ∷ b'e' ∷ body) ++ 0 ∷ [])
      × (length body ≡ length (before_nul password))
      × All (λ x. 0 < x) (a ∷ b ∷ c ∷ d ∷ e ∷ body)
encode_frame uid mtime password =
    let at : ℕ → ℕ = λ b. offset_at uid 0xd768b678 b in
    let (n, p) = encode_from_frame uid 0xd768b678 15 password in
    (
      _,
      _,
      _,
      _,
      _,
      _,
      encode_layout uid mtime password,
      n,
      (
        encode_byte_pos (at 0) _ (omega arith),
        (
          encode_byte_pos (at 3) _ (omega arith),
          (
            encode_byte_pos (at 6) _ (omega arith),
            (encode_byte_pos (at 9) _ (omega arith), (encode_byte_pos (at 12) _ (omega arith), p)),
          ),
        ),
      ),
    )

get_elem?-none : (s : List ℕ) (i : ℕ) → (get_elem? s i ≡ none) ↔ (length s ≤ i)
get_elem?-none [] i = ground arith
get_elem?-none (x ∷ s) zero = ground arith
get_elem?-none (x ∷ s) (suc i) = ground (arith, get_elem?-none s i)

-- `Decode` panics exactly on files shorter than seven bytes, and on those whose seventh byte is none of
-- the sixteen from 'e' on.
pub decode-none :
    (uid : ℕ) (s : Bytes)
    → (decode uid s ≡ none)
      ↔ ((length s < 7) ⊎ ((c : ℕ) × (get_elem? s 6 ≡ some c) × (16 ≤ (c + 256 - b'e') % 256)))
unfolding decode
decode-none uid s = elim (Option-cases (get_elem? s 6)) [
  | inl e ↦ ground (arith, get_elem?-none s 6)
  | inr (c, e) ↦
      ground (arith, get_elem?-none s 6, get_elem?-none seq_list ((c + 256 - b'e') % 256))
]
