-- ===== src/Config/Obfuscation/RoundTrip.antt =====
-- `Decode` after `Encode`.
use go_irodsclient.Base.{
  ◌+◌, ◌%◌, ◌/◌, ◌^◌, ◌≡◌, refl, [], ◌∷◌, ◌++◌, some, Bytes, arith, ◌==◌, if◌then◌else◌, ap, ◌<◌,
  drop, take, ℕ,
}
use go_irodsclient.Config.Obfuscation.{
  decode, encode, decode_from, encode_from, encode_byte, offset_at, next_shift, prelude,
}
use go_irodsclient.Config.Obfuscation.Wheel.{decode_byte-encode_byte, encode_byte_pos}

-- What comes before the first NUL.
abbrev pub before_nul : Bytes → Bytes
before_nul [] = []
before_nul (c ∷ s) = let rest = before_nul s in if c == 0 then [] else c ∷ rest

-- The loop of `Decode` over what the loop of `Encode` wrote, with the NUL that `Encode` puts last.
decode_from-encode_from :
    (uid seq b : ℕ) (s : Bytes)
    → decode_from uid seq b (encode_from uid seq b s ++ 0 ∷ []) ≡ before_nul s
unfolding decode_from encode_from
decode_from-encode_from uid seq b [] = refl
decode_from-encode_from uid seq b (c ∷ s) = ground (
  arith,
  decode_from-encode_from uid seq (next_shift b) s,
  decode_byte-encode_byte (offset_at uid seq b) c,
  encode_byte_pos (offset_at uid seq b) c,
)

encode_from_step :
    (uid seq b c : ℕ) (s rest : Bytes)
    → 0 < c
    → encode_from uid seq (next_shift b) s ≡ rest
    → encode_from uid seq b (c ∷ s) ≡ encode_byte (offset_at uid seq b) c ∷ rest
unfolding encode_from
encode_from_step uid seq b c s rest h e = ground arith

-- The five bytes before the password, as they are written.
abbrev pub written : ℕ → ℕ → Bytes → Bytes
written uid mtime rest =
    let at : ℕ → ℕ = λ b. offset_at uid 0xd768b678 b in
    encode_byte (at 0) b'S'
    ∷ encode_byte (at 3) (b'a' + mtime / 2 ^ 4 % 16)
    ∷ encode_byte (at 6) (b'a' + mtime % 16)
    ∷ encode_byte (at 9) (b'a' + mtime / 2 ^ 12 % 16)
    ∷ encode_byte (at 12) (b'a' + mtime / 2 ^ 8 % 16)
    ∷ rest

-- They bring the shift to 15, where `Decode` begins.
encode_from-prelude :
    (uid mtime : ℕ) (s : Bytes)
    → encode_from uid 0xd768b678 0 (prelude mtime ++ s)
      ≡ written uid mtime (encode_from uid 0xd768b678 15 s)
unfolding next_shift
encode_from-prelude uid mtime s =
    let step = λ (b c : ℕ). encode_from_step uid 0xd768b678 b c in
    step 0 _ _ _ (omega arith) (
      step 3 _ _ _ (omega arith) (
        step 6 _ _ _ (omega arith) (step 9 _ _ _ (omega arith) (step 12 _ _ _ (omega arith) refl))))

pub encode_layout :
    (uid mtime : ℕ) (password : Bytes)
    → encode uid mtime password
      ≡ (b'.' ∷ written uid mtime (b'e' ∷ encode_from uid 0xd768b678 15 password)) ++ 0 ∷ []
unfolding encode
encode_layout uid mtime password =
    ap (λ e. (take 6 (b'.' ∷ e) ++ (b'e' ∷ drop 6 (b'.' ∷ e))) ++ 0 ∷ [])
      (encode_from-prelude uid mtime password)

-- Whatever the user id, the time and the password, `Decode` under the same user id gives back what
-- stands before the first NUL of the password, which is the whole password if it has none.
pub decode-encode :
    (uid mtime : ℕ) (password : Bytes)
    → decode uid (encode uid mtime password) ≡ some (before_nul password)
unfolding decode
decode-encode uid mtime password =
    rw (encode_layout uid mtime password) (ap some (decode_from-encode_from uid _ 15 password))
