-- ===== src/Util/Scramble/Inverse.antt =====
-- Scrambling can be undone with the key.
use go_irodsclient.Base.Wheel.{wheel, wheel_index, wheel_index-get, wheel_index-some}
use go_irodsclient.Base.{
  ℕ, ◌+◌, ◌*◌, ◌%◌, ◌≡◌, suc, refl, ap, ap₂, ◌∙◌, Bool, [], ◌∷◌, none, some, Bytes, arith, ◌==◌,
  if◌then◌else◌, length, get_or, drop, inl, inr, Option-cases, drop-append, ◌<◌, length-append,
}
use go_irodsclient.Util.Scramble.{scramble_from, scramble, get_encoder_ring, default_password_key}

-- What undoes it: the wheel turned back by the ring's entry and the chain, which is the last scrambled
-- character that stands in the wheel.
pub unscramble_from : Bytes → Bool → ℕ → ℕ → Bytes → Bytes
unscramble_from ring chaining chain p [] = []
unscramble_from ring chaining chain p (d ∷ s) =
    let k = get_or ring (p % 61) 0 in
    elim (wheel_index d) [
      | none ↦ d ∷ unscramble_from ring chaining chain (p + 1) s
      | some j ↦
          get_or wheel ((j + 76 * (k + chain)) % 77) 0
          ∷ unscramble_from ring chaining (if chaining then d % 256 else chain) (p + 1) s
    ]

turn_back : (i k chain : ℕ) → i < 77 → ((i + k + chain) % 77 + 76 * (k + chain)) % 77 ≡ i
turn_back i k chain h = omega arith

module _ (ring : Bytes) (chaining : Bool) (chain p c : ℕ) (s : Bytes) where
  scramble_none :
      wheel_index c ≡ none
      → scramble_from ring chaining chain p (c ∷ s)
        ≡ c ∷ scramble_from ring chaining chain (p + 1) s
  unfolding scramble_from
  scramble_none e = rw (e, scramble_from)

  scramble_some :
      (i d : ℕ)
      → wheel_index c ≡ some i
      → d ≡ get_or wheel ((i + get_or ring (p % 61) 0 + chain) % 77) 0
      → scramble_from ring chaining chain p (c ∷ s)
        ≡ d ∷ scramble_from ring chaining (if chaining then d % 256 else chain) (p + 1) s
  unfolding scramble_from
  scramble_some i d e f = rw (e, f, scramble_from)

  unscramble_none :
      wheel_index c ≡ none
      → unscramble_from ring chaining chain p (c ∷ s)
        ≡ c ∷ unscramble_from ring chaining chain (p + 1) s
  unfolding unscramble_from
  unscramble_none e = rw (e, unscramble_from)

  unscramble_some :
      (j : ℕ)
      → wheel_index c ≡ some j
      → unscramble_from ring chaining chain p (c ∷ s)
        ≡ get_or wheel ((j + 76 * (get_or ring (p % 61) 0 + chain)) % 77) 0
          ∷ unscramble_from ring chaining (if chaining then c % 256 else chain) (p + 1) s
  unfolding unscramble_from
  unscramble_some j e = rw (e, unscramble_from)

pub unscramble_from-scramble_from :
    (ring : Bytes) (chaining : Bool) (chain p : ℕ) (s : Bytes)
    → unscramble_from ring chaining chain p (scramble_from ring chaining chain p s) ≡ s
unscramble_from-scramble_from ring chaining chain p [] =
    unfold scramble_from unscramble_from in refl
unscramble_from-scramble_from ring chaining chain p (c ∷ s) = elim (Option-cases (wheel_index c)) [
  | inl e ↦
      rw (scramble_none ring chaining chain p c s e, unscramble_none ring chaining chain p c _ e)
        (ap (◌∷◌ c) (unscramble_from-scramble_from ring chaining chain (p + 1) s))
  | inr (i, e) ↦
      let (h, g) = wheel_index-some c i e in
      let k = get_or ring (p % 61) 0 in
      let j = (i + k + chain) % 77 in
      let d = get_or wheel j 0 in
      let chain' = if chaining then d % 256 else chain in
      rw (scramble_some ring chaining chain p c s i d e refl) (
        unscramble_some ring chaining chain p d _ j (wheel_index-get j (omega arith))
        ∙ ap₂ ◌∷◌ (ap (λ x. get_or wheel x 0) (turn_back i k chain h) ∙ g)
            (unscramble_from-scramble_from ring chaining chain' (p + 1) s))
]

pub length-scramble_from :
    (ring : Bytes) (chaining : Bool) (chain p : ℕ) (s : Bytes)
    → length (scramble_from ring chaining chain p s) ≡ length s
length-scramble_from ring chaining chain p [] = unfold scramble_from in refl
length-scramble_from ring chaining chain p (c ∷ s) = elim (Option-cases (wheel_index c)) [
  | inl e ↦
      rw (scramble_none ring chaining chain p c s e)
        (ap suc (length-scramble_from ring chaining chain (p + 1) s))
  | inr (i, e) ↦
      let d = get_or wheel ((i + get_or ring (p % 61) 0 + chain) % 77) 0 in
      rw (scramble_some ring chaining chain p c s i d e refl) (
        ap suc (length-scramble_from ring chaining (if chaining then d % 256 else chain) (p + 1) s))
]

module _ (md5 : Bytes → Bytes) where
  -- What a server that has the key and knows the prefix does.
  pub unscramble : Bytes → Bytes → Bytes → Bool → Bytes
  unscramble scrambled key scramble_prefix block_chaining =
      let key = if length key == 0 then default_password_key else key in
      unscramble_from (get_encoder_ring md5 key) block_chaining 0 0
        (drop (length scramble_prefix) scrambled)

  -- For every key, with or without block chaining, turning the wheel back by the ring and the chain
  -- gives the text back, and the scrambled text is as long as the prefix and the text.
  pub unscramble-scramble :
      (s key scramble_prefix : Bytes) (block_chaining : Bool)
      → (unscramble
            (scramble md5 s key scramble_prefix block_chaining)
            key
            scramble_prefix
            block_chaining
          ≡ s)
        × (length (scramble md5 s key scramble_prefix block_chaining)
            ≡ length scramble_prefix + length s)
  unfolding scramble unscramble
  unscramble-scramble s key scramble_prefix block_chaining =
      let key' = if length key == 0 then default_password_key else key in
      let ring = get_encoder_ring md5 key' in
      (
        rw (drop-append scramble_prefix (scramble_from ring block_chaining 0 0 s) _ refl)
            (unscramble_from-scramble_from ring block_chaining 0 0 s),
        length-append scramble_prefix (scramble_from ring block_chaining 0 0 s)
            ∙ ap (λ n. length scramble_prefix + n) (length-scramble_from ring block_chaining 0 0 s),
      )
