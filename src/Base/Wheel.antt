-- ===== src/Base/Wheel.antt =====
-- The wheel of 77 characters that both config/password_obfuscation.go and irods/util/scramble.go declare,
-- and the search loop that both run over it.
use go_irodsclient.Base.Lists.{Bytes, codes, get_or, length}
use go_irodsclient.Base.Tests.{ltb, ◌==◌, if◌then◌else◌, Bool-cases, ==_iff}
use Prim.Native.Nat.{ℕ, zero, suc, ◌+◌, ◌<◌}
use mathlib.Core.Path.{◌≡◌, refl}
use mathlib.Core.Logic.{inl, inr}
use mathlib.Core.Bool.{Bool, true, false, ◌&&◌}
use mathlib.Core.List.{[], ◌∷◌}
use mathlib.Core.Option.{Option, none, some}
use native.Mathlib.Omega.{arith}

abbrev pub wheel : Bytes
wheel = codes "0123456789ABCDEFGHIJKLMNOPQRSTUVWXYZabcdefghijklmnopqrstuvwxyz!\"#$%&'()*+,-./"

-- The loop over the wheel that stops at the first match.
unfoldable pub index_from : ℕ → ℕ → Bytes → Option ℕ
index_from c i [] = none
index_from c i (w ∷ ws) = if w == c then some i else index_from c (i + 1) ws

abbrev pub wheel_index : ℕ → Option ℕ
wheel_index c = index_from c 0 wheel

-- Whether a test holds of all numbers under a bound.
module _ (test : ℕ → Bool) where
  passes : ℕ → Bool
  passes zero = true
  passes (suc top) = let below = passes top in if test top then below else false

  passes-at : (i top : ℕ) → i < top → passes top ≡ true → test i ≡ true
  unfolding passes
  passes-at i zero under h = absurd (omega arith)
  passes-at i (suc top) under h = ground (passes-at i top, arith)

is_at : ℕ → Option ℕ → Bool
is_at i none = false
is_at i (some j) = i == j

is_at-some : (i : ℕ) (o : Option ℕ) → is_at i o ≡ true → o ≡ some i
unfolding is_at
is_at-some i none h = cc
is_at-some i (some j) h = ground arith

-- The first match of the byte at index `i` is `i`, and the byte is not NUL.
wheel_table :
    passes (λ i. is_at i (wheel_index (get_or wheel i 0)) && ltb 0 (get_or wheel i 0)) 77 ≡ true
unfolding passes is_at index_from
wheel_table = refl

and_parts : (a b : Bool) → (a && b) ≡ true → (a ≡ true) × (b ≡ true)
and_parts a b h = ground arith

pub wheel_index-get : (i : ℕ) → i < 77 → wheel_index (get_or wheel i 0) ≡ some i
wheel_index-get i h = is_at-some i _ (and_parts _ _ (passes-at _ i 77 h wheel_table)).0

ltb→lt : (a b : ℕ) → ltb a b ≡ true → a < b
ltb→lt a b h = ground arith

pub wheel_pos : (i : ℕ) → i < 77 → 0 < get_or wheel i 0
wheel_pos i h = ltb→lt _ _ (and_parts _ _ (passes-at _ i 77 h wheel_table)).1

-- What a search finds from index `k` on.
index_from-get :
    (c k i : ℕ) (ws : Bytes)
    → index_from c k ws ≡ some i
    → (j : ℕ) × (i ≡ k + j) × (j < length ws) × (get_or ws j 0 ≡ c)
unfolding index_from
index_from-get c k i [] h = cc
index_from-get c k i (w ∷ ws) h = elim (Bool-cases (w == c)) [
  | inl e ↦ (0, ground arith, omega arith, (==_iff w c).0 e)
  | inr e ↦
      let (j, p, q, r) = index_from-get c (k + 1) i ws (ground arith) in
      (suc j, omega arith, omega arith, r)
]

pub wheel_index-some : (c i : ℕ) → wheel_index c ≡ some i → (i < 77) × (get_or wheel i 0 ≡ c)
wheel_index-some c i h =
    let (j, p, q, r) = index_from-get c 0 i wheel h in
    let e : j ≡ i = omega arith in (omega arith, rw (← e) r)
