-- ===== src/Base/TextMaps.antt =====
-- Go maps keyed by strings: association lists, of which the first entry of a key counts.
use go_irodsclient.Base.Tests.{if◌then◌else◌, Bool-cases}
use go_irodsclient.Base.Lists.{Bytes}
use go_irodsclient.Base.Text.{eq_text, eq_text_iff}
use mathlib.Core.Path.{◌≡◌, refl, ◌∙◌}
use mathlib.Core.Logic.{inl, inr}
use mathlib.Core.Bool.{Bool, true, false, ◌||◌}
use mathlib.Core.List.{List, [], ◌∷◌}
use mathlib.Core.Option.{Option, none, some}
use native.Mathlib.Omega.{arith}

module _ {ℓ} {V : Type ℓ} where
  -- `v, ok := m[key]`
  unfoldable pub find : Bytes → List (Bytes × V) → Option V
  unfolding eq_text
  find key [] = none
  find key ((k, value) ∷ rest) =
      let found = find key rest in if eq_text k key then some value else found

  -- `m[key] = value`
  unfoldable pub put : Bytes → V → List (Bytes × V) → List (Bytes × V)
  unfolding eq_text
  put key value [] = (key, value) ∷ []
  put key value ((k, old) ∷ rest) =
      let changed = put key value rest in
      if eq_text k key then (key, value) ∷ rest else (k, old) ∷ changed

  -- An assignment to every value.
  unfoldable pub map_values : (V → V) → List (Bytes × V) → List (Bytes × V)
  map_values f [] = []
  map_values f ((k, value) ∷ rest) = (k, f value) ∷ map_values f rest

-- Whether a text is in a list.
unfoldable pub has_text : Bytes → List Bytes → Bool
unfolding eq_text
has_text s [] = false
has_text s (t ∷ ts) = eq_text t s || has_text s ts

-- The list without a text.
unfoldable pub without_text : Bytes → List Bytes → List Bytes
unfolding eq_text
without_text s [] = []
without_text s (t ∷ ts) = let rest = without_text s ts in if eq_text t s then rest else t ∷ rest

pub has_text-without_text :
    (s t : Bytes) (ts : List Bytes)
    → has_text t (without_text s ts) ≡ (if eq_text s t then false else has_text t ts)
unfolding has_text without_text
has_text-without_text s t [] = ground arith
has_text-without_text s t (x ∷ xs) = elim (Bool-cases (eq_text x s)) [
  | inl e ↦
      let f : x ≡ s = (eq_text_iff x s).0 e in
      rw e (has_text-without_text s t xs ∙ rw f (ground arith))
  | inr e ↦ elim (Bool-cases (eq_text s t)) [
    | inl g ↦
        let h : eq_text x t ≡ false = rw (← (eq_text_iff s t).0 g) e in
        rw (e, has_text-without_text s t xs, g, h) refl
    | inr g ↦ rw (e, has_text-without_text s t xs, g) refl
  ]
]

module _ {ℓ} {V : Type ℓ} where
  pub find-put :
      (key at : Bytes) (value : V) (entries : List (Bytes × V))
      → find at (put key value entries) ≡ (if eq_text key at then some value else find at entries)
  unfolding put find
  find-put key at value [] = refl
  find-put key at value ((k, old) ∷ rest) = elim (Bool-cases (eq_text k key)) [
    | inl e ↦ rw (e, (eq_text_iff k key).0 e) (ground arith)
    | inr e ↦ elim (Bool-cases (eq_text key at)) [
      | inl g ↦
          let h : eq_text k at ≡ false = rw (← (eq_text_iff key at).0 g) e in
          rw (e, find-put key at value rest, g, h) refl
      | inr g ↦ rw (e, find-put key at value rest, g) refl
    ]
  ]

  pub find-map_values :
      (f : V → V) (key : Bytes) (value : V) (entries : List (Bytes × V))
      → find key entries ≡ some value
      → find key (map_values f entries) ≡ some (f value)
  unfolding find map_values
  find-map_values f key value [] h = ground (arith, h)
  find-map_values f key value ((k, v) ∷ rest) h = elim (Bool-cases (eq_text k key)) [
    | inl e ↦ rw e (ground (arith, h, e))
    | inr e ↦ rw e (find-map_values f key value rest (ground (arith, h, e)))
  ]

  -- `delete(m, key)`
  unfoldable pub remove_key : Bytes → List (Bytes × V) → List (Bytes × V)
  remove_key key [] = []
  remove_key key ((k, old) ∷ rest) =
      let fewer = remove_key key rest in if eq_text k key then fewer else (k, old) ∷ fewer

  pub find-remove_key :
      (key at : Bytes) (entries : List (Bytes × V))
      → find at (remove_key key entries) ≡ (if eq_text key at then none else find at entries)
  unfolding remove_key find
  find-remove_key key at [] = ground arith
  find-remove_key key at ((k, old) ∷ rest) = elim (Bool-cases (eq_text k key)) [
    | inl e ↦ rw (e, find-remove_key key at rest, (eq_text_iff k key).0 e) (ground arith)
    | inr e ↦ elim (Bool-cases (eq_text key at)) [
      | inl g ↦
          let h : eq_text k at ≡ false = rw (← (eq_text_iff key at).0 g) e in
          rw (e, find-remove_key key at rest, g, h) refl
      | inr g ↦ rw (e, find-remove_key key at rest, g) refl
    ]
  ]

  -- The keys.
  unfoldable pub keys_of : List (Bytes × V) → List Bytes
  keys_of [] = []
  keys_of ((k, value) ∷ rest) = k ∷ keys_of rest

  pub has_text-keys_of :
      (key : Bytes) (value : V) (entries : List (Bytes × V))
      → find key entries ≡ some value
      → has_text key (keys_of entries) ≡ true
  unfolding find keys_of has_text
  has_text-keys_of key value [] h = ground (arith, h)
  has_text-keys_of key value ((k, old) ∷ rest) h =
      ground (arith, h, has_text-keys_of key value rest)
