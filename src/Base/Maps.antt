-- ===== src/Base/Maps.antt =====
-- Go maps keyed by identifiers: association lists with at most one entry for a key.
use go_irodsclient.Base.Tests.{◌==◌, if◌then◌else◌}
use Prim.Native.Nat.{ℕ}
use mathlib.Core.Path.{◌≡◌, refl}
use mathlib.Core.List.{List, [], ◌∷◌}
use mathlib.Core.Option.{Option, none, some}
use native.Mathlib.Omega.{arith}

module _ {ℓ} {V : Type ℓ} where
  -- `v, ok := m[key]`
  unfoldable pub lookup : ℕ → List (ℕ × V) → Option V
  lookup key [] = none
  lookup key ((k, value) ∷ rest) =
      let found = lookup key rest in if k == key then some value else found

  -- `m[key] = value`
  unfoldable pub insert : ℕ → V → List (ℕ × V) → List (ℕ × V)
  insert key value [] = (key, value) ∷ []
  insert key value ((k, old) ∷ rest) =
      let changed = insert key value rest in
      if k == key then (key, value) ∷ rest else (k, old) ∷ changed

  -- `delete(m, key)`
  unfoldable pub erase : ℕ → List (ℕ × V) → List (ℕ × V)
  erase key [] = []
  erase key ((k, old) ∷ rest) =
      let fewer = erase key rest in if k == key then fewer else (k, old) ∷ fewer

  pub lookup-insert :
      (key at : ℕ) (value : V) (entries : List (ℕ × V))
      → lookup at (insert key value entries) ≡ (if key == at then some value else lookup at entries)
  unfolding insert lookup
  lookup-insert key at value [] = refl
  lookup-insert key at value ((k, old) ∷ rest) = ground (lookup-insert key at value rest, arith)

  pub lookup-erase :
      (key at : ℕ) (entries : List (ℕ × V))
      → lookup at (erase key entries) ≡ (if key == at then none else lookup at entries)
  unfolding erase lookup
  lookup-erase key at [] = ground arith
  lookup-erase key at ((k, old) ∷ rest) = ground (lookup-erase key at rest, arith)
