-- ===== src/Requests/Merging.antt =====
-- The rows of a query for data objects become one data object for each identifier.
use go_irodsclient.Base.{
  ℕ, ◌≡◌, refl, ◌∙◌, Bool, true, false, ◌==◌, ◌||◌, List, [], ◌∷◌, ◌++◌, append_assoc, append-nil,
  Option, none, some, if◌then◌else◌, arith, Bool-cases, inl, inr,
}
use go_irodsclient.Fs.Files.{IrodsDataObject}
use go_irodsclient.Requests.{DataObjectRow, object_of, merge_row, merge_rows}
use mathlib.Core.List.{map}

unfoldable pub find_object : ℕ → List IrodsDataObject → Option IrodsDataObject
find_object id [] = none
find_object id (o ∷ os) = let rest = find_object id os in if o.id == id then some o else rest

abbrev pub has_id : ℕ → List IrodsDataObject → Bool
has_id id [] = false
has_id id (o ∷ os) = (o.id == id) || has_id id os

-- Every identifier is there once.
abbrev pub Distinct : List IrodsDataObject → Type 0
Distinct [] = Unit
Distinct (o ∷ os) = (has_id o.id os ≡ false) × Distinct os

-- The rows of one identifier.
unfoldable pub rows_of : ℕ → List DataObjectRow → List DataObjectRow
rows_of id [] = []
rows_of id (r ∷ rows) = let rest = rows_of id rows in if r.id == id then r ∷ rest else rest

-- The data object that rows describe: the first one, with the replicas of all, in their order.
abbrev pub whole : List DataObjectRow → Option IrodsDataObject
whole [] = none
whole (r ∷ rows) = some (record {
  id = r.id;
  path = r.path;
  size = r.size;
  replicas = r.replica ∷ map (λ r. r.replica) rows;
})

abbrev extend : DataObjectRow → Option IrodsDataObject → IrodsDataObject
extend r none = object_of r
extend r (some o) = record o { replicas = o.replicas ++ r.replica ∷ [] }

abbrev absorb : List DataObjectRow → Option IrodsDataObject → Option IrodsDataObject
absorb [] found = found
absorb (r ∷ rows) found = absorb rows (some (extend r found))

find_object-merge_row :
    (id : ℕ) (r : DataObjectRow) (os : List IrodsDataObject)
    → find_object id (merge_row r os)
      ≡ (if r.id == id then some (extend r (find_object id os)) else find_object id os)
unfolding find_object merge_row
find_object-merge_row id r [] = ground arith
find_object-merge_row id r (o ∷ os) = elim (Bool-cases (o.id == r.id)) [
  | inl e ↦ elim (Bool-cases (o.id == id)) [
    | inl f ↦ let g : (r.id == id) ≡ true = ground (arith, e, f) in rw (e, f, g) refl
    | inr f ↦ let g : (r.id == id) ≡ false = ground (arith, e, f) in rw (e, f, g) refl
  ]
  | inr e ↦ elim (Bool-cases (o.id == id)) [
    | inl f ↦ let g : (r.id == id) ≡ false = ground (arith, e, f) in rw (e, f, g) refl
    | inr f ↦ rw (e, f) (find_object-merge_row id r os)
  ]
]

find_object-merge_rows :
    (id : ℕ) (rows : List DataObjectRow) (os : List IrodsDataObject)
    → find_object id (merge_rows rows os) ≡ absorb (rows_of id rows) (find_object id os)
unfolding merge_rows rows_of
find_object-merge_rows id [] os = refl
find_object-merge_rows id (r ∷ rows) os =
    find_object-merge_rows id rows (merge_row r os)
    ∙ rw (find_object-merge_row id r os)
        (elim (Bool-cases (r.id == id)) [ inl e ↦ rw e refl | inr e ↦ rw e refl ])

absorb-some :
    (rows : List DataObjectRow) (o : IrodsDataObject)
    → absorb rows (some o) ≡ some (record o { replicas = o.replicas ++ map (λ r. r.replica) rows })
absorb-some [] o = rw append-nil refl
absorb-some (r ∷ rows) o = absorb-some rows (extend r (some o)) ∙ rw append_assoc refl

absorb-none : (rows : List DataObjectRow) → absorb rows none ≡ whole rows
absorb-none [] = refl
absorb-none (r ∷ rows) = absorb-some rows (object_of r)

pub find_object-whole :
    (id : ℕ) (rows : List DataObjectRow)
    → find_object id (merge_rows rows []) ≡ whole (rows_of id rows)
unfolding find_object
find_object-whole id rows = find_object-merge_rows id rows [] ∙ absorb-none (rows_of id rows)

has_id-merge_row :
    (id : ℕ) (r : DataObjectRow) (os : List IrodsDataObject)
    → has_id id (merge_row r os) ≡ has_id id os || (r.id == id)
unfolding merge_row
has_id-merge_row id r [] = ground arith
has_id-merge_row id r (o ∷ os) = elim (Bool-cases (o.id == r.id)) [
  | inl e ↦ rw e (ground (arith, e))
  | inr e ↦ rw (e, has_id-merge_row id r os) (ground arith)
]

merge_row-Distinct :
    (r : DataObjectRow) (os : List IrodsDataObject) → Distinct os → Distinct (merge_row r os)
unfolding merge_row
merge_row-Distinct r [] h = (refl, tt)
merge_row-Distinct r (o ∷ os) (h, hs) = elim (Bool-cases (o.id == r.id)) [
  | inl e ↦ rw e (h, hs)
  | inr e ↦ rw e (has_id-merge_row o.id r os ∙ ground (arith, h, e), merge_row-Distinct r os hs)
]

pub merge_rows-Distinct :
    (rows : List DataObjectRow) (os : List IrodsDataObject)
    → Distinct os
    → Distinct (merge_rows rows os)
unfolding merge_rows
merge_rows-Distinct [] os h = h
merge_rows-Distinct (r ∷ rows) os h =
    merge_rows-Distinct rows (merge_row r os) (merge_row-Distinct r os h)
