-- ===== src/Requests/Pages.antt =====
-- Paged queries, and what the listings and GetDataObject make of them.
use go_irodsclient.Base.{
  ℕ, suc, ◌≡◌, refl, ap, ◌∙◌, Bool, true, false, ◌==◌, List, [], ◌∷◌, ◌++◌, append_assoc,
  append-nil, Option, none, some, All, arith,
}
use go_irodsclient.Fs.Files.{Reply, ok, not_found, IrodsCollection, IrodsDataObject}
use go_irodsclient.Requests.{
  QueryReply, page, refused, cat_no_rows_found, query_error, gather, DataObjectRow, object_of,
  merge_row, merge_rows, list_sub_collections, list_data_objects, get_data_object, first_object,
  merged,
}
use go_irodsclient.Requests.Merging.{
  find_object, Distinct, rows_of, whole, find_object-whole, merge_rows-Distinct,
}

-- Replies that bring rows in pages: the last page has no index at which to continue, or an empty page follows, or, in a
-- listing, the error for no rows. What would come after is not asked for.
pub data Pages {A : Type 0} (listing : Bool) : List A → List (QueryReply A) → Type 0 where
  last :
      (a : A) (found : List A) (more : List (QueryReply A))
      → Pages listing (a ∷ found) (page (a ∷ found) 0 ∷ more)
  empty : (index : ℕ) (more : List (QueryReply A)) → Pages listing [] (page [] index ∷ more)
  none_left :
      (more : List (QueryReply A))
      → listing ≡ true
      → Pages listing [] (refused cat_no_rows_found ∷ more)
  next :
      (a : A) (found : List A) (index : ℕ) (rows : List A) (replies : List (QueryReply A))
      → Pages listing rows replies
      → Pages listing (a ∷ (found ++ rows)) (page (a ∷ found) (suc index) ∷ replies)

gather-Pages :
    {A : Type 0} (listing : Bool) (rows : List A) (replies : List (QueryReply A)) (before : List A)
    → Pages listing rows replies
    → gather listing replies before ≡ ok (before ++ rows)
unfolding gather query_error
gather-Pages listing rows replies before (last a found more) = refl
gather-Pages listing rows replies before (empty index more) = rw append-nil refl
gather-Pages listing rows replies before (none_left more e) = rw (e, append-nil) refl
gather-Pages listing rows replies before (next a found index rest later p) =
    let more : (suc index == 0) ≡ false = ground arith in
    rw more (gather-Pages listing rest later (before ++ a ∷ found) p ∙ rw append_assoc refl)

-- ListSubCollections gives the rows of the query in their order, however the server divides them into pages.
pub list_sub_collections-Pages :
    (rows : List IrodsCollection) (replies : List (QueryReply IrodsCollection))
    → Pages true rows replies
    → list_sub_collections replies ≡ ok rows
unfolding list_sub_collections
list_sub_collections-Pages rows replies p = gather-Pages true rows replies [] p

-- However the server divides the rows of the query into pages, ListDataObjects succeeds with each identifier of the rows
-- once, and no other, and its data object has the path and the size of its first row and the replicas of
-- all its rows in their order.
pub list_data_objects-Pages :
    (rows : List DataObjectRow) (replies : List (QueryReply DataObjectRow))
    → Pages true rows replies
    → (os : List IrodsDataObject) × (list_data_objects replies ≡ ok os)
      × Distinct os
      × ((id : ℕ) → find_object id os ≡ whole (rows_of id rows))
unfolding list_data_objects
list_data_objects-Pages rows replies p = (
  merge_rows rows [],
  ap merged (gather-Pages true rows replies [] p),
  merge_rows-Distinct rows [] tt,
  λ id. find_object-whole id rows,
)

merge_rows-one :
    (o : IrodsDataObject) (rows : List DataObjectRow)
    → All (λ r. r.id ≡ o.id) rows
    → (p : IrodsDataObject) × (merge_rows rows (o ∷ []) ≡ p ∷ []) × (p.id ≡ o.id)
unfolding merge_rows merge_row
merge_rows-one o [] hs = (o, refl, refl)
merge_rows-one o (r ∷ rows) (h, hs) =
    let same : (o.id == r.id) ≡ true = ground (arith, h) in
    let grown : IrodsDataObject = record o { replicas = o.replicas ++ r.replica ∷ [] } in
    let (p, e, f) = merge_rows-one grown rows hs in (p, (rw same e), f)

rows_of-All :
    (id : ℕ) (rows : List DataObjectRow) → All (λ r. r.id ≡ id) rows → rows_of id rows ≡ rows
unfolding rows_of
rows_of-All id [] hs = refl
rows_of-All id (r ∷ rows) (h, hs) =
    let same : (r.id == id) ≡ true = ground (arith, h) in
    rw same (ap (λ rs. r ∷ rs) (rows_of-All id rows hs))

-- The answer that rows of one identifier stand for.
abbrev pub reply_of_rows : Option IrodsDataObject → Reply IrodsDataObject
reply_of_rows none = not_found
reply_of_rows (some o) = ok o

first_of_one :
    (id : ℕ) (os : List IrodsDataObject) (p : IrodsDataObject)
    → os ≡ p ∷ []
    → p.id ≡ id
    → first_object (ok os) ≡ reply_of_rows (find_object id os)
unfolding find_object
first_of_one id os p e h = let same : (p.id == id) ≡ true = ground (arith, h) in rw e (rw same refl)

one_object :
    (id : ℕ) (rows : List DataObjectRow)
    → All (λ r. r.id ≡ id) rows
    → first_object (merged (ok rows)) ≡ reply_of_rows (whole rows)
unfolding merge_rows merge_row
one_object id [] hs = refl
one_object id (r ∷ rows) (h, hs) =
    let all : All (λ s. s.id ≡ r.id) rows = rw h hs in
    let (p, e, f) = merge_rows-one (object_of r) rows all in
    first_of_one id (merge_rows (r ∷ rows) []) p e (f ∙ h)
    ∙ ap reply_of_rows
        (find_object-whole id (r ∷ rows) ∙ ap whole (rows_of-All id (r ∷ rows) (h, hs)))

-- If all rows of the query for a path are of one data object, then GetDataObject, however the server divides them into
-- pages, gives that object with the path and the size of the first row and the replicas of all rows in their
-- order, and says that it is not found if there are no rows.
pub get_data_object-Pages :
    (id : ℕ) (rows : List DataObjectRow) (replies : List (QueryReply DataObjectRow))
    → Pages false rows replies
    → All (λ r. r.id ≡ id) rows
    → get_data_object replies ≡ reply_of_rows (whole rows)
unfolding get_data_object
get_data_object-Pages id rows replies p hs =
    ap (λ r. first_object (merged r)) (gather-Pages false rows replies [] p) ∙ one_object id rows hs
