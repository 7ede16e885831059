-- ===== src/Requests.antt =====
-- irods/fs/collection.go and irods/fs/data_object.go: the requests below the file system, of the server's replies. The
-- attributes of a row are taken to be parsed, and a row that cannot be is a `broken` reply. An error code is
-- its absolute value.
pub mod Merging
pub mod Pages
mod Tests
use go_irodsclient.Base.{
  ℕ, suc, Bool, true, false, ◌==◌, ◌||◌, List, [], ◌∷◌, ◌++◌, Option, none, some, Bytes,
  if◌then◌else◌,
}
use go_irodsclient.Fs.Files.{
  Reply, ok, not_found, failed, IrodsCollection, IrodsDataObject, IrodsReplica,
}
use mathlib.Core.List.{map}

abbrev pub cat_no_rows_found : ℕ
cat_no_rows_found = 808000

abbrev pub cat_unknown_collection : ℕ
cat_unknown_collection = 814000

abbrev pub cat_unknown_file : ℕ
cat_unknown_file = 817000

-- The reply to a query: rows with the index at which to continue, an error code of the request or of the result, or
-- another error.
pub data QueryReply (A : Type 0) : Type 0 where
  page : List A → ℕ → QueryReply A
  refused : ℕ → QueryReply A
  broken : QueryReply A

-- The reply to a changing request.
pub data CheckReply : Type 0 where
  done : CheckReply
  refused_with : ℕ → CheckReply
  lost : CheckReply

-- A row of a query for data objects: one replica of one data object.
pub record DataObjectRow : Type 0 where
  pub id : ℕ
  pub path : Bytes
  pub size : ℕ
  pub replica : IrodsReplica

abbrev pub is_nil {ℓ} : {A : Type ℓ} → List A → Bool
is_nil [] = true
is_nil (x ∷ xs) = false

-- Whether the code says that a collection or a data object is unknown.
unfoldable pub is_unknown : ℕ → Bool
is_unknown code = (code == cat_unknown_collection) || (code == cat_unknown_file)

-- The errors of a query: for a listing no rows are the end of it, for one path they are that it is not found.
unfoldable pub query_error : {A : Type 0} → Bool → ℕ → List A → Reply (List A)
unfolding is_unknown
query_error listing code rows =
    if code == cat_no_rows_found
    then (if listing then ok rows else not_found)
    else if is_unknown code
    then not_found
    else failed

-- The loop of a paged query, over the replies to its requests; when they end, so has the connection.
unfoldable pub gather : {A : Type 0} → Bool → List (QueryReply A) → List A → Reply (List A)
unfolding query_error
gather listing [] rows = failed
gather listing (page found continue_index ∷ replies) rows =
    let rest = gather listing replies (rows ++ found) in
    if is_nil found then ok rows else if continue_index == 0 then ok (rows ++ found) else rest
gather listing (refused code ∷ replies) rows = query_error listing code rows
gather listing (broken ∷ replies) rows = failed

-- A row by itself, and into the data objects by identifier; they stay in the order of their first rows, where Go
-- leaves the order of its map open.
abbrev pub object_of : DataObjectRow → IrodsDataObject
object_of r = record { id = r.id; path = r.path; size = r.size; replicas = r.replica ∷ [] }

unfoldable pub merge_row : DataObjectRow → List IrodsDataObject → List IrodsDataObject
merge_row r [] = object_of r ∷ []
merge_row r (o ∷ os) =
    let rest = merge_row r os in
    if o.id == r.id then record o { replicas = o.replicas ++ r.replica ∷ [] } ∷ os else o ∷ rest

unfoldable pub merge_rows : List DataObjectRow → List IrodsDataObject → List IrodsDataObject
unfolding merge_row
merge_rows [] os = os
merge_rows (r ∷ rows) os = merge_rows rows (merge_row r os)

-- ListSubCollections and ListDataObjects.
unfoldable pub list_sub_collections :
    List (QueryReply IrodsCollection) → Reply (List IrodsCollection)
unfolding gather
list_sub_collections replies = gather true replies []

abbrev pub merged : Reply (List DataObjectRow) → Reply (List IrodsDataObject)
merged (ok rows) = ok (merge_rows rows [])
merged not_found = not_found
merged r = failed

unfoldable pub list_data_objects : List (QueryReply DataObjectRow) → Reply (List IrodsDataObject)
unfolding gather merge_rows
list_data_objects replies = merged (gather true replies [])

-- GetDataObject, which returns the first of the merged objects.
abbrev pub first_object : Reply (List IrodsDataObject) → Reply IrodsDataObject
first_object (ok []) = not_found
first_object (ok (o ∷ os)) = ok o
first_object not_found = not_found
first_object r = failed

unfoldable pub get_data_object : List (QueryReply DataObjectRow) → Reply IrodsDataObject
unfolding gather merge_rows
get_data_object replies = first_object (merged (gather false replies []))

-- GetCollection, which takes exactly one row.
unfoldable pub get_collection : QueryReply IrodsCollection → Reply IrodsCollection
unfolding is_unknown
get_collection (page (c ∷ []) continue_index) = ok c
get_collection (page rows continue_index) = not_found
get_collection (refused code) =
    if (code == cat_no_rows_found) || is_unknown code then not_found else failed
get_collection broken = failed

-- The errors of the changing requests on data objects and collections but CreateCollection.
unfoldable pub change_error : ℕ → Reply (Unit {0})
unfolding is_unknown
change_error code = if (code == cat_no_rows_found) || is_unknown code then not_found else failed

-- What the functions below do with the reply.
unfoldable pub change : CheckReply → Reply (Unit {0})
unfolding change_error
change done = ok tt
change (refused_with code) = change_error code
change lost = failed

abbrev pub move_data_object : CheckReply → Reply (Unit {0})
move_data_object r = change r

abbrev pub copy_data_object : CheckReply → Reply (Unit {0})
copy_data_object r = change r

abbrev pub truncate_data_object : CheckReply → Reply (Unit {0})
truncate_data_object r = change r

abbrev pub replicate_data_object : CheckReply → Reply (Unit {0})
replicate_data_object r = change r

abbrev pub move_collection : CheckReply → Reply (Unit {0})
move_collection r = change r

-- DeleteDataObject: with force, a data object that is not there is no error.
unfoldable pub delete_data_object : Bool → CheckReply → Reply (Unit {0})
unfolding change_error
delete_data_object force done = ok tt
delete_data_object force (refused_with code) =
    if force
    then (if (code == cat_no_rows_found) || (code == cat_unknown_file)
        then ok tt
        else change_error code)
    else change_error code
delete_data_object force lost = failed

-- CreateCollection
unfoldable pub create_collection : CheckReply → Reply (Unit {0})
create_collection done = ok tt
create_collection (refused_with code) = failed
create_collection lost = failed
