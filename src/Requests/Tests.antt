-- ===== src/Requests/Tests.antt =====
-- A listing of three replicas of two data objects, in two pages.
use go_irodsclient.Base.{ℕ, ◌≡◌, refl, true, false, List, [], ◌∷◌, Bytes, codes}
use go_irodsclient.Fs.Files.{ok, IrodsDataObject, failed, not_found}
use go_irodsclient.Requests.{
  QueryReply, page, DataObjectRow, list_data_objects, delete_data_object, refused_with,
  cat_unknown_file, cat_unknown_collection,
}
use go_irodsclient.Requests.Merging.{find_object, Distinct, rows_of, whole}
use go_irodsclient.Requests.Pages.{last, next, list_data_objects-Pages}

abbrev row : ℕ → Bytes → ℕ → DataObjectRow
row id path number = record {
  id = id;
  path = path;
  size = 20;
  replica = record { number = number; modify_time = 8 };
}

abbrev first_page : List DataObjectRow
first_page = row 5 (codes "/a/f") 0 ∷ row 6 (codes "/a/g") 0 ∷ []

abbrev second_page : List DataObjectRow
second_page = row 5 (codes "/a/f") 1 ∷ []

abbrev replies : List (QueryReply DataObjectRow)
replies = page first_page 1 ∷ page second_page 0 ∷ []

abbrev rows : List DataObjectRow
rows = row 5 (codes "/a/f") 0 ∷ row 6 (codes "/a/g") 0 ∷ row 5 (codes "/a/f") 1 ∷ []

two_objects :
    list_data_objects replies
    ≡ ok (
        record {
          id = 5;
          path = codes "/a/f";
          size = 20;
          replicas =
              record { number = 0; modify_time = 8 } ∷ record { number = 1; modify_time = 8 } ∷ [];
        }
        ∷ record {
          id = 6;
          path = codes "/a/g";
          size = 20;
          replicas = record { number = 0; modify_time = 8 } ∷ [];
        }
        ∷ [])
unfolding list_data_objects
two_objects = refl

list_data_objects-Pages_example :
    (os : List IrodsDataObject) × (list_data_objects replies ≡ ok os)
    × Distinct os
    × ((id : ℕ) → find_object id os ≡ whole (rows_of id rows))
list_data_objects-Pages_example = list_data_objects-Pages rows replies (
    next (row 5 (codes "/a/f") 0) (row 6 (codes "/a/g") 0 ∷ []) 0 second_page
      (page second_page 0 ∷ []) (last (row 5 (codes "/a/f") 1) [] []))

-- With force, a data object that is not there is deleted without an error, but not below an unknown collection.
forced :
    (delete_data_object true (refused_with cat_unknown_file) ≡ ok tt)
    × (delete_data_object true (refused_with cat_unknown_collection) ≡ not_found)
    × (delete_data_object false (refused_with cat_unknown_file) ≡ not_found)
    × (delete_data_object false (refused_with 24000) ≡ failed)
unfolding delete_data_object
forced = (refl, refl, refl, refl)
