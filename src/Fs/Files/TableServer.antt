-- ===== src/Fs/Files/TableServer.antt =====
-- An implementation of the server's interface by a table, for runs of the code with it. It refuses to move
-- and to remove collections.
use go_irodsclient.Base.{
  ℕ, suc, Bool, true, false, not, ◌&&◌, ◌||◌, List, [], ◌∷◌, Option, none, some, Bytes,
  if◌then◌else◌, length,
}
use go_irodsclient.Base.Text.{eq_text}
use go_irodsclient.Base.TextMaps.{find, put, remove_key}
use go_irodsclient.Util.Path.{get_irods_path_dirname}
use go_irodsclient.Fs.Cache.{Entry}
use go_irodsclient.Fs.Files.{
  Reply, ok, not_found, failed, Server, IrodsCollection, IrodsDataObject, IrodsReplica,
  new_entry_from_collection, new_entry_from_data_object,
}
use go_irodsclient.Fs.Files.Catalog.{Catalog}

-- A collection by its identifier less one and its time, a data object with its size between them.
pub data Leaf : Type 0 where
  dir_leaf : ℕ → ℕ → Leaf
  file_leaf : ℕ → ℕ → ℕ → Leaf

abbrev pub Table : Type 0
Table = List (Bytes × Leaf)

abbrev pub collection_at : Bytes → ℕ → ℕ → IrodsCollection
collection_at p id time = record { id = suc id; path = p; modify_time = time }

abbrev pub replica_at : ℕ → IrodsReplica
replica_at time = record { number = 0; modify_time = time }

abbrev pub object_at : Bytes → ℕ → ℕ → ℕ → IrodsDataObject
object_at p id size time = record {
  id = suc id;
  path = p;
  size = size;
  replicas = replica_at time ∷ [];
}

abbrev pub entry_of : Bytes → Option Leaf → Option Entry
entry_of p none = none
entry_of p (some (dir_leaf id time)) = some (new_entry_from_collection (collection_at p id time))
entry_of p (some (file_leaf id size time)) =
    some (new_entry_from_data_object (object_at p id size time) (replica_at time))

abbrev pub view : Table → Catalog
view w p = entry_of p (find p w)

abbrev pub collection_reply : Bytes → Option Leaf → Reply IrodsCollection
collection_reply p none = not_found
collection_reply p (some (dir_leaf id time)) = ok (collection_at p id time)
collection_reply p (some (file_leaf id size time)) = not_found

abbrev pub object_reply : Bytes → Option Leaf → Reply IrodsDataObject
object_reply p none = not_found
object_reply p (some (dir_leaf id time)) = not_found
object_reply p (some (file_leaf id size time)) = ok (object_at p id size time)

abbrev pub is_child : Bytes → Bytes → Bool
is_child p k = eq_text (get_irods_path_dirname k) p && not (eq_text k p)

abbrev pub sub_collections : Table → Bytes → List IrodsCollection
sub_collections [] p = []
sub_collections ((k, dir_leaf id time) ∷ rest) p =
    let found = sub_collections rest p in
    if is_child p k then collection_at k id time ∷ found else found
sub_collections ((k, file_leaf id size time) ∷ rest) p = sub_collections rest p

abbrev pub objects : Table → Bytes → List IrodsDataObject
objects [] p = []
objects ((k, dir_leaf id time) ∷ rest) p = objects rest p
objects ((k, file_leaf id size time) ∷ rest) p =
    let found = objects rest p in if is_child p k then object_at k id size time ∷ found else found

abbrev pub has_child : Bytes → Table → Bool
has_child p [] = false
has_child p ((k, leaf) ∷ rest) = eq_text (get_irods_path_dirname k) p || has_child p rest

-- The changing requests, of what is found at the paths.
abbrev pub delete_found : Bytes → Table → Option Leaf → Reply (Unit {0}) × Table
delete_found p w none = (not_found, w)
delete_found p w (some (dir_leaf id time)) = (not_found, w)
delete_found p w (some (file_leaf id size time)) = (ok tt, remove_key p w)

abbrev pub update_found : Bytes → (ℕ → ℕ) → Table → Option Leaf → Reply (Unit {0}) × Table
update_found p resize w none = (not_found, w)
update_found p resize w (some (dir_leaf id time)) = (not_found, w)
update_found p resize w (some (file_leaf id size time)) =
    (ok tt, put p (file_leaf id (resize size) (suc time)) w)

abbrev pub create_if : Bool → Bytes → Leaf → Table → Reply (Unit {0}) × Table
create_if b p leaf w = if b then (ok tt, put p leaf w) else (failed, w)

abbrev pub is_absent : Option Leaf → Bool
is_absent none = true
is_absent (some leaf) = false

-- The place of a new entry: absent and not the root.
abbrev pub is_free : Bytes → Table → Bool
is_free p w = is_absent (find p w) && not (eq_text (get_irods_path_dirname p) p)

abbrev pub copy_found : Bytes → Table → Option Leaf → Reply (Unit {0}) × Table
copy_found dest w none = (not_found, w)
copy_found dest w (some (dir_leaf id time)) = (not_found, w)
copy_found dest w (some (file_leaf id size time)) =
    create_if (is_free dest w) dest (file_leaf (length w) size (suc time)) w

abbrev pub move_to : Bytes → Leaf → Table → Table → Reply (Unit {0}) × Table
move_to dest leaf rest w = if is_free dest rest then (ok tt, put dest leaf rest) else (failed, w)

abbrev pub move_found : Bytes → Bytes → Table → Option Leaf → Reply (Unit {0}) × Table
move_found src dest w none = (not_found, w)
move_found src dest w (some (dir_leaf id time)) = (not_found, w)
move_found src dest w (some (file_leaf id size time)) =
    move_to dest (file_leaf id size time) (remove_key src w) w

abbrev pub table : Server
table = record {
  State = Table;
  metadata_connection = λ w. true;
  io_connection = λ w. true;
  get_collection = λ w p. collection_reply p (find p w);
  get_data_object = λ w p. object_reply p (find p w);
  list_sub_collections = λ w p. ok (sub_collections w p);
  list_data_objects = λ w p. ok (objects w p);
  create_collection =
      λ p recurse w. create_if (is_free p w && not (has_child p w)) p (dir_leaf (length w) 0) w;
  delete_collection = λ p recurse force w. (failed, w);
  move_collection = λ src dest w. (failed, w);
  delete_data_object = λ p force w. delete_found p w (find p w);
  move_data_object = λ src dest w. move_found src dest w (find src w);
  copy_data_object = λ src dest force w. copy_found dest w (find src w);
  truncate_data_object = λ p size w. update_found p (λ _. size) w (find p w);
  replicate_data_object = λ p resource update w. update_found p (λ size. size) w (find p w);
}
