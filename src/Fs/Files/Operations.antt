-- ===== src/Fs/Files/Operations.antt =====
-- fs/fs.go: listing, and the operations that change what the server holds. A changing operation returns its reply,
-- the state of the server and the file system.
use go_irodsclient.Base.{
  ℕ, Bool, List, [], ◌∷◌, ◌++◌, Option, none, some, Bytes, if◌then◌else◌, ◌>>=◌,
}
use go_irodsclient.Util.Path.{get_correct_irods_path}
use go_irodsclient.Fs.Cache.{GoCache, Entry, FileSystemCache}
use go_irodsclient.Fs.Cache.Paths.{
  get_entry_cache, remove_negative_entry_cache, add_dir_cache, get_dir_cache,
}
use go_irodsclient.Fs.Cache.Invalidate.{
  FileSystem, FilesystemCacheEventType, file_create, file_remove, file_update, dir_create,
  propagate, invalidate_cache_for_file_remove, invalidate_cache_for_file_create,
  invalidate_cache_for_file_update, invalidate_cache_for_dir_create,
}
use go_irodsclient.Fs.Files.{
  Reply, ok, not_found, already_exist, failed, Server, IrodsCollection, IrodsDataObject,
  new_entry_from_collection, new_entry_from_data_object, error_of, in_cache, remember, stat_dir,
  exists_reply,
}
use mathlib.Core.List.{map}

-- The entries of the collections, and of the data objects that have a replica.
unfoldable pub collection_entries : List IrodsCollection → List Entry
unfolding new_entry_from_collection
collection_entries cs = map new_entry_from_collection cs

unfoldable pub object_entries : List IrodsDataObject → List Entry
unfolding new_entry_from_data_object
object_entries [] = []
object_entries (o ∷ os) =
    let rest = object_entries os in
    elim o.replicas [ [] ↦ rest | first ∷ more ↦ new_entry_from_data_object o first ∷ rest ]

module _ (G : GoCache) where
  -- The entries of a cached listing, if all are cached.
  unfoldable pub cached_entries : ℕ → List Bytes → FileSystemCache G → Option (List Entry)
  unfolding get_entry_cache
  cached_entries now [] c = some []
  cached_entries now (p ∷ ps) c = do
    e ← get_entry_cache G now p c
    es ← cached_entries now ps c
    some (e ∷ es)

  abbrev pub cached_listing : ℕ → Option (List Bytes) → FileSystemCache G → Option (List Entry)
  cached_listing now none c = none
  cached_listing now (some ps) c = cached_entries now ps c

  unfoldable pub remove_negatives : List Entry → FileSystemCache G → FileSystemCache G
  unfolding remove_negative_entry_cache
  remove_negatives [] c = c
  remove_negatives (e ∷ es) c = remove_negatives es (remove_negative_entry_cache G e.path c)

  unfoldable pub remember_all : ℕ → List Entry → FileSystemCache G → FileSystemCache G
  unfolding remember
  remember_all now [] c = c
  remember_all now (e ∷ es) c = remember_all now es (remember G now e.path e c)

  -- What is behind both requests of listEntries.
  abbrev pub list_objects :
      ℕ
      → Bytes
      → List Entry
      → Reply (List IrodsDataObject)
      → FileSystem G
      → Reply (List Entry) × FileSystem G
  list_objects now p entries (ok os) fs =
      let found = object_entries os in
      let all = entries ++ found in
      (
        ok all,
        in_cache G (λ c. add_dir_cache G now p (map (λ e. e.path) all) (remember_all now found c))
            fs,
      )
  list_objects now p entries r fs = (error_of r failed, fs)

  abbrev pub list_collections :
      ℕ
      → Bytes
      → Reply (List IrodsCollection)
      → Reply (List IrodsDataObject)
      → FileSystem G
      → Reply (List Entry) × FileSystem G
  list_collections now p (ok cs) objects fs =
      let found = collection_entries cs in
      list_objects now p found objects (in_cache G (remember_all now found) fs)
  list_collections now p r objects fs = (error_of r failed, fs)

  -- A change of the caches and the event that tells the other file systems of it.
  abbrev pub changed :
      Bytes → FilesystemCacheEventType → (FileSystem G → FileSystem G) → FileSystem G → FileSystem G
  changed path event invalidate fs = propagate G path event (invalidate fs)

  unfoldable pub file_is_removed : ℕ → Bytes → FileSystem G → FileSystem G
  unfolding invalidate_cache_for_file_remove propagate
  file_is_removed now path fs =
      changed path file_remove (invalidate_cache_for_file_remove G now path) fs

  unfoldable pub file_is_created : ℕ → Bytes → FileSystem G → FileSystem G
  unfolding invalidate_cache_for_file_create propagate
  file_is_created now path fs =
      changed path file_create (invalidate_cache_for_file_create G now path) fs

  unfoldable pub file_is_updated : Bytes → FileSystem G → FileSystem G
  unfolding invalidate_cache_for_file_update propagate
  file_is_updated path fs = changed path file_update (invalidate_cache_for_file_update G path) fs

  unfoldable pub dir_is_created : ℕ → Bytes → FileSystem G → FileSystem G
  unfolding invalidate_cache_for_dir_create propagate
  dir_is_created now path fs =
      changed path dir_create (invalidate_cache_for_dir_create G now path) fs

  -- The end of MakeDir.
  unfoldable pub made_dir : ℕ → Bytes → FileSystem G → FileSystem G
  unfolding dir_is_created add_dir_cache
  made_dir now p fs = in_cache G (add_dir_cache G now p []) (dir_is_created now p fs)

  -- What RemoveFile does with the answer to DeleteDataObject.
  abbrev pub after_delete : ℕ → Bytes → Reply (Unit {0}) → FileSystem G → FileSystem G
  after_delete now path (ok _) fs = file_is_removed now path fs
  after_delete now path not_found fs = file_is_removed now path fs
  after_delete now path r fs = fs

  -- The same of an operation that changes the caches only if its request succeeds.
  abbrev pub if_ok : Reply (Unit {0}) → (FileSystem G → FileSystem G) → FileSystem G → FileSystem G
  if_ok (ok _) change fs = change fs
  if_ok r change fs = fs

module _ (G : GoCache) (S : Server) where
  abbrev pub cached_list :
      Option (List Entry)
      → Reply (List Entry) × FileSystem G
      → FileSystem G
      → Reply (List Entry) × FileSystem G
  cached_list none rest fs = rest
  cached_list (some es) rest fs = (ok es, in_cache G (remove_negatives G es) fs)

  unfoldable pub list_entries :
      ℕ → Bytes → S.State → FileSystem G → Reply (List Entry) × FileSystem G
  unfolding cached_entries remove_negatives remember_all object_entries collection_entries
      add_dir_cache get_dir_cache
  list_entries now p w fs =
      cached_list (cached_listing G now (get_dir_cache G now p fs.cache) fs.cache)
        (if S.metadata_connection w
          then list_collections G now p (S.list_sub_collections w p) (S.list_data_objects w p) fs
          else (failed, fs))
        fs

  unfoldable pub list : ℕ → Bytes → S.State → FileSystem G → Reply (List Entry) × FileSystem G
  unfolding get_correct_irods_path list_entries
  list now path w fs = list_entries now (get_correct_irods_path path) w fs

  -- What a changing operation returns: its reply, the state of the server and the file system.
  abbrev pub Outcome : Type 0
  Outcome = Reply (Unit {0}) × S.State × FileSystem G

  -- RemoveFile; `idle` is that no handle on the file stays open until the timeout.
  unfoldable pub remove_file : ℕ → Bytes → Bool → Bool → S.State → FileSystem G → Outcome
  unfolding get_correct_irods_path file_is_removed
  remove_file now path force idle w fs =
      let p = get_correct_irods_path path in
      let (r, v) = S.delete_data_object p force w in
      if S.io_connection w
      then (if idle then (r, v, after_delete G now p r fs) else (failed, w, fs))
      else (failed, w, fs)

  unfoldable pub copy_file_to_file : ℕ → Bytes → Bytes → Bool → S.State → FileSystem G → Outcome
  unfolding get_correct_irods_path file_is_created
  copy_file_to_file now src_path dest_path force w fs =
      let src = get_correct_irods_path src_path in
      let dest = get_correct_irods_path dest_path in
      let (r, v) = S.copy_data_object src dest force w in
      if S.io_connection w
      then (r, v, if_ok G r (file_is_created G now dest) fs)
      else (failed, w, fs)

  -- TruncateFile; a negative size is 0.
  unfoldable pub truncate_file : Bytes → ℕ → S.State → FileSystem G → Outcome
  unfolding get_correct_irods_path file_is_updated
  truncate_file path size w fs =
      let p = get_correct_irods_path path in
      let (r, v) = S.truncate_data_object p size w in
      if S.io_connection w then (r, v, if_ok G r (file_is_updated G p) fs) else (failed, w, fs)

  unfoldable pub replicate_file : Bytes → Bytes → Bool → S.State → FileSystem G → Outcome
  unfolding get_correct_irods_path file_is_updated
  replicate_file path resource update w fs =
      let p = get_correct_irods_path path in
      let (r, v) = S.replicate_data_object p resource update w in
      if S.io_connection w then (r, v, if_ok G r (file_is_updated G p) fs) else (failed, w, fs)

  unfoldable pub make_dir : ℕ → Bytes → Bool → S.State → FileSystem G → Outcome
  unfolding get_correct_irods_path stat_dir exists_reply made_dir
  make_dir now path recurse w fs =
      let p = get_correct_irods_path path in
      let (found, seen) = stat_dir G S now path w fs in
      let (r, v) = S.create_collection p recurse w in
      if S.io_connection w
      then (if exists_reply found
          then ((if recurse then ok tt else already_exist), w, seen)
          else (r, v, if_ok G r (made_dir G now p) seen))
      else (failed, w, fs)
