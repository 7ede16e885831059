-- ===== src/Fs/Files/Settings.antt =====
-- No operation changes the configuration of the caches.
use go_irodsclient.Base.{
  ℕ, ◌≡◌, refl, ◌∙◌, Bool, true, false, List, [], ◌∷◌, Option, none, some, Bytes, arith, leb,
  Bool-cases, inl, inr, if◌then◌else◌,
}
use go_irodsclient.Base.TextMaps.{has_text}
use go_irodsclient.Util.Path.{get_irods_path_dirname}
use go_irodsclient.Fs.Cache.{GoCache, file_entry, directory_entry, Entry, FileSystemCache}
use go_irodsclient.Fs.Cache.Paths.{
  add_entry_cache, remove_negative_entry_cache, add_negative_entry_cache, add_dir_cache,
  get_entry_cache, get_dir_cache, has_negative_entry_cache,
}
use go_irodsclient.Fs.Cache.Invalidate.{FileSystem}
use go_irodsclient.Fs.Files.{
  Reply, ok, not_found, already_exist, failed, panic, Server, IrodsCollection, IrodsDataObject,
  IrodsReplica, remember, found_collection, with_replica, get_data_object_with_connection_no_cache,
  get_data_object_with_connection, get_collection_no_cache, get_data_object_no_cache,
  get_collection, get_data_object, else_missing, else_data_object, stat_server, stat_listed,
  stat_correct, cached_or, missing, of_kind, new_entry_from_collection, new_entry_from_data_object,
}

module _ (G : GoCache) where
  -- Whether a file system is left with the configuration of another.
  abbrev pub Kept : FileSystem G → FileSystem G → Type 0
  Kept after fs = after.cache.config ≡ fs.cache.config

  pub config-add_dir_cache :
      (now : ℕ) (p : Bytes) (ps : List Bytes) (c : FileSystemCache G)
      → (add_dir_cache G now p ps c).config ≡ c.config
  unfolding add_dir_cache
  config-add_dir_cache now p ps c = ground arith

  config-add_negative_entry_cache :
      (now : ℕ) (p : Bytes) (c : FileSystemCache G)
      → (add_negative_entry_cache G now p c).config ≡ c.config
  unfolding add_negative_entry_cache
  config-add_negative_entry_cache now p c = ground arith

  pub config-remember :
      (now : ℕ) (p : Bytes) (e : Entry) (c : FileSystemCache G)
      → (remember G now p e c).config ≡ c.config
  unfolding remember add_entry_cache remove_negative_entry_cache
  config-remember now p e c = ground arith

  found_collection-Kept :
      (now : ℕ) (p : Bytes) (r : Reply IrodsCollection) (fs : FileSystem G)
      → Kept (found_collection G now p r fs).1 fs
  unfolding found_collection
  found_collection-Kept now p (ok c) fs = elim (Bool-cases (leb 1 c.id)) [
    | inl e ↦ rw e (config-remember now p (new_entry_from_collection c) fs.cache)
    | inr e ↦ rw e refl
  ]
  found_collection-Kept now p not_found fs = refl
  found_collection-Kept now p already_exist fs = refl
  found_collection-Kept now p failed fs = refl
  found_collection-Kept now p panic fs = refl

  with_replica-Kept :
      (now : ℕ) (p : Bytes) (o : IrodsDataObject) (rs : List IrodsReplica) (fs : FileSystem G)
      → Kept (with_replica G now p o rs fs).1 fs
  with_replica-Kept now p o [] fs = refl
  with_replica-Kept now p o (first ∷ rest) fs =
      config-remember now p (new_entry_from_data_object o first) fs.cache

  found_data_object-Kept :
      (now : ℕ) (p : Bytes) (r : Reply IrodsDataObject) (fs : FileSystem G)
      → Kept (get_data_object_with_connection_no_cache G now p r fs).1 fs
  unfolding get_data_object_with_connection_no_cache
  found_data_object-Kept now p (ok o) fs = elim (Bool-cases (leb 1 o.id)) [
    | inl e ↦ rw e (with_replica-Kept now p o o.replicas fs)
    | inr e ↦ rw e refl
  ]
  found_data_object-Kept now p not_found fs = refl
  found_data_object-Kept now p already_exist fs = refl
  found_data_object-Kept now p failed fs = refl
  found_data_object-Kept now p panic fs = refl

  either_Kept :
      (b : Bool) (fs : FileSystem G) (x y : Reply Entry × FileSystem G)
      → Kept x.1 fs
      → Kept y.1 fs
      → Kept (if b then x else y).1 fs
  either_Kept true fs x y h k = h
  either_Kept false fs x y h k = k

  cached_or-Kept :
      (o : Option Entry) (fs : FileSystem G) (rest : Reply Entry × FileSystem G)
      → Kept rest.1 fs
      → Kept (cached_or G o fs rest).1 fs
  cached_or-Kept none fs rest h = h
  cached_or-Kept (some e) fs rest h = refl

module _ (G : GoCache) (S : Server) (now : ℕ) (p : Bytes) (w : S.State) where
  get_collection_no_cache-Kept :
      (fs : FileSystem G) → Kept G (get_collection_no_cache G S now p w fs).1 fs
  unfolding get_collection_no_cache
  get_collection_no_cache-Kept fs =
      either_Kept G (S.metadata_connection w) fs
        (found_collection G now p (S.get_collection w p) fs) (failed, fs)
        (found_collection-Kept G now p (S.get_collection w p) fs) refl

  get_data_object_no_cache-Kept :
      (fs : FileSystem G) → Kept G (get_data_object_no_cache G S now p w fs).1 fs
  unfolding get_data_object_no_cache
  get_data_object_no_cache-Kept fs =
      either_Kept G (S.metadata_connection w) fs
        (get_data_object_with_connection_no_cache G now p (S.get_data_object w p) fs) (failed, fs)
        (found_data_object-Kept G now p (S.get_data_object w p) fs) refl

  pub get_collection-Kept : (fs : FileSystem G) → Kept G (get_collection G S now p w fs).1 fs
  unfolding get_collection
  get_collection-Kept fs =
      let rest = get_collection_no_cache G S now p w fs in
      let o = of_kind G directory_entry (get_entry_cache G now p fs.cache) in
      either_Kept G (has_negative_entry_cache G now p fs.cache) fs (not_found, fs)
        (cached_or G o fs rest) refl (cached_or-Kept G o fs rest (get_collection_no_cache-Kept fs))

  pub get_data_object_with_connection-Kept :
      (fs : FileSystem G) → Kept G (get_data_object_with_connection G S now p w fs).1 fs
  unfolding get_data_object_with_connection
  get_data_object_with_connection-Kept fs =
      let rest = get_data_object_with_connection_no_cache G now p (S.get_data_object w p) fs in
      let o = of_kind G file_entry (get_entry_cache G now p fs.cache) in
      either_Kept G (has_negative_entry_cache G now p fs.cache) fs (not_found, fs)
        (cached_or G o fs rest) refl
        (cached_or-Kept G o fs rest (found_data_object-Kept G now p (S.get_data_object w p) fs))

  pub get_data_object-Kept : (fs : FileSystem G) → Kept G (get_data_object G S now p w fs).1 fs
  unfolding get_data_object
  get_data_object-Kept fs =
      let rest = get_data_object_no_cache G S now p w fs in
      let o = of_kind G file_entry (get_entry_cache G now p fs.cache) in
      either_Kept G (has_negative_entry_cache G now p fs.cache) fs (not_found, fs)
        (cached_or G o fs rest) refl (cached_or-Kept G o fs rest (get_data_object_no_cache-Kept fs))

  missing-Kept : (fs : FileSystem G) → Kept G (missing G S now p fs).1 fs
  missing-Kept fs = config-add_negative_entry_cache G now p fs.cache

  else_missing-Kept :
      (r : Reply Entry × FileSystem G) (fs : FileSystem G)
      → Kept G r.1 fs
      → Kept G (else_missing G S now p r).1 fs
  else_missing-Kept (ok e, gs) fs h = h
  else_missing-Kept (not_found, gs) fs h = missing-Kept gs ∙ h
  else_missing-Kept (already_exist, gs) fs h = h
  else_missing-Kept (failed, gs) fs h = h
  else_missing-Kept (panic, gs) fs h = h

  else_data_object-Kept :
      (r : Reply Entry × FileSystem G) (fs : FileSystem G)
      → Kept G r.1 fs
      → Kept G (else_data_object G S now p w r).1 fs
  else_data_object-Kept (ok e, gs) fs h = h
  else_data_object-Kept (not_found, gs) fs h =
      else_missing-Kept (get_data_object_no_cache G S now p w gs) fs
        (get_data_object_no_cache-Kept gs ∙ h)
  else_data_object-Kept (already_exist, gs) fs h = h
  else_data_object-Kept (failed, gs) fs h = h
  else_data_object-Kept (panic, gs) fs h = h

  stat_server-Kept : (fs : FileSystem G) → Kept G (stat_server G S now p w fs).1 fs
  unfolding stat_server
  stat_server-Kept fs =
      else_data_object-Kept (get_collection_no_cache G S now p w fs) fs
        (get_collection_no_cache-Kept fs)

  stat_listed-Kept :
      (listed : Option (List Bytes)) (fs : FileSystem G)
      → Kept G (stat_listed G S now p w listed fs).1 fs
  unfolding stat_listed
  stat_listed-Kept none fs = stat_server-Kept fs
  stat_listed-Kept (some ps) fs =
      either_Kept G (has_text p ps) fs (stat_server G S now p w fs) (missing G S now p fs)
        (stat_server-Kept fs) (missing-Kept fs)

  pub stat_correct-Kept : (fs : FileSystem G) → Kept G (stat_correct G S now p w fs).1 fs
  unfolding stat_correct
  stat_correct-Kept fs =
      let listed = get_dir_cache G now (get_irods_path_dirname p) fs.cache in
      let rest = stat_listed G S now p w listed fs in
      let o = get_entry_cache G now p fs.cache in
      either_Kept G (has_negative_entry_cache G now p fs.cache) fs (not_found, fs)
        (cached_or G o fs rest) refl (cached_or-Kept G o fs rest (stat_listed-Kept listed fs))
