-- ===== src/Fs/Files/ListSettings.antt =====
-- List does not change the configuration of the caches.
use go_irodsclient.Base.{
  ℕ, ◌≡◌, refl, ◌∙◌, Bool, true, false, List, [], ◌∷◌, Bytes, arith, ◌++◌, Option-cases, inl, inr,
  if◌then◌else◌,
}
use go_irodsclient.Fs.Cache.{GoCache, Entry, FileSystemCache}
use go_irodsclient.Fs.Cache.Paths.{remove_negative_entry_cache, get_dir_cache}
use go_irodsclient.Fs.Cache.Invalidate.{FileSystem}
use go_irodsclient.Fs.Files.{
  Reply, ok, not_found, already_exist, failed, panic, Server, IrodsCollection, IrodsDataObject,
  remember, in_cache,
}
use go_irodsclient.Fs.Files.Operations.{
  collection_entries, object_entries, cached_listing, remove_negatives, remember_all, list_objects,
  list_collections, list_entries,
}
use mathlib.Core.List.{map}
use go_irodsclient.Fs.Files.Settings.{Kept, config-remember, config-add_dir_cache}

module _ (G : GoCache) (now : ℕ) where
  config-remember_all :
      (es : List Entry) (c : FileSystemCache G) → (remember_all G now es c).config ≡ c.config
  unfolding remember_all
  config-remember_all [] c = refl
  config-remember_all (e ∷ es) c =
      config-remember_all es (remember G now e.path e c) ∙ config-remember G now e.path e c

  config-remove_negatives :
      (es : List Entry) (c : FileSystemCache G) → (remove_negatives G es c).config ≡ c.config
  unfolding remove_negatives remove_negative_entry_cache
  config-remove_negatives [] c = refl
  config-remove_negatives (e ∷ es) c =
      config-remove_negatives es (remove_negative_entry_cache G e.path c) ∙ ground arith

  list_objects-Kept :
      (p : Bytes) (entries : List Entry) (r : Reply (List IrodsDataObject)) (fs : FileSystem G)
      → Kept G (list_objects G now p entries r fs).1 fs
  list_objects-Kept p entries (ok os) fs =
      let found = object_entries os in
      config-add_dir_cache G now p (map (λ e. e.path) (entries ++ found))
        (remember_all G now found fs.cache)
      ∙ config-remember_all found fs.cache
  list_objects-Kept p entries not_found fs = refl
  list_objects-Kept p entries already_exist fs = refl
  list_objects-Kept p entries failed fs = refl
  list_objects-Kept p entries panic fs = refl

  list_collections-Kept :
      (p : Bytes) (r : Reply (List IrodsCollection)) (objects : Reply (List IrodsDataObject))
      (fs : FileSystem G)
      → Kept G (list_collections G now p r objects fs).1 fs
  list_collections-Kept p (ok cs) objects fs =
      let found = collection_entries cs in
      list_objects-Kept p found objects (in_cache G (remember_all G now found) fs)
      ∙ config-remember_all found fs.cache
  list_collections-Kept p not_found objects fs = refl
  list_collections-Kept p already_exist objects fs = refl
  list_collections-Kept p failed objects fs = refl
  list_collections-Kept p panic objects fs = refl

  server_Kept :
      (b : Bool) (fs : FileSystem G) (x : Reply (List Entry) × FileSystem G)
      → Kept G x.1 fs
      → Kept G (if b then x else (failed, fs)).1 fs
  server_Kept true fs x h = h
  server_Kept false fs x h = refl

  pub list_entries-Kept :
      (S : Server) (p : Bytes) (w : S.State) (fs : FileSystem G)
      → Kept G (list_entries G S now p w fs).1 fs
  unfolding list_entries
  list_entries-Kept S p w fs =
      let rest =
        list_collections G now p (S.list_sub_collections w p) (S.list_data_objects w p) fs in
      let h =
        server_Kept (S.metadata_connection w) fs rest
          (list_collections-Kept p (S.list_sub_collections w p) (S.list_data_objects w p) fs) in
      elim (Option-cases (cached_listing G now (get_dir_cache G now p fs.cache) fs.cache)) [
        | inl e ↦ rw e h
        | inr (es, e) ↦ rw e (config-remove_negatives es fs.cache)
      ]
