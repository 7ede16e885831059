-- ===== src/Fs/Cache/Invalidate.antt =====
-- fs/fs_cache.go, fs/fs_cache_update_event_handler_map.go and fs/cache_propagation.go: what a change of the file
-- system does to the caches, and whom it tells. The recursion over cached listings runs on fuel; `none` is that
-- the fuel did not suffice.
use go_irodsclient.Base.{
  ℕ, zero, suc, Bool, true, false, List, [], ◌∷◌, ◌++◌, Option, none, some, Bytes, if◌then◌else◌,
  ◌>>=◌, without,
}
use go_irodsclient.Base.TextMaps.{has_text, without_text}
use go_irodsclient.Util.Path.{get_irods_path_dirname}
use go_irodsclient.Fs.Cache.{GoCache, file_entry, directory_entry, Entry, FileSystemCache, or_empty}
use go_irodsclient.Fs.Cache.Paths.{
  remove_entry_cache, remove_dir_entry_cache, remove_parent_dir_entry_cache, get_entry_cache,
  clear_entry_cache, add_negative_entry_cache, remove_negative_entry_cache,
  remove_all_negative_entry_cache_for_path, clear_negative_entry_cache, add_dir_cache,
  remove_dir_cache, get_dir_cache, clear_dir_cache, remove_metadata_cache, clear_metadata_cache,
  remove_acl_cache, clear_acl_cache,
}
use mathlib.Core.List.{map}

pub data FilesystemCacheEventType : Type 0 where
  file_create : FilesystemCacheEventType
  file_remove : FilesystemCacheEventType
  file_update : FilesystemCacheEventType
  dir_create : FilesystemCacheEventType
  dir_remove : FilesystemCacheEventType
  dir_extract : FilesystemCacheEventType

abbrev pub is_directory : Option Entry → Bool
is_directory none = false
is_directory (some e) = elim e.kind [ directory_entry ↦ true | file_entry ↦ false ]

-- A loop whose body may fail to end.
abbrev pub each {ℓ} : {S : Type ℓ} → (Bytes → S → Option S) → List Bytes → S → Option S
each body [] s = some s
each body (p ∷ ps) s = do t ← body p s; each body ps t

module _ (G : GoCache) where
  -- Of FileSystem: its caches, its event handlers by identifier, the calls that the handlers received, and what
  -- the propagation sent to the other file systems.
  pub record FileSystem : Type 0 where
    pub cache : FileSystemCache G
    pub cache_event_handlers : List ℕ
    pub told : List (ℕ × Bytes × FilesystemCacheEventType)
    pub propagated : List (Bytes × FilesystemCacheEventType)

  -- AddEventHandler with the identifier that xid gives, RemoveEventHandler, SendEvent.
  unfoldable pub add_event_handler : ℕ → FileSystem → FileSystem
  add_event_handler id fs = record fs { cache_event_handlers = id ∷ fs.cache_event_handlers }

  unfoldable pub remove_event_handler : ℕ → FileSystem → FileSystem
  remove_event_handler id fs = record fs {
    cache_event_handlers = without id fs.cache_event_handlers;
  }

  unfoldable pub send_event : Bytes → FilesystemCacheEventType → FileSystem → FileSystem
  send_event path event fs = record fs {
    told = fs.told ++ map (λ id. (id, path, event)) fs.cache_event_handlers;
  }

  -- Propagate: every other file system gets the event, and handles it by `handle`.
  unfoldable pub propagate : Bytes → FilesystemCacheEventType → FileSystem → FileSystem
  propagate path event fs = record fs { propagated = fs.propagated ++ (path, event) ∷ [] }

  unfoldable pub clear_cache : FileSystem → FileSystem
  unfolding clear_acl_cache clear_metadata_cache clear_entry_cache clear_negative_entry_cache
      clear_dir_cache
  clear_cache fs = record fs {
    cache = clear_dir_cache G (
        clear_negative_entry_cache G
          (clear_entry_cache G (clear_metadata_cache G (clear_acl_cache G fs.cache))));
  }

  -- invalidateCacheForRemoveInternal
  unfoldable pub invalidate_cache_for_remove_internal :
      ℕ → ℕ → Bytes → Bool → FileSystemCache G → Option (FileSystemCache G)
  unfolding get_entry_cache remove_entry_cache remove_acl_cache remove_metadata_cache get_dir_cache
      remove_dir_cache
  invalidate_cache_for_remove_internal zero now path recurse c = none
  invalidate_cache_for_remove_internal (suc fuel) now path recurse c =
      let entry = if recurse then get_entry_cache G now path c else none in
      let d =
        remove_metadata_cache G path (remove_acl_cache G path (remove_entry_cache G path c)) in
      do
        e ←
            (if is_directory entry
              then each (λ p. invalidate_cache_for_remove_internal fuel now p recurse)
                  (or_empty (get_dir_cache G now path d)) d
              else some d)
        some (remove_dir_cache G path e)

  -- The same loop over the listing of a directory, which the invalidations below share.
  unfoldable pub purge_listed :
      ℕ → ℕ → Bytes → Option Entry → FileSystemCache G → Option (FileSystemCache G)
  unfolding get_dir_cache invalidate_cache_for_remove_internal
  purge_listed fuel now path entry c =
      if is_directory entry
      then each (λ p. invalidate_cache_for_remove_internal fuel now p true)
          (or_empty (get_dir_cache G now path c)) c
      else some c

  -- A change of the parent's listing, where it is cached.
  unfoldable pub change_listing :
      (List Bytes → List Bytes) → ℕ → Bytes → FileSystemCache G → FileSystemCache G
  unfolding get_dir_cache add_dir_cache
  change_listing change now path c =
      let parent = get_irods_path_dirname path in
      elim (get_dir_cache G now parent c) [
        | none ↦ c
        | some entries ↦ add_dir_cache G now parent (change entries) c
      ]

  unfoldable pub invalidate_cache_for_path : ℕ → ℕ → Bytes → FileSystem → Option FileSystem
  unfolding get_entry_cache remove_all_negative_entry_cache_for_path remove_negative_entry_cache
      remove_dir_entry_cache remove_metadata_cache purge_listed remove_dir_cache remove_acl_cache
      remove_parent_dir_entry_cache
  invalidate_cache_for_path fuel now path fs =
      let entry = get_entry_cache G now path fs.cache in
      let c = remove_metadata_cache G path (
        remove_dir_entry_cache G now path false (
          remove_negative_entry_cache G path
            (remove_all_negative_entry_cache_for_path G now path fs.cache))) in
      do
        d ← purge_listed fuel now path entry c
        some (record fs {
          cache = remove_dir_cache G (get_irods_path_dirname path) (
              remove_parent_dir_entry_cache G now path false
                (remove_acl_cache G path (remove_dir_cache G path d)));
        })

  unfoldable pub invalidate_cache_for_dir_create : ℕ → Bytes → FileSystem → FileSystem
  unfolding remove_negative_entry_cache remove_parent_dir_entry_cache change_listing send_event
  invalidate_cache_for_dir_create now path fs = send_event path dir_create (record fs {
    cache =
        change_listing (λ entries. entries ++ path ∷ []) now path
          (remove_parent_dir_entry_cache G now path true
            (remove_negative_entry_cache G path fs.cache));
  })

  unfoldable pub invalidate_cache_for_dir_update : Bytes → FileSystem → FileSystem
  unfolding remove_negative_entry_cache remove_entry_cache send_event
  invalidate_cache_for_dir_update path fs = send_event path dir_create (record fs {
    cache = remove_entry_cache G path (remove_negative_entry_cache G path fs.cache);
  })

  unfoldable pub invalidate_cache_for_file_update : Bytes → FileSystem → FileSystem
  unfolding remove_negative_entry_cache remove_entry_cache send_event
  invalidate_cache_for_file_update path fs = send_event path file_update (record fs {
    cache = remove_entry_cache G path (remove_negative_entry_cache G path fs.cache);
  })

  unfoldable pub invalidate_cache_for_dir_remove :
      ℕ → ℕ → Bytes → Bool → FileSystem → Option FileSystem
  unfolding get_entry_cache remove_all_negative_entry_cache_for_path add_negative_entry_cache
      remove_dir_entry_cache remove_metadata_cache purge_listed remove_dir_cache remove_acl_cache
      remove_parent_dir_entry_cache change_listing send_event
  invalidate_cache_for_dir_remove fuel now path recurse fs =
      let entry = if recurse then get_entry_cache G now path fs.cache else none in
      let c = remove_metadata_cache G path (
        remove_dir_entry_cache G now path false (
          add_negative_entry_cache G now path
            (remove_all_negative_entry_cache_for_path G now path fs.cache))) in
      do
        d ← purge_listed fuel now path entry c
        some (
            send_event path dir_remove (record fs {
              cache = change_listing (without_text path) now path (
                  remove_parent_dir_entry_cache G now path recurse
                    (remove_acl_cache G path (remove_dir_cache G path d)));
            }))

  unfoldable pub invalidate_cache_for_dir_extract : ℕ → ℕ → Bytes → FileSystem → Option FileSystem
  unfolding get_entry_cache remove_all_negative_entry_cache_for_path remove_entry_cache
      remove_metadata_cache purge_listed remove_dir_cache remove_acl_cache
      remove_parent_dir_entry_cache change_listing send_event has_text
  invalidate_cache_for_dir_extract fuel now path fs =
      let entry = get_entry_cache G now path fs.cache in
      let c = remove_metadata_cache G path (
        remove_entry_cache G path (remove_all_negative_entry_cache_for_path G now path fs.cache)) in
      do
        d ← purge_listed fuel now path entry c
        some (
            send_event path dir_create (record fs {
              cache =
                  change_listing
                    (λ entries. if has_text path entries then entries else entries ++ path ∷ []) now
                    path
                    (remove_parent_dir_entry_cache G now path true
                      (remove_acl_cache G path (remove_dir_cache G path d)));
            }))

  unfoldable pub invalidate_cache_for_file_create : ℕ → Bytes → FileSystem → FileSystem
  unfolding remove_negative_entry_cache remove_parent_dir_entry_cache change_listing send_event
  invalidate_cache_for_file_create now path fs = send_event path file_create (record fs {
    cache =
        change_listing (λ entries. entries ++ path ∷ []) now path
          (remove_parent_dir_entry_cache G now path false
            (remove_negative_entry_cache G path fs.cache));
  })

  unfoldable pub invalidate_cache_for_file_remove : ℕ → Bytes → FileSystem → FileSystem
  unfolding add_negative_entry_cache remove_entry_cache remove_acl_cache remove_metadata_cache
      remove_parent_dir_entry_cache change_listing send_event
  invalidate_cache_for_file_remove now path fs = send_event path file_remove (record fs {
    cache = change_listing (without_text path) now path (
        remove_parent_dir_entry_cache G now path false (
          remove_metadata_cache G path (
            remove_acl_cache G path
              (remove_entry_cache G path (add_negative_entry_cache G now path fs.cache)))));
  })

  -- `handle` of the propagation: what an event of another file system does to this one.
  unfoldable pub handle : ℕ → ℕ → Bytes → FilesystemCacheEventType → FileSystem → Option FileSystem
  unfolding invalidate_cache_for_file_create invalidate_cache_for_file_remove
      invalidate_cache_for_file_update invalidate_cache_for_dir_create
      invalidate_cache_for_dir_remove invalidate_cache_for_dir_extract
  handle fuel now path file_create fs = some (invalidate_cache_for_file_create now path fs)
  handle fuel now path file_remove fs = some (invalidate_cache_for_file_remove now path fs)
  handle fuel now path file_update fs = some (invalidate_cache_for_file_update path fs)
  handle fuel now path dir_create fs = some (invalidate_cache_for_dir_create now path fs)
  handle fuel now path dir_remove fs = invalidate_cache_for_dir_remove fuel now path true fs
  handle fuel now path dir_extract fs = invalidate_cache_for_dir_extract fuel now path fs
