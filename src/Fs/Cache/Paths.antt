-- ===== src/Fs/Cache/Paths.antt =====
-- fs/cache.go: what is cached by path. With `no_cache` nothing is kept and nothing is found.
use go_irodsclient.Base.{
  ℕ, Bool, true, false, ◌||◌, List, [], ◌∷◌, ◌++◌, Option, none, some, Bytes, if◌then◌else◌,
}
use go_irodsclient.Base.Text.{eq_text, has_prefix}
use go_irodsclient.Base.TextMaps.{find, put}
use go_irodsclient.Fs.Cache.{GoCache, Entry, IrodsMeta, IrodsAccess, FileSystemCache, ttl_of}
use go_irodsclient.Util.Path.{get_irods_path_dirname, ends_with_slash, without_last}

-- AddAclCacheMulti collects the accesses of each path, in their order.
unfoldable pub group_by_path :
    List IrodsAccess → List (Bytes × List IrodsAccess) → List (Bytes × List IrodsAccess)
unfolding find put
group_by_path [] m = m
group_by_path (a ∷ rest) m = elim (find a.path m) [
  | some existing ↦ group_by_path rest (put a.path (existing ++ a ∷ []) m)
  | none ↦ group_by_path rest (put a.path (a ∷ []) m)
]

-- The slash that RemoveDirEntryCache puts behind a path.
unfoldable pub dir_prefix : Bytes → Bytes
dir_prefix path = (if ends_with_slash path then without_last path else path) ++ b'/' ∷ []

abbrev pub or_false : Option Bool → Bool
or_false none = false
or_false (some b) = b

module _ (G : GoCache) where
  -- getCacheTTLForPath
  unfoldable pub get_cache_ttl_for_path : FileSystemCache G → Bytes → ℕ
  unfolding ttl_of
  get_cache_ttl_for_path c path = ttl_of c.cache_timeout_path_map path

  -- Deleting the keys that pass a test.
  unfoldable pub delete_keys : {V : Type 0} → (Bytes → Bool) → List Bytes → G.Cache V → G.Cache V
  delete_keys test [] items = items
  delete_keys test (k ∷ ks) items = delete_keys test ks (if test k then G.delete k items else items)

  unfoldable pub add_entry_cache : ℕ → Entry → FileSystemCache G → FileSystemCache G
  unfolding get_cache_ttl_for_path
  add_entry_cache now entry c = if c.config.no_cache then c else record c {
    entry_cache = G.set now entry.path entry (get_cache_ttl_for_path c entry.path) c.entry_cache;
  }

  unfoldable pub remove_entry_cache : Bytes → FileSystemCache G → FileSystemCache G
  remove_entry_cache path c =
      if c.config.no_cache then c else record c { entry_cache = G.delete path c.entry_cache }

  unfoldable pub remove_dir_entry_cache : ℕ → Bytes → Bool → FileSystemCache G → FileSystemCache G
  unfolding delete_keys dir_prefix has_prefix
  remove_dir_entry_cache now path recurse c =
      let items = G.delete path c.entry_cache in
      if c.config.no_cache
      then c
      else if recurse
      then record c {
        entry_cache = delete_keys (λ k. has_prefix k (dir_prefix path)) (G.keys now items) items;
      }
      else record c { entry_cache = items }

  unfoldable pub remove_parent_dir_entry_cache :
      ℕ → Bytes → Bool → FileSystemCache G → FileSystemCache G
  unfolding remove_dir_entry_cache
  remove_parent_dir_entry_cache now path recurse c =
      if c.config.no_cache
      then c
      else if c.config.invalidate_parent_entry_cache_immediately
      then remove_dir_entry_cache now (get_irods_path_dirname path) recurse c
      else c

  unfoldable pub get_entry_cache : ℕ → Bytes → FileSystemCache G → Option Entry
  get_entry_cache now path c = if c.config.no_cache then none else G.get now path c.entry_cache

  unfoldable pub clear_entry_cache : FileSystemCache G → FileSystemCache G
  clear_entry_cache c =
      if c.config.no_cache then c else record c { entry_cache = G.flush c.entry_cache }

  unfoldable pub add_negative_entry_cache : ℕ → Bytes → FileSystemCache G → FileSystemCache G
  unfolding get_cache_ttl_for_path
  add_negative_entry_cache now path c = if c.config.no_cache then c else record c {
    negative_entry_cache =
        G.set now path true (get_cache_ttl_for_path c path) c.negative_entry_cache;
  }

  unfoldable pub remove_negative_entry_cache : Bytes → FileSystemCache G → FileSystemCache G
  remove_negative_entry_cache path c =
      if c.config.no_cache
      then c
      else record c { negative_entry_cache = G.delete path c.negative_entry_cache }

  unfoldable pub remove_all_negative_entry_cache_for_path :
      ℕ → Bytes → FileSystemCache G → FileSystemCache G
  unfolding delete_keys eq_text has_prefix
  remove_all_negative_entry_cache_for_path now path c = if c.config.no_cache then c else record c {
    negative_entry_cache =
        delete_keys (λ k. eq_text k path || has_prefix k (path ++ b'/' ∷ []))
          (G.keys now c.negative_entry_cache) c.negative_entry_cache;
  }

  unfoldable pub has_negative_entry_cache : ℕ → Bytes → FileSystemCache G → Bool
  has_negative_entry_cache now path c =
      if c.config.no_cache then false else or_false (G.get now path c.negative_entry_cache)

  unfoldable pub clear_negative_entry_cache : FileSystemCache G → FileSystemCache G
  clear_negative_entry_cache c =
      if c.config.no_cache
      then c
      else record c { negative_entry_cache = G.flush c.negative_entry_cache }

  unfoldable pub add_dir_cache : ℕ → Bytes → List Bytes → FileSystemCache G → FileSystemCache G
  unfolding get_cache_ttl_for_path
  add_dir_cache now path entries c = if c.config.no_cache then c else record c {
    dir_cache = G.set now path entries (get_cache_ttl_for_path c path) c.dir_cache;
  }

  unfoldable pub remove_dir_cache : Bytes → FileSystemCache G → FileSystemCache G
  remove_dir_cache path c =
      if c.config.no_cache then c else record c { dir_cache = G.delete path c.dir_cache }

  unfoldable pub get_dir_cache : ℕ → Bytes → FileSystemCache G → Option (List Bytes)
  get_dir_cache now path c = if c.config.no_cache then none else G.get now path c.dir_cache

  unfoldable pub clear_dir_cache : FileSystemCache G → FileSystemCache G
  clear_dir_cache c = if c.config.no_cache then c else record c { dir_cache = G.flush c.dir_cache }

  unfoldable pub add_metadata_cache :
      ℕ → Bytes → List IrodsMeta → FileSystemCache G → FileSystemCache G
  unfolding get_cache_ttl_for_path
  add_metadata_cache now path metas c = if c.config.no_cache then c else record c {
    metadata_cache = G.set now path metas (get_cache_ttl_for_path c path) c.metadata_cache;
  }

  unfoldable pub remove_metadata_cache : Bytes → FileSystemCache G → FileSystemCache G
  remove_metadata_cache path c =
      if c.config.no_cache then c else record c { metadata_cache = G.delete path c.metadata_cache }

  unfoldable pub get_metadata_cache : ℕ → Bytes → FileSystemCache G → Option (List IrodsMeta)
  get_metadata_cache now path c =
      if c.config.no_cache then none else G.get now path c.metadata_cache

  unfoldable pub clear_metadata_cache : FileSystemCache G → FileSystemCache G
  clear_metadata_cache c =
      if c.config.no_cache then c else record c { metadata_cache = G.flush c.metadata_cache }

  unfoldable pub add_acl_cache :
      ℕ → Bytes → List IrodsAccess → FileSystemCache G → FileSystemCache G
  unfolding get_cache_ttl_for_path
  add_acl_cache now path accesses c = if c.config.no_cache then c else record c {
    acl_cache = G.set now path accesses (get_cache_ttl_for_path c path) c.acl_cache;
  }

  unfoldable pub remove_acl_cache : Bytes → FileSystemCache G → FileSystemCache G
  remove_acl_cache path c =
      if c.config.no_cache then c else record c { acl_cache = G.delete path c.acl_cache }

  unfoldable pub get_acl_cache : ℕ → Bytes → FileSystemCache G → Option (List IrodsAccess)
  get_acl_cache now path c = if c.config.no_cache then none else G.get now path c.acl_cache

  unfoldable pub clear_acl_cache : FileSystemCache G → FileSystemCache G
  clear_acl_cache c = if c.config.no_cache then c else record c { acl_cache = G.flush c.acl_cache }

  unfoldable pub set_groups :
      ℕ → List (Bytes × List IrodsAccess) → FileSystemCache G → FileSystemCache G
  unfolding get_cache_ttl_for_path
  set_groups now [] c = c
  set_groups now ((path, accesses) ∷ rest) c =
      set_groups now rest (record c {
        acl_cache = G.set now path accesses (get_cache_ttl_for_path c path) c.acl_cache;
      })

  unfoldable pub add_acl_cache_multi : ℕ → List IrodsAccess → FileSystemCache G → FileSystemCache G
  unfolding group_by_path set_groups
  add_acl_cache_multi now accesses c =
      if c.config.no_cache then c else set_groups now (group_by_path accesses []) c
