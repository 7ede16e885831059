-- ===== src/Fs/Cache.antt =====
-- fs/cache.go: the caches of the file system by path. The library go-cache is the interface `GoCache`; an operation
-- takes the time at which it runs. Paths are absolute: the callers correct them.
pub mod Paths
pub mod Zones
pub mod Invalidate
pub mod Seen
pub mod Listing
pub mod Changes
pub mod Less
pub mod Purge
pub mod Removal
pub mod DirRemoval
pub mod Under
pub mod Ttl
pub mod ByZone
pub mod MapCache
mod Tests
use go_irodsclient.Base.{
  ℕ, ◌+◌, ◌≤◌, ◌≡◌, Bool, true, false, not, ◌||◌, List, [], ◌∷◌, ◌++◌, Option, none, some, Bytes,
  ◌==◌, leb, if◌then◌else◌, length, ◌⊎◌,
}
use go_irodsclient.Base.Text.{eq_text, has_prefix}
use go_irodsclient.Base.TextMaps.{find, put, has_text}
use go_irodsclient.Util.Path.{
  get_parent_irods_dirs, get_irods_path_dirname, ends_with_slash, without_last,
}
use mathlib.Core.List.{reverse}

-- Whether an item that was set at a time with a time to live is still there; 0 stands for the timeout of
-- the cache, and with a timeout of 0 items stay.
unfoldable pub lives : ℕ → ℕ → ℕ → ℕ → Bool
lives timeout set_at ttl now =
    let span = if ttl == 0 then timeout else ttl in (span == 0) || leb now (set_at + span)

-- The library go-cache, as its documentation describes it. `get` and `keys` (of Items) leave out expired items.
pub record GoCache : Type 1 where
  pub Cache : Type 0 → Type 0
  pub fresh : {V : Type 0} → ℕ → Cache V
  pub timeout : {V : Type 0} → Cache V → ℕ
  pub get : {V : Type 0} → ℕ → Bytes → Cache V → Option V
  pub set : {V : Type 0} → ℕ → Bytes → V → ℕ → Cache V → Cache V
  pub delete : {V : Type 0} → Bytes → Cache V → Cache V
  pub flush : {V : Type 0} → Cache V → Cache V
  pub keys : {V : Type 0} → ℕ → Cache V → List Bytes
  pub get-fresh : {V : Type 0} (now d : ℕ) (k : Bytes) → get {V = V} now k (fresh d) ≡ none
  pub get-set :
      {V : Type 0} (before now ttl : ℕ) (k at : Bytes) (v : V) (c : Cache V)
      → before ≤ now
      → get now at (set before k v ttl c) ≡ (
          if eq_text k at
          then (if lives (timeout c) before ttl now then some v else none)
          else get now at c)
  pub get-delete :
      {V : Type 0} (now : ℕ) (k at : Bytes) (c : Cache V)
      → get now at (delete k c) ≡ (if eq_text k at then none else get now at c)
  pub get-flush : {V : Type 0} (now : ℕ) (k : Bytes) (c : Cache V) → get now k (flush c) ≡ none
  pub get-keys :
      {V : Type 0} (now : ℕ) (k : Bytes) (v : V) (c : Cache V)
      → get now k c ≡ some v
      → has_text k (keys now c) ≡ true
  pub get-later :
      {V : Type 0} (before now : ℕ) (k : Bytes) (c : Cache V)
      → before ≤ now
      → (get now k c ≡ none) ⊎ (get now k c ≡ get before k c)

pub record MetadataCacheTimeoutSetting : Type 0 where
  pub path : Bytes
  pub timeout : ℕ
  pub inherit : Bool

pub record CacheConfig : Type 0 where
  pub timeout : ℕ
  pub cleanup_time : ℕ
  pub metadata_timeout_settings : List MetadataCacheTimeoutSetting
  pub invalidate_parent_entry_cache_immediately : Bool
  pub start_new_transaction : Bool
  pub no_cache : Bool

pub data EntryType : Type 0 where
  file_entry : EntryType
  directory_entry : EntryType

-- Of an entry: what the caches and their callers read.
pub record Entry : Type 0 where
  pub id : ℕ
  pub kind : EntryType
  pub path : Bytes
  pub size : ℕ
  pub modify_time : ℕ

pub record IrodsMeta : Type 0 where
  pub avu_id : ℕ
  pub name : Bytes
  pub value : Bytes
  pub units : Bytes

pub record IrodsUser : Type 0 where
  pub id : ℕ
  pub name : Bytes
  pub zone : Bytes
  pub user_type : Bytes

pub record IrodsAccess : Type 0 where
  pub path : Bytes
  pub user_name : Bytes
  pub user_zone : Bytes
  pub user_type : Bytes
  pub access_level : Bytes

module _ (G : GoCache) where
  pub record FileSystemCache : Type 0 where
    pub config : CacheConfig
    pub cache_timeout_path_map : List (Bytes × MetadataCacheTimeoutSetting)
    pub entry_cache : G.Cache Entry
    pub negative_entry_cache : G.Cache Bool
    pub dir_cache : G.Cache (List Bytes)
    pub metadata_cache : G.Cache (List IrodsMeta)
    pub user_cache : List (Bytes × G.Cache IrodsUser)
    pub user_list_cache : List (Bytes × G.Cache (List Bytes))
    pub group_member_cache : List (Bytes × G.Cache (List Bytes))
    pub user_group_cache : List (Bytes × G.Cache (List Bytes))
    pub acl_cache : G.Cache (List IrodsAccess)

-- The map that NewFileSystemCache builds of the settings, the last one of a path staying.
unfoldable pub timeout_map :
    List MetadataCacheTimeoutSetting
    → List (Bytes × MetadataCacheTimeoutSetting)
    → List (Bytes × MetadataCacheTimeoutSetting)
unfolding put
timeout_map [] built = built
timeout_map (s ∷ rest) built = timeout_map rest (put s.path s built)

unfoldable pub new_file_system_cache : (G : GoCache) → CacheConfig → FileSystemCache G
unfolding timeout_map
new_file_system_cache G config = record {
  config = config;
  cache_timeout_path_map = timeout_map config.metadata_timeout_settings [];
  entry_cache = G.fresh config.timeout;
  negative_entry_cache = G.fresh config.timeout;
  dir_cache = G.fresh config.timeout;
  metadata_cache = G.fresh config.timeout;
  user_cache = [];
  user_list_cache = [];
  group_member_cache = [];
  user_group_cache = [];
  acl_cache = G.fresh config.timeout;
}

-- The setting of a parent, if it is inherited, else what the others say.
abbrev pub inherit_or : Option MetadataCacheTimeoutSetting → ℕ → ℕ
inherit_or none rest = rest
inherit_or (some s) rest = if s.inherit then s.timeout else rest

-- The setting of the path itself, else what the parents say.
abbrev pub own_or : Option MetadataCacheTimeoutSetting → ℕ → ℕ
own_or none rest = rest
own_or (some s) rest = s.timeout

-- The loop over the parents from the nearest one.
unfoldable pub inherited : List Bytes → List (Bytes × MetadataCacheTimeoutSetting) → ℕ
inherited [] settings = 0
inherited (p ∷ ps) settings = inherit_or (find p settings) (inherited ps settings)

abbrev pub or_empty : Option (List Bytes) → List Bytes
or_empty none = []
or_empty (some ps) = ps

-- getCacheTTLForPath
unfoldable pub ttl_of : List (Bytes × MetadataCacheTimeoutSetting) → Bytes → ℕ
ttl_of [] path = 0
ttl_of (setting ∷ settings) path =
    own_or (find path (setting ∷ settings)) (
      inherited (reverse (or_empty (get_parent_irods_dirs (length path) path)))
        (setting ∷ settings))
