-- ===== src/Fs/Cache/Zones.antt =====
-- fs/cache.go: users and groups, cached by zone and then by name.
use go_irodsclient.Base.{ℕ, List, [], ◌∷◌, Option, none, some, Bytes, if◌then◌else◌}
use go_irodsclient.Base.TextMaps.{find, put, map_values}
use go_irodsclient.Fs.Cache.{GoCache, IrodsUser, CacheConfig, FileSystemCache}

module _ (G : GoCache) where
  abbrev pub or_fresh : {V : Type 0} → CacheConfig → Option (G.Cache V) → G.Cache V
  or_fresh config none = G.fresh config.timeout
  or_fresh config (some items) = items

  -- The cache of the zone, made if there is none yet, with an item set.
  unfoldable pub zone_set :
      {V : Type 0}
      → ℕ
      → CacheConfig
      → Bytes
      → Bytes
      → V
      → List (Bytes × G.Cache V)
      → List (Bytes × G.Cache V)
  zone_set now config zone key v zones =
      put zone (G.set now key v 0 (or_fresh config (find zone zones))) zones

  abbrev pub get_in : {V : Type 0} → ℕ → Bytes → Option (G.Cache V) → Option V
  get_in now key none = none
  get_in now key (some items) = G.get now key items

  unfoldable pub zone_get : {V : Type 0} → ℕ → Bytes → Bytes → List (Bytes × G.Cache V) → Option V
  zone_get now zone key zones = get_in now key (find zone zones)

  -- A change of the cache of the zone, if there is one.
  abbrev pub change_found :
      {V : Type 0}
      → (G.Cache V → G.Cache V)
      → Bytes
      → Option (G.Cache V)
      → List (Bytes × G.Cache V)
      → List (Bytes × G.Cache V)
  change_found change zone none zones = zones
  change_found change zone (some items) zones = put zone (change items) zones

  unfoldable pub zone_delete :
      {V : Type 0} → Bytes → Bytes → List (Bytes × G.Cache V) → List (Bytes × G.Cache V)
  zone_delete zone key zones = change_found (G.delete key) zone (find zone zones) zones

  unfoldable pub zone_flush :
      {V : Type 0} → Bytes → List (Bytes × G.Cache V) → List (Bytes × G.Cache V)
  zone_flush zone zones = change_found G.flush zone (find zone zones) zones

  unfoldable pub flush_zones : {V : Type 0} → List (Bytes × G.Cache V) → List (Bytes × G.Cache V)
  unfolding map_values
  flush_zones zones = map_values G.flush zones

  unfoldable pub add_user_cache : ℕ → IrodsUser → FileSystemCache G → FileSystemCache G
  unfolding zone_set
  add_user_cache now user c =
      if c.config.no_cache
      then c
      else record c { user_cache = zone_set now c.config user.zone user.name user c.user_cache }

  unfoldable pub add_user_cache_multi : ℕ → List IrodsUser → FileSystemCache G → FileSystemCache G
  unfolding add_user_cache
  add_user_cache_multi now [] c = c
  add_user_cache_multi now (user ∷ users) c =
      let rest = add_user_cache_multi now users (add_user_cache now user c) in
      if c.config.no_cache then c else rest

  unfoldable pub remove_user_cache : Bytes → Bytes → FileSystemCache G → FileSystemCache G
  unfolding zone_delete
  remove_user_cache username zone_name c =
      if c.config.no_cache
      then c
      else record c { user_cache = zone_delete zone_name username c.user_cache }

  unfoldable pub get_user_cache : ℕ → Bytes → Bytes → FileSystemCache G → Option IrodsUser
  unfolding zone_get
  get_user_cache now username zone_name c =
      if c.config.no_cache then none else zone_get now zone_name username c.user_cache

  unfoldable pub clear_user_cache_for_zone : Bytes → FileSystemCache G → FileSystemCache G
  unfolding zone_flush
  clear_user_cache_for_zone zone_name c =
      if c.config.no_cache then c else record c { user_cache = zone_flush zone_name c.user_cache }

  unfoldable pub clear_all_user_cache : FileSystemCache G → FileSystemCache G
  unfolding flush_zones
  clear_all_user_cache c =
      if c.config.no_cache then c else record c { user_cache = flush_zones c.user_cache }

  unfoldable pub add_user_list_cache :
      ℕ → Bytes → Bytes → List Bytes → FileSystemCache G → FileSystemCache G
  unfolding zone_set
  add_user_list_cache now zone_name user_type usernames c =
      if c.config.no_cache then c else record c {
        user_list_cache = zone_set now c.config zone_name user_type usernames c.user_list_cache;
      }

  unfoldable pub remove_user_list_cache : Bytes → Bytes → FileSystemCache G → FileSystemCache G
  unfolding zone_delete
  remove_user_list_cache zone_name user_type c =
      if c.config.no_cache
      then c
      else record c { user_list_cache = zone_delete zone_name user_type c.user_list_cache }

  unfoldable pub get_user_list_cache : ℕ → Bytes → Bytes → FileSystemCache G → Option (List Bytes)
  unfolding zone_get
  get_user_list_cache now zone_name user_type c =
      if c.config.no_cache then none else zone_get now zone_name user_type c.user_list_cache

  unfoldable pub clear_user_list_cache_for_zone : Bytes → FileSystemCache G → FileSystemCache G
  unfolding zone_flush
  clear_user_list_cache_for_zone zone_name c =
      if c.config.no_cache
      then c
      else record c { user_list_cache = zone_flush zone_name c.user_list_cache }

  unfoldable pub clear_all_user_list_cache : FileSystemCache G → FileSystemCache G
  unfolding flush_zones
  clear_all_user_list_cache c =
      if c.config.no_cache then c else record c { user_list_cache = flush_zones c.user_list_cache }

  unfoldable pub add_group_member_cache :
      ℕ → Bytes → Bytes → List Bytes → FileSystemCache G → FileSystemCache G
  unfolding zone_set
  add_group_member_cache now group_name zone_name usernames c =
      if c.config.no_cache then c else record c {
        group_member_cache =
            zone_set now c.config zone_name group_name usernames c.group_member_cache;
      }

  unfoldable pub remove_group_member_cache : Bytes → Bytes → FileSystemCache G → FileSystemCache G
  unfolding zone_delete
  remove_group_member_cache group_name zone_name c =
      if c.config.no_cache
      then c
      else record c { group_member_cache = zone_delete zone_name group_name c.group_member_cache }

  unfoldable pub get_group_member_cache :
      ℕ → Bytes → Bytes → FileSystemCache G → Option (List Bytes)
  unfolding zone_get
  get_group_member_cache now group_name zone_name c =
      if c.config.no_cache then none else zone_get now zone_name group_name c.group_member_cache

  unfoldable pub clear_group_members_cache_for_zone : Bytes → FileSystemCache G → FileSystemCache G
  unfolding zone_flush
  clear_group_members_cache_for_zone zone_name c =
      if c.config.no_cache
      then c
      else record c { group_member_cache = zone_flush zone_name c.group_member_cache }

  unfoldable pub clear_all_group_members_cache : FileSystemCache G → FileSystemCache G
  unfolding flush_zones
  clear_all_group_members_cache c =
      if c.config.no_cache
      then c
      else record c { group_member_cache = flush_zones c.group_member_cache }

  unfoldable pub add_user_group_cache :
      ℕ → Bytes → Bytes → List Bytes → FileSystemCache G → FileSystemCache G
  unfolding zone_set
  add_user_group_cache now zone_name username group_names c =
      if c.config.no_cache then c else record c {
        user_group_cache = zone_set now c.config zone_name username group_names c.user_group_cache;
      }

  unfoldable pub remove_user_group_cache : Bytes → Bytes → FileSystemCache G → FileSystemCache G
  unfolding zone_delete
  remove_user_group_cache zone_name username c =
      if c.config.no_cache
      then c
      else record c { user_group_cache = zone_delete zone_name username c.user_group_cache }

  unfoldable pub get_user_group_cache : ℕ → Bytes → Bytes → FileSystemCache G → Option (List Bytes)
  unfolding zone_get
  get_user_group_cache now zone_name username c =
      if c.config.no_cache then none else zone_get now zone_name username c.user_group_cache

  unfoldable pub clear_user_group_cache_for_zone : Bytes → FileSystemCache G → FileSystemCache G
  unfolding zone_flush
  clear_user_group_cache_for_zone zone_name c =
      if c.config.no_cache
      then c
      else record c { user_group_cache = zone_flush zone_name c.user_group_cache }
