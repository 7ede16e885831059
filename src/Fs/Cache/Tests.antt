-- ===== src/Fs/Cache/Tests.antt =====
-- Runs of the file system caches with caches that are maps.
use go_irodsclient.Base.{
  ◌<◌, ◌≡◌, refl, true, false, List, [], ◌∷◌, none, some, All, Bytes, codes, arith, if◌then◌else◌,
  length,
}
use go_irodsclient.Base.Text.{eq_text}
use go_irodsclient.Base.TextMaps.{put, keys_of, has_text}
use go_irodsclient.Util.Path.{get_irods_path_dirname}
use go_irodsclient.Util.Path.Split.{Proper}
use go_irodsclient.Fs.Cache.{
  lives, MetadataCacheTimeoutSetting, CacheConfig, file_entry, directory_entry, Entry, IrodsUser,
  FileSystemCache, new_file_system_cache, or_empty,
}
use go_irodsclient.Fs.Cache.Paths.{get_entry_cache, add_entry_cache, add_dir_cache}
use go_irodsclient.Fs.Cache.Zones.{
  add_user_cache, get_user_cache, add_user_list_cache, get_user_list_cache, add_group_member_cache,
  get_group_member_cache, add_user_group_cache, get_user_group_cache,
}
use go_irodsclient.Fs.Cache.Invalidate.{
  FileSystem, invalidate_cache_for_file_remove, invalidate_cache_for_file_create,
  invalidate_cache_for_dir_create, invalidate_cache_for_dir_remove,
}
use go_irodsclient.Fs.Cache.Seen.{seen}
use go_irodsclient.Fs.Cache.Changes.{file_removed, seen-file_remove}
use go_irodsclient.Fs.Cache.Under.{begins, made, seen-create_names}
use go_irodsclient.Fs.Cache.Less.{Gone}
use go_irodsclient.Fs.Cache.Removal.{children_of}
use go_irodsclient.Fs.Cache.DirRemoval.{invalidate_cache_for_dir_remove-ends}
use go_irodsclient.Fs.Cache.Ttl.{applicable, first_or_default, get_entry_cache-nearest}
use go_irodsclient.Fs.Cache.ByZone.{changed_at, get_by_zone-add}
use go_irodsclient.Fs.Cache.MapCache.{maps}

abbrev settings : List (Bytes × MetadataCacheTimeoutSetting)
settings =
    (codes "/zone", record { path = codes "/zone"; timeout = 30; inherit = true })
    ∷ (codes "/zone/home", record { path = codes "/zone/home"; timeout = 7; inherit = false })
    ∷ []

abbrev config : CacheConfig
config = record {
  timeout = 60;
  cleanup_time = 60;
  metadata_timeout_settings = [];
  invalidate_parent_entry_cache_immediately = true;
  start_new_transaction = true;
  no_cache = false;
}

abbrev home_entry : Entry
home_entry = record {
  id = 1;
  kind = directory_entry;
  path = codes "/zone/home";
  size = 0;
  modify_time = 5;
}

abbrev file_entry_a : Entry
file_entry_a = record {
  id = 2;
  kind = file_entry;
  path = codes "/zone/home/a";
  size = 3;
  modify_time = 6;
}

-- The directory /zone/home with its listing, and the file in it.
abbrev filled : FileSystemCache maps
filled =
    let c = new_file_system_cache maps config in
    add_dir_cache maps 1 (codes "/zone/home") (codes "/zone/home/a" ∷ [])
      (add_entry_cache maps 1 file_entry_a (add_entry_cache maps 1 home_entry c))

abbrev fs : FileSystem maps
fs = record { cache = filled; cache_event_handlers = 5 ∷ []; told = []; propagated = [] }

three : length (maps.keys 2 filled.entry_cache) < 3
unfolding new_file_system_cache add_dir_cache add_entry_cache put keys_of eq_text
three = omega arith

-- With a setting of /zone, which /zone/home inherits.
abbrev timed : FileSystemCache maps
timed = record filled {
  cache_timeout_path_map =
      (codes "/zone", record { path = codes "/zone"; timeout = 30; inherit = true }) ∷ [];
}

found_names : All Proper (codes "home" ∷ codes "zone" ∷ [])
unfolding eq_text
found_names = (
  record { no_slash = refl; not_empty = refl; not_dot = refl; not_dots = refl },
  (record { no_slash = refl; not_empty = refl; not_dot = refl; not_dots = refl }, tt),
)

get_entry_cache-nearest_example :
    get_entry_cache maps 9 home_entry.path (add_entry_cache maps 3 home_entry timed) ≡ (
      if timed.config.no_cache
      then none
      else if lives
          (maps.timeout timed.entry_cache)
          3
          (first_or_default
            (applicable timed.cache_timeout_path_map (codes "home" ∷ codes "zone" ∷ [])))
          9
      then some home_entry
      else none)
get_entry_cache-nearest_example =
    get_entry_cache-nearest maps 3 9 home_entry (codes "home" ∷ codes "zone" ∷ []) timed
      (omega arith) found_names refl

seen-file_remove_example :
    seen maps 2
      (invalidate_cache_for_file_remove maps 2 (codes "/zone/home/a") fs).cache
      (codes "/zone/home")
    ≡ file_removed
        (codes "/zone/home/a")
        (codes "/zone/home")
        (seen maps 2 filled (codes "/zone/home"))
seen-file_remove_example = seen-file_remove maps 2 (codes "/zone/home/a") (codes "/zone/home") fs

invalidate_cache_for_dir_remove-ends_example :
    (after : FileSystem maps) × (invalidate_cache_for_dir_remove maps 3 2
        (codes "/zone/home")
        true
        fs
      ≡ some after)
    × Gone (seen maps 2 after.cache (codes "/zone/home"))
    × ((seen maps 2 after.cache (codes "/zone/home")).negative
        ≡ (seen maps 2 fs.cache (codes "/zone/home")).enabled)
    × All (λ q. Gone (seen maps 2 after.cache q)) (children_of maps 2 (codes "/zone/home") fs.cache)
    × (has_text
          (codes "/zone/home")
          (or_empty (seen maps 2 after.cache (get_irods_path_dirname (codes "/zone/home"))).dir)
        ≡ false)
invalidate_cache_for_dir_remove-ends_example =
    invalidate_cache_for_dir_remove-ends maps 2 3 (codes "/zone/home") fs three

abbrev user : IrodsUser
user = record { id = 9; name = codes "rods"; zone = codes "zone"; user_type = codes "rodsuser" }

get_by_zone-add_example :
    let c = filled in
    let z = codes "zone" in
    let k = codes "rods" in
    let names = codes "rods" ∷ [] in
    (get_user_cache maps 2 k z (add_user_cache maps 2 user c)
      ≡ changed_at false (eq_text z z) (eq_text k k) (some user) (get_user_cache maps 2 k z c))
    × (get_user_list_cache maps 2 z k (add_user_list_cache maps 2 z k names c)
        ≡ changed_at false
            (eq_text z z)
            (eq_text k k)
            (some names)
            (get_user_list_cache maps 2 z k c))
    × (get_group_member_cache maps 2 k z (add_group_member_cache maps 2 k z names c)
        ≡ changed_at false
            (eq_text z z)
            (eq_text k k)
            (some names)
            (get_group_member_cache maps 2 k z c))
    × (get_user_group_cache maps 2 z k (add_user_group_cache maps 2 z k names c)
        ≡ changed_at false
            (eq_text z z)
            (eq_text k k)
            (some names)
            (get_user_group_cache maps 2 z k c))
unfolding add_dir_cache add_entry_cache new_file_system_cache
get_by_zone-add_example =
    get_by_zone-add maps 2 user (codes "zone") (codes "rods") (codes "zone") (codes "rods")
      (codes "rods" ∷ []) filled

zone_names : All Proper (codes "zone" ∷ codes "home" ∷ [])
unfolding eq_text
zone_names = (
  record { no_slash = refl; not_empty = refl; not_dot = refl; not_dots = refl },
  (record { no_slash = refl; not_empty = refl; not_dot = refl; not_dots = refl }, tt),
)

-- The root, whose path ends with a slash, has all entries under it.
seen-create_names_example :
    (seen maps 2
        (invalidate_cache_for_file_create maps 2 (codes "/b") fs).cache
        (codes "/zone/home")
      ≡ made maps 2 false
          (codes "/b")
          (codes "/")
          (codes "/zone/home")
          (seen maps 2 filled (codes "/zone/home")))
    × (seen maps 2
          (invalidate_cache_for_dir_create maps 2 (codes "/b") fs).cache
          (codes "/zone/home")
        ≡ made maps 2 true
            (codes "/b")
            (codes "/")
            (codes "/zone/home")
            (seen maps 2 filled (codes "/zone/home")))
unfolding begins eq_text
seen-create_names_example =
    seen-create_names maps 2 [] (codes "b") (codes "zone" ∷ codes "home" ∷ []) fs tt
      (record { no_slash = refl; not_empty = refl; not_dot = refl; not_dots = refl }) zone_names
