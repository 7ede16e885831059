-- ===== src/Fs/Cache/Changes.antt =====
-- What the invalidations without recursion do to the answers of the caches, at every path.
use go_irodsclient.Base.{
  ℕ, ◌≡◌, Bool, true, false, ◌||◌, ◌&&◌, List, [], ◌∷◌, ◌++◌, none, Bytes, if◌then◌else◌, arith,
}
use go_irodsclient.Base.Text.{eq_text}
use go_irodsclient.Base.TextMaps.{without_text}
use go_irodsclient.Util.Path.{get_irods_path_dirname}
use go_irodsclient.Fs.Cache.{GoCache, FileSystemCache}
use go_irodsclient.Fs.Cache.Paths.{
  remove_entry_cache, remove_parent_dir_entry_cache, add_negative_entry_cache,
  remove_negative_entry_cache, remove_metadata_cache, remove_acl_cache,
}
use go_irodsclient.Fs.Cache.Invalidate.{
  FileSystem, change_listing, send_event, invalidate_cache_for_file_remove,
  invalidate_cache_for_file_create, invalidate_cache_for_dir_create,
}
use go_irodsclient.Fs.Cache.Listing.{seen-change_listing}
use go_irodsclient.Fs.Cache.Seen.{
  Seen, seen, map_some, is_under, seen-remove_entry_cache, seen-remove_parent_dir_entry_cache,
  seen-add_negative_entry_cache, seen-remove_negative_entry_cache, seen-remove_metadata_cache,
  seen-remove_acl_cache,
}

-- The answers about `q` after the file at `path` is gone: nothing is known of `path` but that it is missing, and
-- the parent's listing is without it.
abbrev pub file_removed : Bytes → Bytes → Seen → Seen
file_removed path q s =
    let here = eq_text path q in
    let parent = eq_text (get_irods_path_dirname path) q in
    record s {
      entry = if here || (s.immediate && parent) then none else s.entry;
      negative = if here then s.enabled else s.negative;
      dir = if parent then map_some (without_text path) s.dir else s.dir;
      metadata = if here then none else s.metadata;
      acl = if here then none else s.acl;
    }

-- The answers about `q` after a file or, with `under`, a directory is made at `path`.
abbrev pub created : Bool → Bytes → Bytes → Seen → Seen
created under path q s =
    let up = get_irods_path_dirname path in
    record s {
      entry = if s.immediate && (eq_text up q || is_under under up q) then none else s.entry;
      negative = if eq_text path q then false else s.negative;
      dir = if eq_text up q then map_some (λ entries. entries ++ path ∷ []) s.dir else s.dir;
    }

-- One answer taken away.
abbrev no_entry : Bool → Seen → Seen
no_entry b s = if b then record s { entry = none } else s

abbrev no_negative : Bool → Seen → Seen
no_negative b s = if b then record s { negative = false } else s

abbrev listed_as : Bool → (List Bytes → List Bytes) → Seen → Seen
listed_as b change s = if b then record s { dir = map_some change s.dir } else s

abbrev forgotten : Bool → Seen → Seen
forgotten b s =
    let s1 = if b then record s { negative = s.enabled } else s in
    let s3 = if b then record (no_entry b s1) { acl = none } else no_entry b s1 in
    if b then record s3 { metadata = none } else s3

file_removed_lem :
    (here up : Bool) (change : List Bytes → List Bytes) (s : Seen)
    → listed_as up change
        (no_entry ((forgotten here s).immediate && (up || false)) (forgotten here s))
      ≡ record s {
        entry = if here || (s.immediate && up) then none else s.entry;
        negative = if here then s.enabled else s.negative;
        dir = if up then map_some change s.dir else s.dir;
        metadata = if here then none else s.metadata;
        acl = if here then none else s.acl;
      }
file_removed_lem true true change s = ground arith
file_removed_lem true false change s = ground arith
file_removed_lem false true change s = ground arith
file_removed_lem false false change s = ground arith

created_lem :
    (here up under : Bool) (change : List Bytes → List Bytes) (s : Seen)
    → listed_as up change
        (no_entry ((no_negative here s).immediate && (up || under)) (no_negative here s))
      ≡ record s {
        entry = if s.immediate && (up || under) then none else s.entry;
        negative = if here then false else s.negative;
        dir = if up then map_some change s.dir else s.dir;
      }
created_lem true up under change s = ground arith
created_lem false up under change s = ground arith

module _ (G : GoCache) (now : ℕ) where
  -- After InvalidateCacheForFileRemove, the caches answer about every path `q` as before, but for the removed
  -- path, of which they know only that it is missing (nothing, if caching is off), and for its parent, whose
  -- listing loses the path and whose entry goes if the configuration says so.
  pub seen-file_remove :
      (path q : Bytes) (fs : FileSystem G)
      → seen G now (invalidate_cache_for_file_remove G now path fs).cache q
        ≡ file_removed path q (seen G now fs.cache q)
  unfolding invalidate_cache_for_file_remove send_event
  seen-file_remove path q fs =
      let c = fs.cache in
      let c1 = add_negative_entry_cache G now path c in
      let c2 = remove_entry_cache G path c1 in
      let c3 = remove_acl_cache G path c2 in
      let c4 = remove_metadata_cache G path c3 in
      let c5 = remove_parent_dir_entry_cache G now path false c4 in
      rw
        (
          seen-change_listing G now (without_text path) path q c5,
          seen-remove_parent_dir_entry_cache G now false path q c4,
          seen-remove_metadata_cache G now path q c3,
          seen-remove_acl_cache G now path q c2,
          seen-remove_entry_cache G now path q c1,
          seen-add_negative_entry_cache G now path q c,
        )
        (file_removed_lem (eq_text path q) (eq_text (get_irods_path_dirname path) q)
          (without_text path) (seen G now c q))

  -- The caches after a path was made, before the event is sent.
  seen-created :
      (under : Bool) (path q : Bytes) (c : FileSystemCache G)
      → seen G now
          (change_listing G
            (λ entries. entries ++ path ∷ [])
            now
            path
            (remove_parent_dir_entry_cache G now path under (remove_negative_entry_cache G path c)))
          q
        ≡ created under path q (seen G now c q)
  seen-created under path q c =
      let up = get_irods_path_dirname path in
      let c1 = remove_negative_entry_cache G path c in
      rw
        (
          seen-change_listing G now (λ entries. entries ++ path ∷ []) path q
              (remove_parent_dir_entry_cache G now path under c1),
          seen-remove_parent_dir_entry_cache G now under path q c1,
          seen-remove_negative_entry_cache G now path q c,
        )
        (created_lem (eq_text path q) (eq_text up q) (is_under under up q)
          (λ entries. entries ++ path ∷ []) (seen G now c q))

  -- After InvalidateCacheForFileCreate and InvalidateCacheForDirCreate, the caches answer about every path `q` as
  -- before, but that the new path is no longer known as missing, that its parent's cached listing has it at the
  -- end, and that, if the configuration says so, the parent's entry goes, for a directory with all entries under
  -- the parent.
  pub seen-create :
      (path q : Bytes) (fs : FileSystem G)
      → (seen G now (invalidate_cache_for_file_create G now path fs).cache q
          ≡ created false path q (seen G now fs.cache q))
        × (seen G now (invalidate_cache_for_dir_create G now path fs).cache q
            ≡ created true path q (seen G now fs.cache q))
  unfolding invalidate_cache_for_file_create invalidate_cache_for_dir_create send_event
  seen-create path q fs = (seen-created false path q fs.cache, seen-created true path q fs.cache)
