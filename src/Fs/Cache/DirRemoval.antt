-- ===== src/Fs/Cache/DirRemoval.antt =====
-- InvalidateCacheForDirRemove: it ends, and what the caches answer then.
use go_irodsclient.Base.{
  ℕ, ◌<◌, ◌≡◌, refl, ap, ◌∙◌, Bool, true, false, List, [], ◌∷◌, Option, none, some, Bytes,
  if◌then◌else◌, All, length, ◌>>=◌,
}
use go_irodsclient.Base.Text.{eq_text, eq_text_self}
use go_irodsclient.Base.TextMaps.{has_text, without_text, has_text-without_text}
use go_irodsclient.Util.Path.{get_irods_path_dirname}
use go_irodsclient.Fs.Cache.{GoCache, FileSystemCache, or_empty}
use go_irodsclient.Fs.Cache.Paths.{
  get_entry_cache, get_dir_cache, remove_metadata_cache, remove_acl_cache, remove_dir_cache,
  remove_dir_entry_cache, add_negative_entry_cache, remove_all_negative_entry_cache_for_path,
  remove_parent_dir_entry_cache,
}
use go_irodsclient.Fs.Cache.Invalidate.{
  FileSystem, purge_listed, change_listing, send_event, dir_remove, invalidate_cache_for_dir_remove,
}
use go_irodsclient.Fs.Cache.Listing.{seen-change_listing}
use go_irodsclient.Fs.Cache.Seen.{Seen, seen, map_some}
use go_irodsclient.Fs.Cache.Less.{Less, Gone, Gone-Less, gone_or}
use go_irodsclient.Fs.Cache.Purge.{Under}
use go_irodsclient.Fs.Cache.Removal.{
  before_loop, seen-before_loop, behind_loop, behind_loop-Under, behind_loop-Gone,
  before_loop-Covered, children_of, purge_listed-Purged,
}

-- A listing that is gone stays gone when it is changed.
Gone-listed :
    (b : Bool) (change : List Bytes → List Bytes) (s : Seen)
    → Gone s
    → Gone (if b then record s { dir = map_some change s.dir } else s)
Gone-listed true change s g = record {
  entry = g.entry;
  dir = ap (map_some change) g.dir;
  metadata = g.metadata;
  acl = g.acl;
}
Gone-listed false change s g = g

negative-listed :
    (b : Bool) (change : List Bytes → List Bytes) (s : Seen)
    → (if b then record s { dir = map_some change s.dir } else s).negative ≡ s.negative
negative-listed true change s = refl
negative-listed false change s = refl

no_longer_listed :
    (p : Bytes) (o : Option (List Bytes))
    → has_text p (or_empty (map_some (without_text p) o)) ≡ false
unfolding has_text
no_longer_listed p none = refl
no_longer_listed p (some ts) = has_text-without_text p p ts ∙ simp (eq_text_self p) refl

Less-here :
    (t u s : Seen)
    → Less t u
    → u ≡ record s { entry = none; negative = s.enabled; metadata = none }
    → (t.entry ≡ none) × (t.metadata ≡ none) × (t.negative ≡ s.enabled)
Less-here t u s h e = (
  gone_or h.entry (ap (λ x. x.entry) e),
  gone_or h.metadata (ap (λ x. x.metadata) e),
  h.negative ∙ ap (λ x. x.negative) e,
)

module _ (G : GoCache) (now : ℕ) where
  -- The caches of the file system after the loop of InvalidateCacheForDirRemove.
  abbrev removed : Bytes → FileSystemCache G → FileSystemCache G
  removed p d = change_listing G (without_text p) now p (behind_loop G now true p d)

  removed-Gone :
      (p q : Bytes) (d : FileSystemCache G)
      → Gone (seen G now (behind_loop G now true p d) q)
      → Gone (seen G now (removed p d) q)
  removed-Gone p q d g =
      rw (seen-change_listing G now (without_text p) p q (behind_loop G now true p d)) (
        Gone-listed (eq_text (get_irods_path_dirname p) q) (without_text p)
          (seen G now (behind_loop G now true p d) q) g)

  removed-All :
      (p : Bytes) (d : FileSystemCache G) (qs : List Bytes)
      → All (λ q. Gone (seen G now d q)) qs
      → All (λ q. Gone (seen G now (removed p d) q)) qs
  removed-All p d [] gs = tt
  removed-All p d (q ∷ qs) (g, gs) =
      (removed-Gone p q d (Gone-Less (behind_loop-Under G now true p d q) g), removed-All p d qs gs)

  removed-unlisted :
      (p : Bytes) (d : FileSystemCache G)
      → has_text p (or_empty (seen G now (removed p d) (get_irods_path_dirname p)).dir) ≡ false
  removed-unlisted p d =
      let up = get_irods_path_dirname p in
      rw
        (
          seen-change_listing G now (without_text p) p up (behind_loop G now true p d),
          eq_text_self up,
        )
        (no_longer_listed p (seen G now (behind_loop G now true p d) up).dir)

  removed-negative :
      (p : Bytes) (d : FileSystemCache G)
      → (seen G now (removed p d) p).negative ≡ (seen G now d p).negative
  removed-negative p d =
      rw (seen-change_listing G now (without_text p) p p (behind_loop G now true p d)) (
        negative-listed (eq_text (get_irods_path_dirname p) p) (without_text p)
          (seen G now (behind_loop G now true p d) p)
        ∙ (behind_loop-Under G now true p d p).negative)

  dir_remove_parts :
      (fuel : ℕ) (p : Bytes) (fs : FileSystem G)
      → invalidate_cache_for_dir_remove G fuel now p true fs ≡ (
          purge_listed G fuel now p
            (get_entry_cache G now p fs.cache)
            (before_loop G now p fs.cache)
          >>= λ d. some (send_event G p dir_remove (record fs { cache = removed p d })))
  unfolding invalidate_cache_for_dir_remove get_entry_cache remove_all_negative_entry_cache_for_path
      add_negative_entry_cache remove_dir_entry_cache remove_metadata_cache purge_listed
      remove_dir_cache remove_acl_cache remove_parent_dir_entry_cache change_listing send_event
  dir_remove_parts fuel p fs = refl

  -- At the path itself, before and after the loop.
  before_loop_here :
      (p : Bytes) (c : FileSystemCache G)
      → seen G now (before_loop G now p c) p ≡ record (seen G now c p) {
        entry = none;
        negative = (seen G now c p).enabled;
        metadata = none;
      }
  before_loop_here p c = rw (seen-before_loop G now p p c, eq_text_self p) refl

  loop_here :
      (p : Bytes) (c d : FileSystemCache G)
      → Under G now d (before_loop G now p c)
      → ((seen G now d p).entry ≡ none)
        × ((seen G now d p).metadata ≡ none)
        × ((seen G now d p).negative ≡ (seen G now c p).enabled)
  loop_here p c d u =
      Less-here (seen G now d p) (seen G now (before_loop G now p c) p) (seen G now c p) (u p)
        (before_loop_here p c)

  before_loop_dir :
      (p : Bytes) (c : FileSystemCache G)
      → get_dir_cache G now p (before_loop G now p c) ≡ get_dir_cache G now p c
  unfolding seen
  before_loop_dir p c = ap (λ s. s.dir) (before_loop_here p c)

  -- With more fuel than entries are cached, InvalidateCacheForDirRemove with `recurse` ends. Then nothing is known of the path
  -- but that it is missing (if caching is on), nothing of what its cached listing named, if the path was known
  -- as a directory, and the parent's cached listing is without the path.
  pub invalidate_cache_for_dir_remove-ends :
      (fuel : ℕ) (path : Bytes) (fs : FileSystem G)
      → length (G.keys now fs.cache.entry_cache) < fuel
      → (after : FileSystem G) × (invalidate_cache_for_dir_remove G fuel now path true fs
          ≡ some after)
        × Gone (seen G now after.cache path)
        × ((seen G now after.cache path).negative ≡ (seen G now fs.cache path).enabled)
        × All (λ q. Gone (seen G now after.cache q)) (children_of G now path fs.cache)
        × (has_text path (or_empty (seen G now after.cache (get_irods_path_dirname path)).dir)
            ≡ false)
  unfolding send_event
  invalidate_cache_for_dir_remove-ends fuel path fs lt =
      let c = fs.cache in
      let (d, e, u, gs) =
        purge_listed-Purged G now fuel (G.keys now c.entry_cache) path
          (get_entry_cache G now path c) (before_loop G now path c)
          (before_loop-Covered G now path c) lt in
      let (no_entry, no_metadata, missing) = loop_here path c d u in
      (
        send_event G path dir_remove (record fs { cache = removed path d }),
        dir_remove_parts fuel path fs ∙ rw e refl,
        removed-Gone path path d (behind_loop-Gone G now true path d no_entry no_metadata),
        removed-negative path d ∙ missing,
        removed-All path d (children_of G now path c) (rw (← before_loop_dir path c) gs),
        removed-unlisted path d,
      )
