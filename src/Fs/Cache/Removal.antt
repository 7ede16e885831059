-- ===== src/Fs/Cache/Removal.antt =====
-- What InvalidateCacheForDirRemove and InvalidateCacheForPath do before, in and behind their loop over the listing.
use go_irodsclient.Base.{
  ℕ, ◌<◌, ◌≡◌, refl, ap, ◌∙◌, sym, Bool, true, false, ◌||◌, ◌&&◌, List, [], ◌∷◌, ◌++◌, Option, none,
  some, Bytes, if◌then◌else◌, arith, Bool-cases, inl, inr, length,
}
use go_irodsclient.Base.Text.{eq_text, eq_text_self, has_prefix}
use go_irodsclient.Util.Path.{get_irods_path_dirname}
use go_irodsclient.Fs.Cache.{GoCache, Entry, FileSystemCache, or_empty}
use go_irodsclient.Fs.Cache.Paths.{
  get_entry_cache, get_dir_cache, remove_metadata_cache, remove_acl_cache, remove_dir_cache,
  remove_dir_entry_cache, add_negative_entry_cache, remove_all_negative_entry_cache_for_path,
  remove_parent_dir_entry_cache,
}
use go_irodsclient.Fs.Cache.Invalidate.{
  invalidate_cache_for_remove_internal, is_directory, purge_listed,
}
use go_irodsclient.Fs.Cache.Seen.{
  Seen, seen, is_under, seen-remove_metadata_cache, seen-remove_acl_cache, seen-remove_dir_cache,
  seen-remove_dir_entry_cache, seen-add_negative_entry_cache,
  seen-remove_all_negative_entry_cache_for_path, seen-remove_parent_dir_entry_cache,
}
use go_irodsclient.Fs.Cache.Less.{
  Less, Gone, Less-refl, Less-trans, Gone-Less, without_dir, without_acl, without_entry,
}
use go_irodsclient.Fs.Cache.Purge.{Covered, Under, Purged, each-Purged, invalidate-Purged}

-- Of the answers, before the listing is purged: what is missing is `missing` there.
abbrev fronted : Bool → Bool → Seen → Seen
fronted b n s =
    let s1 = if n then record s { negative = false } else s in
    let s2 = if b then record s1 { negative = s1.enabled } else s1 in
    let s3 = if b || false then record s2 { entry = none } else s2 in
    if b then record s3 { metadata = none } else s3

abbrev started : Bool → Bool → Seen → Seen
started b n s = record s {
  entry = if b then none else s.entry;
  negative = if b then s.enabled else if n then false else s.negative;
  metadata = if b then none else s.metadata;
}

fronted_lem : (b n : Bool) (s : Seen) → fronted b n s ≡ started b n s
fronted_lem true true s = refl
fronted_lem true false s = refl
fronted_lem false true s = refl
fronted_lem false false s = refl

entry_before :
    (b : Bool) (s : Seen) (e : Entry) → (if b then none else s.entry) ≡ some e → s.entry ≡ some e
entry_before true s e h = absurd (ground (arith, h))
entry_before false s e h = h

module _ (G : GoCache) (now : ℕ) where
  keys-Covered : (c : FileSystemCache G) → Covered G now (G.keys now c.entry_cache) c
  unfolding seen get_entry_cache
  keys-Covered c q e h = G.get-keys now q e c.entry_cache (ground (arith, h))

  -- invalidateCacheForRemoveInternal ends within one more call in depth than entries are cached. Then nothing is
  -- known of the path, and every answer about any path is as before or gone.
  pub invalidate_cache_for_remove_internal-ends :
      (fuel : ℕ) (c : FileSystemCache G) (path : Bytes)
      → length (G.keys now c.entry_cache) < fuel
      → (d : FileSystemCache G) × (invalidate_cache_for_remove_internal G fuel now path true c
          ≡ some d)
        × ((q : Bytes) → Less (seen G now d q) (seen G now c q))
        × Gone (seen G now d path)
  invalidate_cache_for_remove_internal-ends fuel c path lt =
      let (d, e, u, g) =
        invalidate-Purged G now fuel (G.keys now c.entry_cache) c path (keys-Covered c) lt in
      (d, e, u, g.0)

  -- The caches after the changes that come before the loop.
  abbrev pub before_loop : Bytes → FileSystemCache G → FileSystemCache G
  before_loop p c = remove_metadata_cache G p (
      remove_dir_entry_cache G now p false
        (add_negative_entry_cache G now p (remove_all_negative_entry_cache_for_path G now p c)))

  pub seen-before_loop :
      (p q : Bytes) (c : FileSystemCache G)
      → seen G now (before_loop p c) q
        ≡ started (eq_text p q) (eq_text q p || has_prefix q (p ++ b'/' ∷ [])) (seen G now c q)
  seen-before_loop p q c =
      let c1 = remove_all_negative_entry_cache_for_path G now p c in
      let c2 = add_negative_entry_cache G now p c1 in
      rw
        (
          seen-remove_metadata_cache G now p q (remove_dir_entry_cache G now p false c2),
          seen-remove_dir_entry_cache G now false p q c2,
          seen-add_negative_entry_cache G now p q c1,
          seen-remove_all_negative_entry_cache_for_path G now p q c,
        )
        (fronted_lem (eq_text p q) (eq_text q p || has_prefix q (p ++ b'/' ∷ [])) (seen G now c q))

  -- The caches after the changes that come behind the loop, without the parent's listing.
  abbrev pub behind_loop : Bool → Bytes → FileSystemCache G → FileSystemCache G
  behind_loop recurse p d =
      remove_parent_dir_entry_cache G now p recurse (remove_acl_cache G p (remove_dir_cache G p d))

  pub parent-Under :
      (recurse : Bool) (p : Bytes) (c : FileSystemCache G)
      → Under G now (remove_parent_dir_entry_cache G now p recurse c) c
  parent-Under recurse p c q =
      let up = get_irods_path_dirname p in
      rw (seen-remove_parent_dir_entry_cache G now recurse p q c) (
        without_entry ((seen G now c q).immediate && (eq_text up q || is_under recurse up q))
          (seen G now c q))

  pub acl-Under : (p : Bytes) (c : FileSystemCache G) → Under G now (remove_acl_cache G p c) c
  acl-Under p c q =
      rw (seen-remove_acl_cache G now p q c) (without_acl (eq_text p q) (seen G now c q))

  pub dir-Under : (p : Bytes) (c : FileSystemCache G) → Under G now (remove_dir_cache G p c) c
  dir-Under p c q =
      rw (seen-remove_dir_cache G now p q c) (without_dir (eq_text p q) (seen G now c q))

  pub behind_loop-Under :
      (recurse : Bool) (p : Bytes) (d : FileSystemCache G) → Under G now (behind_loop recurse p d) d
  behind_loop-Under recurse p d q =
      let d1 = remove_dir_cache G p d in
      Less-trans (parent-Under recurse p (remove_acl_cache G p d1) q)
        (Less-trans (acl-Under p d1 q) (dir-Under p d q))

  -- Where neither an entry nor metadata are left, nothing is left.
  pub behind_loop-Gone :
      (recurse : Bool) (p : Bytes) (d : FileSystemCache G)
      → (seen G now d p).entry ≡ none
      → (seen G now d p).metadata ≡ none
      → Gone (seen G now (behind_loop recurse p d) p)
  behind_loop-Gone recurse p d e m =
      let d1 = remove_dir_cache G p d in
      Gone-Less (parent-Under recurse p (remove_acl_cache G p d1) p) (
        rw (seen-remove_acl_cache G now p p d1, seen-remove_dir_cache G now p p d, eq_text_self p)
          (record { entry = e; dir = refl; metadata = m; acl = refl }))

  pub before_loop-Covered :
      (p : Bytes) (c : FileSystemCache G)
      → Covered G now (G.keys now c.entry_cache) (before_loop p c)
  before_loop-Covered p c q e h =
      let r = ap (λ s. s.entry) (sym (seen-before_loop p q c)) ∙ h in
      keys-Covered c q e (entry_before (eq_text p q) (seen G now c q) e r)

  -- The paths whose caches go with those of a directory: its cached listing, if it is known as one.
  abbrev pub children_of : Bytes → FileSystemCache G → List Bytes
  children_of p c =
      if is_directory (get_entry_cache G now p c) then or_empty (get_dir_cache G now p c) else []

  pub purge_listed-Purged :
      (fuel : ℕ) (ks : List Bytes) (p : Bytes) (entry : Option Entry) (c : FileSystemCache G)
      → Covered G now ks c
      → length ks < fuel
      → Purged G now
          (purge_listed G fuel now p entry c)
          c
          (if is_directory entry then or_empty (get_dir_cache G now p c) else [])
  unfolding purge_listed get_dir_cache
  purge_listed-Purged fuel ks p entry c cov lt = elim (Bool-cases (is_directory entry)) [
    | inl e ↦ rw e (
        each-Purged G now (λ q. invalidate_cache_for_remove_internal G fuel now q true) ks
          (λ b q k. invalidate-Purged G now fuel ks b q k lt) (or_empty (get_dir_cache G now p c)) c
          cov)
    | inr e ↦ rw e (c, refl, (λ q. Less-refl (seen G now c q)), tt)
  ]
