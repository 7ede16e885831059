-- ===== src/Fs/Cache/Seen.antt =====
-- What the caches answer about a path, and how each operation changes the answers.
use go_irodsclient.Base.{
  ℕ, ◌≡◌, refl, ◌∙◌, Bool, true, false, not, ◌||◌, ◌&&◌, List, [], ◌∷◌, ◌++◌, Option, none, some,
  Bytes, if◌then◌else◌, arith, Bool-cases, Option-cases, inl, inr,
}
use go_irodsclient.Base.Text.{eq_text, eq_text_iff, eq_text_self, has_prefix}
use go_irodsclient.Base.TextMaps.{has_text}
use go_irodsclient.Util.Path.{get_irods_path_dirname}
use go_irodsclient.Fs.Cache.{GoCache, Entry, IrodsMeta, IrodsAccess, FileSystemCache, lives}
use go_irodsclient.Fs.Cache.Paths.{
  get_cache_ttl_for_path, delete_keys, dir_prefix, remove_entry_cache, remove_dir_entry_cache,
  remove_parent_dir_entry_cache, get_entry_cache, add_negative_entry_cache,
  remove_negative_entry_cache, remove_all_negative_entry_cache_for_path, has_negative_entry_cache,
  add_dir_cache, remove_dir_cache, get_dir_cache, remove_metadata_cache, get_metadata_cache,
  remove_acl_cache, get_acl_cache,
}

pub record Seen : Type 0 where
  pub enabled : Bool
  pub immediate : Bool
  pub entry : Option Entry
  pub negative : Bool
  pub dir : Option (List Bytes)
  pub metadata : Option (List IrodsMeta)
  pub acl : Option (List IrodsAccess)

abbrev pub map_some {ℓ} : {A : Type ℓ} → (A → A) → Option A → Option A
map_some f none = none
map_some f (some a) = some (f a)

-- Of the paths under a directory: those with its prefix, where the removal is recursive.
abbrev pub is_under : Bool → Bytes → Bytes → Bool
is_under recurse p q = if recurse then has_prefix q (dir_prefix p) else false

-- At the time it is set, an item is there.
lives_now : (timeout ttl now : ℕ) → lives timeout now ttl now ≡ true
unfolding lives
lives_now timeout ttl now = ground arith

module _ (G : GoCache) (now : ℕ) where
  pub get-set_now :
      {V : Type 0} (ttl : ℕ) (k at : Bytes) (v : V) (items : G.Cache V)
      → G.get now at (G.set now k v ttl items)
        ≡ (if eq_text k at then some v else G.get now at items)
  get-set_now ttl k at v items =
      G.get-set now now ttl k at v items (omega arith)
      ∙ rw (lives_now (G.timeout items) ttl now) refl

  unfoldable pub seen : FileSystemCache G → Bytes → Seen
  unfolding get_entry_cache has_negative_entry_cache get_dir_cache get_metadata_cache get_acl_cache
  seen c q = record {
    enabled = not c.config.no_cache;
    immediate = c.config.invalidate_parent_entry_cache_immediately;
    entry = get_entry_cache G now q c;
    negative = has_negative_entry_cache G now q c;
    dir = get_dir_cache G now q c;
    metadata = get_metadata_cache G now q c;
    acl = get_acl_cache G now q c;
  }

  pub seen-remove_entry_cache :
      (p q : Bytes) (c : FileSystemCache G)
      → seen (remove_entry_cache G p c) q
        ≡ (if eq_text p q then record (seen c q) { entry = none } else seen c q)
  unfolding seen remove_entry_cache get_entry_cache has_negative_entry_cache get_dir_cache
      get_metadata_cache get_acl_cache
  seen-remove_entry_cache p q c = ground (arith, G.get-delete now p q c.entry_cache)

  pub seen-remove_metadata_cache :
      (p q : Bytes) (c : FileSystemCache G)
      → seen (remove_metadata_cache G p c) q
        ≡ (if eq_text p q then record (seen c q) { metadata = none } else seen c q)
  unfolding seen remove_metadata_cache get_entry_cache has_negative_entry_cache get_dir_cache
      get_metadata_cache get_acl_cache
  seen-remove_metadata_cache p q c = ground (arith, G.get-delete now p q c.metadata_cache)

  pub seen-remove_acl_cache :
      (p q : Bytes) (c : FileSystemCache G)
      → seen (remove_acl_cache G p c) q
        ≡ (if eq_text p q then record (seen c q) { acl = none } else seen c q)
  unfolding seen remove_acl_cache get_entry_cache has_negative_entry_cache get_dir_cache
      get_metadata_cache get_acl_cache
  seen-remove_acl_cache p q c = ground (arith, G.get-delete now p q c.acl_cache)

  pub seen-remove_dir_cache :
      (p q : Bytes) (c : FileSystemCache G)
      → seen (remove_dir_cache G p c) q
        ≡ (if eq_text p q then record (seen c q) { dir = none } else seen c q)
  unfolding seen remove_dir_cache get_entry_cache has_negative_entry_cache get_dir_cache
      get_metadata_cache get_acl_cache
  seen-remove_dir_cache p q c = ground (arith, G.get-delete now p q c.dir_cache)

  pub seen-remove_negative_entry_cache :
      (p q : Bytes) (c : FileSystemCache G)
      → seen (remove_negative_entry_cache G p c) q
        ≡ (if eq_text p q then record (seen c q) { negative = false } else seen c q)
  unfolding seen remove_negative_entry_cache get_entry_cache has_negative_entry_cache get_dir_cache
      get_metadata_cache get_acl_cache
  seen-remove_negative_entry_cache p q c =
      ground (arith, G.get-delete now p q c.negative_entry_cache)

  pub seen-add_negative_entry_cache :
      (p q : Bytes) (c : FileSystemCache G)
      → seen (add_negative_entry_cache G now p c) q
        ≡ (if eq_text p q then record (seen c q) { negative = (seen c q).enabled } else seen c q)
  unfolding seen add_negative_entry_cache get_entry_cache has_negative_entry_cache get_dir_cache
      get_metadata_cache get_acl_cache
  seen-add_negative_entry_cache p q c =
      ground (arith, get-set_now (get_cache_ttl_for_path G c p) p q true c.negative_entry_cache)

  pub seen-add_dir_cache :
      (p q : Bytes) (entries : List Bytes) (c : FileSystemCache G)
      → seen (add_dir_cache G now p entries c) q ≡ (
          if eq_text p q
          then record (seen c q) { dir = if (seen c q).enabled then some entries else none }
          else seen c q)
  unfolding seen add_dir_cache get_entry_cache has_negative_entry_cache get_dir_cache
      get_metadata_cache get_acl_cache
  seen-add_dir_cache p q entries c =
      ground (arith, get-set_now (get_cache_ttl_for_path G c p) p q entries c.dir_cache)

  get-delete_keys :
      {V : Type 0} (test : Bytes → Bool) (ks : List Bytes) (q : Bytes) (items : G.Cache V)
      → G.get now q (delete_keys G test ks items)
        ≡ (if test q && has_text q ks then none else G.get now q items)
  unfolding delete_keys has_text
  get-delete_keys test [] q items = ground arith
  get-delete_keys test (k ∷ ks) q items = elim (Bool-cases (eq_text k q)) [
    | inl e ↦
        let f : k ≡ q = (eq_text_iff k q).0 e in
        elim (Bool-cases (test q)) [
          | inl g ↦
              simp
                (
                  f,
                  g,
                  get-delete_keys test ks q (G.delete q items),
                  G.get-delete now q q items,
                  eq_text_self q,
                )
                (ground arith)
          | inr g ↦ simp (f, g, get-delete_keys test ks q items) refl
        ]
    | inr e ↦ elim (Bool-cases (test k)) [
      | inl g ↦
          simp (g, e, get-delete_keys test ks q (G.delete k items), G.get-delete now k q items) refl
      | inr g ↦ simp (g, e, get-delete_keys test ks q items) refl
    ]
  ]

  get-delete_all :
      {V : Type 0} (test : Bytes → Bool) (q : Bytes) (items : G.Cache V)
      → G.get now q (delete_keys G test (G.keys now items) items)
        ≡ (if test q then none else G.get now q items)
  get-delete_all test q items =
      get-delete_keys test (G.keys now items) q items ∙ elim (Option-cases (G.get now q items)) [
        | inl e ↦ simp e (ground arith)
        | inr (v, e) ↦ simp (G.get-keys now q v items e) (ground arith)
      ]

  pub seen-remove_dir_entry_cache :
      (recurse : Bool) (p q : Bytes) (c : FileSystemCache G)
      → seen (remove_dir_entry_cache G now p recurse c) q ≡ (
          if eq_text p q || is_under recurse p q
          then record (seen c q) { entry = none }
          else seen c q)
  unfolding seen remove_dir_entry_cache get_entry_cache has_negative_entry_cache get_dir_cache
      get_metadata_cache get_acl_cache
  seen-remove_dir_entry_cache recurse p q c =
      let items = G.delete p c.entry_cache in
      ground (
        arith,
        G.get-delete now p q c.entry_cache,
        get-delete_all (λ k. has_prefix k (dir_prefix p)) q items,
      )

  pub seen-remove_all_negative_entry_cache_for_path :
      (p q : Bytes) (c : FileSystemCache G)
      → seen (remove_all_negative_entry_cache_for_path G now p c) q ≡ (
          if eq_text q p || has_prefix q (p ++ b'/' ∷ [])
          then record (seen c q) { negative = false }
          else seen c q)
  unfolding seen remove_all_negative_entry_cache_for_path get_entry_cache has_negative_entry_cache
      get_dir_cache get_metadata_cache get_acl_cache
  seen-remove_all_negative_entry_cache_for_path p q c = ground (
    arith,
    get-delete_all (λ k. eq_text k p || has_prefix k (p ++ b'/' ∷ [])) q c.negative_entry_cache,
  )

  pub seen-remove_parent_dir_entry_cache :
      (recurse : Bool) (p q : Bytes) (c : FileSystemCache G)
      → let parent = get_irods_path_dirname p in
        seen (remove_parent_dir_entry_cache G now p recurse c) q ≡ (
          if (seen c q).immediate && (eq_text parent q || is_under recurse parent q)
          then record (seen c q) { entry = none }
          else seen c q)
  unfolding seen remove_parent_dir_entry_cache get_entry_cache
  seen-remove_parent_dir_entry_cache recurse p q c =
      ground (arith, seen-remove_dir_entry_cache recurse (get_irods_path_dirname p) q c)
