-- ===== src/Fs/Cache/Listing.antt =====
-- How a change of a cached listing changes what the caches answer.
use go_irodsclient.Base.{
  ℕ, ◌≡◌, refl, ◌∙◌, false, List, none, some, Bytes, if◌then◌else◌, arith, Bool-cases, Option-cases,
  inl, inr,
}
use go_irodsclient.Base.Text.{eq_text, eq_text_iff}
use go_irodsclient.Util.Path.{get_irods_path_dirname}
use go_irodsclient.Fs.Cache.{GoCache, FileSystemCache}
use go_irodsclient.Fs.Cache.Paths.{add_dir_cache, get_dir_cache}
use go_irodsclient.Fs.Cache.Invalidate.{change_listing}
use go_irodsclient.Fs.Cache.Seen.{seen, map_some, seen-add_dir_cache}

module _ (G : GoCache) (now : ℕ) where
  unlisted :
      (change : List Bytes → List Bytes) (p q : Bytes) (c : FileSystemCache G)
      → get_dir_cache G now p c ≡ none
      → seen G now c q ≡ (
          if eq_text p q
          then record (seen G now c q) { dir = map_some change (seen G now c q).dir }
          else seen G now c q)
  unfolding seen
  unlisted change p q c h = elim (Bool-cases (eq_text p q)) [
    | inl f ↦
        let g : get_dir_cache G now q c ≡ none = rw (← (eq_text_iff p q).0 f) h in simp (f, g) refl
    | inr f ↦ simp f refl
  ]

  listed_enabled :
      (p : Bytes) (entries : List Bytes) (c : FileSystemCache G)
      → get_dir_cache G now p c ≡ some entries
      → c.config.no_cache ≡ false
  unfolding get_dir_cache
  listed_enabled p entries c h = ground (arith, h)

  stored :
      (p : Bytes) (entries : List Bytes) (c : FileSystemCache G)
      → get_dir_cache G now p c ≡ some entries
      → G.get now p c.dir_cache ≡ some entries
  unfolding get_dir_cache
  stored p entries c h = ground (arith, h)

  listed :
      (change : List Bytes → List Bytes) (p q : Bytes) (entries : List Bytes)
      (c : FileSystemCache G)
      → get_dir_cache G now p c ≡ some entries
      → (if eq_text p q
          then record (seen G now c q) {
            dir = if (seen G now c q).enabled then some (change entries) else none;
          }
          else seen G now c q)
        ≡ (if eq_text p q
            then record (seen G now c q) { dir = map_some change (seen G now c q).dir }
            else seen G now c q)
  unfolding seen
  listed change p q entries c h = elim (Bool-cases (eq_text p q)) [
    | inl f ↦
        let g : get_dir_cache G now q c ≡ some entries = rw (← (eq_text_iff p q).0 f) h in
        simp (f, stored q entries c g, listed_enabled p entries c h) refl
    | inr f ↦ simp f refl
  ]

  change_listing-none :
      (change : List Bytes → List Bytes) (p : Bytes) (c : FileSystemCache G)
      → get_dir_cache G now (get_irods_path_dirname p) c ≡ none
      → change_listing G change now p c ≡ c
  unfolding change_listing get_dir_cache
  change_listing-none change p c h = ground (arith, h)

  change_listing-some :
      (change : List Bytes → List Bytes) (p : Bytes) (entries : List Bytes) (c : FileSystemCache G)
      → get_dir_cache G now (get_irods_path_dirname p) c ≡ some entries
      → change_listing G change now p c
        ≡ add_dir_cache G now (get_irods_path_dirname p) (change entries) c
  unfolding change_listing get_dir_cache
  change_listing-some change p entries c h = ground (arith, h)

  pub seen-change_listing :
      (change : List Bytes → List Bytes) (p q : Bytes) (c : FileSystemCache G)
      → seen G now (change_listing G change now p c) q ≡ (
          if eq_text (get_irods_path_dirname p) q
          then record (seen G now c q) { dir = map_some change (seen G now c q).dir }
          else seen G now c q)
  unfolding seen
  seen-change_listing change p q c =
      let parent = get_irods_path_dirname p in
      elim (Option-cases (get_dir_cache G now parent c)) [
        | inl h ↦ rw (change_listing-none change p c h) (unlisted change parent q c h)
        | inr (entries, h) ↦ rw (change_listing-some change p entries c h) (
            seen-add_dir_cache G now parent q (change entries) c
            ∙ listed change parent q entries c h)
      ]
