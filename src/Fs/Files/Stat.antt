-- ===== src/Fs/Files/Stat.antt =====
-- Stat, StatDir and StatFile answer as the server does.
use go_irodsclient.Base.{
  ℕ, ◌≡◌, ◌≢◌, refl, sym, false, List, Option, none, some, Bytes, arith, Bool-cases, Option-cases,
  inl, inr,
}
use go_irodsclient.Base.TextMaps.{has_text}
use go_irodsclient.Util.Path.{get_irods_path_dirname, get_correct_irods_path}
use go_irodsclient.Fs.Cache.{GoCache, file_entry, directory_entry}
use go_irodsclient.Fs.Cache.Paths.{get_entry_cache, get_dir_cache, has_negative_entry_cache}
use go_irodsclient.Fs.Cache.Invalidate.{FileSystem}
use go_irodsclient.Fs.Cache.Seen.{seen}
use go_irodsclient.Fs.Files.{Server, of_kind, stat_listed, stat_correct, stat, stat_dir, stat_file}
use go_irodsclient.Fs.Files.Catalog.{Catalog, Coherent, IsCatalog}
use go_irodsclient.Fs.Files.Replies.{reply_of, Answering}
use go_irodsclient.Fs.Files.Answers.{
  Agrees, missing-Agrees, known_missing, known_entry, stat_server-Agrees, get_collection-Agrees,
  get_data_object-Agrees,
}

module _ (G : GoCache) (S : Server) (view : S.State → Catalog) (law : IsCatalog S view) (now : ℕ)
    (w : S.State) where
  not_listed :
      (p : Bytes) (ps : List Bytes) (fs : FileSystem G)
      → get_irods_path_dirname p ≢ p
      → get_dir_cache G now (get_irods_path_dirname p) fs.cache ≡ some ps
      → has_text p ps ≡ false
      → Coherent G now (view w) fs.cache
      → view w p ≡ none
  unfolding seen get_dir_cache
  not_listed p ps fs nested e f h = elim (Option-cases (view w p)) [
    | inl k ↦ k
    | inr (x, k) ↦
        let here : view w p ≢ none = λ g. cc in
        let all = (h (get_irods_path_dirname p)).complete ps e p (refl, λ g. nested (sym g)) here in
        absurd (ground (arith, all, f))
  ]

  stat_listed-Agrees :
      (p : Bytes) (listed : Option (List Bytes)) (fs : FileSystem G)
      → get_irods_path_dirname p ≢ p
      → get_dir_cache G now (get_irods_path_dirname p) fs.cache ≡ listed
      → Answering S w p
      → Coherent G now (view w) fs.cache
      → Agrees G S view law now w p (view w p) (stat_listed G S now p w listed fs)
  unfolding stat_listed
  stat_listed-Agrees p none fs nested e a h = stat_server-Agrees G S view law now w p fs a h
  stat_listed-Agrees p (some ps) fs nested e a h = elim (Bool-cases (has_text p ps)) [
    | inl f ↦ rw f (stat_server-Agrees G S view law now w p fs a h)
    | inr f ↦
        let gone = not_listed p ps fs nested e f h in
        rw (f, gone) (missing-Agrees G S view law now w p fs gone h)
  ]

  pub stat_correct-Agrees :
      (p : Bytes) (fs : FileSystem G)
      → get_irods_path_dirname p ≢ p
      → Answering S w p
      → Coherent G now (view w) fs.cache
      → Agrees G S view law now w p (view w p) (stat_correct G S now p w fs)
  unfolding stat_correct
  stat_correct-Agrees p fs nested a h =
      elim (Bool-cases (has_negative_entry_cache G now p fs.cache)) [
        | inl e ↦ rw (e, known_missing G S view law now w p fs h e) (refl, h)
        | inr e ↦ rw e (elim (Option-cases (get_entry_cache G now p fs.cache)) [
          | inl f ↦ rw f (
              stat_listed-Agrees p (get_dir_cache G now (get_irods_path_dirname p) fs.cache) fs
                nested refl a h)
          | inr (x, f) ↦ rw (f, known_entry G S view law now w p p fs h x f) (refl, h)
        ])
      ]

  -- If the caches agree with the catalog of the server, and the server answers the requests for a path, then
  -- Stat (of a path other than the root), StatDir and StatFile give, whatever is cached, the entry that the server
  -- holds for the path in its correct form, StatDir only a directory and StatFile only a file, and say that it is
  -- not found exactly if there is none. The caches agree with the catalog afterwards.
  pub stat-server :
      (path : Bytes) (fs : FileSystem G)
      → get_irods_path_dirname (get_correct_irods_path path) ≢ get_correct_irods_path path
      → Answering S w (get_correct_irods_path path)
      → Coherent G now (view w) fs.cache
      → let held = view w (get_correct_irods_path path) in
        let a = stat G S now path w fs in
        let b = stat_dir G S now path w fs in
        let c = stat_file G S now path w fs in
        ((a.0 ≡ reply_of held) × Coherent G now (view w) a.1.cache)
        × ((b.0 ≡ reply_of (of_kind G directory_entry held)) × Coherent G now (view w) b.1.cache)
        × ((c.0 ≡ reply_of (of_kind G file_entry held)) × Coherent G now (view w) c.1.cache)
  unfolding stat stat_dir stat_file
  stat-server path fs nested a h =
      let p = get_correct_irods_path path in
      (
        stat_correct-Agrees p fs nested a h,
        get_collection-Agrees G S view law now w p fs a h,
        get_data_object-Agrees G S view law now w p fs a h,
      )
