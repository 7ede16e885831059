-- ===== src/Fs/Cache/Ttl.antt =====
-- How long an item is kept: getCacheTTLForPath and the cache of entries.
use go_irodsclient.Base.{
  ℕ, ◌≤◌, ◌≡◌, refl, List, [], ◌∷◌, Option, none, some, Bytes, if◌then◌else◌, arith, Bool-cases,
  inl, inr, All, length, length-append,
}
use go_irodsclient.Base.Text.{eq_text, eq_text_self}
use go_irodsclient.Base.TextMaps.{find}
use go_irodsclient.Util.Path.Split.{Proper, rooted, render}
use go_irodsclient.Util.Path.Parents.{rooted-snoc}
use go_irodsclient.Util.Path.Ancestors.{ancestors, get_parent_irods_dirs-ancestors}
use go_irodsclient.Fs.Cache.{
  GoCache, Entry, MetadataCacheTimeoutSetting, FileSystemCache, lives, inherited, inherit_or,
  own_or, ttl_of,
}
use go_irodsclient.Fs.Cache.Paths.{get_cache_ttl_for_path, add_entry_cache, get_entry_cache}
use mathlib.Core.List.{reverse, reverse-cons, reverse-append}

-- The directories above a path, the nearest first; the names are given from the last to the first.
abbrev pub above : List Bytes → List Bytes
above [] = []
above (r ∷ rs) = render (reverse rs) ∷ above rs

-- The timeouts of the settings that these directories hand down.
unfoldable pub handed_down : List (Bytes × MetadataCacheTimeoutSetting) → List Bytes → List ℕ
handed_down settings [] = []
handed_down settings (d ∷ ds) =
    let rest = handed_down settings ds in
    elim (find d settings) [ none ↦ rest | some s ↦ if s.inherit then s.timeout ∷ rest else rest ]

-- The timeouts that apply to a path: that of its own setting, handed down or not, then those from above.
abbrev pub applicable : List (Bytes × MetadataCacheTimeoutSetting) → List Bytes → List ℕ
applicable settings rs =
    let rest = handed_down settings (above rs) in
    elim (find (render (reverse rs)) settings) [ none ↦ rest | some s ↦ s.timeout ∷ rest ]

-- The first, or 0, which stands for the timeout of the cache.
abbrev pub first_or_default : List ℕ → ℕ
first_or_default [] = 0
first_or_default (n ∷ ns) = n

inherit_or_lem :
    (o : Option MetadataCacheTimeoutSetting) (rest : List ℕ)
    → inherit_or o (first_or_default rest)
      ≡ first_or_default
          (elim o [ none ↦ rest | some s ↦ if s.inherit then s.timeout ∷ rest else rest ])
inherit_or_lem none rest = refl
inherit_or_lem (some s) rest = elim (Bool-cases s.inherit) [ inl e ↦ rw e refl | inr e ↦ rw e refl ]

own_or_lem :
    (o : Option MetadataCacheTimeoutSetting) (rest : List ℕ)
    → own_or o (first_or_default rest)
      ≡ first_or_default (elim o [ none ↦ rest | some s ↦ s.timeout ∷ rest ])
own_or_lem none rest = refl
own_or_lem (some s) rest = refl

inherited-handed_down :
    (settings : List (Bytes × MetadataCacheTimeoutSetting)) (rs : List Bytes)
    → inherited (reverse (ancestors rs)) settings
      ≡ first_or_default (handed_down settings (above rs))
unfolding inherited handed_down
inherited-handed_down settings [] = refl
inherited-handed_down settings (r ∷ rs) =
    rw (reverse-append (ancestors rs) (render (reverse rs) ∷ []), inherited-handed_down settings rs)
      (inherit_or_lem (find (render (reverse rs)) settings) (handed_down settings (above rs)))

enough_rooted : (rs : List Bytes) → length rs ≤ length (rooted (reverse rs))
enough_rooted [] = omega arith
enough_rooted (r ∷ rs) =
    rw
      (
        reverse-cons r rs,
        rooted-snoc (reverse rs) r,
        length-append (rooted (reverse rs)) (b'/' ∷ r),
      )
      (omega (arith, enough_rooted rs))

rooted_shorter : (ws : List Bytes) → length (rooted ws) ≤ length (render ws)
rooted_shorter [] = omega arith
rooted_shorter (w ∷ ws) = omega arith

enough : (rs : List Bytes) → length rs ≤ length (render (reverse rs))
enough rs = omega (arith, enough_rooted rs, rooted_shorter (reverse rs))

handed_down-none : (ds : List Bytes) → handed_down [] ds ≡ []
unfolding handed_down find
handed_down-none [] = refl
handed_down-none (d ∷ ds) = handed_down-none ds

-- The time to live at the absolute path of proper names is that of the setting of this very path, else that of the
-- nearest directory above with a setting that is inherited, else 0, the default.
pub ttl_of-applicable :
    (settings : List (Bytes × MetadataCacheTimeoutSetting)) (rs : List Bytes)
    → All Proper rs
    → ttl_of settings (render (reverse rs)) ≡ first_or_default (applicable settings rs)
unfolding ttl_of find
ttl_of-applicable [] rs h = rw (handed_down-none (above rs)) refl
ttl_of-applicable (s ∷ settings) rs h =
    let path = render (reverse rs) in
    rw
      (
        get_parent_irods_dirs-ancestors rs (length path) h (enough rs),
        inherited-handed_down (s ∷ settings) rs,
      )
      (own_or_lem (find path (s ∷ settings)) (handed_down (s ∷ settings) (above rs)))

module _ (G : GoCache) where
  -- What is found after an entry was cached.
  pub get_entry_cache-add_entry_cache :
      (before now : ℕ) (entry : Entry) (path : Bytes) (c : FileSystemCache G)
      → before ≤ now
      → get_entry_cache G now path (add_entry_cache G before entry c) ≡ (
          if c.config.no_cache
          then none
          else if eq_text entry.path path
          then (if lives
                (G.timeout c.entry_cache)
                before
                (get_cache_ttl_for_path G c entry.path)
                now
              then some entry
              else none)
          else get_entry_cache G now path c)
  unfolding get_entry_cache add_entry_cache
  get_entry_cache-add_entry_cache before now entry path c le =
      let ttl = get_cache_ttl_for_path G c entry.path in
      elim (Bool-cases c.config.no_cache) [
        | inl e ↦ simp e refl
        | inr e ↦ simp (e, G.get-set before now ttl entry.path path entry c.entry_cache le) refl
      ]

  ttl-applicable :
      (c : FileSystemCache G) (rs : List Bytes)
      → All Proper rs
      → get_cache_ttl_for_path G c (render (reverse rs))
        ≡ first_or_default (applicable c.cache_timeout_path_map rs)
  unfolding get_cache_ttl_for_path
  ttl-applicable c rs h = ttl_of-applicable c.cache_timeout_path_map rs h

  -- An entry at the absolute path of proper names that was cached at one time is found later, with caching on, exactly
  -- as long as the first timeout that applies allows: that of the setting of this very path, else that of the nearest
  -- directory above whose setting is inherited, else the timeout of the cache.
  pub get_entry_cache-nearest :
      (before now : ℕ) (entry : Entry) (rs : List Bytes) (c : FileSystemCache G)
      → before ≤ now
      → All Proper rs
      → entry.path ≡ render (reverse rs)
      → let ttl = first_or_default (applicable c.cache_timeout_path_map rs) in
        get_entry_cache G now entry.path (add_entry_cache G before entry c) ≡ (
          if c.config.no_cache
          then none
          else if lives (G.timeout c.entry_cache) before ttl now
          then some entry
          else none)
  get_entry_cache-nearest before now entry rs c le h at =
      rw
        (
          get_entry_cache-add_entry_cache before now entry entry.path c le,
          eq_text_self entry.path,
          at,
          ttl-applicable c rs h,
        )
        refl
