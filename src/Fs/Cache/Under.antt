-- ===== src/Fs/Cache/Under.antt =====
-- fs/cache.go and fs/cache_propagation.go: which entries a new file and a new directory drop, by the names of the
-- paths.
use go_irodsclient.Base.{
  ℕ, ◌≡◌, refl, sym, ap, ap₂, ◌∙◌, Bool, true, false, ◌||◌, ◌&&◌, List, [], ◌∷◌, ◌++◌, none, Bytes,
  if◌then◌else◌, arith, All, append_assoc,
}
use go_irodsclient.Base.Text.{eq_text, has_prefix}
use go_irodsclient.Util.Path.Split.{Proper, NoSlash, Proper-NoSlash, rooted, render}
use go_irodsclient.Util.Path.Parents.{get_irods_path_dirname-snoc, ends-rooted}
use go_irodsclient.Fs.Cache.{GoCache}
use go_irodsclient.Fs.Cache.Paths.{dir_prefix}
use go_irodsclient.Fs.Cache.Invalidate.{
  FileSystem, invalidate_cache_for_file_create, invalidate_cache_for_dir_create,
}
use go_irodsclient.Fs.Cache.Seen.{Seen, seen, map_some, is_under}
use go_irodsclient.Fs.Cache.Changes.{seen-create}

-- Whether names begin with these names: whether the path of the second list is the path of the first, or below it.
unfoldable pub begins : List Bytes → List Bytes → Bool
begins [] vs = true
begins (w ∷ ws) [] = false
begins (w ∷ ws) (v ∷ vs) = eq_text w v && begins ws vs

-- A name without slashes and the slash behind it are taken together.
has_prefix-name :
    (v w s t : Bytes)
    → NoSlash v
    → NoSlash w
    → has_prefix (v ++ b'/' ∷ s) (w ++ b'/' ∷ t) ≡ eq_text w v && has_prefix s t
unfolding has_prefix eq_text
has_prefix-name [] [] s t h k = ground arith
has_prefix-name [] (c ∷ w) s t h k = ground (arith, k)
has_prefix-name (d ∷ v) [] s t h k = ground (arith, h)
has_prefix-name (d ∷ v) (c ∷ w) s t h k =
    ground (arith, has_prefix-name v w s t (ground (arith, h)) (ground (arith, k)))

-- The path of names, and a slash behind it, but for the slash in front.
abbrev closed : List Bytes → Bytes
closed [] = []
closed (w ∷ ws) = w ++ b'/' ∷ closed ws

rooted-closed : (ws : List Bytes) → rooted ws ++ b'/' ∷ [] ≡ b'/' ∷ closed ws
rooted-closed [] = refl
rooted-closed (w ∷ ws) =
    ap (λ s. b'/' ∷ s)
      (append_assoc w (rooted ws) (b'/' ∷ []) ∙ ap (λ s. w ++ s) (rooted-closed ws))

has_prefix-nil : (s : Bytes) → has_prefix s [] ≡ true
unfolding has_prefix
has_prefix-nil [] = refl
has_prefix-nil (c ∷ s) = refl

has_prefix-closed :
    (vs ws : List Bytes)
    → All NoSlash vs
    → All NoSlash ws
    → has_prefix (closed vs) (closed ws) ≡ begins ws vs
unfolding has_prefix begins
has_prefix-closed vs [] hs ks = has_prefix-nil (closed vs)
has_prefix-closed [] ([] ∷ ws) hs ks = refl
has_prefix-closed [] ((c ∷ w) ∷ ws) hs ks = refl
has_prefix-closed (v ∷ vs) (w ∷ ws) (h, hs) (k, ks) =
    has_prefix-name v w (closed vs) (closed ws) h k
    ∙ ap (λ b. eq_text w v && b) (has_prefix-closed vs ws hs ks)

-- A text with a letter behind begins with another text with that letter behind.
has_prefix-end :
    (q p : Bytes) (c : ℕ)
    → has_prefix (q ++ c ∷ []) (p ++ c ∷ []) ≡ eq_text p q || has_prefix q (p ++ c ∷ [])
unfolding has_prefix eq_text
has_prefix-end [] [] c = ground arith
has_prefix-end (x ∷ q) [] c = ground arith
has_prefix-end [] (y ∷ []) c = ground arith
has_prefix-end [] (y ∷ z ∷ p) c = ground arith
has_prefix-end (x ∷ q) (y ∷ p) c = ground (arith, has_prefix-end q p c)

dir_prefix-closed : (ws : List Bytes) → All Proper ws → dir_prefix (render ws) ≡ b'/' ∷ closed ws
unfolding dir_prefix
dir_prefix-closed [] h = refl
dir_prefix-closed (w ∷ ws) (h, hs) = rw (ends-rooted w ws h hs) (rooted-closed (w ∷ ws))

-- The path of some names is the path of others or under it exactly if the names begin with those.
is_under-begins :
    (ws vs : List Bytes)
    → All Proper ws
    → All Proper vs
    → eq_text (render ws) (render vs) || is_under true (render ws) (render vs) ≡ begins ws vs
unfolding has_prefix eq_text begins
is_under-begins [] [] hs ks = refl
is_under-begins [] (v ∷ vs) hs ks =
    rw (dir_prefix-closed [] tt) (ground (arith, has_prefix-nil (v ++ rooted vs)))
is_under-begins ([] ∷ ws) [] (h, hs) ks = absurd (ground (arith, h.not_empty))
is_under-begins ((c ∷ w) ∷ ws) [] hs ks = rw (dir_prefix-closed ((c ∷ w) ∷ ws) hs) refl
is_under-begins (w ∷ ws) (v ∷ vs) hs ks =
    let p = rooted (w ∷ ws) in
    let q = rooted (v ∷ vs) in
    let prefix : dir_prefix p ≡ p ++ b'/' ∷ [] =
      dir_prefix-closed (w ∷ ws) hs ∙ sym (rooted-closed (w ∷ ws)) in
    ap (λ t. eq_text p q || has_prefix q t) prefix
    ∙ sym (has_prefix-end q p b'/')
    ∙ ap₂ has_prefix (rooted-closed (v ∷ vs)) (rooted-closed (w ∷ ws))
    ∙ has_prefix-closed (v ∷ vs) (w ∷ ws) (Proper-NoSlash (v ∷ vs) ks) (Proper-NoSlash (w ∷ ws) hs)

module _ (G : GoCache) (now : ℕ) where
  -- The answers about `q` after something is made at `path` in the directory `up`; `gone` says whether the entry goes.
  abbrev pub made : Bool → Bytes → Bytes → Bytes → Seen → Seen
  made gone path up q s = record s {
    entry = if s.immediate && gone then none else s.entry;
    negative = if eq_text path q then false else s.negative;
    dir = if eq_text up q then map_some (λ entries. entries ++ path ∷ []) s.dir else s.dir;
  }

  -- At the absolute paths of proper names: after InvalidateCacheForFileCreate and InvalidateCacheForDirCreate, the
  -- caches answer about every path as before, but that the new path is no longer known as missing, that the cached
  -- listing of its directory has it at the end, and that, if the configuration drops the entries of a parent at once,
  -- these entries go: for a file that of the directory, for a directory those of all paths whose names begin with
  -- the names of the parent directory, which are the parent itself and all below it.
  pub seen-create_names :
      (ws : List Bytes) (w : Bytes) (vs : List Bytes) (fs : FileSystem G)
      → All Proper ws
      → Proper w
      → All Proper vs
      → let path = render (ws ++ w ∷ []) in
        let up = render ws in
        let q = render vs in
        let s = seen G now fs.cache q in
        (seen G now (invalidate_cache_for_file_create G now path fs).cache q
          ≡ made (eq_text up q) path up q s)
        × (seen G now (invalidate_cache_for_dir_create G now path fs).cache q
            ≡ made (begins ws vs) path up q s)
  seen-create_names ws w vs fs hs k ls =
      let path = render (ws ++ w ∷ []) in
      let q = render vs in
      let s = seen G now fs.cache q in
      let (file, dir) = seen-create G now path q fs in
      let up = get_irods_path_dirname-snoc ws w hs k in
      let alone : eq_text (render ws) q || false ≡ eq_text (render ws) q = ground arith in
      (
        file ∙ rw up (ap (λ b. made b path (render ws) q s) alone),
        dir ∙ rw up (ap (λ b. made b path (render ws) q s) (is_under-begins ws vs hs ls)),
      )
