-- ===== src/Util/Path/Split.antt =====
-- Names of a path, and the text that they make up.
use go_irodsclient.Base.{
  append_laws, ℕ, ◌≡◌, refl, ap, ◌∙◌, true, false, ◌||◌, List, [], ◌∷◌, ◌++◌, Bytes, ◌==◌, arith,
  contains, All, Bool-cases, inl, inr, append-nil,
}
use go_irodsclient.Util.Path.{
  split_slash, join_slash, attach, is_empty, is_dot, is_dots, keep, go_up, resolve,
}
use mathlib.Core.List.{reverse_aux}

-- A name that stands in a path by itself.
pub record Proper (w : Bytes) : Type 0 where
  pub no_slash : contains b'/' w ≡ false
  pub not_empty : is_empty w ≡ false
  pub not_dot : is_dot w ≡ false
  pub not_dots : is_dots w ≡ false

abbrev pub NoSlash : Bytes → Type 0
NoSlash w = contains b'/' w ≡ false

-- The absolute path of a list of names.
abbrev pub rooted : List Bytes → Bytes
rooted [] = []
rooted (w ∷ ws) = b'/' ∷ (w ++ rooted ws)

abbrev pub render : List Bytes → Bytes
render [] = b'/' ∷ []
render (w ∷ ws) = rooted (w ∷ ws)

pub Proper-NoSlash : (ws : List Bytes) → All Proper ws → All NoSlash ws
Proper-NoSlash [] h = tt
Proper-NoSlash (w ∷ ws) (h, hs) = (h.no_slash, Proper-NoSlash ws hs)

pub split_slash-append : (w t : Bytes) → NoSlash w → split_slash (w ++ b'/' ∷ t) ≡ w ∷ split_slash t
unfolding split_slash
split_slash-append [] t h = refl
split_slash-append (c ∷ w) t h = elim (Bool-cases (c == b'/')) [
  | inl e ↦ ground (arith, e, h)
  | inr e ↦ rw (e, split_slash-append w t (ground (arith, h))) refl
]

pub split_slash-name : (w : Bytes) → NoSlash w → split_slash w ≡ w ∷ []
unfolding split_slash
split_slash-name [] h = refl
split_slash-name (c ∷ w) h = elim (Bool-cases (c == b'/')) [
  | inl e ↦ ground (arith, e, h)
  | inr e ↦ rw (e, split_slash-name w (ground (arith, h))) refl
]

pub split_slash-rooted :
    (w : Bytes) (ws : List Bytes)
    → NoSlash w
    → All NoSlash ws
    → split_slash (w ++ rooted ws) ≡ w ∷ ws
split_slash-rooted w [] h hs = rw (append-nil w) (split_slash-name w h)
split_slash-rooted w (v ∷ ws) h (k, ks) =
    split_slash-append w (v ++ rooted ws) h ∙ ap (λ r. w ∷ r) (split_slash-rooted v ws k ks)

pub join_slash-rooted : (w : Bytes) (ws : List Bytes) → join_slash (w ∷ ws) ≡ w ++ rooted ws
unfolding join_slash
join_slash-rooted w [] = simp append_laws
join_slash-rooted w (v ∷ ws) = rw (join_slash-rooted v ws) refl

-- `join_slash` behind the first slash.
pub join_slash-render : (ws : List Bytes) → b'/' ∷ join_slash ws ≡ render ws
unfolding join_slash
join_slash-render [] = refl
join_slash-render (w ∷ ws) = ap (λ s. b'/' ∷ s) (join_slash-rooted w ws)

-- Splitting gives parts without slashes.
pub attach-NoSlash :
    (c : ℕ) (ws : List Bytes) → (c == b'/') ≡ false → All NoSlash ws → All NoSlash (attach c ws)
attach-NoSlash c [] e h = (ground (arith, e), tt)
attach-NoSlash c (w ∷ ws) e (h, hs) = (ground (arith, e, h), hs)

pub split_slash-NoSlash : (s : Bytes) → All NoSlash (split_slash s)
unfolding split_slash
split_slash-NoSlash [] = (refl, tt)
split_slash-NoSlash (c ∷ s) = elim (Bool-cases (c == b'/')) [
  | inl e ↦ rw e (refl, split_slash-NoSlash s)
  | inr e ↦ rw e (attach-NoSlash c (split_slash s) e (split_slash-NoSlash s))
]

-- Names that are proper are all kept.
pub resolve-Proper :
    (ws kept : List Bytes) → All Proper ws → resolve true kept ws ≡ reverse_aux ws kept
unfolding resolve
resolve-Proper [] kept h = refl
resolve-Proper (w ∷ ws) kept (h, hs) =
    rw (h.not_empty, h.not_dot, h.not_dots) (resolve-Proper ws (w ∷ kept) hs)

go_up-All : (kept : List Bytes) → All Proper kept → All Proper (go_up true kept)
go_up-All [] h = tt
go_up-All (w ∷ kept) (h, hs) = hs

keep-All :
    (kept : List Bytes) (w : Bytes) → NoSlash w → All Proper kept → All Proper (keep true kept w)
unfolding keep
keep-All kept w h k = elim (Bool-cases (is_empty w || is_dot w)) [
  | inl e ↦ rw e k
  | inr e ↦ elim (Bool-cases (is_dots w)) [
    | inl f ↦ rw (e, f) (go_up-All kept k)
    | inr f ↦
        rw (e, f)
          (
            record {
              no_slash = h;
              not_empty = ground (arith, e);
              not_dot = ground (arith, e);
              not_dots = f;
            },
            k,
          )
  ]
]

-- Whatever the elements are, those that an absolute path keeps are proper.
pub resolve-All :
    (ws kept : List Bytes) → All NoSlash ws → All Proper kept → All Proper (resolve true kept ws)
unfolding resolve
resolve-All [] kept h k = k
resolve-All (w ∷ ws) kept (h, hs) k = resolve-All ws (keep true kept w) hs (keep-All kept w h k)

pub reverse_aux-All :
    (ws kept : List Bytes) → All Proper ws → All Proper kept → All Proper (reverse_aux ws kept)
reverse_aux-All [] kept h k = k
reverse_aux-All (w ∷ ws) kept (h, hs) k = reverse_aux-All ws (w ∷ kept) hs (h, k)
