-- ===== src/Util/Path/Names.antt =====
-- The functions on paths, as functions on lists of names.
use go_irodsclient.Base.{
  ℕ, ◌≡◌, refl, ap, ◌∙◌, sym, true, false, ◌||◌, List, [], ◌∷◌, ◌++◌, Bytes, ◌==◌, if◌then◌else◌,
  arith, All, Bool-cases, inl, inr, append-nil, ==_iff,
}
use go_irodsclient.Base.Text.{eq_text, eq_text_iff}
use go_irodsclient.Util.Path.{
  split_slash, join_slash, is_empty, is_dot, is_dots, is_rooted, go_up, or_dot, keep, resolve,
  clean, get_correct_irods_path,
}
use go_irodsclient.Util.Path.Split.{
  Proper, NoSlash, rooted, render, Proper-NoSlash, split_slash-rooted, split_slash-NoSlash,
  join_slash-render, resolve-Proper, resolve-All, reverse_aux-All,
}
use mathlib.Core.List.{reverse, reverse_aux, reverse_aux-reverse_aux-nil}

resolve-append :
    (us vs kept : List Bytes)
    → resolve true kept (us ++ vs) ≡ resolve true (resolve true kept us) vs
unfolding resolve
resolve-append [] vs kept = refl
resolve-append (u ∷ us) vs kept = resolve-append us vs (keep true kept u)

-- An empty part at the end goes.
pub resolve-last :
    (ws : List Bytes) → All Proper ws → resolve true [] (ws ++ [] ∷ []) ≡ reverse_aux ws []
unfolding resolve
resolve-last ws h = resolve-append ws ([] ∷ []) [] ∙ resolve-Proper ws [] h

pub clean_names :
    (s : Bytes) (ws : List Bytes)
    → resolve true [] (split_slash s) ≡ reverse_aux ws []
    → clean (b'/' ∷ s) ≡ render ws
unfolding clean
clean_names s ws e =
    ap (λ kept. b'/' ∷ join_slash (reverse kept)) e
    ∙ (ap (λ names. b'/' ∷ join_slash names) (reverse_aux-reverse_aux-nil ws [])
        ∙ join_slash-render ws)

pub clean-render : (ws : List Bytes) → All Proper ws → clean (render ws) ≡ render ws
unfolding split_slash resolve
clean-render [] h = clean_names [] [] refl
clean-render (w ∷ ws) (h, hs) = clean_names (w ++ rooted ws) (w ∷ ws) (
    ap (resolve true []) (split_slash-rooted w ws h.no_slash (Proper-NoSlash ws hs))
    ∙ resolve-Proper (w ∷ ws) [] (h, hs))

-- Cleaning an absolute path gives a path of names.
pub clean-names : (s : Bytes) → (ws : List Bytes) × (clean (b'/' ∷ s) ≡ render ws) × All Proper ws
unfolding clean
clean-names s =
    let kept = resolve true [] (split_slash s) in
    (
      reverse kept,
      join_slash-render (reverse kept),
      reverse_aux-All kept [] (resolve-All (split_slash s) [] (split_slash-NoSlash s) tt) tt,
    )

-- `clean` of a path that is not rooted.
is_rooted-render : (ws : List Bytes) → is_rooted (render ws) ≡ true
is_rooted-render [] = refl
is_rooted-render (w ∷ ws) = refl

-- An element of a path: a name, or two dots.
record Element (w : Bytes) : Type 0 where
  one : NoSlash w
  some_text : is_empty w ≡ false

go_up-Element : (kept : List Bytes) → All Element kept → All Element (go_up false kept)
go_up-Element [] h = (record { one = refl; some_text = refl }, tt)
go_up-Element (w ∷ kept) (h, hs) = elim (Bool-cases (is_dots w)) [
  | inl e ↦ rw e (record { one = refl; some_text = refl }, (h, hs))
  | inr e ↦ rw e hs
]

resolve-Element :
    (ws kept : List Bytes) → All NoSlash ws → All Element kept → All Element (resolve false kept ws)
unfolding resolve keep
resolve-Element [] kept h k = k
resolve-Element (w ∷ ws) kept (h, hs) k = elim (Bool-cases (is_empty w || is_dot w)) [
  | inl e ↦ rw e (resolve-Element ws kept hs k)
  | inr e ↦ elim (Bool-cases (is_dots w)) [
    | inl f ↦ rw (e, f) (resolve-Element ws (go_up false kept) hs (go_up-Element kept k))
    | inr f ↦
        rw (e, f)
          (resolve-Element ws (w ∷ kept) hs (record { one = h; some_text = ground (arith, e) }, k))
  ]
]

reverse_aux-Element :
    (ws kept : List Bytes) → All Element ws → All Element kept → All Element (reverse_aux ws kept)
reverse_aux-Element [] kept h k = k
reverse_aux-Element (w ∷ ws) kept (h, hs) k = reverse_aux-Element ws (w ∷ kept) hs (h, k)

name_relative : (w t : Bytes) → Element w → is_rooted (or_dot (w ++ t)) ≡ false
name_relative [] t h = ground (arith, h.some_text)
name_relative (c ∷ w) t h = ground (arith, h.one)

join_slash-relative :
    (ws : List Bytes) → All Element ws → is_rooted (or_dot (join_slash ws)) ≡ false
unfolding join_slash
join_slash-relative [] h = refl
join_slash-relative (w ∷ []) (h, hs) =
    ap (λ s. is_rooted (or_dot s)) (sym (append-nil w)) ∙ name_relative w [] h
join_slash-relative (w ∷ v ∷ ws) (h, hs) = name_relative w (b'/' ∷ join_slash (v ∷ ws)) h

-- A relative path is cleaned to a relative one.
pub clean-relative : (p : Bytes) → is_rooted p ≡ false → is_rooted (clean p) ≡ false
unfolding clean
clean-relative p h =
    let kept = resolve false [] (split_slash p) in
    rw h (
      join_slash-relative (reverse kept) (
        reverse_aux-Element kept [] (resolve-Element (split_slash p) [] (split_slash-NoSlash p) tt)
          tt))

-- Of the two branches of the correction, on a path that is already clean.
corrected : (q : Bytes) → Bytes
corrected q = if is_rooted q then q else clean (b'/' ∷ q)

corrected-names :
    (c : ℕ) (s : Bytes)
    → (ws : List Bytes) × (corrected (clean (c ∷ s)) ≡ render ws) × All Proper ws
unfolding corrected
corrected-names c s = elim (Bool-cases (c == b'/')) [
  | inl f ↦
      let g : c ≡ b'/' = (==_iff c b'/').0 f in
      let (ws, e, h) = clean-names s in (ws, rw (g, e, is_rooted-render ws) refl, h)
  | inr f ↦ elim (Bool-cases (is_rooted (clean (c ∷ s)))) [
    | inl r ↦ ground (arith, r, clean-relative (c ∷ s) f)
    | inr r ↦ let (ws, e, h) = clean-names (clean (c ∷ s)) in (ws, rw r e, h)
  ]
]

-- A corrected path is the absolute path of a list of proper names, whatever the text was.
pub get_correct_irods_path-names :
    (p : Bytes) → (ws : List Bytes) × (get_correct_irods_path p ≡ render ws) × All Proper ws
unfolding get_correct_irods_path corrected
get_correct_irods_path-names [] = ([], refl, tt)
get_correct_irods_path-names (c ∷ s) = elim (Bool-cases (eq_text (c ∷ s) (b'/' ∷ []))) [
  | inl e ↦ rw e ([], refl, tt)
  | inr e ↦ rw e (corrected-names c s)
]

pub get_correct_irods_path-render :
    (ws : List Bytes) → All Proper ws → get_correct_irods_path (render ws) ≡ render ws
unfolding get_correct_irods_path eq_text
get_correct_irods_path-render [] h = refl
get_correct_irods_path-render (w ∷ ws) h =
    elim (Bool-cases (eq_text (render (w ∷ ws)) (b'/' ∷ []))) [
      | inl e ↦ rw e (sym ((eq_text_iff (render (w ∷ ws)) (b'/' ∷ [])).0 e))
      | inr e ↦ rw (e, clean-render (w ∷ ws) h) refl
    ]

-- Correcting a path twice is correcting it once.
pub get_correct_irods_path_idem :
    (p : Bytes) → get_correct_irods_path (get_correct_irods_path p) ≡ get_correct_irods_path p
get_correct_irods_path_idem p =
    let (ws, e, h) = get_correct_irods_path-names p in rw e (get_correct_irods_path-render ws h)
