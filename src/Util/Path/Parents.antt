-- ===== src/Util/Path/Parents.antt =====
-- The parent and the last name of a path, and all its parents.
use go_irodsclient.Base.{
  append_laws, ℕ, ◌≡◌, refl, ap, ◌∙◌, sym, true, false, List, [], ◌∷◌, ◌++◌, Bytes, arith, All,
  append_assoc, append-nil, length, drop, drop-append,
}
use go_irodsclient.Util.Path.{
  split_slash, is_empty, resolve, clean, dir_part, file_part, strip_slashes, get_irods_path_dirname,
  get_irods_path_file_name, ends_with_slash, make_irods_path, or_slash,
}
use go_irodsclient.Util.Path.Split.{
  Proper, NoSlash, rooted, render, Proper-NoSlash, split_slash-append,
}
use go_irodsclient.Util.Path.Names.{clean_names, clean-render, resolve-last}

pub rooted-snoc : (ws : List Bytes) (w : Bytes) → rooted (ws ++ w ∷ []) ≡ rooted ws ++ b'/' ∷ w
rooted-snoc [] w = simp append_laws
rooted-snoc (v ∷ ws) w = rw (rooted-snoc ws w) (simp append_laws)

pub render-snoc : (ws : List Bytes) (w : Bytes) → render (ws ++ w ∷ []) ≡ rooted ws ++ b'/' ∷ w
render-snoc [] w = rooted-snoc [] w
render-snoc (v ∷ ws) w = rooted-snoc (v ∷ ws) w

not_empty-append : (s : Bytes) (c : ℕ) (t : Bytes) → is_empty (s ++ c ∷ t) ≡ false
not_empty-append [] c t = refl
not_empty-append (d ∷ s) c t = refl

dir_part-name : (w : Bytes) → NoSlash w → dir_part w ≡ []
unfolding dir_part
dir_part-name [] h = refl
dir_part-name (c ∷ w) h = ground (arith, h, dir_part-name w)

dir_part-append : (s w : Bytes) → NoSlash w → dir_part (s ++ b'/' ∷ w) ≡ s ++ b'/' ∷ []
unfolding dir_part
dir_part-append [] w h = rw (dir_part-name w h) refl
dir_part-append (c ∷ s) w h = rw (dir_part-append s w h, not_empty-append s b'/' []) refl

split_slash-rooted_end :
    (v : Bytes) (ws : List Bytes)
    → NoSlash v
    → All NoSlash ws
    → split_slash (v ++ (rooted ws ++ b'/' ∷ [])) ≡ (v ∷ ws) ++ [] ∷ []
unfolding split_slash
split_slash-rooted_end v [] h hs = split_slash-append v [] h
split_slash-rooted_end v (w ∷ ws) h (k, ks) =
    ap (λ s. split_slash (v ++ b'/' ∷ s)) (append_assoc w (rooted ws) (b'/' ∷ []))
    ∙ (split_slash-append v (w ++ (rooted ws ++ b'/' ∷ [])) h
        ∙ ap (λ r. v ∷ r) (split_slash-rooted_end w ws k ks))

-- A path that ends with a slash is cleaned of it.
clean-rooted_end : (ws : List Bytes) → All Proper ws → clean (rooted ws ++ b'/' ∷ []) ≡ render ws
clean-rooted_end [] h = clean-render [] h
clean-rooted_end (v ∷ ws) (h, hs) =
    ap (λ s. clean (b'/' ∷ s)) (append_assoc v (rooted ws) (b'/' ∷ []))
    ∙ clean_names (v ++ (rooted ws ++ b'/' ∷ [])) (v ∷ ws) (
        ap (resolve true []) (split_slash-rooted_end v ws h.no_slash (Proper-NoSlash ws hs))
        ∙ resolve-last (v ∷ ws) (h, hs))

pub get_irods_path_dirname-snoc :
    (ws : List Bytes) (w : Bytes)
    → All Proper ws
    → Proper w
    → get_irods_path_dirname (render (ws ++ w ∷ [])) ≡ render ws
unfolding get_irods_path_dirname
get_irods_path_dirname-snoc ws w h k =
    ap (λ p. clean (dir_part p)) (render-snoc ws w)
    ∙ (ap clean (dir_part-append (rooted ws) w k.no_slash) ∙ clean-rooted_end ws h)

strip_slashes-name : (w : Bytes) → NoSlash w → strip_slashes w ≡ w
unfolding strip_slashes
strip_slashes-name [] h = refl
strip_slashes-name (c ∷ w) h = ground (arith, h, strip_slashes-name w)

not_empty-behind : (s t : Bytes) → is_empty t ≡ false → is_empty (s ++ t) ≡ false
not_empty-behind [] t h = h
not_empty-behind (c ∷ s) t h = refl

strip_slashes-append :
    (s t : Bytes)
    → is_empty (strip_slashes t) ≡ false
    → strip_slashes (s ++ t) ≡ s ++ strip_slashes t
unfolding strip_slashes
strip_slashes-append [] t h = refl
strip_slashes-append (c ∷ s) t h =
    rw (strip_slashes-append s t h, not_empty-behind s (strip_slashes t) h) refl

file_part-append : (s w : Bytes) → NoSlash w → file_part (s ++ b'/' ∷ w) ≡ w
unfolding file_part
file_part-append s w h = rw (dir_part-append s w h) (
    ap (drop (length (s ++ b'/' ∷ []))) (sym (append_assoc s (b'/' ∷ []) w))
    ∙ drop-append (s ++ b'/' ∷ []) w (length (s ++ b'/' ∷ [])) refl)

file_name_of :
    (p : Bytes)
    → is_empty p ≡ false
    → get_irods_path_file_name p ≡ or_slash (file_part (strip_slashes p))
unfolding get_irods_path_file_name
file_name_of [] h = ground (arith, h)
file_name_of (c ∷ s) h = refl

or_slash-name : (w : Bytes) → is_empty w ≡ false → or_slash w ≡ w
or_slash-name [] h = ground (arith, h)
or_slash-name (c ∷ w) h = refl

strip_slashes-last : (w : Bytes) → Proper w → strip_slashes (b'/' ∷ w) ≡ b'/' ∷ w
unfolding strip_slashes
strip_slashes-last w k = rw (strip_slashes-name w k.no_slash, k.not_empty) refl

get_irods_path_file_name-snoc :
    (ws : List Bytes) (w : Bytes) → Proper w → get_irods_path_file_name (render (ws ++ w ∷ [])) ≡ w
get_irods_path_file_name-snoc ws w k =
    let last = strip_slashes-last w k in
    ap get_irods_path_file_name (render-snoc ws w)
    ∙ (file_name_of (rooted ws ++ b'/' ∷ w) (not_empty-append (rooted ws) b'/' w)
        ∙ (ap (λ p. or_slash (file_part p))
              (strip_slashes-append (rooted ws) (b'/' ∷ w) (rw last refl)
                ∙ ap (λ t. rooted ws ++ t) last)
            ∙ (ap or_slash (file_part-append (rooted ws) w k.no_slash)
                ∙ or_slash-name w k.not_empty)))

ends-append : (s t : Bytes) (d : ℕ) → ends_with_slash (s ++ d ∷ t) ≡ ends_with_slash (d ∷ t)
ends-append [] t d = refl
ends-append (c ∷ []) t d = refl
ends-append (c ∷ e ∷ s) t d = ends-append (e ∷ s) t d

ends-name : (c : ℕ) (w : Bytes) → is_empty w ≡ false → NoSlash w → ends_with_slash (c ∷ w) ≡ false
ends-name c [] e h = ground (arith, e)
ends-name c (d ∷ []) e h = ground (arith, h)
ends-name c (d ∷ f ∷ w) e h = ends-name d (f ∷ w) refl (ground (arith, h))

pub ends-rooted :
    (v : Bytes) (ws : List Bytes)
    → Proper v
    → All Proper ws
    → ends_with_slash (rooted (v ∷ ws)) ≡ false
ends-rooted v [] h hs =
    ap (λ s. ends_with_slash (b'/' ∷ s)) (append-nil v) ∙ ends-name b'/' v h.not_empty h.no_slash
ends-rooted v (u ∷ us) h (k, ks) =
    ends-append (b'/' ∷ v) (u ++ rooted us) b'/' ∙ ends-rooted u us k ks

make_irods_path-snoc :
    (ws : List Bytes) (w : Bytes)
    → All Proper ws
    → make_irods_path (render ws) w ≡ render (ws ++ w ∷ [])
unfolding make_irods_path
make_irods_path-snoc [] w h = sym (render-snoc [] w)
make_irods_path-snoc (v ∷ ws) w (h, hs) = rw (ends-rooted v ws h hs) (sym (render-snoc (v ∷ ws) w))

-- For an absolute path of proper names and a proper name: MakeIRODSPath appends the name, and the dirname and
-- the file name of the result are the path and the name.
pub make_irods_path-names :
    (ws : List Bytes) (w : Bytes)
    → All Proper ws
    → Proper w
    → (make_irods_path (render ws) w ≡ render (ws ++ w ∷ []))
      × (get_irods_path_dirname (make_irods_path (render ws) w) ≡ render ws)
      × (get_irods_path_file_name (make_irods_path (render ws) w) ≡ w)
make_irods_path-names ws w h k =
    let e = make_irods_path-snoc ws w h in
    (
      e,
      ap get_irods_path_dirname e ∙ get_irods_path_dirname-snoc ws w h k,
      ap get_irods_path_file_name e ∙ get_irods_path_file_name-snoc ws w k,
    )
