-- ===== src/Util/Path/Ancestors.antt =====
-- GetParentIRODSDirs, GetIRODSZone and GetIRODSPathDepth on names, and the paths on which the loop of
-- GetParentIRODSDirs does not end.
use go_irodsclient.Base.{
  ℕ, zero, suc, ◌≤◌, ◌≡◌, refl, ap, ◌∙◌, false, List, [], ◌∷◌, ◌++◌, none, some, Bytes, arith, All,
  length, length-append, ◌>>=◌,
}
use go_irodsclient.Base.Text.{eq_text}
use go_irodsclient.Util.Path.{
  or_dot, join_slash, resolve, is_empty, is_rooted, get_irods_path_dirname, parents_from, put_in,
  sort_by_length, get_parent_irods_dirs, dir_part, clean, get_irods_zone, get_irods_path_depth,
  first_of, count_of, split_slash,
}
use go_irodsclient.Util.Path.Split.{
  Proper, rooted, render, Proper-NoSlash, split_slash-rooted, reverse_aux-All,
}
use go_irodsclient.Util.Path.Names.{clean-render, clean-relative}
use go_irodsclient.Util.Path.Parents.{render-snoc, get_irods_path_dirname-snoc}
use mathlib.Core.List.{reverse, reverse-cons}

-- The paths above a path, the root first; the names are given from the last to the first.
abbrev pub ancestors : List Bytes → List Bytes
ancestors [] = []
ancestors (r ∷ rs) = ancestors rs ++ render (reverse rs) ∷ []

-- The same paths as the loop meets them.
abbrev climbed : List Bytes → List Bytes
climbed [] = []
climbed (r ∷ rs) = render (reverse rs) ∷ climbed rs

reverse-Proper : (rs : List Bytes) → All Proper rs → All Proper (reverse rs)
reverse-Proper rs h = reverse_aux-All rs [] h tt

pub length-render : (ws : List Bytes) → length (render ws) ≤ suc (length (rooted ws))
length-render [] = omega arith
length-render (w ∷ ws) = omega arith

length-render-snoc :
    (ws : List Bytes) (w : Bytes) → length (render ws) ≤ length (render (ws ++ w ∷ []))
length-render-snoc ws w =
    rw (render-snoc ws w, length-append (rooted ws) (b'/' ∷ w)) (omega (arith, length-render ws))

is_root-Proper : (w : Bytes) (t : Bytes) → Proper w → eq_text (b'/' ∷ (w ++ t)) (b'/' ∷ []) ≡ false
unfolding eq_text
is_root-Proper [] t h = ground (arith, h.not_empty)
is_root-Proper (c ∷ w) t h = refl

is_root-render :
    (w : Bytes) (ws : List Bytes) → Proper w → eq_text (render (w ∷ ws)) (b'/' ∷ []) ≡ false
is_root-render w ws h = is_root-Proper w (rooted ws) h

is_root-snoc :
    (ws : List Bytes) (w : Bytes)
    → All Proper ws
    → Proper w
    → eq_text (render (ws ++ w ∷ [])) (b'/' ∷ []) ≡ false
is_root-snoc [] w h k = is_root-render w [] k
is_root-snoc (v ∷ ws) w (h, hs) k = is_root-render v (ws ++ w ∷ []) h

is_empty-render : (ws : List Bytes) → is_empty (render ws) ≡ false
is_empty-render [] = refl
is_empty-render (w ∷ ws) = refl

-- One round of the loop.
round :
    (fuel : ℕ) (ws : List Bytes) (w : Bytes)
    → All Proper ws
    → Proper w
    → parents_from (suc fuel) (render (ws ++ w ∷ []))
      ≡ (parents_from fuel (render ws) >>= λ dirs. some (render ws ∷ dirs))
unfolding parents_from
round fuel ws w h k =
    rw
      (
        is_empty-render (ws ++ w ∷ []),
        is_root-snoc ws w h k,
        get_irods_path_dirname-snoc ws w h k,
        is_empty-render ws,
      )
      refl

at_root : (fuel : ℕ) → parents_from fuel (b'/' ∷ []) ≡ some []
unfolding parents_from eq_text
at_root zero = refl
at_root (suc fuel) = refl

parents_from-climbed :
    (rs : List Bytes) (fuel : ℕ)
    → All Proper rs
    → length rs ≤ fuel
    → parents_from fuel (render (reverse rs)) ≡ some (climbed rs)
parents_from-climbed [] fuel h le = at_root fuel
parents_from-climbed (r ∷ rs) zero h le = absurd (omega arith)
parents_from-climbed (r ∷ rs) (suc fuel) (h, hs) le = rw (reverse-cons r rs) (
    round fuel (reverse rs) r (reverse-Proper rs hs) h
    ∙ ap (λ o. o >>= λ dirs. some (render (reverse rs) ∷ dirs))
        (parents_from-climbed rs fuel hs (omega arith)))

-- Sorting.
put_in-last :
    (p : Bytes) (qs : List Bytes) → All (λ q. length q ≤ length p) qs → put_in p qs ≡ qs ++ p ∷ []
put_in-last p [] h = refl
put_in-last p (q ∷ qs) (h, hs) = ground (arith, h, put_in-last p qs hs)

All-snoc_length :
    (n m : ℕ) (qs : List Bytes) (q : Bytes)
    → All (λ x. length x ≤ n) qs
    → n ≤ m
    → length q ≤ m
    → All (λ x. length x ≤ m) (qs ++ q ∷ [])
All-snoc_length n m [] q h le k = (k, tt)
All-snoc_length n m (p ∷ ps) q (h, hs) le k = (omega arith, All-snoc_length n m ps q hs le k)

ancestors-shorter :
    (rs : List Bytes) → All (λ q. length q ≤ length (render (reverse rs))) (ancestors rs)
ancestors-shorter [] = tt
ancestors-shorter (r ∷ rs) = rw (reverse-cons r rs) (
    All-snoc_length (length (render (reverse rs))) (length (render (reverse rs ++ r ∷ [])))
      (ancestors rs) (render (reverse rs)) (ancestors-shorter rs)
      (length-render-snoc (reverse rs) r) (length-render-snoc (reverse rs) r))

sort_by_length-climbed : (rs : List Bytes) → sort_by_length (climbed rs) ≡ ancestors rs
unfolding sort_by_length
sort_by_length-climbed [] = refl
sort_by_length-climbed (r ∷ rs) =
    rw (sort_by_length-climbed rs)
      (put_in-last (render (reverse rs)) (ancestors rs) (ancestors-shorter rs))

-- On the absolute path of proper names, GetParentIRODSDirs ends within as many rounds as there are names, and
-- returns the paths of the shorter prefixes of the names, the root first. The names are given from the last to
-- the first.
pub get_parent_irods_dirs-ancestors :
    (rs : List Bytes) (fuel : ℕ)
    → All Proper rs
    → length rs ≤ fuel
    → get_parent_irods_dirs fuel (render (reverse rs)) ≡ some (ancestors rs)
unfolding get_parent_irods_dirs
get_parent_irods_dirs-ancestors rs fuel h le =
    rw (parents_from-climbed rs fuel h le) (ap some (sort_by_length-climbed rs))

dir_part-relative : (p : Bytes) → is_rooted p ≡ false → is_rooted (dir_part p) ≡ false
unfolding dir_part
dir_part-relative [] h = refl
dir_part-relative (c ∷ s) h = ground (arith, h)

is_empty-or_dot : (s : Bytes) → is_empty (or_dot s) ≡ false
is_empty-or_dot [] = refl
is_empty-or_dot (c ∷ s) = refl

clean-some : (p : Bytes) → is_rooted p ≡ false → is_empty (clean p) ≡ false
unfolding clean
clean-some p h = rw h (is_empty-or_dot (join_slash (reverse (resolve false [] (split_slash p)))))

not_root : (p : Bytes) → is_rooted p ≡ false → eq_text p (b'/' ∷ []) ≡ false
unfolding eq_text
not_root [] h = refl
not_root (c ∷ s) h = ground (arith, h)

parents_from-relative :
    (fuel : ℕ) (p : Bytes) → is_empty p ≡ false → is_rooted p ≡ false → parents_from fuel p ≡ none
unfolding parents_from get_irods_path_dirname
parents_from-relative zero p e h = rw (e, not_root p h) refl
parents_from-relative (suc fuel) p e h =
    let k = dir_part-relative p h in
    rw
      (
        e,
        not_root p h,
        parents_from-relative fuel (clean (dir_part p)) (clean-some (dir_part p) k)
            (clean-relative (dir_part p) k),
      )
      refl

-- On a relative path that is not empty, the loop of GetParentIRODSDirs does not end, however many rounds it runs.
pub get_parent_irods_dirs-relative :
    (fuel : ℕ) (p : Bytes)
    → is_empty p ≡ false
    → is_rooted p ≡ false
    → get_parent_irods_dirs fuel p ≡ none
unfolding get_parent_irods_dirs
get_parent_irods_dirs-relative fuel p e h = rw (parents_from-relative fuel p e h) refl

-- The zone and the depth.
split_slash-tail :
    (w : Bytes) (ws : List Bytes) → All Proper (w ∷ ws) → split_slash (w ++ rooted ws) ≡ w ∷ ws
split_slash-tail w ws (h, hs) = split_slash-rooted w ws h.no_slash (Proper-NoSlash ws hs)

count_of-length : (ws : List Bytes) → count_of ws ≡ length ws
count_of-length [] = refl
count_of-length (w ∷ ws) = ap suc (count_of-length ws)

-- On the absolute path of at least one proper name: the zone is the first name, and the depth is the number of
-- the other names.
pub get_irods_path_depth-names :
    (w : Bytes) (ws : List Bytes)
    → All Proper (w ∷ ws)
    → (get_irods_zone (render (w ∷ ws)) ≡ some w)
      × (get_irods_path_depth (render (w ∷ ws)) ≡ some (length ws))
unfolding get_irods_zone get_irods_path_depth
get_irods_path_depth-names w ws h =
    let e = split_slash-tail w ws h in
    let k = clean-render (w ∷ ws) h in
    (
      ap first_of e,
      rw (k, is_root-render w ws h.0, e) (ap some (omega (arith, count_of-length ws))),
    )
