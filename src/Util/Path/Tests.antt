-- ===== src/Util/Path/Tests.antt =====
-- Paths.
use go_irodsclient.Base.{◌≡◌, refl, List, [], ◌∷◌, none, some, All, Bytes, codes, arith}
use go_irodsclient.Base.Text.{eq_text}
use go_irodsclient.Util.Path.{
  split_slash, join_slash, resolve, keep, clean, dir_part, file_part, strip_slashes,
  get_irods_path_dirname, get_irods_path_file_name, get_correct_irods_path, make_irods_path,
  get_irods_path_depth, get_parent_irods_dirs, parents_from, sort_by_length,
}
use go_irodsclient.Util.Path.Split.{Proper, render}
use go_irodsclient.Util.Path.Names.{get_correct_irods_path-names}
use go_irodsclient.Util.Path.Parents.{make_irods_path-names}
use go_irodsclient.Util.Path.Ancestors.{
  ancestors, get_parent_irods_dirs-ancestors, get_parent_irods_dirs-relative,
}
use mathlib.Core.List.{reverse}

abbrev zone : Bytes
zone = codes "zone"

abbrev home : Bytes
home = codes "home"

Proper-zone : Proper zone
unfolding eq_text
Proper-zone = record { no_slash = refl; not_empty = refl; not_dot = refl; not_dots = refl }

Proper-home : Proper home
unfolding eq_text
Proper-home = record { no_slash = refl; not_empty = refl; not_dot = refl; not_dots = refl }

both : All Proper (zone ∷ home ∷ [])
both = (Proper-zone, (Proper-home, tt))

dots_test : get_correct_irods_path (codes "zone/./home//../a/") ≡ codes "/zone/a"
unfolding get_correct_irods_path clean split_slash join_slash resolve keep eq_text
dots_test = refl

base_test : get_irods_path_file_name (codes "/zone/home//") ≡ home
unfolding get_irods_path_file_name strip_slashes file_part dir_part
base_test = refl

parents_test :
    get_parent_irods_dirs 3 (codes "/zone/home/a")
    ≡ some (codes "/" ∷ codes "/zone" ∷ codes "/zone/home" ∷ [])
unfolding get_parent_irods_dirs parents_from get_irods_path_dirname clean split_slash join_slash
    resolve keep eq_text dir_part sort_by_length
parents_test = refl

-- The depth counts a slash at the end, which is cleaned only for the comparison with the root.
depth_test : get_irods_path_depth (codes "/zone/home/") ≡ some 2
unfolding get_irods_path_depth clean split_slash join_slash resolve keep eq_text
depth_test = refl

get_correct_irods_path-names_example :
    (ws : List Bytes) × (get_correct_irods_path (codes "a//../b") ≡ render ws) × All Proper ws
get_correct_irods_path-names_example = get_correct_irods_path-names (codes "a//../b")

make_irods_path-names_example :
    (make_irods_path (render (zone ∷ [])) home ≡ render (zone ∷ home ∷ []))
    × (get_irods_path_dirname (make_irods_path (render (zone ∷ [])) home) ≡ render (zone ∷ []))
    × (get_irods_path_file_name (make_irods_path (render (zone ∷ [])) home) ≡ home)
make_irods_path-names_example = make_irods_path-names (zone ∷ []) home (Proper-zone, tt) Proper-home

get_parent_irods_dirs-ancestors_example :
    get_parent_irods_dirs 2 (render (reverse (home ∷ zone ∷ [])))
    ≡ some (ancestors (home ∷ zone ∷ []))
get_parent_irods_dirs-ancestors_example =
    get_parent_irods_dirs-ancestors (home ∷ zone ∷ []) 2 (Proper-home, (Proper-zone, tt))
      (omega arith)

get_parent_irods_dirs-relative_example : get_parent_irods_dirs 1000 (codes "home") ≡ none
get_parent_irods_dirs-relative_example =
    get_parent_irods_dirs-relative 1000 (codes "home") refl refl
