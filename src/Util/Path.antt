-- ===== src/Util/Path.antt =====
-- irods/util/irods_path.go, with what it uses of Go's package `path`, whose Clean, Split, Dir and Base are
-- written out here. A path is the list of its bytes.
pub mod Split
pub mod Names
pub mod Parents
pub mod Ancestors
mod Tests
use go_irodsclient.Base.{
  ℕ, zero, suc, ◌-◌, Bool, true, false, ◌&&◌, ◌||◌, List, [], ◌∷◌, ◌++◌, Option, none, some, Bytes,
  codes, ltb, ◌==◌, if◌then◌else◌, length, drop, ◌>>=◌,
}
use go_irodsclient.Base.Text.{eq_text, has_prefix}
use mathlib.Core.List.{reverse}

-- strings.Split by the slash, and strings.Join with it.
abbrev pub attach : ℕ → List Bytes → List Bytes
attach c [] = (c ∷ []) ∷ []
attach c (w ∷ ws) = (c ∷ w) ∷ ws

unfoldable pub split_slash : Bytes → List Bytes
split_slash [] = [] ∷ []
split_slash (c ∷ s) = let rest = split_slash s in if c == b'/' then [] ∷ rest else attach c rest

unfoldable pub join_slash : List Bytes → Bytes
join_slash [] = []
join_slash (w ∷ []) = w
join_slash (w ∷ v ∷ ws) = w ++ b'/' ∷ join_slash (v ∷ ws)

abbrev pub is_rooted : Bytes → Bool
is_rooted [] = false
is_rooted (c ∷ s) = c == b'/'

abbrev pub is_empty : Bytes → Bool
is_empty [] = true
is_empty (c ∷ s) = false

abbrev pub is_dot : Bytes → Bool
is_dot w = eq_text w (b'.' ∷ [])

abbrev pub is_dots : Bytes → Bool
is_dots w = eq_text w (b'.' ∷ b'.' ∷ [])

-- path.Clean reads the elements from the left and keeps those that stay, the last one first.
abbrev pub go_up : Bool → List Bytes → List Bytes
go_up true [] = []
go_up false [] = (b'.' ∷ b'.' ∷ []) ∷ []
go_up true (w ∷ kept) = kept
go_up false (w ∷ kept) = if is_dots w then (b'.' ∷ b'.' ∷ []) ∷ w ∷ kept else kept

unfoldable pub keep : Bool → List Bytes → Bytes → List Bytes
keep rooted kept w =
    if is_empty w || is_dot w then kept else if is_dots w then go_up rooted kept else w ∷ kept

unfoldable pub resolve : Bool → List Bytes → List Bytes → List Bytes
unfolding keep
resolve rooted kept [] = kept
resolve rooted kept (w ∷ ws) = resolve rooted (keep rooted kept w) ws

abbrev pub or_dot : Bytes → Bytes
or_dot [] = b'.' ∷ []
or_dot (c ∷ s) = c ∷ s

-- path.Clean
unfoldable pub clean : Bytes → Bytes
unfolding split_slash join_slash resolve
clean p =
    if is_rooted p
    then b'/' ∷ join_slash (reverse (resolve true [] (split_slash (drop 1 p))))
    else or_dot (join_slash (reverse (resolve false [] (split_slash p))))

-- path.Split: up to the last slash, and behind it.
unfoldable pub dir_part : Bytes → Bytes
dir_part [] = []
dir_part (c ∷ s) =
    let rest = dir_part s in if is_empty rest then (if c == b'/' then c ∷ [] else []) else c ∷ rest

unfoldable pub file_part : Bytes → Bytes
unfolding dir_part
file_part p = drop (length (dir_part p)) p

-- GetIRODSPathDirname, which is path.Dir
unfoldable pub get_irods_path_dirname : Bytes → Bytes
unfolding clean dir_part
get_irods_path_dirname p = clean (dir_part p)

-- path.Base: trailing slashes go, then everything up to the last slash.
unfoldable pub strip_slashes : Bytes → Bytes
strip_slashes [] = []
strip_slashes (c ∷ s) =
    let rest = strip_slashes s in
    if is_empty rest then (if c == b'/' then [] else c ∷ []) else c ∷ rest

-- GetIRODSPathFileName, which is path.Base
abbrev pub or_slash : Bytes → Bytes
or_slash [] = b'/' ∷ []
or_slash (c ∷ s) = c ∷ s

unfoldable pub get_irods_path_file_name : Bytes → Bytes
unfolding strip_slashes file_part
get_irods_path_file_name [] = b'.' ∷ []
get_irods_path_file_name (c ∷ s) = or_slash (file_part (strip_slashes (c ∷ s)))

unfoldable pub get_correct_irods_path : Bytes → Bytes
unfolding clean
get_correct_irods_path p =
    let new_path = clean p in
    if is_empty p || eq_text p (b'/' ∷ [])
    then b'/' ∷ []
    else if is_rooted new_path
    then new_path
    else clean (b'/' ∷ new_path)

abbrev pub without_last : Bytes → Bytes
without_last [] = []
without_last (c ∷ []) = []
without_last (c ∷ d ∷ s) = c ∷ without_last (d ∷ s)

abbrev pub ends_with_slash : Bytes → Bool
ends_with_slash [] = false
ends_with_slash (c ∷ []) = c == b'/'
ends_with_slash (c ∷ d ∷ s) = ends_with_slash (d ∷ s)

unfoldable pub make_irods_path : Bytes → Bytes → Bytes
make_irods_path collection_path dataobject_name =
    if ends_with_slash collection_path
    then without_last collection_path ++ b'/' ∷ dataobject_name
    else collection_path ++ b'/' ∷ dataobject_name

abbrev pub first_of : List Bytes → Option Bytes
first_of [] = none
first_of (w ∷ ws) = some w

-- GetIRODSZone; `none` is the error.
unfoldable pub get_irods_zone : Bytes → Option Bytes
unfolding split_slash
get_irods_zone p = if is_rooted p then first_of (split_slash (drop 1 p)) else none

abbrev pub count_of : List Bytes → ℕ
count_of [] = 0
count_of (w ∷ ws) = suc (count_of ws)

-- GetIRODSPathDepth; `none` is -1.
unfoldable pub get_irods_path_depth : Bytes → Option ℕ
unfolding clean split_slash
get_irods_path_depth p =
    if is_rooted p
    then (if eq_text (clean p) (b'/' ∷ [])
        then some 0
        else some (count_of (split_slash (drop 1 p)) - 1))
    else none

-- The loop of GetParentIRODSDirs, on fuel; `none` is a loop that goes on.
unfoldable pub parents_from : ℕ → Bytes → Option (List Bytes)
unfolding get_irods_path_dirname
parents_from zero p = if is_empty p || eq_text p (b'/' ∷ []) then some [] else none
parents_from (suc fuel) p =
    let dir = get_irods_path_dirname p in
    let rest = parents_from fuel dir in
    if is_empty p || eq_text p (b'/' ∷ [])
    then some []
    else do dirs ← rest; some (if is_empty dir then dirs else dir ∷ dirs)

-- sort.Slice by length.
abbrev pub put_in : Bytes → List Bytes → List Bytes
put_in p [] = p ∷ []
put_in p (q ∷ qs) =
    let rest = put_in p qs in if ltb (length p) (length q) then p ∷ q ∷ qs else q ∷ rest

unfoldable pub sort_by_length : List Bytes → List Bytes
sort_by_length [] = []
sort_by_length (p ∷ ps) = put_in p (sort_by_length ps)

unfoldable pub get_parent_irods_dirs : ℕ → Bytes → Option (List Bytes)
unfolding parents_from sort_by_length
get_parent_irods_dirs fuel p = do dirs ← parents_from fuel p; some (sort_by_length dirs)
