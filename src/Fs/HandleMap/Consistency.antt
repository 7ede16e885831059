-- ===== src/Fs/HandleMap/Consistency.antt =====
-- The two maps of the registry agree.
use go_irodsclient.Base.{
  ℕ, ◌≡◌, ◌≢◌, refl, Bool, false, List, [], ◌∷◌, ◌++◌, Option, none, some, ◌==◌, ◌||◌, ◌&&◌, not,
  if◌then◌else◌, without, contains, arith,
}
use go_irodsclient.Base.Maps.{lookup, erase, lookup-insert, lookup-erase}
use go_irodsclient.Fs.HandleMap.{
  FileHandle, FileHandleMap, new_file_handle_map, list_of, push, store_rest, drop_id, add, take_out,
  remove, remove_found, pop, pop_found, pop_all, pop_ids, pop_by_path,
}

abbrev at_path : ℕ → Option FileHandle → Bool
at_path path none = false
at_path path (some handle) = handle.path == path

-- Under a path stand the identifiers of the handles that are open there, and a path without handles has no
-- entry.
pub record Consistent (m : FileHandleMap) : Type 0 where
  pub agrees :
      (path id : ℕ)
      → contains id (list_of (lookup path m.file_path_id)) ≡ at_path path (lookup id m.file_handles)
  pub no_empty : (path : ℕ) → lookup path m.file_path_id ≢ some []

contains-append : (a : ℕ) (s t : List ℕ) → contains a (s ++ t) ≡ contains a s || contains a t
contains-append a [] t = refl
contains-append a (x ∷ s) t = ground (arith, contains-append a s t)

contains-without : (a b : ℕ) (s : List ℕ) → contains a (without b s) ≡ not (a == b) && contains a s
contains-without a b [] = ground arith
contains-without a b (x ∷ s) = ground (arith, contains-without a b s)

lookup-push :
    (key id j : ℕ) (m : List (ℕ × List ℕ))
    → list_of (lookup j (push key id m))
      ≡ (if key == j then list_of (lookup key m) ++ id ∷ [] else list_of (lookup j m))
lookup-push key id j m = ground (arith, lookup-insert key j (list_of (lookup key m) ++ id ∷ []) m)

pub lookup-store_rest :
    (key j : ℕ) (ids : List ℕ) (m : List (ℕ × List ℕ))
    → list_of (lookup j (store_rest key ids m)) ≡ (if key == j then ids else list_of (lookup j m))
lookup-store_rest key j [] m = ground (arith, lookup-erase key j m)
lookup-store_rest key j (x ∷ ids) m = ground (arith, lookup-insert key j (x ∷ ids) m)

-- For the entry that the key has.
lookup-drop_id :
    (key id j : ℕ) (entry : Option (List ℕ)) (m : List (ℕ × List ℕ))
    → lookup key m ≡ entry
    → list_of (lookup j (drop_id key id entry m))
      ≡ (if key == j then without id (list_of (lookup j m)) else list_of (lookup j m))
lookup-drop_id key id j none m e = ground (arith, e)
lookup-drop_id key id j (some ids) m e =
    ground (arith, e, lookup-store_rest key j (without id ids) m)

no_empty-store_rest :
    (key j : ℕ) (ids : List ℕ) (m : List (ℕ × List ℕ))
    → lookup j m ≢ some []
    → lookup j (store_rest key ids m) ≢ some []
no_empty-store_rest key j [] m h = λ e. ground (arith, e, h, lookup-erase key j m)
no_empty-store_rest key j (x ∷ ids) m h = λ e. ground (arith, e, h, lookup-insert key j (x ∷ ids) m)

no_empty-drop_id :
    (key id j : ℕ) (entry : Option (List ℕ)) (m : List (ℕ × List ℕ))
    → lookup j m ≢ some []
    → lookup j (drop_id key id entry m) ≢ some []
no_empty-drop_id key id j none m h = h
no_empty-drop_id key id j (some ids) m h = no_empty-store_rest key j (without id ids) m h

append_one : (s : List ℕ) (x : ℕ) → s ++ x ∷ [] ≢ []
append_one [] x = λ e. ground (arith, e)
append_one (y ∷ s) x = λ e. ground (arith, e)

pub new-Consistent : Consistent new_file_handle_map
unfolding new_file_handle_map lookup
new-Consistent = record { agrees = λ path id. refl; no_empty = λ path e. ground (arith, e) }

-- A handle is registered under an identifier that is new.
pub add-Consistent :
    (handle : FileHandle) (m : FileHandleMap)
    → lookup handle.id m.file_handles ≡ none
    → Consistent m
    → Consistent (add handle m)
unfolding add
add-Consistent handle m e c = record {
  agrees = λ path id. ground (
    arith,
    e,
    lookup-push handle.path handle.id path m.file_path_id,
    lookup-insert handle.id id handle m.file_handles,
    contains-append id (list_of (lookup path m.file_path_id)) (handle.id ∷ []),
    c.agrees path id,
  );
  no_empty = λ path.
      let old = list_of (lookup handle.path m.file_path_id) in
      λ k. ground (
        arith,
        k,
        lookup-insert handle.path path (old ++ handle.id ∷ []) m.file_path_id,
        append_one old handle.id,
        c.no_empty path,
      );
}

take_out-Consistent :
    (handle : FileHandle) (id : ℕ) (m : FileHandleMap)
    → lookup id m.file_handles ≡ some handle
    → Consistent m
    → Consistent (take_out handle id m)
take_out-Consistent handle id m e c = record {
  agrees = λ path j. ground (
    arith,
    e,
    lookup-drop_id handle.path id path (lookup handle.path m.file_path_id) m.file_path_id refl,
    lookup-erase id j m.file_handles,
    contains-without j id (list_of (lookup path m.file_path_id)),
    c.agrees path j,
    c.agrees path id,
  );
  no_empty = λ path.
      no_empty-drop_id handle.path id path (lookup handle.path m.file_path_id) m.file_path_id
        (c.no_empty path);
}

remove_found-Consistent :
    (found : Option FileHandle) (id : ℕ) (m : FileHandleMap)
    → lookup id m.file_handles ≡ found
    → Consistent m
    → Consistent (remove_found found id m)
remove_found-Consistent none id m e c = c
remove_found-Consistent (some handle) id m e c =
    let d = take_out-Consistent handle id m e c in
    record { agrees = d.agrees; no_empty = d.no_empty }

pub remove-Consistent : (id : ℕ) (m : FileHandleMap) → Consistent m → Consistent (remove id m)
unfolding remove
remove-Consistent id m c = remove_found-Consistent (lookup id m.file_handles) id m refl c

pop_found-Consistent :
    (found : Option FileHandle) (id : ℕ) (m : FileHandleMap)
    → lookup id m.file_handles ≡ found
    → Consistent m
    → Consistent (pop_found found id m)
pop_found-Consistent none id m e c = c
pop_found-Consistent (some handle) id m e c = take_out-Consistent handle id m e c

pub pop-Consistent : (id : ℕ) (m : FileHandleMap) → Consistent m → Consistent (pop id m).0
unfolding pop
pop-Consistent id m c = pop_found-Consistent (lookup id m.file_handles) id m refl c

pub pop_all-Consistent : (m : FileHandleMap) → Consistent (pop_all m).0
unfolding pop_all lookup
pop_all-Consistent m = record { agrees = λ path id. refl; no_empty = λ path e. ground (arith, e) }

lookup-pop_ids :
    (ids : List ℕ) (j : ℕ) (handles : List (ℕ × FileHandle))
    → lookup j (pop_ids ids handles).0 ≡ (if contains j ids then none else lookup j handles)
unfolding pop_ids
lookup-pop_ids [] j handles = refl
lookup-pop_ids (id ∷ ids) j handles =
    ground (arith, lookup-pop_ids ids j (erase id handles), lookup-erase id j handles)

other_path :
    (p q : ℕ) (h : Option FileHandle)
    → p ≢ q
    → at_path q (if at_path p h then none else h) ≡ at_path q h
other_path p q none n = refl
other_path p q (some h) n = ground (arith, n)

same_path : (p : ℕ) (h : Option FileHandle) → at_path p (if at_path p h then none else h) ≡ false
same_path p none = refl
same_path p (some h) = ground arith

pub pop_by_path-Consistent :
    (path : ℕ) (m : FileHandleMap) → Consistent m → Consistent (pop_by_path path m).0
unfolding pop_by_path
pop_by_path-Consistent path m c = record {
  agrees = λ q j.
      let h = lookup j m.file_handles in
      ground (
        arith,
        lookup-pop_ids (list_of (lookup path m.file_path_id)) j m.file_handles,
        lookup-erase path q m.file_path_id,
        c.agrees path j,
        c.agrees q j,
        other_path path q h,
        same_path path h,
      );
  no_empty = λ q e. ground (arith, e, lookup-erase path q m.file_path_id, c.no_empty q);
}
