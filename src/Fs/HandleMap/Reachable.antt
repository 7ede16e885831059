-- ===== src/Fs/HandleMap/Reachable.antt =====
-- The registries that the calls of the file system can reach, and what the handlers hear of them.
use go_irodsclient.Base.{
  ℕ, ◌≡◌, refl, ◌∙◌, Bool, List, [], ◌∷◌, ◌++◌, append_assoc, Option, none, some, without, arith,
}
use go_irodsclient.Base.Maps.{lookup}
use go_irodsclient.Fs.HandleMap.{
  FileHandle, Event, FileHandleMap, new_file_handle_map, list_of, is_nil, drop_id, empty_handles,
  tell_all, unregister, add_close_event_handler, remove_close_event_handler, add, remove, pop,
  pop_all, pop_by_path,
}
use go_irodsclient.Fs.HandleMap.Consistency.{
  Consistent, new-Consistent, add-Consistent, remove-Consistent, pop-Consistent, pop_all-Consistent,
  pop_by_path-Consistent, lookup-store_rest,
}
use mathlib.Core.List.{map, reverse, reverse-cons}

-- One call after the other, from an empty registry on. A handle that is added has an identifier that no
-- open handle has, as xid promises.
pub data Reachable : FileHandleMap → Type 0 where
  starts : Reachable new_file_handle_map
  adds :
      (handle : FileHandle) (m : FileHandleMap)
      → Reachable m
      → lookup handle.id m.file_handles ≡ none
      → Reachable (add handle m)
  removes : (id : ℕ) (m : FileHandleMap) → Reachable m → Reachable (remove id m)
  pops : (id : ℕ) (m : FileHandleMap) → Reachable m → Reachable (pop id m).0
  pops_all : (m : FileHandleMap) → Reachable m → Reachable (pop_all m).0
  pops_path : (path : ℕ) (m : FileHandleMap) → Reachable m → Reachable (pop_by_path path m).0
  registers :
      (path id : ℕ) (m : FileHandleMap)
      → Reachable m
      → Reachable (add_close_event_handler path id m)
  unregisters :
      (id : ℕ) (m : FileHandleMap) → Reachable m → Reachable (remove_close_event_handler id m)

add_close_event_handler-Consistent :
    (path id : ℕ) (m : FileHandleMap)
    → Consistent m
    → Consistent (add_close_event_handler path id m)
unfolding add_close_event_handler
add_close_event_handler-Consistent path id m c = record {
  agrees = λ p i. ground (arith, c.agrees p i);
  no_empty = λ p e. ground (arith, e, c.no_empty p);
}

unregister-Consistent :
    (id : ℕ) (path : Option ℕ) (m : FileHandleMap)
    → Consistent m
    → Consistent (unregister id path m)
unregister-Consistent id none m c = c
unregister-Consistent id (some path) m c = record { agrees = c.agrees; no_empty = c.no_empty }

-- In every registry that can be reached, the identifiers that stand under a path are those of the open
-- handles with that path, and no path has an empty list of identifiers.
pub Reachable-Consistent : (m : FileHandleMap) → Reachable m → Consistent m
unfolding remove_close_event_handler
Reachable-Consistent _ starts = new-Consistent
Reachable-Consistent _ (adds handle m r e) = add-Consistent handle m e (Reachable-Consistent m r)
Reachable-Consistent _ (removes id m r) = remove-Consistent id m (Reachable-Consistent m r)
Reachable-Consistent _ (pops id m r) = pop-Consistent id m (Reachable-Consistent m r)
Reachable-Consistent _ (pops_all m r) = pop_all-Consistent m
Reachable-Consistent _ (pops_path path m r) =
    pop_by_path-Consistent path m (Reachable-Consistent m r)
Reachable-Consistent _ (registers path id m r) =
    add_close_event_handler-Consistent path id m (Reachable-Consistent m r)
Reachable-Consistent _ (unregisters id m r) =
    unregister-Consistent id (lookup id m.event_handler_id_path) m (Reachable-Consistent m r)

empty_handles-left :
    (path id : ℕ) (entry : Option (List ℕ)) (m : List (ℕ × List ℕ))
    → lookup path m ≡ entry
    → is_nil (list_of (lookup path (drop_id path id entry m))) ≡ empty_handles id entry
empty_handles-left path id none m e = ground (arith, e)
empty_handles-left path id (some ids) m e =
    ground (arith, lookup-store_rest path path (without id ids) m)

-- The calls of the handlers of a path that hear that a handle of the path is closed.
abbrev closing : ℕ → ℕ → Bool → List ℕ → List Event
closing path id empty handlers =
    map (λ h. record { handler = h; path = path; id = some id; empty = empty }) handlers

tell_all-closing :
    (path id : ℕ) (empty : Bool) (handlers : List ℕ) (told : List Event)
    → tell_all path id empty handlers told ≡ reverse (closing path id empty handlers) ++ told
tell_all-closing path id empty [] told = refl
tell_all-closing path id empty (h ∷ handlers) told =
    let e : Event = record { handler = h; path = path; id = some id; empty = empty } in
    tell_all-closing path id empty handlers (e ∷ told)
    ∙ simp (reverse-cons e (closing path id empty handlers), append_assoc)

-- Closing an open handle calls every close handler of its path once, in their order, and no other, with the path
-- of the handle, its identifier, and whether no identifier is left under the path in the registry behind the
-- call; the calls before stand as they were (the latest call stands first).
pub remove-tells :
    (id : ℕ) (handle : FileHandle) (m : FileHandleMap)
    → lookup id m.file_handles ≡ some handle
    → let left = list_of (lookup handle.path (remove id m).file_path_id) in
      let handlers = list_of (lookup handle.path m.close_event_handlers) in
      (remove id m).told
      ≡ reverse (
          map
            (λ h. record { handler = h; path = handle.path; id = some id; empty = is_nil left })
            handlers)
        ++ m.told
unfolding remove
remove-tells id handle m e =
    let entry = lookup handle.path m.file_path_id in
    rw (e, empty_handles-left handle.path id entry m.file_path_id refl)
      (tell_all-closing handle.path id (empty_handles id entry)
        (list_of (lookup handle.path m.close_event_handlers)) m.told)
