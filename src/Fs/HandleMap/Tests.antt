-- ===== src/Fs/HandleMap/Tests.antt =====
-- Runs of the registry of file handles.
use go_irodsclient.Base.{◌≡◌, refl, [], ◌∷◌, ◌++◌, some}
use go_irodsclient.Base.Maps.{lookup, insert, erase}
use go_irodsclient.Fs.HandleMap.{
  FileHandle, FileHandleMap, new_file_handle_map, list_of, is_nil, add, remove, pop_by_path,
  list_by_path, add_close_event_handler, pop_ids, list_ids,
}
use go_irodsclient.Fs.HandleMap.Consistency.{Consistent}
use go_irodsclient.Fs.HandleMap.Reachable.{
  starts, adds, removes, registers, Reachable-Consistent, remove-tells,
}
use mathlib.Core.List.{map, reverse}

abbrev reader : FileHandle
reader = record { id = 7; path = 100 }

abbrev writer : FileHandle
writer = record { id = 8; path = 100 }

abbrev one_open : FileHandleMap
one_open = add_close_event_handler 100 3 (add reader new_file_handle_map)

abbrev two_open : FileHandleMap
two_open = add writer one_open

two_open_runs : list_by_path 100 two_open ≡ reader ∷ writer ∷ []
unfolding list_by_path list_ids add add_close_event_handler new_file_handle_map lookup insert
two_open_runs = refl

pop_runs : (pop_by_path 100 two_open).1 ≡ reader ∷ writer ∷ []
unfolding pop_by_path pop_ids add add_close_event_handler new_file_handle_map lookup insert erase
pop_runs = refl

Reachable-Consistent_example : Consistent (remove 7 two_open)
unfolding add add_close_event_handler new_file_handle_map lookup insert
Reachable-Consistent_example = Reachable-Consistent (remove 7 two_open) (
    removes 7 two_open (
      adds writer one_open
        (registers 100 3 (add reader new_file_handle_map)
          (adds reader new_file_handle_map starts refl))
        refl))

remove-tells_example :
    let left = list_of (lookup 100 (remove 7 two_open).file_path_id) in
    let handlers = list_of (lookup 100 two_open.close_event_handlers) in
    (remove 7 two_open).told
    ≡ reverse
        (map (λ h. record { handler = h; path = 100; id = some 7; empty = is_nil left }) handlers)
      ++ two_open.told
unfolding add add_close_event_handler new_file_handle_map lookup insert
remove-tells_example = remove-tells 7 reader two_open refl
