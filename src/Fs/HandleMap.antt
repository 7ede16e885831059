-- ===== src/Fs/HandleMap.antt =====
-- fs/file_handle_map.go: the registry of open file handles. Identifiers and paths are only compared, and are
-- numbers; the empty identifier of an event is `none`. A call of an event handler is an `Event` in `told`.
-- Each operation runs under the mutex, and is a function of the state.
pub mod Consistency
pub mod Reachable
mod Tests
use go_irodsclient.Base.{
  ℕ, Bool, true, false, List, [], ◌∷◌, ◌++◌, Option, none, some, ◌==◌, if◌then◌else◌, without,
}
use go_irodsclient.Base.Maps.{lookup, insert, erase}

-- What the registry reads of a FileHandle: its identifier and the path of its entry.
pub record FileHandle : Type 0 where
  pub id : ℕ
  pub path : ℕ

-- A call of a FileHandleMapEventHandler: which one, and its arguments.
pub record Event : Type 0 where
  pub handler : ℕ
  pub path : ℕ
  pub id : Option ℕ
  pub empty : Bool

pub record FileHandleMap : Type 0 where
  pub file_handles : List (ℕ × FileHandle)
  pub file_path_id : List (ℕ × List ℕ)
  pub close_event_handlers : List (ℕ × List ℕ)
  pub event_handler_id_path : List (ℕ × ℕ)
  pub told : List Event

unfoldable pub new_file_handle_map : FileHandleMap
new_file_handle_map = record {
  file_handles = [];
  file_path_id = [];
  close_event_handlers = [];
  event_handler_id_path = [];
  told = [];
}

-- Reading a key that maps to a list, and appending to it.
abbrev pub list_of : Option (List ℕ) → List ℕ
list_of none = []
list_of (some ids) = ids

abbrev pub push : ℕ → ℕ → List (ℕ × List ℕ) → List (ℕ × List ℕ)
push key id m = insert key (list_of (lookup key m) ++ id ∷ []) m

-- A list without an identifier goes back to its key, unless it is empty.
abbrev pub store_rest : ℕ → List ℕ → List (ℕ × List ℕ) → List (ℕ × List ℕ)
store_rest key [] m = erase key m
store_rest key (x ∷ ids) m = insert key (x ∷ ids) m

abbrev pub drop_id : ℕ → ℕ → Option (List ℕ) → List (ℕ × List ℕ) → List (ℕ × List ℕ)
drop_id key id none m = m
drop_id key id (some ids) m = store_rest key (without id ids) m

abbrev pub is_missing : Option (List ℕ) → Bool
is_missing none = true
is_missing (some _) = false

-- AddCloseEventHandler, with the identifier that xid gives.
unfoldable pub add_close_event_handler : ℕ → ℕ → FileHandleMap → FileHandleMap
add_close_event_handler path id m =
    let n = record m {
      close_event_handlers = push path id m.close_event_handlers;
      event_handler_id_path = insert id path m.event_handler_id_path;
    } in
    let e : Event = record { handler = id; path = path; id = none; empty = true } in
    if is_missing (lookup path m.file_path_id) then record n { told = e ∷ m.told } else n

abbrev pub unregister : ℕ → Option ℕ → FileHandleMap → FileHandleMap
unregister id none m = m
unregister id (some path) m = record m {
  event_handler_id_path = erase id m.event_handler_id_path;
  close_event_handlers =
      drop_id path id (lookup path m.close_event_handlers) m.close_event_handlers;
}

-- RemoveCloseEventHandler
unfoldable pub remove_close_event_handler : ℕ → FileHandleMap → FileHandleMap
remove_close_event_handler id m = unregister id (lookup id m.event_handler_id_path) m

-- Add
unfoldable pub add : FileHandle → FileHandleMap → FileHandleMap
add handle m = record m {
  file_handles = insert handle.id handle m.file_handles;
  file_path_id = push handle.path handle.id m.file_path_id;
}

abbrev pub take_out : FileHandle → ℕ → FileHandleMap → FileHandleMap
take_out handle id m = record m {
  file_handles = erase id m.file_handles;
  file_path_id = drop_id handle.path id (lookup handle.path m.file_path_id) m.file_path_id;
}

abbrev pub is_nil : List ℕ → Bool
is_nil [] = true
is_nil (x ∷ ids) = false

-- `emptyHandles` of Remove.
abbrev pub empty_handles : ℕ → Option (List ℕ) → Bool
empty_handles id none = true
empty_handles id (some ids) = is_nil (without id ids)

-- The loop of Remove over the handlers of the path.
abbrev pub tell_all : ℕ → ℕ → Bool → List ℕ → List Event → List Event
tell_all path id empty [] told = told
tell_all path id empty (h ∷ handlers) told =
    tell_all path id empty handlers
      (record { handler = h; path = path; id = some id; empty = empty } ∷ told)

abbrev pub remove_found : Option FileHandle → ℕ → FileHandleMap → FileHandleMap
remove_found none id m = m
remove_found (some handle) id m = record (take_out handle id m) {
  told =
      tell_all handle.path id (empty_handles id (lookup handle.path m.file_path_id))
        (list_of (lookup handle.path m.close_event_handlers)) m.told;
}

-- Remove
unfoldable pub remove : ℕ → FileHandleMap → FileHandleMap
remove id m = remove_found (lookup id m.file_handles) id m

abbrev pub pop_found : Option FileHandle → ℕ → FileHandleMap → FileHandleMap
pop_found none id m = m
pop_found (some handle) id m = take_out handle id m

-- Pop, and the handle that it returns.
unfoldable pub pop : ℕ → FileHandleMap → FileHandleMap × Option FileHandle
pop id m = let found = lookup id m.file_handles in (pop_found found id m, found)

abbrev pub values : List (ℕ × FileHandle) → List FileHandle
values [] = []
values ((_, handle) ∷ rest) = handle ∷ values rest

-- PopAll, List, and Clear
unfoldable pub pop_all : FileHandleMap → FileHandleMap × List FileHandle
pop_all m = (record m { file_handles = []; file_path_id = [] }, values m.file_handles)

-- The loop of PopByPath: the handles that are left, and those popped.
abbrev pub cons_found : Option FileHandle → List FileHandle → List FileHandle
cons_found none handles = handles
cons_found (some handle) handles = handle ∷ handles

unfoldable pub pop_ids : List ℕ → List (ℕ × FileHandle) → List (ℕ × FileHandle) × List FileHandle
pop_ids [] handles = (handles, [])
pop_ids (id ∷ ids) handles =
    let (rest, popped) = pop_ids ids (erase id handles) in
    (rest, cons_found (lookup id handles) popped)

-- PopByPath
unfoldable pub pop_by_path : ℕ → FileHandleMap → FileHandleMap × List FileHandle
unfolding pop_ids
pop_by_path path m =
    let (rest, popped) = pop_ids (list_of (lookup path m.file_path_id)) m.file_handles in
    (record m { file_handles = rest; file_path_id = erase path m.file_path_id }, popped)

-- ListByPath
unfoldable pub list_ids : List ℕ → List (ℕ × FileHandle) → List FileHandle
list_ids [] handles = []
list_ids (id ∷ ids) handles = cons_found (lookup id handles) (list_ids ids handles)

unfoldable pub list_by_path : ℕ → FileHandleMap → List FileHandle
unfolding list_ids
list_by_path path m = list_ids (list_of (lookup path m.file_path_id)) m.file_handles
