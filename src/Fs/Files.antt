-- ===== src/Fs/Files.antt =====
-- fs/fs.go: the operations of the file system on top of its caches. The requests to the server, which are the
-- functions of irods/fs, are the interface `Server`; an operation takes the state of the server and the time at which
-- it runs. Connections of both sessions are there or not. What `propagate` sends is a part of the state.
pub mod Catalog
pub mod Agreement
pub mod Replies
pub mod Answers
pub mod Stat
pub mod Operations
pub mod Entries
pub mod ListEntries
pub mod Renaming
pub mod Destination
pub mod Settings
pub mod ListSettings
pub mod Moves
pub mod Creations
pub mod Effects
pub mod Steps
pub mod InStep
pub mod RenamingFits
pub mod Fits
pub mod Invariant
pub mod TableServer
pub mod TableLaws
pub mod TableEffects
mod Tests
use go_irodsclient.Base.{
  ℕ, Bool, true, false, ◌==◌, leb, List, [], ◌∷◌, ◌++◌, Option, none, some, Bytes, if◌then◌else◌,
}
use go_irodsclient.Base.TextMaps.{has_text}
use go_irodsclient.Util.Path.{get_correct_irods_path, get_irods_path_dirname}
use go_irodsclient.Fs.Cache.{
  GoCache, EntryType, file_entry, directory_entry, Entry, FileSystemCache,
}
use go_irodsclient.Fs.Cache.Paths.{
  add_entry_cache, get_entry_cache, add_negative_entry_cache, remove_negative_entry_cache,
  has_negative_entry_cache, add_dir_cache, get_dir_cache,
}
use go_irodsclient.Fs.Cache.Invalidate.{FileSystem}
use mathlib.Core.List.{map}

-- A result, or the kind of the error; `panic` is that the call panics.
pub data Reply (A : Type 0) : Type 0 where
  ok : A → Reply A
  not_found : Reply A
  already_exist : Reply A
  failed : Reply A
  panic : Reply A

-- Of IRODSCollection, IRODSDataObject and IRODSReplica: what an entry takes of them. An identifier that is not
-- positive is 0.
pub record IrodsCollection : Type 0 where
  pub id : ℕ
  pub path : Bytes
  pub modify_time : ℕ

pub record IrodsReplica : Type 0 where
  pub number : ℕ
  pub modify_time : ℕ

pub record IrodsDataObject : Type 0 where
  pub id : ℕ
  pub path : Bytes
  pub size : ℕ
  pub replicas : List IrodsReplica

-- The functions of irods/fs on a connection, on any state of the server.
pub record Server : Type 1 where
  pub State : Type 0
  pub metadata_connection : State → Bool
  pub io_connection : State → Bool
  pub get_collection : State → Bytes → Reply IrodsCollection
  pub get_data_object : State → Bytes → Reply IrodsDataObject
  pub list_sub_collections : State → Bytes → Reply (List IrodsCollection)
  pub list_data_objects : State → Bytes → Reply (List IrodsDataObject)
  pub create_collection : Bytes → Bool → State → Reply (Unit {0}) × State
  pub delete_collection : Bytes → Bool → Bool → State → Reply (Unit {0}) × State
  pub move_collection : Bytes → Bytes → State → Reply (Unit {0}) × State
  pub delete_data_object : Bytes → Bool → State → Reply (Unit {0}) × State
  pub move_data_object : Bytes → Bytes → State → Reply (Unit {0}) × State
  pub copy_data_object : Bytes → Bytes → Bool → State → Reply (Unit {0}) × State
  pub truncate_data_object : Bytes → ℕ → State → Reply (Unit {0}) × State
  pub replicate_data_object : Bytes → Bytes → Bool → State → Reply (Unit {0}) × State

-- NewEntryFromCollection, and NewEntryFromDataObject, which reads the first replica.
unfoldable pub new_entry_from_collection : IrodsCollection → Entry
new_entry_from_collection c = record {
  id = c.id;
  kind = directory_entry;
  path = c.path;
  size = 0;
  modify_time = c.modify_time;
}

unfoldable pub new_entry_from_data_object : IrodsDataObject → IrodsReplica → Entry
new_entry_from_data_object o first = record {
  id = o.id;
  kind = file_entry;
  path = o.path;
  size = o.size;
  modify_time = first.modify_time;
}

abbrev pub is_kind : EntryType → Entry → Bool
is_kind directory_entry e = elim e.kind [ directory_entry ↦ true | file_entry ↦ false ]
is_kind file_entry e = elim e.kind [ directory_entry ↦ false | file_entry ↦ true ]

-- The error of a failed call, as an error of another type.
abbrev pub error_of : {A B : Type 0} → Reply A → Reply B → Reply B
error_of (ok a) r = r
error_of not_found r = not_found
error_of already_exist r = already_exist
error_of failed r = failed
error_of panic r = panic

module _ (G : GoCache) where
  -- A change of the caches of a file system.
  abbrev pub in_cache : (FileSystemCache G → FileSystemCache G) → FileSystem G → FileSystem G
  in_cache f fs = record fs { cache = f fs.cache }

  -- An entry that the server gave for a path goes into the caches.
  unfoldable pub remember : ℕ → Bytes → Entry → FileSystemCache G → FileSystemCache G
  unfolding remove_negative_entry_cache add_entry_cache
  remember now path entry c = add_entry_cache G now entry (remove_negative_entry_cache G path c)

  -- getCollectionNoCache behind the connection, and getDataObjectNoCache, which has the body of
  -- getDataObjectWithConnectionNoCache.
  unfoldable pub found_collection :
      ℕ → Bytes → Reply IrodsCollection → FileSystem G → Reply Entry × FileSystem G
  unfolding remember new_entry_from_collection
  found_collection now path (ok c) fs =
      let entry = new_entry_from_collection c in
      if leb 1 c.id then (ok entry, in_cache (remember now path entry) fs) else (not_found, fs)
  found_collection now path r fs = (error_of r failed, fs)

  abbrev pub with_replica :
      ℕ → Bytes → IrodsDataObject → List IrodsReplica → FileSystem G → Reply Entry × FileSystem G
  with_replica now path o [] fs = (panic, fs)
  with_replica now path o (first ∷ rest) fs =
      let entry = new_entry_from_data_object o first in
      (ok entry, in_cache (remember now path entry) fs)

  unfoldable pub get_data_object_with_connection_no_cache :
      ℕ → Bytes → Reply IrodsDataObject → FileSystem G → Reply Entry × FileSystem G
  unfolding remember new_entry_from_data_object
  get_data_object_with_connection_no_cache now path (ok o) fs =
      let found = with_replica now path o o.replicas fs in
      if leb 1 o.id then found else (not_found, fs)
  get_data_object_with_connection_no_cache now path r fs = (error_of r failed, fs)

  -- What the cached entry of a path says to a caller who wants one of a kind.
  abbrev pub of_kind : EntryType → Option Entry → Option Entry
  of_kind kind none = none
  of_kind kind (some e) = if is_kind kind e then some e else none

  abbrev pub cached_or :
      Option Entry → FileSystem G → Reply Entry × FileSystem G → Reply Entry × FileSystem G
  cached_or (some e) fs rest = (ok e, fs)
  cached_or none fs rest = rest

module _ (G : GoCache) (S : Server) where
  unfoldable pub get_collection_no_cache :
      ℕ → Bytes → S.State → FileSystem G → Reply Entry × FileSystem G
  unfolding found_collection
  get_collection_no_cache now path w fs =
      if S.metadata_connection w
      then found_collection G now path (S.get_collection w path) fs
      else (failed, fs)

  unfoldable pub get_data_object_no_cache :
      ℕ → Bytes → S.State → FileSystem G → Reply Entry × FileSystem G
  unfolding get_data_object_with_connection_no_cache
  get_data_object_no_cache now path w fs =
      if S.metadata_connection w
      then get_data_object_with_connection_no_cache G now path (S.get_data_object w path) fs
      else (failed, fs)

  unfoldable pub get_collection : ℕ → Bytes → S.State → FileSystem G → Reply Entry × FileSystem G
  unfolding has_negative_entry_cache get_entry_cache get_collection_no_cache
  get_collection now path w fs =
      if has_negative_entry_cache G now path fs.cache
      then (not_found, fs)
      else cached_or G (of_kind G directory_entry (get_entry_cache G now path fs.cache)) fs
          (get_collection_no_cache now path w fs)

  unfoldable pub get_data_object : ℕ → Bytes → S.State → FileSystem G → Reply Entry × FileSystem G
  unfolding has_negative_entry_cache get_entry_cache get_data_object_no_cache
  get_data_object now path w fs =
      if has_negative_entry_cache G now path fs.cache
      then (not_found, fs)
      else cached_or G (of_kind G file_entry (get_entry_cache G now path fs.cache)) fs
          (get_data_object_no_cache now path w fs)

  unfoldable pub get_data_object_with_connection :
      ℕ → Bytes → S.State → FileSystem G → Reply Entry × FileSystem G
  unfolding has_negative_entry_cache get_entry_cache get_data_object_with_connection_no_cache
  get_data_object_with_connection now path w fs =
      if has_negative_entry_cache G now path fs.cache
      then (not_found, fs)
      else cached_or G (of_kind G file_entry (get_entry_cache G now path fs.cache)) fs
          (get_data_object_with_connection_no_cache G now path (S.get_data_object w path) fs)

  -- The end of Stat: neither a collection nor a data object.
  abbrev pub missing : ℕ → Bytes → FileSystem G → Reply Entry × FileSystem G
  missing now path fs = (not_found, in_cache G (add_negative_entry_cache G now path) fs)

  abbrev pub else_missing : ℕ → Bytes → Reply Entry × FileSystem G → Reply Entry × FileSystem G
  else_missing now path (not_found, fs) = missing now path fs
  else_missing now path (r, fs) = (r, fs)

  abbrev pub else_data_object :
      ℕ → Bytes → S.State → Reply Entry × FileSystem G → Reply Entry × FileSystem G
  else_data_object now path w (not_found, fs) =
      else_missing now path (get_data_object_no_cache now path w fs)
  else_data_object now path w (r, fs) = (r, fs)

  -- The part of Stat that asks the server.
  unfoldable pub stat_server : ℕ → Bytes → S.State → FileSystem G → Reply Entry × FileSystem G
  unfolding get_collection_no_cache get_data_object_no_cache add_negative_entry_cache
  stat_server now path w fs = else_data_object now path w (get_collection_no_cache now path w fs)

  -- The part that reads the cached listing of the parent, if there is one.
  unfoldable pub stat_listed :
      ℕ → Bytes → S.State → Option (List Bytes) → FileSystem G → Reply Entry × FileSystem G
  unfolding stat_server has_text add_negative_entry_cache
  stat_listed now path w none fs = stat_server now path w fs
  stat_listed now path w (some listed) fs =
      if has_text path listed then stat_server now path w fs else missing now path fs

  -- Stat on a path in its correct form.
  unfoldable pub stat_correct : ℕ → Bytes → S.State → FileSystem G → Reply Entry × FileSystem G
  unfolding has_negative_entry_cache get_entry_cache get_dir_cache get_irods_path_dirname
      stat_listed
  stat_correct now path w fs =
      if has_negative_entry_cache G now path fs.cache
      then (not_found, fs)
      else cached_or G (get_entry_cache G now path fs.cache) fs
          (stat_listed now path w (get_dir_cache G now (get_irods_path_dirname path) fs.cache) fs)

  unfoldable pub stat : ℕ → Bytes → S.State → FileSystem G → Reply Entry × FileSystem G
  unfolding get_correct_irods_path stat_correct
  stat now path w fs = stat_correct now (get_correct_irods_path path) w fs

  unfoldable pub stat_dir : ℕ → Bytes → S.State → FileSystem G → Reply Entry × FileSystem G
  unfolding get_correct_irods_path get_collection
  stat_dir now path w fs = get_collection now (get_correct_irods_path path) w fs

  unfoldable pub stat_file : ℕ → Bytes → S.State → FileSystem G → Reply Entry × FileSystem G
  unfolding get_correct_irods_path get_data_object
  stat_file now path w fs = get_data_object now (get_correct_irods_path path) w fs

-- Exists, ExistsDir and ExistsFile, of the result of Stat, StatDir and StatFile.
unfoldable pub exists_reply : Reply Entry → Bool
exists_reply (ok e) = leb 1 e.id
exists_reply r = false
