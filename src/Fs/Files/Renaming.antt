-- ===== src/Fs/Files/Renaming.antt =====
-- fs/fs.go: RenameFileToFile. Of the open handles of the source: whether each writes, and whether it can be closed and
-- opened again. The state of the server is the one behind the closing of the handles.
use go_irodsclient.Base.{ℕ, Bool, true, ◌&&◌, List, [], ◌∷◌, Bytes, if◌then◌else◌}
use go_irodsclient.Util.Path.{get_correct_irods_path}
use go_irodsclient.Fs.Cache.{GoCache, Entry}
use go_irodsclient.Fs.Cache.Invalidate.{FileSystem}
use go_irodsclient.Fs.Files.{Reply, ok, failed, Server, error_of, get_data_object_with_connection}
use go_irodsclient.Fs.Files.Operations.{file_is_removed, file_is_created, file_is_updated, Outcome}

pub record OpenHandle : Type 0 where
  pub is_write_mode : Bool
  pub closes : Bool
  pub opens_again : Bool

module _ (G : GoCache) where
  -- What preprocessRename of each handle does to the caches.
  unfoldable pub preprocess_rename : Bytes → List OpenHandle → FileSystem G → FileSystem G
  unfolding file_is_updated
  preprocess_rename p [] fs = fs
  preprocess_rename p (h ∷ handles) fs =
      preprocess_rename p handles (if h.is_write_mode then file_is_updated G p fs else fs)

-- The error of the first handle that fails is the result of both loops.
abbrev pub all_close : List OpenHandle → Bool
all_close [] = true
all_close (h ∷ handles) = h.closes && all_close handles

abbrev pub all_open : List OpenHandle → Bool
all_open [] = true
all_open (h ∷ handles) = h.opens_again && all_open handles

module _ (G : GoCache) (S : Server) where
  -- postprocessRenameFileHandle
  abbrev pub after_entry : List OpenHandle → S.State → Reply Entry × FileSystem G → Outcome G S
  after_entry handles v (ok entry, fs) = ((if all_open handles then ok tt else failed), v, fs)
  after_entry handles v (r, fs) = (error_of r failed, v, fs)

  abbrev pub after_move :
      ℕ → Bytes → Bytes → List OpenHandle → Reply (Unit {0}) × S.State → FileSystem G → Outcome G S
  after_move now src dest handles (ok _, v) fs = after_entry handles v (
      get_data_object_with_connection G S now dest v
        (file_is_created G now dest (file_is_removed G now src fs)))
  after_move now src dest handles (r, v) fs = (r, v, fs)

  unfoldable pub rename_file_to_file :
      ℕ → Bytes → Bytes → List OpenHandle → S.State → FileSystem G → Outcome G S
  unfolding get_correct_irods_path preprocess_rename file_is_removed file_is_created
      get_data_object_with_connection
  rename_file_to_file now src_path dest_path handles w fs =
      let src = get_correct_irods_path src_path in
      let dest = get_correct_irods_path dest_path in
      let closed = preprocess_rename G src handles fs in
      let moved = after_move now src dest handles (S.move_data_object src dest w) closed in
      if S.io_connection w
      then (if all_close handles then moved else (failed, w, closed))
      else (failed, w, fs)
