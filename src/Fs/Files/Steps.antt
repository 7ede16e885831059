-- ===== src/Fs/Files/Steps.antt =====
-- Runs of one client: sequences of operations at times that do not go back.
use go_irodsclient.Base.{ℕ, ◌≡◌, ◌≢◌, ◌≤◌, Bool, false, none, some, Bytes, []}
use go_irodsclient.Util.Path.{get_irods_path_dirname, get_correct_irods_path}
use go_irodsclient.Fs.Cache.{GoCache, file_entry, Entry}
use go_irodsclient.Fs.Cache.Invalidate.{FileSystem}
use go_irodsclient.Fs.Files.{Server, stat, stat_dir, stat_file}
use go_irodsclient.Fs.Files.Catalog.{Catalog}
use go_irodsclient.Fs.Files.Effects.{Settled}
use go_irodsclient.Fs.Files.Replies.{Answering}
use go_irodsclient.Fs.Files.Entries.{Listing}
use go_irodsclient.Fs.Files.Renaming.{rename_file_to_file}
use go_irodsclient.Fs.Files.Operations.{
  list, remove_file, copy_file_to_file, truncate_file, replicate_file, make_dir,
}

-- A call of the file system by its arguments; a directory is made without its parents, and
-- a file is renamed while no handle on it is open.
pub data Operation : Type 0 where
  stat_it : Bytes → Operation
  stat_dir_it : Bytes → Operation
  stat_file_it : Bytes → Operation
  list_it : Bytes → Operation
  remove_file_it : Bytes → Bool → Bool → Operation
  copy_it : Bytes → Bytes → Bool → Operation
  rename_it : Bytes → Bytes → Operation
  truncate_it : Bytes → ℕ → Operation
  replicate_it : Bytes → Bytes → Bool → Operation
  make_dir_it : Bytes → Operation

module _ (G : GoCache) (S : Server) where
  abbrev pub state_of : {A : Type 0} → A × S.State × FileSystem G → S.State × FileSystem G
  state_of (r, w, fs) = (w, fs)

  unfoldable pub perform : ℕ → Operation → S.State × FileSystem G → S.State × FileSystem G
  unfolding stat stat_dir stat_file list remove_file copy_file_to_file truncate_file replicate_file
      make_dir rename_file_to_file
  perform now (stat_it path) (w, fs) = (w, (stat G S now path w fs).1)
  perform now (stat_dir_it path) (w, fs) = (w, (stat_dir G S now path w fs).1)
  perform now (stat_file_it path) (w, fs) = (w, (stat_file G S now path w fs).1)
  perform now (list_it path) (w, fs) = (w, (list G S now path w fs).1)
  perform now (remove_file_it path force idle) (w, fs) =
      state_of (remove_file G S now path force idle w fs)
  perform now (copy_it src dest force) (w, fs) =
      state_of (copy_file_to_file G S now src dest force w fs)
  perform now (rename_it src dest) (w, fs) = state_of (rename_file_to_file G S now src dest [] w fs)
  perform now (truncate_it path size) (w, fs) = state_of (truncate_file G S path size w fs)
  perform now (replicate_it path resource update) (w, fs) =
      state_of (replicate_file G S path resource update w fs)
  perform now (make_dir_it path) (w, fs) = state_of (make_dir G S now path false w fs)

  -- When an operation is called: reading requests are answered, a file is not copied onto an entry, it is no
  -- directory that is removed as a file, and the changing request of the operation changes nothing if it does not
  -- succeed.
  abbrev pub Allowed : (S.State → Catalog) → Operation → S.State → Type 0
  Allowed view (stat_it path) w =
      let p = get_correct_irods_path path in Answering S w p × (get_irods_path_dirname p ≢ p)
  Allowed view (stat_dir_it path) w = Answering S w (get_correct_irods_path path)
  Allowed view (stat_file_it path) w = Answering S w (get_correct_irods_path path)
  Allowed view (list_it path) w = Listing S (view w) w (get_correct_irods_path path)
  Allowed view (remove_file_it path force idle) w =
      let p = get_correct_irods_path path in
      let (r, v) = S.delete_data_object p force w in
      ((e : Entry) → view w p ≡ some e → e.kind ≡ file_entry) × Settled r (view w) (view v)
  Allowed view (copy_it src dest force) w =
      let p = get_correct_irods_path dest in
      let (r, v) = S.copy_data_object (get_correct_irods_path src) p force w in
      (view w p ≡ none) × Settled r (view w) (view v)
  Allowed view (rename_it src dest) w =
      let (r, v) =
        S.move_data_object (get_correct_irods_path src) (get_correct_irods_path dest) w in
      Settled r (view w) (view v)
  Allowed view (truncate_it path size) w =
      let (r, v) = S.truncate_data_object (get_correct_irods_path path) size w in
      Settled r (view w) (view v)
  Allowed view (replicate_it path resource update) w =
      let (r, v) = S.replicate_data_object (get_correct_irods_path path) resource update w in
      Settled r (view w) (view v)
  Allowed view (make_dir_it path) w =
      let p = get_correct_irods_path path in
      let (r, v) = S.create_collection p false w in Answering S w p × Settled r (view w) (view v)

  -- From the time of the last operation.
  pub data Run (view : S.State → Catalog)
      : ℕ → S.State × FileSystem G → ℕ → S.State × FileSystem G → Type 0 where
    done : (now : ℕ) (s : S.State × FileSystem G) → Run view now s now s
    next :
        (before : ℕ) (s : S.State × FileSystem G) (now : ℕ) (op : Operation) (after : ℕ)
        (t : S.State × FileSystem G)
        → before ≤ now
        → Allowed view op s.0
        → Run view now (perform now op s) after t
        → Run view before s after t
