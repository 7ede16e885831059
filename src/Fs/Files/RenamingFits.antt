-- ===== src/Fs/Files/RenamingFits.antt =====
-- RenameFileToFile keeps the caches in agreement with the server.
use go_irodsclient.Base.{ℕ, ap, ◌∙◌, List, [], Bytes, Bool-cases, inl, inr}
use go_irodsclient.Util.Path.{get_correct_irods_path}
use go_irodsclient.Fs.Cache.{GoCache, Entry}
use go_irodsclient.Fs.Cache.Invalidate.{FileSystem}
use go_irodsclient.Fs.Files.{
  Reply, ok, not_found, already_exist, failed, panic, Server, get_data_object_with_connection,
}
use go_irodsclient.Fs.Files.Catalog.{Catalog, IsCatalog, Removed, Created}
use go_irodsclient.Fs.Files.Answers.{get_data_object_with_connection-Coherent}
use go_irodsclient.Fs.Files.Settings.{get_data_object_with_connection-Kept}
use go_irodsclient.Fs.Files.Operations.{file_is_removed, file_is_created}
use go_irodsclient.Fs.Files.Renaming.{
  OpenHandle, after_entry, after_move, rename_file_to_file, preprocess_rename,
}
use go_irodsclient.Fs.Files.Effects.{
  Settled, Outcome, Effect-Outcome, IsEffective, file_is_removed-Coherent, file_is_created-Coherent,
}
use go_irodsclient.Fs.Files.Steps.{rename_it, perform, state_of}
use go_irodsclient.Fs.Files.InStep.{InStep}

module _ (G : GoCache) (S : Server) (view : S.State → Catalog) (law : IsCatalog S view)
    (effect : IsEffective S view) (now : ℕ) where
  after_entry-InStep :
      (handles : List OpenHandle) (v : S.State) (r : Reply Entry × FileSystem G)
      → InStep G now (view v) r.1
      → let s = state_of G S (after_entry G S handles v r) in InStep G now (view s.0) s.1
  after_entry-InStep handles v (ok entry, fs) h = h
  after_entry-InStep handles v (not_found, fs) h = h
  after_entry-InStep handles v (already_exist, fs) h = h
  after_entry-InStep handles v (failed, fs) h = h
  after_entry-InStep handles v (panic, fs) h = h

  looked_up :
      (dest : Bytes) (v : S.State) (fs : FileSystem G)
      → InStep G now (view v) fs
      → InStep G now (view v) (get_data_object_with_connection G S now dest v fs).1
  looked_up dest v fs h = (
    get_data_object_with_connection-Coherent G S view law now v dest fs h.0,
    ap (λ c. c.invalidate_parent_entry_cache_immediately)
          (get_data_object_with_connection-Kept G S now dest v fs)
        ∙ h.1,
  )

  moved-InStep :
      (src dest : Bytes) (w v : S.State) (fs : FileSystem G) (between : Catalog)
      → Removed src (view w) between
      → Created dest between (view v)
      → InStep G now (view w) fs
      → InStep G now (view v) (file_is_created G now dest (file_is_removed G now src fs))
  moved-InStep src dest w v fs between m k h =
      let (agree, set) = file_is_removed-Coherent G now src (view w) between fs h.0 h.1 m in
      file_is_created-Coherent G now dest between (view v) (file_is_removed G now src fs) agree set
        k

  after_move-InStep :
      (src dest : Bytes) (handles : List OpenHandle) (w : S.State) (r : Reply (Unit {0}))
      (v : S.State) (fs : FileSystem G)
      → Outcome r
          ((between : Catalog) × Removed src (view w) between × Created dest between (view v))
          (view w)
          (view v)
      → InStep G now (view w) fs
      → let s = state_of G S (after_move G S now src dest handles (r, v) fs) in
        InStep G now (view s.0) s.1
  after_move-InStep src dest handles w (ok _) v fs (between, m, k) h =
      let changed = file_is_created G now dest (file_is_removed G now src fs) in
      let found = get_data_object_with_connection G S now dest v changed in
      after_entry-InStep handles v found
        (looked_up dest v changed (moved-InStep src dest w v fs between m k h))
  after_move-InStep src dest handles w not_found v fs e h = rw e h
  after_move-InStep src dest handles w already_exist v fs e h = rw e h
  after_move-InStep src dest handles w failed v fs e h = rw e h
  after_move-InStep src dest handles w panic v fs e h = rw e h

  pub rename-Fits :
      (src_path dest_path : Bytes) (w : S.State) (fs : FileSystem G)
      → (let (r, v) =
            S.move_data_object
              (get_correct_irods_path src_path)
              (get_correct_irods_path dest_path)
              w in
          Settled r (view w) (view v))
      → InStep G now (view w) fs
      → let s = perform G S now (rename_it src_path dest_path) (w, fs) in
        InStep G now (view s.0) s.1
  unfolding perform rename_file_to_file preprocess_rename
  rename-Fits src_path dest_path w fs settled h =
      let src = get_correct_irods_path src_path in
      let dest = get_correct_irods_path dest_path in
      elim (Bool-cases (S.io_connection w)) [
        | inr e ↦ rw e h
        | inl e ↦ rw e (
            after_move-InStep src dest [] w (S.move_data_object src dest w).0
              (S.move_data_object src dest w).1 fs
              (Effect-Outcome (S.move_data_object src dest w).0
                ((between : Catalog) × Removed src (view w) between
                  × Created dest between (view (S.move_data_object src dest w).1))
                (view w) (view (S.move_data_object src dest w).1) (effect.moves src dest w) settled)
              h)
      ]
