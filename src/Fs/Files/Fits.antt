-- ===== src/Fs/Files/Fits.antt =====
-- Every operation keeps the caches in agreement with the server.
use go_irodsclient.Base.{
  ℕ, ◌≡◌, refl, ap, ◌∙◌, Bool, false, Option, none, some, Bytes, arith, Bool-cases, inl, inr,
}
use go_irodsclient.Util.Path.{get_correct_irods_path}
use go_irodsclient.Fs.Cache.{GoCache, file_entry, directory_entry, Entry}
use go_irodsclient.Fs.Cache.Invalidate.{FileSystem}
use go_irodsclient.Fs.Files.{Server, stat, stat_dir, stat_file, exists_reply}
use go_irodsclient.Fs.Files.Catalog.{Catalog, Child, IsCatalog, Removed, Created, Updated}
use go_irodsclient.Fs.Files.Replies.{Answering}
use go_irodsclient.Fs.Files.Stat.{stat_correct-Agrees}
use go_irodsclient.Fs.Files.Answers.{get_collection-Agrees, get_data_object-Agrees}
use go_irodsclient.Fs.Files.Settings.{stat_correct-Kept, get_collection-Kept, get_data_object-Kept}
use go_irodsclient.Fs.Files.ListSettings.{list_entries-Kept}
use go_irodsclient.Fs.Files.ListEntries.{list-server}
use go_irodsclient.Fs.Files.Operations.{
  list, remove_file, copy_file_to_file, truncate_file, replicate_file, make_dir, file_is_created,
  file_is_updated, made_dir,
}
use go_irodsclient.Fs.Files.RenamingFits.{rename-Fits}
use go_irodsclient.Fs.Files.Effects.{
  Settled, Effect-Outcome, IsEffective, file_is_removed-Coherent, file_is_created-Coherent,
  file_is_updated-Coherent, made_dir-Coherent,
}
use go_irodsclient.Fs.Files.Steps.{
  Operation, stat_it, stat_dir_it, stat_file_it, list_it, remove_file_it, copy_it, rename_it,
  truncate_it, replicate_it, make_dir_it, perform, Allowed,
}
use go_irodsclient.Fs.Files.InStep.{InStep, if_ok-InStep, after_delete-InStep}

module _ (G : GoCache) (S : Server) (view : S.State → Catalog) (law : IsCatalog S view)
    (effect : IsEffective S view) (now : ℕ) where
  -- The same of a state of the server and the client.
  abbrev pub Fits : S.State × FileSystem G → Type 0
  Fits s = InStep G now (view s.0) s.1

  -- A file and a directory are not the same.
  nothing_there :
      (o : Option Entry)
      → ((e : Entry) → o ≡ some e → e.kind ≡ directory_entry)
      → ((e : Entry) → o ≡ some e → e.kind ≡ file_entry)
      → o ≡ none
  nothing_there none d f = refl
  nothing_there (some e) d f = absurd (ground (arith, d e refl, f e refl))

  remove_file-Fits :
      (path : Bytes) (force idle : Bool) (w : S.State) (fs : FileSystem G)
      → ((e : Entry) → view w (get_correct_irods_path path) ≡ some e → e.kind ≡ file_entry)
      → (let (r, v) = S.delete_data_object (get_correct_irods_path path) force w in
          Settled r (view w) (view v))
      → InStep G now (view w) fs
      → Fits (perform G S now (remove_file_it path force idle) (w, fs))
  unfolding perform remove_file
  remove_file-Fits path force idle w fs allowed settled h =
      let p = get_correct_irods_path path in
      let (r, v) = S.delete_data_object p force w in
      elim (Bool-cases (S.io_connection w)) [
        | inr e ↦ rw e h
        | inl e ↦ elim (Bool-cases idle) [
          | inr f ↦ rw (e, f) h
          | inl f ↦
              rw (e, f)
                (after_delete-InStep G now p (S.delete_data_object p force w).0 (view w)
                  (view (S.delete_data_object p force w).1) fs
                  (λ n.
                    nothing_there (view w p) (λ x k. effect.no_data_object p force w x n k) allowed)
                  (λ m.
                    file_is_removed-Coherent G now p (view w)
                      (view (S.delete_data_object p force w).1) fs h.0 h.1 m)
                  (Effect-Outcome r (Removed p (view w) (view v)) (view w) (view v)
                    (effect.deletes p force w) settled)
                  h)
        ]
      ]

  copy-Fits :
      (src_path dest_path : Bytes) (force : Bool) (w : S.State) (fs : FileSystem G)
      → view w (get_correct_irods_path dest_path) ≡ none
      → (let (r, v) =
            S.copy_data_object
              (get_correct_irods_path src_path)
              (get_correct_irods_path dest_path)
              force
              w in
          Settled r (view w) (view v))
      → InStep G now (view w) fs
      → Fits (perform G S now (copy_it src_path dest_path force) (w, fs))
  unfolding perform copy_file_to_file
  copy-Fits src_path dest_path force w fs absent settled h =
      let src = get_correct_irods_path src_path in
      let p = get_correct_irods_path dest_path in
      let v = (S.copy_data_object src p force w).1 in
      elim (Bool-cases (S.io_connection w)) [
        | inr e ↦ rw e h
        | inl e ↦ rw e (
            if_ok-InStep G now (Created p (view w) (view v)) (file_is_created G now p)
              (S.copy_data_object src p force w).0 (view w) (view v) fs
              (λ m. file_is_created-Coherent G now p (view w) (view v) fs h.0 h.1 m)
              (Effect-Outcome ((S.copy_data_object src p force w).0) (Created p (view w) (view v))
                (view w) (view v) (effect.copies src p force w absent) settled)
              h)
      ]

  truncate-Fits :
      (path : Bytes) (size : ℕ) (w : S.State) (fs : FileSystem G)
      → (let (r, v) = S.truncate_data_object (get_correct_irods_path path) size w in
          Settled r (view w) (view v))
      → InStep G now (view w) fs
      → Fits (perform G S now (truncate_it path size) (w, fs))
  unfolding perform truncate_file
  truncate-Fits path size w fs settled h =
      let p = get_correct_irods_path path in
      let v = (S.truncate_data_object p size w).1 in
      elim (Bool-cases (S.io_connection w)) [
        | inr e ↦ rw e h
        | inl e ↦ rw e (
            if_ok-InStep G now (Updated p (view w) (view v)) (file_is_updated G p)
              (S.truncate_data_object p size w).0 (view w) (view v) fs
              (λ m. file_is_updated-Coherent G now p (view w) (view v) fs h.0 h.1 m)
              (Effect-Outcome ((S.truncate_data_object p size w).0) (Updated p (view w) (view v))
                (view w) (view v) (effect.truncates p size w) settled)
              h)
      ]

  replicate-Fits :
      (path resource : Bytes) (update : Bool) (w : S.State) (fs : FileSystem G)
      → (let (r, v) = S.replicate_data_object (get_correct_irods_path path) resource update w in
          Settled r (view w) (view v))
      → InStep G now (view w) fs
      → Fits (perform G S now (replicate_it path resource update) (w, fs))
  unfolding perform replicate_file
  replicate-Fits path resource update w fs settled h =
      let p = get_correct_irods_path path in
      let v = (S.replicate_data_object p resource update w).1 in
      elim (Bool-cases (S.io_connection w)) [
        | inr e ↦ rw e h
        | inl e ↦ rw e (
            if_ok-InStep G now (Updated p (view w) (view v)) (file_is_updated G p)
              (S.replicate_data_object p resource update w).0 (view w) (view v) fs
              (λ m. file_is_updated-Coherent G now p (view w) (view v) fs h.0 h.1 m)
              (Effect-Outcome ((S.replicate_data_object p resource update w).0)
                (Updated p (view w) (view v)) (view w) (view v)
                (effect.replicates p resource update w) settled)
              h)
      ]

  stat_dir-InStep :
      (path : Bytes) (w : S.State) (fs : FileSystem G)
      → Answering S w (get_correct_irods_path path)
      → InStep G now (view w) fs
      → InStep G now (view w) (stat_dir G S now path w fs).1
  unfolding stat_dir
  stat_dir-InStep path w fs a h =
      let p = get_correct_irods_path path in
      (
        (get_collection-Agrees G S view law now w p fs a h.0).1,
        ap (λ c. c.invalidate_parent_entry_cache_immediately) (get_collection-Kept G S now p w fs)
            ∙ h.1,
      )

  make_dir-Fits :
      (path : Bytes) (w : S.State) (fs : FileSystem G)
      → Answering S w (get_correct_irods_path path)
      → (let (r, v) = S.create_collection (get_correct_irods_path path) false w in
          Settled r (view w) (view v))
      → InStep G now (view w) fs
      → Fits (perform G S now (make_dir_it path) (w, fs))
  unfolding perform make_dir
  make_dir-Fits path w fs a settled h =
      let p = get_correct_irods_path path in
      let v = (S.create_collection p false w).1 in
      let known = (stat_dir G S now path w fs).1 in
      let k = stat_dir-InStep path w fs a h in
      elim (Bool-cases (S.io_connection w)) [
        | inr e ↦ rw e h
        | inl e ↦ elim (Bool-cases (exists_reply (stat_dir G S now path w fs).0)) [
          | inl f ↦ rw (e, f) k
          | inr f ↦
              rw (e, f)
                (if_ok-InStep G now
                  (Created p (view w) (view v) × ((q : Bytes) → Child p q → view v q ≡ none))
                  (made_dir G now p) (S.create_collection p false w).0 (view w) (view v) known
                  (λ m. made_dir-Coherent G now p (view w) (view v) known k.0 k.1 m.0 m.1)
                  (Effect-Outcome ((S.create_collection p false w).0)
                    (Created p (view w) (view v) × ((q : Bytes) → Child p q → view v q ≡ none))
                    (view w) (view v) (effect.makes p w) settled)
                  k)
        ]
      ]

  pub perform-Fits :
      (op : Operation) (w : S.State) (fs : FileSystem G)
      → Allowed G S view op w
      → InStep G now (view w) fs
      → Fits (perform G S now op (w, fs))
  unfolding perform stat stat_file list
  perform-Fits (stat_it path) w fs (a, nested) h =
      let p = get_correct_irods_path path in
      (
        (stat_correct-Agrees G S view law now w p fs nested a h.0).1,
        ap (λ c. c.invalidate_parent_entry_cache_immediately) (stat_correct-Kept G S now p w fs)
            ∙ h.1,
      )
  perform-Fits (stat_dir_it path) w fs a h = stat_dir-InStep path w fs a h
  perform-Fits (stat_file_it path) w fs a h =
      let p = get_correct_irods_path path in
      (
        (get_data_object-Agrees G S view law now w p fs a h.0).1,
        ap (λ c. c.invalidate_parent_entry_cache_immediately) (get_data_object-Kept G S now p w fs)
            ∙ h.1,
      )
  perform-Fits (list_it path) w fs l h =
      let p = get_correct_irods_path path in
      let (es, answer, whole, agree) = list-server G S view law now w path fs l h.0 in
      (
        agree,
        ap (λ c. c.invalidate_parent_entry_cache_immediately) (list_entries-Kept G now S p w fs)
            ∙ h.1,
      )
  perform-Fits (remove_file_it path force idle) w fs (a, settled) h =
      remove_file-Fits path force idle w fs a settled h
  perform-Fits (copy_it src dest force) w fs (a, settled) h =
      copy-Fits src dest force w fs a settled h
  perform-Fits (rename_it src dest) w fs a h = rename-Fits G S view law effect now src dest w fs a h
  perform-Fits (truncate_it path size) w fs a h = truncate-Fits path size w fs a h
  perform-Fits (replicate_it path resource update) w fs a h =
      replicate-Fits path resource update w fs a h
  perform-Fits (make_dir_it path) w fs (a, settled) h = make_dir-Fits path w fs a settled h
