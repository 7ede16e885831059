-- ===== src/Fs/Files/Effects.antt =====
-- What the changing requests do to the catalog, and that the operations keep the caches in agreement with it.
use go_irodsclient.Base.{
  ℕ, ◌≡◌, ◌≢◌, refl, ap, ◌∙◌, Bool, true, false, [], none, some, Bytes, if◌then◌else◌, arith,
}
use go_irodsclient.Base.Text.{eq_text}
use go_irodsclient.Base.TextMaps.{has_text}
use go_irodsclient.Fs.Cache.{GoCache, directory_entry, Entry}
use go_irodsclient.Fs.Cache.Paths.{remove_negative_entry_cache}
use go_irodsclient.Fs.Cache.Invalidate.{
  FileSystem, propagate, send_event, invalidate_cache_for_file_update,
}
use go_irodsclient.Fs.Cache.Changes.{seen-file_remove, seen-create}
use go_irodsclient.Fs.Cache.Seen.{
  Seen, seen, seen-remove_entry_cache, seen-remove_negative_entry_cache,
}
use go_irodsclient.Fs.Files.{Reply, ok, not_found, already_exist, failed, panic, Server}
use go_irodsclient.Fs.Files.Catalog.{Catalog, Child, Coherent, Removed, Created, Updated}
use go_irodsclient.Fs.Files.Agreement.{add_dir_cache-Coherent}
use go_irodsclient.Fs.Files.Moves.{Removed-CoherentAt}
use go_irodsclient.Fs.Files.Creations.{created-CoherentAt, updated, updated-CoherentAt}
use go_irodsclient.Fs.Files.Settings.{config-add_dir_cache}
use go_irodsclient.Fs.Files.Operations.{
  file_is_removed, file_is_created, file_is_updated, dir_is_created, made_dir,
}

-- What a request that succeeds does. Nothing is said of a request that is refused or fails: a reply may be lost
-- behind a change, and a change may be half done.
abbrev pub Effect : Reply (Unit {0}) → Type 0 → Type 0
Effect (ok _) done = done
Effect r done = Unit

-- That a request which did not succeed left the catalog as it was; a run asks it of each of its requests.
abbrev pub Settled : Reply (Unit {0}) → Catalog → Catalog → Type 0
Settled (ok _) at later = Unit
Settled r at later = later ≡ at

-- Both.
abbrev pub Outcome : Reply (Unit {0}) → Type 0 → Catalog → Catalog → Type 0
Outcome (ok _) done at later = done
Outcome r done at later = later ≡ at

pub Effect-Outcome :
    (r : Reply (Unit {0})) (done : Type 0) (at later : Catalog)
    → Effect r done
    → Settled r at later
    → Outcome r done at later
Effect-Outcome (ok _) done at later e h = e
Effect-Outcome not_found done at later e h = h
Effect-Outcome already_exist done at later e h = h
Effect-Outcome failed done at later e h = h
Effect-Outcome panic done at later e h = h

-- The changing requests of the server where they succeed, as the iRODS protocol describes them; a request to delete
-- that finds nothing meets no data object. A new collection is empty.
pub record IsEffective (S : Server) (view : S.State → Catalog) : Type 0 where
  pub deletes :
      (p : Bytes) (force : Bool) (w : S.State)
      → let (r, v) = S.delete_data_object p force w in Effect r (Removed p (view w) (view v))
  pub no_data_object :
      (p : Bytes) (force : Bool) (w : S.State) (e : Entry)
      → (S.delete_data_object p force w).0 ≡ not_found
      → view w p ≡ some e
      → e.kind ≡ directory_entry
  pub copies :
      (src dest : Bytes) (force : Bool) (w : S.State)
      → view w dest ≡ none
      → let (r, v) = S.copy_data_object src dest force w in
        Effect r (Created dest (view w) (view v))
  pub moves :
      (src dest : Bytes) (w : S.State)
      → let (r, v) = S.move_data_object src dest w in
        Effect r
          ((between : Catalog) × Removed src (view w) between × Created dest between (view v))
  pub truncates :
      (p : Bytes) (size : ℕ) (w : S.State)
      → let (r, v) = S.truncate_data_object p size w in Effect r (Updated p (view w) (view v))
  pub replicates :
      (p resource : Bytes) (update : Bool) (w : S.State)
      → let (r, v) = S.replicate_data_object p resource update w in
        Effect r (Updated p (view w) (view v))
  pub makes :
      (p : Bytes) (w : S.State)
      → let (r, v) = S.create_collection p false w in
        Effect r (Created p (view w) (view v) × ((q : Bytes) → Child p q → view v q ≡ none))

updated_lem :
    (here : Bool) (s : Seen)
    → (let t = if here then record s { negative = false } else s in
        if here then record t { entry = none } else t)
      ≡ record s {
        entry = if here then none else s.entry;
        negative = if here then false else s.negative;
      }
updated_lem true s = refl
updated_lem false s = refl

nothing_listed : (r : Bytes) → has_text r [] ≢ true
unfolding has_text
nothing_listed r k = ground (arith, k)

module _ (G : GoCache) (now : ℕ) where
  -- The setting that lets a change drop the entry of the parent, of which the server may change the time.
  abbrev pub Immediate : FileSystem G → Type 0
  Immediate fs = fs.cache.config.invalidate_parent_entry_cache_immediately ≡ true

  immediate_seen :
      (q : Bytes) (fs : FileSystem G) → Immediate fs → (seen G now fs.cache q).immediate ≡ true
  unfolding seen
  immediate_seen q fs h = h

  seen_immediate :
      (q : Bytes) (fs : FileSystem G) → (seen G now fs.cache q).immediate ≡ true → Immediate fs
  unfolding seen
  seen_immediate q fs h = h

  module _ (p : Bytes) (at later : Catalog) (fs : FileSystem G) (h : Coherent G now at fs.cache)
      (set : Immediate fs) where
    pub file_is_removed-Coherent :
        Removed p at later
        → Coherent G now later (file_is_removed G now p fs).cache
          × Immediate (file_is_removed G now p fs)
    unfolding file_is_removed propagate
    file_is_removed-Coherent m = (
      (λ q. rw (seen-file_remove G now p q fs) (
          Removed-CoherentAt p q at later (seen G now fs.cache q) (h q) m
            (immediate_seen q fs set))),
      seen_immediate p (file_is_removed G now p fs)
          (ap (λ s. s.immediate) (seen-file_remove G now p p fs) ∙ immediate_seen p fs set),
    )

    pub file_is_created-Coherent :
        Created p at later
        → Coherent G now later (file_is_created G now p fs).cache
          × Immediate (file_is_created G now p fs)
    unfolding file_is_created propagate
    file_is_created-Coherent m = (
      (λ q. rw (seen-create G now p q fs).0 (
          created-CoherentAt p q at later (seen G now fs.cache q) (h q) false m
            (immediate_seen q fs set))),
      seen_immediate p (file_is_created G now p fs)
          (ap (λ s. s.immediate) (seen-create G now p p fs).0 ∙ immediate_seen p fs set),
    )

    dir_is_created-Coherent :
        Created p at later
        → Coherent G now later (dir_is_created G now p fs).cache
          × Immediate (dir_is_created G now p fs)
    unfolding dir_is_created propagate
    dir_is_created-Coherent m = (
      (λ q. rw (seen-create G now p q fs).1 (
          created-CoherentAt p q at later (seen G now fs.cache q) (h q) true m
            (immediate_seen q fs set))),
      seen_immediate p (dir_is_created G now p fs)
          (ap (λ s. s.immediate) (seen-create G now p p fs).1 ∙ immediate_seen p fs set),
    )

    updated-seen :
        (q : Bytes)
        → seen G now (file_is_updated G p fs).cache q
          ≡ updated p q at later (seen G now fs.cache q) (h q)
    unfolding file_is_updated propagate invalidate_cache_for_file_update send_event
    updated-seen q =
        rw
          (
            seen-remove_entry_cache G now p q (remove_negative_entry_cache G p fs.cache),
            seen-remove_negative_entry_cache G now p q fs.cache,
          )
          (updated_lem (eq_text p q) (seen G now fs.cache q))

    pub file_is_updated-Coherent :
        Updated p at later
        → Coherent G now later (file_is_updated G p fs).cache × Immediate (file_is_updated G p fs)
    file_is_updated-Coherent m = (
      (λ q. rw (updated-seen q) (updated-CoherentAt p q at later (seen G now fs.cache q) (h q) m)),
      seen_immediate p (file_is_updated G p fs)
          (ap (λ s. s.immediate) (updated-seen p) ∙ immediate_seen p fs set),
    )

    pub made_dir-Coherent :
        Created p at later
        → ((q : Bytes) → Child p q → later q ≡ none)
        → Coherent G now later (made_dir G now p fs).cache × Immediate (made_dir G now p fs)
    unfolding made_dir
    made_dir-Coherent m empty =
        let (made, kept) = dir_is_created-Coherent m in
        (
          add_dir_cache-Coherent G now later p [] (dir_is_created G now p fs).cache
              (λ r c there. absurd (there (empty r c))) (λ r k. absurd (nothing_listed r k)) made,
          ap (λ c. c.invalidate_parent_entry_cache_immediately)
                (config-add_dir_cache G now p [] (dir_is_created G now p fs).cache)
              ∙ kept,
        )
