-- ===== src/Fs/Files/ListEntries.antt =====
-- List gives what the server holds under a path.
use go_irodsclient.Base.{
  ℕ, ◌≡◌, ◌≢◌, refl, ap, ◌∙◌, true, List, [], ◌∷◌, ◌++◌, none, some, Bytes, All, arith,
  Option-cases, inl, inr,
}
use go_irodsclient.Base.Text.{eq_text_self}
use go_irodsclient.Base.TextMaps.{has_text}
use go_irodsclient.Util.Path.{get_correct_irods_path}
use go_irodsclient.Fs.Cache.{GoCache, EntryType, file_entry, directory_entry, Entry}
use go_irodsclient.Fs.Cache.Paths.{get_dir_cache}
use go_irodsclient.Fs.Cache.Invalidate.{FileSystem}
use go_irodsclient.Fs.Cache.Seen.{seen}
use go_irodsclient.Fs.Files.{Reply, ok, Server}
use go_irodsclient.Fs.Files.Catalog.{Catalog, Child, Coherent, IsCatalog}
use go_irodsclient.Fs.Files.Agreement.{add_dir_cache-Coherent}
use go_irodsclient.Fs.Files.Operations.{
  collection_entries, object_entries, cached_entries, remember_all, list_collections, list_entries,
  list,
}
use go_irodsclient.Fs.Files.Answers.{known_entry}
use go_irodsclient.Fs.Files.Entries.{
  paths_of, Listed, Listing, collection_entries-Listed, object_entries-Listed,
  paths_of-collection_entries, All-append, has_text-paths_of, placed_paths, remember_all-Coherent,
  remove_negatives-Coherent, cached_entries-held,
}

-- All entries that are directly under `p`, and no other.
pub record Whole (at : Catalog) (p : Bytes) (es : List Entry) : Type 0 where
  pub held : All (Listed at p) es
  pub complete : (r : Bytes) → Child p r → at r ≢ none → has_text r (paths_of es) ≡ true

-- One of the kinds.
by_kind {ℓ} : {A : Type ℓ} (k : EntryType) → (k ≡ directory_entry → A) → (k ≡ file_entry → A) → A
by_kind directory_entry f g = f refl
by_kind file_entry f g = g refl

held_of :
    (at : Catalog) (p : Bytes) (es : List Entry)
    → All (Listed at p) es
    → All (λ e. at e.path ≡ some e) es
held_of at p [] hs = tt
held_of at p (e ∷ es) (h, hs) = (h.0, held_of at p es hs)

with_places :
    (at : Catalog) (p : Bytes) (es : List Entry)
    → All (λ e. at e.path ≡ some e) es
    → ((r : Bytes) → has_text r (paths_of es) ≡ true → Child p r)
    → All (Listed at p) es
unfolding has_text
with_places at p [] hs c = tt
with_places at p (e ∷ es) (h, hs) c = (
  (h, c e.path (rw (eq_text_self e.path) refl)),
  with_places at p es hs (λ r k. c r (rw k (ground arith))),
)

module _ (G : GoCache) (S : Server) (view : S.State → Catalog) (law : IsCatalog S view) (now : ℕ)
    (w : S.State) (p : Bytes) where
  abbrev Lists : Reply (List Entry) × FileSystem G → Type 0
  Lists r =
      (es : List Entry) × (r.0 ≡ ok es) × Whole (view w) p es × Coherent G now (view w) r.1.cache

  server_Whole :
      (l : Listing S (view w) w p)
      → Whole (view w) p (collection_entries l.collections ++ object_entries l.data_objects)
  server_Whole l =
      let cs = collection_entries l.collections in
      let os = object_entries l.data_objects in
      let (objects, object_paths) =
        object_entries-Listed (view w) p l.data_objects l.listed_data_objects in
      record {
        held =
            All-append (Listed (view w) p) cs os
              (collection_entries-Listed (view w) p l.collections l.listed_collections) objects;
        complete = λ r c there. elim (Option-cases (view w r)) [
          | inl k ↦ absurd (there k)
          | inr (e, k) ↦
              let here : e.path ≡ r = (law.at_path w r e k).0 in
              let listed : Listed (view w) p e = (ap (view w) here ∙ k, (rw here c)) in
              rw
                (
                  has_text-paths_of r cs os,
                  paths_of-collection_entries l.collections,
                  object_paths,
                  ← here,
                )
                (by_kind e.kind (λ f. rw (l.all_collections e listed f) refl)
                  (λ f. rw (l.all_data_objects e listed f) (ground arith)))
        ];
      }

  list_server-Lists :
      (fs : FileSystem G) (l : Listing S (view w) w p)
      → Coherent G now (view w) fs.cache
      → Lists (list_collections G now p (S.list_sub_collections w p) (S.list_data_objects w p) fs)
  list_server-Lists fs l h =
      let cs = collection_entries l.collections in
      let os = object_entries l.data_objects in
      let whole = server_Whole l in
      rw (l.got_collections, l.got_data_objects)
        (
          cs ++ os,
          refl,
          whole,
          add_dir_cache-Coherent G now (view w) p (paths_of (cs ++ os))
              (remember_all G now os (remember_all G now cs fs.cache)) whole.complete
              (placed_paths (view w) p (cs ++ os) whole.held)
              (remember_all-Coherent G now (view w) os (remember_all G now cs fs.cache)
                (held_of (view w) p os
                  (object_entries-Listed (view w) p l.data_objects l.listed_data_objects).0)
                (remember_all-Coherent G now (view w) cs fs.cache
                  (held_of (view w) p cs
                    (collection_entries-Listed (view w) p l.collections l.listed_collections))
                  h)),
        )

  cached-Lists :
      (fs : FileSystem G) (ps : List Bytes) (es : List Entry)
      → get_dir_cache G now p fs.cache ≡ some ps
      → cached_entries G now ps fs.cache ≡ some es
      → Coherent G now (view w) fs.cache
      → Whole (view w) p es
  unfolding get_dir_cache seen
  cached-Lists fs ps es listed k h =
      let (paths, held) =
        cached_entries-held G now (view w) (λ q e here. (law.at_path w q e here).0) ps es fs.cache
          (λ q e f. known_entry G S view law now w q q fs h e f) k in
      record {
        held = with_places (view w) p es held (λ r k. (h p).placed ps listed r (rw (← paths) k));
        complete = λ r c there. rw paths ((h p).complete ps listed r c there);
      }

  list_entries-Lists :
      (fs : FileSystem G) (l : Listing S (view w) w p)
      → Coherent G now (view w) fs.cache
      → Lists (list_entries G S now p w fs)
  unfolding list_entries
  list_entries-Lists fs l h =
      let rest = list_server-Lists fs l h in
      elim (Option-cases (get_dir_cache G now p fs.cache)) [
        | inl e ↦ rw (e, l.connection) rest
        | inr (ps, e) ↦ elim (Option-cases (cached_entries G now ps fs.cache)) [
          | inl f ↦ rw (e, f, l.connection) rest
          | inr (es, f) ↦
              rw (e, f)
                (
                  es,
                  refl,
                  cached-Lists fs ps es e f h,
                  remove_negatives-Coherent G now (view w) es fs.cache h,
                )
        ]
      ]

module _ (G : GoCache) (S : Server) (view : S.State → Catalog) (law : IsCatalog S view) (now : ℕ)
    (w : S.State) where
  -- If the caches agree with the catalog of the server, and the server answers both requests for the listing of a
  -- path with the collections and the data objects that it holds directly under it, then List, whatever is
  -- cached, succeeds with entries that the server holds directly under the path, and leaves none out. The
  -- caches agree with the catalog afterwards.
  pub list-server :
      (path : Bytes) (fs : FileSystem G)
      → Listing S (view w) w (get_correct_irods_path path)
      → Coherent G now (view w) fs.cache
      → (es : List Entry) × ((list G S now path w fs).0 ≡ ok es)
        × Whole (view w) (get_correct_irods_path path) es
        × Coherent G now (view w) (list G S now path w fs).1.cache
  unfolding list
  list-server path fs l h =
      list_entries-Lists G S view law now w (get_correct_irods_path path) fs l h
