-- ===== src/Fs/Files/Entries.antt =====
-- The entries of a listing, from the server or from the caches.
use go_irodsclient.Base.{
  ℕ, ◌≡◌, refl, ap, ap₂, ◌∙◌, true, ◌||◌, List, [], ◌∷◌, ◌++◌, some, Bytes, All, arith, Bool-cases,
  Option-cases, inl, inr,
}
use go_irodsclient.Base.Text.{eq_text, eq_text_iff}
use go_irodsclient.Base.TextMaps.{has_text}
use go_irodsclient.Fs.Cache.{GoCache, file_entry, directory_entry, Entry, FileSystemCache}
use go_irodsclient.Fs.Cache.Paths.{get_entry_cache, remove_negative_entry_cache}
use go_irodsclient.Fs.Files.{
  ok, Server, IrodsCollection, IrodsDataObject, new_entry_from_collection,
  new_entry_from_data_object, remember,
}
use go_irodsclient.Fs.Files.Catalog.{Catalog, Child, Coherent, ListedCollection, ListedDataObject}
use go_irodsclient.Fs.Files.Agreement.{remember-Coherent, remove_negative_entry_cache-Coherent}
use go_irodsclient.Fs.Files.Operations.{
  collection_entries, object_entries, cached_entries, remove_negatives, remember_all,
}
use mathlib.Core.List.{map}

abbrev pub paths_of : List Entry → List Bytes
paths_of es = map (λ e. e.path) es

-- An entry that the server holds directly under `p`.
abbrev pub Listed : Catalog → Bytes → Entry → Type 0
Listed at p e = (at e.path ≡ some e) × Child p e.path

-- Both requests of a listing succeed: with collections and data objects under the path, and with every one.
pub record Listing (S : Server) (at : Catalog) (w : S.State) (p : Bytes) : Type 0 where
  pub connection : S.metadata_connection w ≡ true
  pub collections : List IrodsCollection
  pub got_collections : S.list_sub_collections w p ≡ ok collections
  pub listed_collections : All (ListedCollection at p) collections
  pub all_collections :
      (e : Entry)
      → Listed at p e
      → e.kind ≡ directory_entry
      → has_text e.path (map (λ c. c.path) collections) ≡ true
  pub data_objects : List IrodsDataObject
  pub got_data_objects : S.list_data_objects w p ≡ ok data_objects
  pub listed_data_objects : All (ListedDataObject at p) data_objects
  pub all_data_objects :
      (e : Entry)
      → Listed at p e
      → e.kind ≡ file_entry
      → has_text e.path (map (λ o. o.path) data_objects) ≡ true

module _ (at : Catalog) (p : Bytes) where
  pub collection_entries-Listed :
      (cs : List IrodsCollection)
      → All (ListedCollection at p) cs
      → All (Listed at p) (collection_entries cs)
  unfolding collection_entries new_entry_from_collection
  collection_entries-Listed [] hs = tt
  collection_entries-Listed (c ∷ cs) (h, hs) = (h, collection_entries-Listed cs hs)

  pub object_entries-Listed :
      (os : List IrodsDataObject)
      → All (ListedDataObject at p) os
      → All (Listed at p) (object_entries os)
        × (paths_of (object_entries os) ≡ map (λ o. o.path) os)
  unfolding object_entries new_entry_from_data_object
  object_entries-Listed [] hs = (tt, refl)
  object_entries-Listed (o ∷ os) (h, hs) =
      let (rest, paths) = object_entries-Listed os hs in
      rw h.replicas (((h.entry, h.child), rest), ap (λ ps. o.path ∷ ps) paths)

pub paths_of-collection_entries :
    (cs : List IrodsCollection) → paths_of (collection_entries cs) ≡ map (λ c. c.path) cs
unfolding collection_entries new_entry_from_collection
paths_of-collection_entries [] = refl
paths_of-collection_entries (c ∷ cs) = ap (λ ps. c.path ∷ ps) (paths_of-collection_entries cs)

pub All-append {ℓ κ} :
    {A : Type ℓ} (P : A → Type κ) (xs ys : List A) → All P xs → All P ys → All P (xs ++ ys)
All-append P [] ys hs ks = ks
All-append P (x ∷ xs) ys (h, hs) ks = (h, All-append P xs ys hs ks)

pub has_text-paths_of :
    (q : Bytes) (es fs : List Entry)
    → has_text q (paths_of (es ++ fs)) ≡ has_text q (paths_of es) || has_text q (paths_of fs)
unfolding has_text
has_text-paths_of q [] fs = ground arith
has_text-paths_of q (e ∷ es) fs = rw (has_text-paths_of q es fs) (ground arith)

pub placed_paths :
    (at : Catalog) (p : Bytes) (es : List Entry)
    → All (Listed at p) es
    → (r : Bytes) → has_text r (paths_of es) ≡ true
    → Child p r
unfolding has_text
placed_paths at p [] hs r k = absurd (ground (arith, k))
placed_paths at p (e ∷ es) (h, hs) r k = elim (Bool-cases (eq_text e.path r)) [
  | inl f ↦ rw (← (eq_text_iff e.path r).0 f) h.1
  | inr f ↦ placed_paths at p es hs r (ground (arith, k, f))
]

module _ (G : GoCache) (now : ℕ) (at : Catalog) where
  pub remember_all-Coherent :
      (es : List Entry) (c : FileSystemCache G)
      → All (λ e. at e.path ≡ some e) es
      → Coherent G now at c
      → Coherent G now at (remember_all G now es c)
  unfolding remember_all
  remember_all-Coherent [] c hs k = k
  remember_all-Coherent (e ∷ es) c (h, hs) k =
      remember_all-Coherent es (remember G now e.path e c) hs
        (remember-Coherent G now at e.path e c h k)

  pub remove_negatives-Coherent :
      (es : List Entry) (c : FileSystemCache G)
      → Coherent G now at c
      → Coherent G now at (remove_negatives G es c)
  unfolding remove_negatives remove_negative_entry_cache
  remove_negatives-Coherent [] c k = k
  remove_negatives-Coherent (e ∷ es) c k =
      remove_negatives-Coherent es (remove_negative_entry_cache G e.path c)
        (remove_negative_entry_cache-Coherent G now at e.path c k)

  -- A cached listing of which every entry is cached.
  pub cached_entries-held :
      (held : (q : Bytes) (e : Entry) → at q ≡ some e → e.path ≡ q) (ps : List Bytes)
      (es : List Entry) (c : FileSystemCache G)
      → ((q : Bytes) (e : Entry) → get_entry_cache G now q c ≡ some e → at q ≡ some e)
      → cached_entries G now ps c ≡ some es
      → (paths_of es ≡ ps) × All (λ e. at e.path ≡ some e) es
  unfolding cached_entries
  cached_entries-held held [] es c known k = ground (arith, k)
  cached_entries-held held (p ∷ ps) es c known k = elim (Option-cases (get_entry_cache G now p c)) [
    | inl f ↦ absurd (ground (arith, f, k))
    | inr (e, f) ↦ elim (Option-cases (cached_entries G now ps c)) [
      | inl g ↦ absurd (ground (arith, f, g, k))
      | inr (rest, g) ↦
          let (paths, all) = cached_entries-held held ps rest c known g in
          let here = known p e f in
          let whole : e ∷ rest ≡ es = ground (arith, f, g, k) in
          rw⁻¹ whole
            (ap₂ (λ x xs. x ∷ xs) (held p e here) paths, (ap at (held p e here) ∙ here, all))
    ]
  ]
