-- ===== src/Fs/Files/Answers.antt =====
-- The parts of Stat, StatDir and StatFile answer as the server does, if the caches agree with it.
use go_irodsclient.Base.{
  ℕ, ◌≡◌, refl, ap, sym, ◌∙◌, true, leb, Option, none, some, Bytes, arith, Bool-cases, Option-cases,
  inl, inr,
}
use go_irodsclient.Fs.Cache.{GoCache, EntryType, file_entry, directory_entry, Entry}
use go_irodsclient.Fs.Cache.Paths.{get_entry_cache, has_negative_entry_cache}
use go_irodsclient.Fs.Cache.Invalidate.{FileSystem}
use go_irodsclient.Fs.Cache.Seen.{seen}
use go_irodsclient.Fs.Files.{
  Reply, ok, not_found, already_exist, failed, panic, get_data_object_with_connection, Server,
  IrodsCollection, IrodsDataObject, new_entry_from_collection, new_entry_from_data_object, of_kind,
  in_cache, cached_or, found_collection, get_data_object_with_connection_no_cache,
  get_collection_no_cache, get_data_object_no_cache, get_collection, get_data_object, missing,
  else_missing, stat_server, remember,
}
use go_irodsclient.Fs.Files.Catalog.{Catalog, Coherent, IsCatalog}
use go_irodsclient.Fs.Files.Agreement.{remember-Coherent, add_negative_entry_cache-Coherent}
use go_irodsclient.Fs.Files.Replies.{
  reply_of, Answered, Answering, of_directory, of_file, of_kind-some, of_kind_here, one_kind,
  else_data_object-ok, else_data_object-not_found, else_missing-reply,
}

-- What the caches know, the server holds; `found` is the answer about `p`, after which the caches still agree.
module _ (G : GoCache) (S : Server) (view : S.State → Catalog) (law : IsCatalog S view) (now : ℕ)
    (w : S.State) (p : Bytes) where
  abbrev pub Agrees : Option Entry → Reply Entry × FileSystem G → Type 0
  Agrees o r = (r.0 ≡ reply_of o) × Coherent G now (view w) r.1.cache

  remembers :
      (e : Entry) (fs : FileSystem G)
      → view w p ≡ some e
      → Coherent G now (view w) fs.cache
      → Agrees (some e) (ok e, in_cache G (remember G now p e) fs)
  remembers e fs here h = (
    refl,
    remember-Coherent G now (view w) p e fs.cache (ap (view w) (law.at_path w p e here).0 ∙ here) h,
  )

  found_collection-Agrees :
      (r : Reply IrodsCollection) (fs : FileSystem G)
      → S.get_collection w p ≡ r
      → Answered r
      → Coherent G now (view w) fs.cache
      → Agrees (of_kind G directory_entry (view w p)) (found_collection G now p r fs)
  unfolding found_collection new_entry_from_collection
  found_collection-Agrees r fs g (inl (c, e)) h =
      let here = law.got_collection w p c (g ∙ e) in
      let positive : leb 1 c.id ≡ true =
        ground (arith, (law.at_path w p (new_entry_from_collection c) here).1) in
      rw (e, here, positive) (remembers (new_entry_from_collection c) fs here h)
  found_collection-Agrees r fs g (inr e) h =
      rw (e, of_directory G (view w p) (λ f k. law.no_collection w p f (g ∙ e) k)) (refl, h)

  found_data_object-Agrees :
      (r : Reply IrodsDataObject) (fs : FileSystem G)
      → S.get_data_object w p ≡ r
      → Answered r
      → Coherent G now (view w) fs.cache
      → Agrees
          (of_kind G file_entry (view w p))
          (get_data_object_with_connection_no_cache G now p r fs)
  unfolding get_data_object_with_connection_no_cache new_entry_from_data_object
  found_data_object-Agrees r fs g (inl (o, e)) h =
      let (first, rest, replicas, here) = law.got_data_object w p o (g ∙ e) in
      let positive : leb 1 o.id ≡ true =
        ground (arith, (law.at_path w p (new_entry_from_data_object o first) here).1) in
      rw (e, here, replicas, positive) (remembers (new_entry_from_data_object o first) fs here h)
  found_data_object-Agrees r fs g (inr e) h =
      rw (e, of_file G (view w p) (λ f k. law.no_data_object w p f (g ∙ e) k)) (refl, h)

  pub missing-Agrees :
      (fs : FileSystem G)
      → view w p ≡ none
      → Coherent G now (view w) fs.cache
      → Agrees none (missing G S now p fs)
  missing-Agrees fs gone h =
      (refl, add_negative_entry_cache-Coherent G now (view w) p fs.cache gone h)

  get_collection_no_cache-Agrees :
      (fs : FileSystem G)
      → Answering S w p
      → Coherent G now (view w) fs.cache
      → Agrees (of_kind G directory_entry (view w p)) (get_collection_no_cache G S now p w fs)
  unfolding get_collection_no_cache
  get_collection_no_cache-Agrees fs a h =
      rw a.connection (found_collection-Agrees (S.get_collection w p) fs refl a.collection h)

  pub get_data_object_no_cache-Agrees :
      (fs : FileSystem G)
      → Answering S w p
      → Coherent G now (view w) fs.cache
      → Agrees (of_kind G file_entry (view w p)) (get_data_object_no_cache G S now p w fs)
  unfolding get_data_object_no_cache
  get_data_object_no_cache-Agrees fs a h =
      rw a.connection (found_data_object-Agrees (S.get_data_object w p) fs refl a.data_object h)

  else_missing-Agrees :
      (o : Option Entry) (r : Reply Entry × FileSystem G)
      → view w p ≡ o
      → Agrees o r
      → Agrees o (else_missing G S now p r)
  else_missing-Agrees none r v (e, h) =
      rw (else_missing-reply G S now p r none e) (missing-Agrees r.1 v h)
  else_missing-Agrees (some f) r v (e, h) = rw (else_missing-reply G S now p r (some f) e) (refl, h)

  pub stat_server-Agrees :
      (fs : FileSystem G)
      → Answering S w p
      → Coherent G now (view w) fs.cache
      → Agrees (view w p) (stat_server G S now p w fs)
  unfolding stat_server
  stat_server-Agrees fs a h =
      let r = get_collection_no_cache G S now p w fs in
      let (answer, agree) = get_collection_no_cache-Agrees fs a h in
      elim (Option-cases (of_kind G directory_entry (view w p))) [
        | inl e ↦
            let r-not_found : r.0 ≡ not_found = answer ∙ ap reply_of e in
            let found = get_data_object_no_cache-Agrees r.1 a agree in
            rw (else_data_object-not_found G S now p w r r-not_found) (
              else_missing-Agrees (view w p) (get_data_object_no_cache G S now p w r.1) refl
                (rw⁻¹ (one_kind G (view w p) e) found))
        | inr (f, e) ↦
            let r-ok : r.0 ≡ ok f = answer ∙ ap reply_of e in
            let here = of_kind-some G directory_entry (view w p) f e in
            rw (else_data_object-ok G S now p w r f r-ok) (r-ok ∙ sym (ap reply_of here), agree)
      ]

  cached-Agrees :
      (kind : EntryType) (o : Option Entry) (fs : FileSystem G) (rest : Reply Entry × FileSystem G)
      → ((e : Entry) → o ≡ some e → view w p ≡ some e)
      → Coherent G now (view w) fs.cache
      → Agrees (of_kind G kind (view w p)) rest
      → Agrees (of_kind G kind (view w p)) (cached_or G (of_kind G kind o) fs rest)
  cached-Agrees kind o fs rest known h k = elim (Option-cases (of_kind G kind o)) [
    | inl e ↦ rw e k
    | inr (f, e) ↦
        let here = known f (of_kind-some G kind o f e) in
        rw (e, here, of_kind_here G kind o f e) (refl, h)
  ]

  pub known_missing :
      (fs : FileSystem G)
      → Coherent G now (view w) fs.cache
      → has_negative_entry_cache G now p fs.cache ≡ true
      → view w p ≡ none
  unfolding seen has_negative_entry_cache
  known_missing fs h e = (h p).negative e

  pub known_entry :
      (q : Bytes) (fs : FileSystem G)
      → Coherent G now (view w) fs.cache
      → (e : Entry) → get_entry_cache G now q fs.cache ≡ some e
      → view w q ≡ some e
  unfolding seen get_entry_cache
  known_entry q fs h e k = (h q).entry e k

  pub get_collection-Agrees :
      (fs : FileSystem G)
      → Answering S w p
      → Coherent G now (view w) fs.cache
      → Agrees (of_kind G directory_entry (view w p)) (get_collection G S now p w fs)
  unfolding get_collection
  get_collection-Agrees fs a h = elim (Bool-cases (has_negative_entry_cache G now p fs.cache)) [
    | inl e ↦ rw (e, known_missing fs h e) (refl, h)
    | inr e ↦ rw e (
        cached-Agrees directory_entry (get_entry_cache G now p fs.cache) fs
          (get_collection_no_cache G S now p w fs) (known_entry p fs h) h
          (get_collection_no_cache-Agrees fs a h))
  ]

  pub get_data_object-Agrees :
      (fs : FileSystem G)
      → Answering S w p
      → Coherent G now (view w) fs.cache
      → Agrees (of_kind G file_entry (view w p)) (get_data_object G S now p w fs)
  unfolding get_data_object
  get_data_object-Agrees fs a h = elim (Bool-cases (has_negative_entry_cache G now p fs.cache)) [
    | inl e ↦ rw (e, known_missing fs h e) (refl, h)
    | inr e ↦ rw e (
        cached-Agrees file_entry (get_entry_cache G now p fs.cache) fs
          (get_data_object_no_cache G S now p w fs) (known_entry p fs h) h
          (get_data_object_no_cache-Agrees fs a h))
  ]

  -- Whatever the server replies, the caches agree afterwards.
  found_data_object-Coherent :
      (r : Reply IrodsDataObject) (fs : FileSystem G)
      → S.get_data_object w p ≡ r
      → Coherent G now (view w) fs.cache
      → Coherent G now (view w) (get_data_object_with_connection_no_cache G now p r fs).1.cache
  unfolding get_data_object_with_connection_no_cache
  found_data_object-Coherent (ok o) fs g h =
      (found_data_object-Agrees (ok o) fs g (inl (o, refl)) h).1
  found_data_object-Coherent not_found fs g h = h
  found_data_object-Coherent already_exist fs g h = h
  found_data_object-Coherent failed fs g h = h
  found_data_object-Coherent panic fs g h = h

  pub get_data_object_with_connection-Coherent :
      (fs : FileSystem G)
      → Coherent G now (view w) fs.cache
      → Coherent G now (view w) (get_data_object_with_connection G S now p w fs).1.cache
  unfolding get_data_object_with_connection
  get_data_object_with_connection-Coherent fs h =
      elim (Bool-cases (has_negative_entry_cache G now p fs.cache)) [
        | inl e ↦ rw e h
        | inr e ↦ elim (Option-cases (of_kind G file_entry (get_entry_cache G now p fs.cache))) [
          | inl f ↦ rw (e, f) (found_data_object-Coherent (S.get_data_object w p) fs refl h)
          | inr (x, f) ↦ rw (e, f) h
        ]
      ]
