-- ===== src/Fs/Files/Agreement.antt =====
-- The changes of the caches that keep them in agreement with a catalog that stays.
use go_irodsclient.Base.{
  ℕ, ◌≡◌, ◌≢◌, Bool, true, false, List, none, some, Bytes, if◌then◌else◌, arith, Bool-cases, inl,
  inr,
}
use go_irodsclient.Base.Text.{eq_text, eq_text_iff}
use go_irodsclient.Base.TextMaps.{has_text}
use go_irodsclient.Fs.Cache.{GoCache, Entry, FileSystemCache}
use go_irodsclient.Fs.Cache.Paths.{
  get_cache_ttl_for_path, add_entry_cache, remove_negative_entry_cache, add_negative_entry_cache,
  add_dir_cache, get_entry_cache, has_negative_entry_cache, get_dir_cache, get_metadata_cache,
  get_acl_cache,
}
use go_irodsclient.Fs.Cache.Seen.{
  Seen, seen, get-set_now, seen-remove_negative_entry_cache, seen-add_negative_entry_cache,
  seen-add_dir_cache,
}
use go_irodsclient.Fs.Files.{remember}
use go_irodsclient.Fs.Files.Catalog.{Catalog, Child, CoherentAt, Coherent}

same : (b : Bool) (ps qs : List Bytes) → (if b then some ps else none) ≡ some qs → ps ≡ qs
same b ps qs e = ground (arith, e)

module _ (at : Catalog) (q : Bytes) (s : Seen) (h : CoherentAt at q s) where
  with_entry :
      (e : Entry)
      → at q ≡ some e
      → CoherentAt at q (record s { entry = if s.enabled then some e else none })
  with_entry e here = record {
    entry = λ f k. ground (arith, here, k);
    negative = h.negative;
    complete = h.complete;
    placed = h.placed;
  }

  without_negative : CoherentAt at q (record s { negative = false })
  without_negative = record {
    entry = h.entry;
    negative = λ k. absurd (ground (arith, k));
    complete = h.complete;
    placed = h.placed;
  }

  with_negative : at q ≡ none → CoherentAt at q (record s { negative = s.enabled })
  with_negative gone = record {
    entry = h.entry;
    negative = λ k. gone;
    complete = h.complete;
    placed = h.placed;
  }

  with_listing :
      (ps : List Bytes)
      → ((r : Bytes) → Child q r → at r ≢ none → has_text r ps ≡ true)
      → ((r : Bytes) → has_text r ps ≡ true → Child q r)
      → CoherentAt at q (record s { dir = if s.enabled then some ps else none })
  with_listing ps all only = record {
    entry = h.entry;
    negative = h.negative;
    complete = λ qs e r k there. rw (← same s.enabled ps qs e) (all r k there);
    placed = λ qs e r k. only r (rw (same s.enabled ps qs e) k);
  }

module _ {at : Catalog} (q p : Bytes) (s t : Seen) where
  at_if :
      CoherentAt at q s
      → (eq_text p q ≡ true → CoherentAt at q t)
      → CoherentAt at q (if eq_text p q then t else s)
  at_if h k = elim (Bool-cases (eq_text p q)) [ inl e ↦ rw e (k e) | inr e ↦ rw e h ]

module _ (G : GoCache) (now : ℕ) (at : Catalog) where
  seen-add_entry_cache :
      (q : Bytes) (e : Entry) (c : FileSystemCache G)
      → seen G now (add_entry_cache G now e c) q ≡ (
          if eq_text e.path q
          then record (seen G now c q) { entry = if (seen G now c q).enabled then some e else none }
          else seen G now c q)
  unfolding seen add_entry_cache get_entry_cache has_negative_entry_cache get_dir_cache
      get_metadata_cache get_acl_cache
  seen-add_entry_cache q e c =
      ground (arith, get-set_now G now (get_cache_ttl_for_path G c e.path) e.path q e c.entry_cache)

  pub add_entry_cache-Coherent :
      (e : Entry) (c : FileSystemCache G)
      → at e.path ≡ some e
      → Coherent G now at c
      → Coherent G now at (add_entry_cache G now e c)
  add_entry_cache-Coherent e c here h q =
      let s = seen G now c q in
      rw (seen-add_entry_cache q e c) (
        at_if q e.path s (record s { entry = if s.enabled then some e else none }) (h q)
          (λ k. with_entry at q s (h q) e (rw (← (eq_text_iff e.path q).0 k) here)))

  pub remove_negative_entry_cache-Coherent :
      (p : Bytes) (c : FileSystemCache G)
      → Coherent G now at c
      → Coherent G now at (remove_negative_entry_cache G p c)
  remove_negative_entry_cache-Coherent p c h q =
      let s = seen G now c q in
      rw (seen-remove_negative_entry_cache G now p q c)
        (at_if q p s (record s { negative = false }) (h q) (λ k. without_negative at q s (h q)))

  pub add_negative_entry_cache-Coherent :
      (p : Bytes) (c : FileSystemCache G)
      → at p ≡ none
      → Coherent G now at c
      → Coherent G now at (add_negative_entry_cache G now p c)
  add_negative_entry_cache-Coherent p c gone h q =
      let s = seen G now c q in
      rw (seen-add_negative_entry_cache G now p q c) (
        at_if q p s (record s { negative = s.enabled }) (h q)
          (λ k. with_negative at q s (h q) (rw (← (eq_text_iff p q).0 k) gone)))

  pub add_dir_cache-Coherent :
      (p : Bytes) (ps : List Bytes) (c : FileSystemCache G)
      → ((r : Bytes) → Child p r → at r ≢ none → has_text r ps ≡ true)
      → ((r : Bytes) → has_text r ps ≡ true → Child p r)
      → Coherent G now at c
      → Coherent G now at (add_dir_cache G now p ps c)
  add_dir_cache-Coherent p ps c all only h q =
      let s = seen G now c q in
      rw (seen-add_dir_cache G now p q ps c) (
        at_if q p s (record s { dir = if s.enabled then some ps else none }) (h q)
          (λ k.
            let e = (eq_text_iff p q).0 k in
            with_listing at q s (h q) ps (λ r c there. all r (rw e c) there)
              (λ r listed. rw (← e) (only r listed))))

  pub remember-Coherent :
      (p : Bytes) (e : Entry) (c : FileSystemCache G)
      → at e.path ≡ some e
      → Coherent G now at c
      → Coherent G now at (remember G now p e c)
  unfolding remember
  remember-Coherent p e c here h =
      add_entry_cache-Coherent e (remove_negative_entry_cache G p c) here
        (remove_negative_entry_cache-Coherent p c h)
