-- ===== src/Fs/Files/InStep.antt =====
-- That the caches of one client agree with the server, as time goes on and behind a request.
use go_irodsclient.Base.{
  ℕ, ◌≡◌, ◌≤◌, ◌⊎◌, refl, ap, sym, ◌∙◌, Bool, true, false, none, Bytes, if◌then◌else◌, arith, inl,
  inr,
}
use go_irodsclient.Util.Path.{get_irods_path_dirname}
use go_irodsclient.Fs.Cache.{GoCache, FileSystemCache}
use go_irodsclient.Fs.Cache.Paths.{get_entry_cache, has_negative_entry_cache, get_dir_cache}
use go_irodsclient.Fs.Cache.Seen.{Seen, seen}
use go_irodsclient.Fs.Cache.Invalidate.{FileSystem}
use go_irodsclient.Fs.Files.{Reply, ok, not_found, already_exist, failed, panic}
use go_irodsclient.Fs.Files.Catalog.{Catalog, Coherent, CoherentAt, Removed}
use go_irodsclient.Fs.Files.Operations.{file_is_removed, after_delete, if_ok}
use go_irodsclient.Fs.Files.Effects.{Outcome, Immediate}

-- Answers of which some are gone still agree.
pub fewer-CoherentAt :
    (at : Catalog) (q : Bytes) (t s : Seen)
    → (t.entry ≡ none) ⊎ (t.entry ≡ s.entry)
    → (t.negative ≡ false) ⊎ (t.negative ≡ s.negative)
    → (t.dir ≡ none) ⊎ (t.dir ≡ s.dir)
    → CoherentAt at q s
    → CoherentAt at q t
fewer-CoherentAt at q t s e n d h = record {
  entry = λ x k. elim e [ inl f ↦ absurd (ground (arith, f, k)) | inr f ↦ h.entry x (sym f ∙ k) ];
  negative = λ k. elim n [ inl f ↦ absurd (ground (arith, f, k)) | inr f ↦ h.negative (sym f ∙ k) ];
  complete =
      λ ps k. elim d [ inl f ↦ absurd (ground (arith, f, k)) | inr f ↦ h.complete ps (sym f ∙ k) ];
  placed =
      λ ps k. elim d [ inl f ↦ absurd (ground (arith, f, k)) | inr f ↦ h.placed ps (sym f ∙ k) ];
}

-- As time goes on, items only expire.
pub later-Coherent :
    (G : GoCache) (before now : ℕ) (at : Catalog) (c : FileSystemCache G)
    → before ≤ now
    → Coherent G before at c
    → Coherent G now at c
unfolding seen get_entry_cache has_negative_entry_cache get_dir_cache
later-Coherent G before now at c le h q =
    fewer-CoherentAt at q (seen G now c q) (seen G before c q)
      (ground (arith, G.get-later before now q c.entry_cache le))
      (ground (arith, G.get-later before now q c.negative_entry_cache le))
      (ground (arith, G.get-later before now q c.dir_cache le)) (h q)

module _ (G : GoCache) (now : ℕ) where
  -- The invariant of one client.
  abbrev pub InStep : Catalog → FileSystem G → Type 0
  InStep at fs = Coherent G now at fs.cache × Immediate G now fs

  pub if_ok-InStep :
      (P : Type 0) (change : FileSystem G → FileSystem G) (r : Reply (Unit {0}))
      (at later : Catalog) (fs : FileSystem G)
      → (P → InStep later (change fs))
      → Outcome r P at later
      → InStep at fs
      → InStep later (if_ok G r change fs)
  if_ok-InStep P change (ok _) at later fs f e h = f e
  if_ok-InStep P change not_found at later fs f e h = rw e h
  if_ok-InStep P change already_exist at later fs f e h = rw e h
  if_ok-InStep P change failed at later fs f e h = rw e h
  if_ok-InStep P change panic at later fs f e h = rw e h

  pub after_delete-InStep :
      (p : Bytes) (r : Reply (Unit {0})) (at later : Catalog) (fs : FileSystem G)
      → (r ≡ not_found → at p ≡ none)
      → (Removed p at later → InStep later (file_is_removed G now p fs))
      → Outcome r (Removed p at later) at later
      → InStep at fs
      → InStep later (after_delete G now p r fs)
  after_delete-InStep p (ok _) at later fs n f e h = f e
  after_delete-InStep p not_found at later fs n f e h = f (record {
    apart = record {
      other = λ q _ _. ap (λ g. g q) e;
      parent = λ k. ap (λ g. g (get_irods_path_dirname p)) e ∙ k;
    };
    gone = ap (λ g. g p) e ∙ n refl;
  })
  after_delete-InStep p already_exist at later fs n f e h = rw e h
  after_delete-InStep p failed at later fs n f e h = rw e h
  after_delete-InStep p panic at later fs n f e h = rw e h

  -- An operation is held back, or acts.
  acts {ℓ} : {A : Type ℓ} (P : A → Type 0) (b : Bool) (x y : A) → P x → P y → P (if b then x else y)
  acts P true x y h k = h
  acts P false x y h k = k
