-- ===== src/Fs/Cache/Purge.antt =====
-- invalidateCacheForRemoveInternal: it ends, since every directory that it enters leaves the cached entries, and
-- what it leaves behind.
use go_irodsclient.Base.{
  ℕ, zero, suc, ◌≤◌, ◌<◌, ◌≡◌, refl, ap, ◌∙◌, sym, Bool, true, false, List, [], ◌∷◌, Option, none,
  some, Bytes, if◌then◌else◌, arith, Bool-cases, Option-cases, inl, inr, All, length, ◌>>=◌,
}
use go_irodsclient.Base.Text.{eq_text, eq_text_self}
use go_irodsclient.Base.TextMaps.{has_text, without_text, has_text-without_text}
use go_irodsclient.Fs.Cache.{GoCache, Entry, FileSystemCache, or_empty}
use go_irodsclient.Fs.Cache.Paths.{
  get_entry_cache, get_dir_cache, remove_entry_cache, remove_metadata_cache, remove_acl_cache,
  remove_dir_cache,
}
use go_irodsclient.Fs.Cache.Invalidate.{invalidate_cache_for_remove_internal, each, is_directory}
use go_irodsclient.Fs.Cache.Less.{
  Less, Gone, gone_or, Less-refl, Less-trans, Gone-Less, without_dir,
}
use go_irodsclient.Fs.Cache.Seen.{
  Seen, seen, seen-remove_entry_cache, seen-remove_metadata_cache, seen-remove_acl_cache,
  seen-remove_dir_cache,
}

length-without_text : (s : Bytes) (ts : List Bytes) → length (without_text s ts) ≤ length ts
unfolding without_text
length-without_text s [] = omega arith
length-without_text s (t ∷ ts) = ground (arith, length-without_text s ts)

pub shorter :
    (s : Bytes) (ts : List Bytes) → has_text s ts ≡ true → length (without_text s ts) < length ts
unfolding without_text has_text
shorter s [] h = ground (arith, h)
shorter s (t ∷ ts) h = ground (arith, h, shorter s ts, length-without_text s ts)

-- The answers without entry, accesses and metadata.
abbrev stripped : Bool → Seen → Seen
stripped b s = if b then record s { entry = none; metadata = none; acl = none } else s

stripped_lem :
    (b : Bool) (s : Seen)
    → (let u = if b then record s { entry = none } else s in
        let t = if b then record u { acl = none } else u in
        if b then record t { metadata = none } else t)
      ≡ stripped b s
stripped_lem true s = refl
stripped_lem false s = refl

stripped-Less : (b : Bool) (s : Seen) → Less (stripped b s) s
stripped-Less true s = record {
  enabled = refl;
  immediate = refl;
  entry = inl refl;
  negative = refl;
  dir = inr refl;
  metadata = inl refl;
  acl = inl refl;
}
stripped-Less false s = Less-refl s

stripped_entry : (b : Bool) (s : Seen) → b ≡ true → (stripped b s).entry ≡ none
stripped_entry true s h = refl
stripped_entry false s h = absurd (ground (arith, h))

gone_lem :
    (b : Bool) (u t : Seen)
    → b ≡ true
    → Less u (stripped b t)
    → Gone (if b then record u { dir = none } else u)
gone_lem true u t e h = record {
  entry = gone_or h.entry refl;
  dir = refl;
  metadata = gone_or h.metadata refl;
  acl = gone_or h.acl refl;
}
gone_lem false u t e h = absurd (ground (arith, e))

module _ (G : GoCache) (now : ℕ) where
  -- Every cached entry is at a path of the list.
  abbrev pub Covered : List Bytes → FileSystemCache G → Type 0
  Covered ks c = (q : Bytes) (e : Entry) → (seen G now c q).entry ≡ some e → has_text q ks ≡ true

  abbrev pub Under : FileSystemCache G → FileSystemCache G → Type 0
  Under d c = (q : Bytes) → Less (seen G now d q) (seen G now c q)

  pub Covered-Under :
      (ks : List Bytes) (d c : FileSystemCache G) → Under d c → Covered ks c → Covered ks d
  Covered-Under ks d c under cov q e h = elim (under q).entry [
    | inl z ↦ absurd (ground (arith, z, h))
    | inr z ↦ cov q e (sym z ∙ h)
  ]

  abbrev strip : Bytes → FileSystemCache G → FileSystemCache G
  strip p c = remove_metadata_cache G p (remove_acl_cache G p (remove_entry_cache G p c))

  seen-strip :
      (p q : Bytes) (c : FileSystemCache G)
      → seen G now (strip p c) q ≡ stripped (eq_text p q) (seen G now c q)
  seen-strip p q c =
      rw
        (
          seen-remove_metadata_cache G now p q (remove_acl_cache G p (remove_entry_cache G p c)),
          seen-remove_acl_cache G now p q (remove_entry_cache G p c),
          seen-remove_entry_cache G now p q c,
        )
        (stripped_lem (eq_text p q) (seen G now c q))

  strip-Under : (p : Bytes) (c : FileSystemCache G) → Under (strip p c) c
  strip-Under p c q = rw (seen-strip p q c) (stripped-Less (eq_text p q) (seen G now c q))

  strip-Covered :
      (p : Bytes) (ks : List Bytes) (c : FileSystemCache G)
      → Covered ks c
      → Covered (without_text p ks) (strip p c)
  strip-Covered p ks c cov q e h =
      rw (has_text-without_text p q ks) (elim (Bool-cases (eq_text p q)) [
        | inl f ↦
            let g =
              ap (λ s. s.entry) (seen-strip p q c)
              ∙ stripped_entry (eq_text p q) (seen G now c q) f in
            absurd (ground (arith, g, h))
        | inr f ↦ rw f (Covered-Under ks (strip p c) c (strip-Under p c) cov q e h)
      ])

  -- That a run ends, only takes answers away, and leaves nothing of the paths.
  abbrev pub Purged : Option (FileSystemCache G) → FileSystemCache G → List Bytes → Type 0
  Purged o c ps =
      (d : FileSystemCache G) × (o ≡ some d) × Under d c × All (λ p. Gone (seen G now d p)) ps

  pub each-Purged :
      (body : Bytes → FileSystemCache G → Option (FileSystemCache G)) (ks : List Bytes)
      → ((c : FileSystemCache G) (p : Bytes) → Covered ks c → Purged (body p c) c (p ∷ []))
      → (ps : List Bytes) (c : FileSystemCache G) → Covered ks c
      → Purged (each body ps c) c ps
  each-Purged body ks run [] c cov = (c, refl, (λ q. Less-refl (seen G now c q)), tt)
  each-Purged body ks run (p ∷ ps) c cov =
      let (d, e, u, g) = run c p cov in
      let (d2, e2, u2, gs) = each-Purged body ks run ps d (Covered-Under ks d c u cov) in
      (d2, rw e e2, (λ q. Less-trans (u2 q) (u q)), (Gone-Less (u2 p) g.0, gs))

  -- The end of a call: the listing goes.
  close :
      (p : Bytes) (d c : FileSystemCache G)
      → Under d (strip p c)
      → Purged (some (remove_dir_cache G p d)) c (p ∷ [])
  close p d c u = (
    remove_dir_cache G p d,
    refl,
    (λ q. rw (seen-remove_dir_cache G now p q d) (
        Less-trans (without_dir (eq_text p q) (seen G now d q))
          (Less-trans (u q) (strip-Under p c q)))),
    (
      rw (seen-remove_dir_cache G now p p d) (
          gone_lem (eq_text p p) (seen G now d p) (seen G now c p) (eq_text_self p)
            (rw (← seen-strip p p c) (u p))),
      tt,
    ),
  )

  abbrev purge_children :
      (Bytes → FileSystemCache G → Option (FileSystemCache G))
      → Bool
      → Bytes
      → FileSystemCache G
      → Option (FileSystemCache G)
  purge_children body directory p d =
      if directory then each body (or_empty (get_dir_cache G now p d)) d else some d

  one_call :
      (fuel : ℕ) (p : Bytes) (c : FileSystemCache G)
      → invalidate_cache_for_remove_internal G (suc fuel) now p true c ≡ (
          purge_children
            (λ q. invalidate_cache_for_remove_internal G fuel now q true)
            (is_directory (get_entry_cache G now p c))
            p
            (strip p c)
          >>= λ e. some (remove_dir_cache G p e))
  unfolding invalidate_cache_for_remove_internal get_entry_cache remove_entry_cache remove_acl_cache
      remove_metadata_cache get_dir_cache remove_dir_cache
  one_call fuel p c = refl

  closed :
      (o : Option (FileSystemCache G)) (d : FileSystemCache G) (p : Bytes) (c : FileSystemCache G)
      → o ≡ some d
      → Under d (strip p c)
      → Purged (o >>= λ e. some (remove_dir_cache G p e)) c (p ∷ [])
  closed o d p c e u = rw e (close p d c u)

  entered :
      (p : Bytes) (ks : List Bytes) (c : FileSystemCache G)
      → Covered ks c
      → is_directory (get_entry_cache G now p c) ≡ true
      → has_text p ks ≡ true
  unfolding seen
  entered p ks c cov h = elim (Option-cases (get_entry_cache G now p c)) [
    | inl e ↦ absurd (ground (arith, e, h))
    | inr (entry, e) ↦ cov p entry e
  ]

  -- With more fuel than cached entries the call ends, only takes answers away, and leaves nothing of the path.
  pub invalidate-Purged :
      (fuel : ℕ) (ks : List Bytes) (c : FileSystemCache G) (p : Bytes)
      → Covered ks c
      → length ks < fuel
      → Purged (invalidate_cache_for_remove_internal G fuel now p true c) c (p ∷ [])
  invalidate-Purged zero ks c p cov lt = absurd (omega arith)
  invalidate-Purged (suc fuel) ks c p cov lt =
      rw (one_call fuel p c) (elim (Bool-cases (is_directory (get_entry_cache G now p c))) [
        | inr e ↦ rw e (close p (strip p c) c (λ q. Less-refl (seen G now (strip p c) q)))
        | inl e ↦
            let left = without_text p ks in
            let less : length left < fuel =
              omega (arith, shorter p ks (entered p ks c cov e), lt) in
            let (d, r, u, g) =
              each-Purged (λ q. invalidate_cache_for_remove_internal G fuel now q true) left
                (λ b q k. invalidate-Purged fuel left b q k less)
                (or_empty (get_dir_cache G now p (strip p c))) (strip p c)
                (strip-Covered p ks c cov) in
            rw e (closed _ d p c r u)
      ])
