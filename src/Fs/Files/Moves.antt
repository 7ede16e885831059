-- ===== src/Fs/Files/Moves.antt =====
-- How agreement with one catalog becomes agreement with another, when a path was removed.
use go_irodsclient.Base.{
  ◌≡◌, ◌≢◌, refl, sym, ◌∙◌, true, false, ◌||◌, List, [], ◌∷◌, ◌++◌, Option, none, some, Bytes,
  arith, Bool-cases, inl, inr,
}
use go_irodsclient.Base.Text.{eq_text, eq_text_iff}
use go_irodsclient.Base.TextMaps.{has_text, without_text, has_text-without_text}
use go_irodsclient.Util.Path.{get_irods_path_dirname}
use go_irodsclient.Fs.Cache.{Entry}
use go_irodsclient.Fs.Cache.Changes.{file_removed}
use go_irodsclient.Fs.Cache.Seen.{Seen, map_some}
use go_irodsclient.Fs.Files.Catalog.{Catalog, Child, CoherentAt, Apart, Removed}

pub differ : (p q : Bytes) → eq_text p q ≡ false → q ≢ p
differ p q f e = absurd (ground (arith, f, (eq_text_iff p q).1 (sym e)))

pub mapped :
    (change : List Bytes → List Bytes) (o : Option (List Bytes)) (ps : List Bytes)
    → map_some change o ≡ some ps
    → (qs : List Bytes) × (o ≡ some qs) × (change qs ≡ ps)
mapped change none ps e = absurd (ground (arith, e))
mapped change (some qs) ps e = (qs, refl, (ground (arith, e)))

pub has_text-snoc :
    (p r : Bytes) (ps : List Bytes) → has_text r (ps ++ p ∷ []) ≡ has_text r ps || eq_text p r
unfolding has_text
has_text-snoc p r [] = ground arith
has_text-snoc p r (x ∷ ps) = rw (has_text-snoc p r ps) (ground arith)

module _ (p : Bytes) (at later : Catalog) (apart : Apart p at later) where
  pub stays_absent : (q : Bytes) → q ≢ p → at q ≡ none → later q ≡ none
  stays_absent q other e = elim (Bool-cases (eq_text (get_irods_path_dirname p) q)) [
    | inl f ↦
        let up = (eq_text_iff (get_irods_path_dirname p) q).0 f in
        rw (← up) (apart.parent (rw up e))
    | inr f ↦ apart.other q other (differ (get_irods_path_dirname p) q f) ∙ e
  ]

  pub was_there : (q : Bytes) → q ≢ p → later q ≢ none → at q ≢ none
  was_there q other there e = there (stays_absent q other e)

module _ (p q : Bytes) (at later : Catalog) (s : Seen) (h : CoherentAt at q s) where
  -- A cached entry that is neither of the path nor of its parent.
  pub Apart-entry :
      (e : Entry)
      → Apart p at later
      → eq_text p q ≡ false
      → eq_text (get_irods_path_dirname p) q ≡ false
      → s.entry ≡ some e
      → later q ≡ some e
  Apart-entry e apart f g k =
      apart.other q (differ p q f) (differ (get_irods_path_dirname p) q g) ∙ h.entry e k

  Removed-entry :
      (e : Entry)
      → Removed p at later
      → s.immediate ≡ true
      → (file_removed p q s).entry ≡ some e
      → later q ≡ some e
  Removed-entry e r now k = elim (Bool-cases (eq_text p q)) [
    | inl f ↦ absurd (ground (arith, f, k))
    | inr f ↦ elim (Bool-cases (eq_text (get_irods_path_dirname p) q)) [
      | inl g ↦ absurd (ground (arith, f, g, now, k))
      | inr g ↦ Apart-entry e r.apart f g (ground (arith, f, g, k))
    ]
  ]

  Removed-negative : Removed p at later → (file_removed p q s).negative ≡ true → later q ≡ none
  Removed-negative r k = elim (Bool-cases (eq_text p q)) [
    | inl f ↦ rw (← (eq_text_iff p q).0 f) r.gone
    | inr f ↦ stays_absent p at later r.apart q (differ p q f) (h.negative (ground (arith, f, k)))
  ]

  -- The listing before: with a path of the new catalog it had that path already.
  pub had_listed :
      (ps : List Bytes)
      → Apart p at later
      → s.dir ≡ some ps
      → (r : Bytes) → Child q r
      → r ≢ p
      → later r ≢ none
      → has_text r ps ≡ true
  had_listed ps apart e r c other there =
      h.complete ps e r c (was_there p at later apart r other there)

  not_gone : (r : Bytes) → Removed p at later → later r ≢ none → r ≢ p
  not_gone r m there e = there (rw e m.gone)

  Removed-complete :
      (ps : List Bytes)
      → Removed p at later
      → (file_removed p q s).dir ≡ some ps
      → (r : Bytes) → Child q r
      → later r ≢ none
      → has_text r ps ≡ true
  Removed-complete ps m e r c there =
      let other = not_gone r m there in
      elim (Bool-cases (eq_text (get_irods_path_dirname p) q)) [
        | inl f ↦
            let (qs, was, now) = mapped (without_text p) s.dir ps (ground (arith, f, e)) in
            let kept = had_listed qs m.apart was r c other there in
            let apart : eq_text p r ≡ false = elim (Bool-cases (eq_text p r)) [
              | inl g ↦ absurd (other (sym ((eq_text_iff p r).0 g)))
              | inr g ↦ g
            ] in
            rw (← now, has_text-without_text p r qs, apart) kept
        | inr f ↦ had_listed ps m.apart (ground (arith, f, e)) r c other there
      ]

  removed_placed :
      (ps : List Bytes)
      → (file_removed p q s).dir ≡ some ps
      → (r : Bytes) → has_text r ps ≡ true
      → Child q r
  removed_placed ps e r k = elim (Bool-cases (eq_text (get_irods_path_dirname p) q)) [
    | inl f ↦
        let (qs, was, now) = mapped (without_text p) s.dir ps (ground (arith, f, e)) in
        let listed : has_text r (without_text p qs) ≡ true = rw now k in
        h.placed qs was r (ground (arith, has_text-without_text p r qs, listed))
    | inr f ↦ h.placed ps (ground (arith, f, e)) r k
  ]

  pub Removed-CoherentAt :
      Removed p at later → s.immediate ≡ true → CoherentAt later q (file_removed p q s)
  Removed-CoherentAt m now = record {
    entry = λ e k. Removed-entry e m now k;
    negative = λ k. Removed-negative m k;
    complete = λ ps e r c there. Removed-complete ps m e r c there;
    placed = λ ps e r k. removed_placed ps e r k;
  }
