-- ===== src/Fs/Files/Creations.antt =====
-- How agreement with one catalog becomes agreement with another, when a path was created or updated.
use go_irodsclient.Base.{
  ◌≡◌, ◌≢◌, refl, ◌∙◌, Bool, true, false, List, [], ◌∷◌, ◌++◌, none, some, Bytes, if◌then◌else◌,
  arith, Bool-cases, inl, inr,
}
use go_irodsclient.Base.Text.{eq_text, eq_text_iff}
use go_irodsclient.Base.TextMaps.{has_text}
use go_irodsclient.Util.Path.{get_irods_path_dirname}
use go_irodsclient.Fs.Cache.{Entry}
use go_irodsclient.Fs.Cache.Changes.{created}
use go_irodsclient.Fs.Cache.Seen.{Seen, is_under}
use go_irodsclient.Fs.Files.Catalog.{Catalog, Child, CoherentAt, Created, Updated}
use go_irodsclient.Fs.Files.Moves.{
  differ, mapped, has_text-snoc, stays_absent, Apart-entry, had_listed,
}

module _ (p q : Bytes) (at later : Catalog) (s : Seen) (h : CoherentAt at q s) where
  -- Nothing is cached of a path that was not there.
  none_cached : (e : Entry) → at p ≡ none → s.entry ≡ some e → eq_text p q ≡ false
  none_cached e absent k = elim (Bool-cases (eq_text p q)) [
    | inl f ↦
        let here : at p ≡ some e = rw ((eq_text_iff p q).0 f) (h.entry e k) in
        absurd (ground (arith, here, absent))
    | inr f ↦ f
  ]

  created_entry :
      (under : Bool) (e : Entry)
      → Created p at later
      → s.immediate ≡ true
      → (created under p q s).entry ≡ some e
      → later q ≡ some e
  created_entry under e m now k = elim (Bool-cases (eq_text (get_irods_path_dirname p) q)) [
    | inl f ↦ absurd (ground (arith, f, now, k))
    | inr f ↦ elim (Bool-cases (is_under under (get_irods_path_dirname p) q)) [
      | inl g ↦ absurd (ground (arith, f, g, now, k))
      | inr g ↦
          let was : s.entry ≡ some e = ground (arith, f, g, k) in
          Apart-entry p q at later s h e m.apart (none_cached e m.absent was) f was
    ]
  ]

  created_negative :
      (under : Bool) → Created p at later → (created under p q s).negative ≡ true → later q ≡ none
  created_negative under m k = elim (Bool-cases (eq_text p q)) [
    | inl f ↦ absurd (ground (arith, f, k))
    | inr f ↦ stays_absent p at later m.apart q (differ p q f) (h.negative (ground (arith, f, k)))
  ]

  created_complete :
      (under : Bool) (ps : List Bytes)
      → Created p at later
      → (created under p q s).dir ≡ some ps
      → (r : Bytes) → Child q r
      → later r ≢ none
      → has_text r ps ≡ true
  created_complete under ps m e r c there =
      elim (Bool-cases (eq_text (get_irods_path_dirname p) q)) [
        | inl f ↦
            let (qs, was, now) = mapped (λ ps. ps ++ p ∷ []) s.dir ps (ground (arith, f, e)) in
            rw (← now, has_text-snoc p r qs)
              (elim (Bool-cases (eq_text p r)) [
                | inl g ↦ rw g (ground arith)
                | inr g ↦
                    rw (had_listed p q at later s h qs m.apart was r c (differ p r g) there) refl
              ])
        | inr f ↦ elim (Bool-cases (eq_text p r)) [
          | inl g ↦
              let up : get_irods_path_dirname p ≡ q = rw ((eq_text_iff p r).0 g) c.0 in
              absurd (ground (arith, f, (eq_text_iff (get_irods_path_dirname p) q).1 up))
          | inr g ↦
              had_listed p q at later s h ps m.apart (ground (arith, f, e)) r c (differ p r g) there
        ]
      ]

  created_placed :
      (under : Bool) (ps : List Bytes)
      → Created p at later
      → (created under p q s).dir ≡ some ps
      → (r : Bytes) → has_text r ps ≡ true
      → Child q r
  created_placed under ps m e r k = elim (Bool-cases (eq_text (get_irods_path_dirname p) q)) [
    | inl f ↦
        let up = (eq_text_iff (get_irods_path_dirname p) q).0 f in
        let (qs, was, now) = mapped (λ ps. ps ++ p ∷ []) s.dir ps (ground (arith, f, e)) in
        let listed : has_text r (qs ++ p ∷ []) ≡ true = rw now k in
        elim (Bool-cases (eq_text p r)) [
          | inl g ↦ rw (← (eq_text_iff p r).0 g, ← up) m.child
          | inr g ↦ h.placed qs was r (ground (arith, has_text-snoc p r qs, listed, g))
        ]
    | inr f ↦ h.placed ps (ground (arith, f, e)) r k
  ]

  pub created-CoherentAt :
      (under : Bool)
      → Created p at later
      → s.immediate ≡ true
      → CoherentAt later q (created under p q s)
  created-CoherentAt under m now = record {
    entry = λ e k. created_entry under e m now k;
    negative = λ k. created_negative under m k;
    complete = λ ps e r c there. created_complete under ps m e r c there;
    placed = λ ps e r k. created_placed under ps m e r k;
  }

  -- What an update of the path at `p` makes of the answers.
  abbrev pub updated : Seen
  updated = record s {
    entry = if eq_text p q then none else s.entry;
    negative = if eq_text p q then false else s.negative;
  }

  Updated-there : Updated p at later → (r : Bytes) → later r ≢ none → at r ≢ none
  Updated-there m r there e = elim (Bool-cases (eq_text p r)) [
    | inl f ↦ m.was_there (rw ((eq_text_iff p r).0 f) e)
    | inr f ↦ there (m.other r (differ p r f) ∙ e)
  ]

  pub updated-CoherentAt : Updated p at later → CoherentAt later q updated
  updated-CoherentAt m = record {
    entry = λ e k. elim (Bool-cases (eq_text p q)) [
      | inl f ↦ absurd (ground (arith, f, k))
      | inr f ↦ m.other q (differ p q f) ∙ h.entry e (ground (arith, f, k))
    ];
    negative = λ k. elim (Bool-cases (eq_text p q)) [
      | inl f ↦ absurd (ground (arith, f, k))
      | inr f ↦ m.other q (differ p q f) ∙ h.negative (ground (arith, f, k))
    ];
    complete = λ ps e r c there. h.complete ps e r c (Updated-there m r there);
    placed = h.placed;
  }
