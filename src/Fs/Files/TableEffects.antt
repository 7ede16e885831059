-- ===== src/Fs/Files/TableEffects.antt =====
-- The changing requests of the table do what those of a server do.
use go_irodsclient.Base.{
  ℕ, suc, ◌≡◌, ◌≢◌, refl, ap, sym, ◌∙◌, Bool, true, false, not, ◌&&◌, [], ◌∷◌, Option, none, some,
  Bytes, arith, Bool-cases, inl, inr, length,
}
use go_irodsclient.Base.Text.{eq_text, eq_text_iff, eq_text_self}
use go_irodsclient.Base.TextMaps.{find, put, remove_key, find-put, find-remove_key}
use go_irodsclient.Util.Path.{get_irods_path_dirname}
use go_irodsclient.Fs.Cache.{directory_entry, Entry}
use go_irodsclient.Fs.Files.{
  Reply, ok, not_found, already_exist, failed, panic, new_entry_from_collection,
}
use go_irodsclient.Fs.Files.Catalog.{Catalog, Child, Removed, Created, Updated}
use go_irodsclient.Fs.Files.Effects.{Effect, Outcome, IsEffective}
use go_irodsclient.Fs.Files.TableServer.{
  Leaf, dir_leaf, file_leaf, Table, entry_of, view, has_child, delete_found, update_found,
  create_if, is_absent, is_free, copy_found, move_found, table,
}

other_key : (p q : Bytes) → q ≢ p → eq_text p q ≡ false
other_key p q other = elim (Bool-cases (eq_text p q)) [
  | inl e ↦ absurd (other (sym ((eq_text_iff p q).0 e)))
  | inr e ↦ e
]

put-other : (p q : Bytes) (leaf : Leaf) (w : Table) → q ≢ p → view (put p leaf w) q ≡ view w q
put-other p q leaf w other = rw (find-put p q leaf w, other_key p q other) refl

remove-Removed : (p : Bytes) (w : Table) → Removed p (view w) (view (remove_key p w))
remove-Removed p w = record {
  apart = record {
    other = λ q other _. rw (find-remove_key p q w, other_key p q other) refl;
    parent = λ h. elim (Bool-cases (eq_text p (get_irods_path_dirname p))) [
      | inl e ↦ rw (find-remove_key p (get_irods_path_dirname p) w, e) refl
      | inr e ↦ rw (find-remove_key p (get_irods_path_dirname p) w, e) h
    ];
  };
  gone = rw (find-remove_key p p w, eq_text_self p) refl;
}

absent-none : (p : Bytes) (o : Option Leaf) → is_absent o ≡ true → entry_of p o ≡ none
absent-none p none h = refl
absent-none p (some leaf) h = absurd (ground (arith, h))

put-Created :
    (p : Bytes) (leaf : Leaf) (w : Table)
    → is_free p w ≡ true
    → Created p (view w) (view (put p leaf w))
put-Created p leaf w free =
    let up : get_irods_path_dirname p ≢ p =
      λ e. ground (arith, free, (eq_text_iff (get_irods_path_dirname p) p).1 e) in
    record {
      apart = record {
        other = λ q other _. put-other p q leaf w other;
        parent = λ h. put-other p (get_irods_path_dirname p) leaf w up ∙ h;
      };
      absent = absent-none p (find p w) (ground (arith, free));
      child = (refl, λ e. up (sym e));
    }

delete-Outcome :
    (p : Bytes) (w : Table) (o : Option Leaf)
    → let (r, v) = delete_found p w o in Outcome r (Removed p (view w) (view v)) (view w) (view v)
delete-Outcome p w none = refl
delete-Outcome p w (some (dir_leaf id time)) = refl
delete-Outcome p w (some (file_leaf id size time)) = remove-Removed p w

not_deleted :
    (p : Bytes) (w : Table) (o : Option Leaf) (e : Entry)
    → (delete_found p w o).0 ≡ not_found
    → entry_of p o ≡ some e
    → e.kind ≡ directory_entry
unfolding new_entry_from_collection
not_deleted p w none e n h = absurd (ground (arith, h))
not_deleted p w (some (dir_leaf id time)) e n h = ground (arith, h)
not_deleted p w (some (file_leaf id size time)) e n h = absurd (ground (arith, n))

update-Outcome :
    (p : Bytes) (resize : ℕ → ℕ) (w : Table) (o : Option Leaf)
    → find p w ≡ o
    → let (r, v) = update_found p resize w o in
      Outcome r (Updated p (view w) (view v)) (view w) (view v)
update-Outcome p resize w none h = refl
update-Outcome p resize w (some (dir_leaf id time)) h = refl
update-Outcome p resize w (some (file_leaf id size time)) h = record {
  other = λ q other. put-other p q (file_leaf id (resize size) (suc time)) w other;
  was_there = λ e. ground (arith, sym (ap (entry_of p) h) ∙ e);
}

create-Outcome :
    (b : Bool) (p : Bytes) (leaf : Leaf) (w : Table) (P : Type 0)
    → (b ≡ true → P)
    → let (r, v) = create_if b p leaf w in Outcome r P (view w) (view v)
create-Outcome true p leaf w P h = h refl
create-Outcome false p leaf w P h = refl

-- Nothing is under a path of which no key is a child.
no_child :
    (p q : Bytes) (w : Table)
    → has_child p w ≡ false
    → get_irods_path_dirname q ≡ p
    → find q w ≡ none
unfolding find
no_child p q [] h e = refl
no_child p q ((k, leaf) ∷ rest) h e = elim (Bool-cases (eq_text k q)) [
  | inl f ↦
      let g : eq_text (get_irods_path_dirname k) p ≡ true =
        (eq_text_iff (get_irods_path_dirname k) p).1
          (ap get_irods_path_dirname ((eq_text_iff k q).0 f) ∙ e) in
      absurd (ground (arith, g, h))
  | inr f ↦ rw f (no_child p q rest (ground (arith, h)) e)
]

new_empty :
    (p q : Bytes) (leaf : Leaf) (w : Table)
    → has_child p w ≡ false
    → Child p q
    → view (put p leaf w) q ≡ none
new_empty p q leaf w h c = put-other p q leaf w c.1 ∙ ap (entry_of q) (no_child p q w h c.0)

copy-Outcome :
    (dest : Bytes) (w : Table) (o : Option Leaf)
    → let (r, v) = copy_found dest w o in
      Outcome r (Created dest (view w) (view v)) (view w) (view v)
copy-Outcome dest w none = refl
copy-Outcome dest w (some (dir_leaf id time)) = refl
copy-Outcome dest w (some (file_leaf id size time)) =
    let leaf = file_leaf (length w) size (suc time) in
    elim (Bool-cases (is_free dest w)) [
      | inl e ↦ rw e (put-Created dest leaf w e)
      | inr e ↦ rw e refl
    ]

move-Outcome :
    (src dest : Bytes) (w : Table) (o : Option Leaf)
    → let (r, v) = move_found src dest w o in
      Outcome r
        ((between : Catalog) × Removed src (view w) between × Created dest between (view v))
        (view w)
        (view v)
move-Outcome src dest w none = refl
move-Outcome src dest w (some (dir_leaf id time)) = refl
move-Outcome src dest w (some (file_leaf id size time)) =
    let rest = remove_key src w in
    elim (Bool-cases (is_free dest rest)) [
      | inl e ↦
          rw e (view rest, remove-Removed src w, put-Created dest (file_leaf id size time) rest e)
      | inr e ↦ rw e refl
    ]

Outcome-Effect :
    (r : Reply (Unit {0})) (done : Type 0) (at later : Catalog)
    → Outcome r done at later
    → Effect r done
Outcome-Effect (ok _) done at later h = h
Outcome-Effect not_found done at later h = tt
Outcome-Effect already_exist done at later h = tt
Outcome-Effect failed done at later h = tt
Outcome-Effect panic done at later h = tt

pub table-IsEffective : IsEffective table view
table-IsEffective = record {
  deletes = λ p force w.
      let (r, v) = delete_found p w (find p w) in
      Outcome-Effect r (Removed p (view w) (view v)) (view w) (view v)
        (delete-Outcome p w (find p w));
  no_data_object = λ p force w e n h. not_deleted p w (find p w) e n h;
  copies = λ src dest force w absent.
      let (r, v) = copy_found dest w (find src w) in
      Outcome-Effect r (Created dest (view w) (view v)) (view w) (view v)
        (copy-Outcome dest w (find src w));
  moves = λ src dest w.
      let (r, v) = move_found src dest w (find src w) in
      Outcome-Effect r
        ((between : Catalog) × Removed src (view w) between × Created dest between (view v))
        (view w) (view v) (move-Outcome src dest w (find src w));
  truncates = λ p size w.
      let (r, v) = update_found p (λ _. size) w (find p w) in
      Outcome-Effect r (Updated p (view w) (view v)) (view w) (view v)
        (update-Outcome p (λ _. size) w (find p w) refl);
  replicates = λ p resource update w.
      let (r, v) = update_found p (λ size. size) w (find p w) in
      Outcome-Effect r (Updated p (view w) (view v)) (view w) (view v)
        (update-Outcome p (λ size. size) w (find p w) refl);
  makes = λ p w.
      let leaf = dir_leaf (length w) 0 in
      elim (Bool-cases (is_free p w && not (has_child p w))) [
        | inl e ↦ rw e (
          put-Created p leaf w (ground (arith, e)),
          λ q c. new_empty p q leaf w (ground (arith, e)) c,
        )
        | inr e ↦ rw e tt
      ];
}
