-- ===== src/Transfer/Entries.antt =====
-- What is read from the entries of a status file that tell the truth.
use go_irodsclient.Base.{
  ℕ, ◌+◌, ◌≤◌, ◌≡◌, List, [], ◌∷◌, ◌++◌, ◌==◌, inl, inr, Bool-cases, ==_iff, All,
}
use go_irodsclient.Base.Maps.{lookup, insert, lookup-insert}
use go_irodsclient.Transfer.{StatusEntry, status_from}
use go_irodsclient.Transfer.Progress.{Agrees, Agrees-Better, Better}
use go_irodsclient.Transfer.Delivery.{TruthfulAt}

-- That an entry counts only bytes that are in the file.
abbrev pub EntryOk : ℕ → (ℕ → ℕ) → ℕ → (ℕ → ℕ) → StatusEntry → Type 0
EntryOk size content len file e =
    (e.completed_length ≤ len)
    × Agrees size content e.start_offset (e.start_offset + e.completed_length) file

module _ (size : ℕ) (content : ℕ → ℕ) (len : ℕ) where
  -- The map that is read from truthful entries.
  abbrev pub MapOk : (ℕ → ℕ) → List (ℕ × StatusEntry) → Type 0
  MapOk file m = (key : ℕ) → TruthfulAt size content len key file (lookup key m)

  insert-MapOk :
      (file : ℕ → ℕ) (e : StatusEntry) (m : List (ℕ × StatusEntry))
      → EntryOk size content len file e
      → MapOk file m
      → MapOk file (insert e.start_offset e m)
  insert-MapOk file e m (le, agrees) h key =
      rw (lookup-insert e.start_offset key e m) (elim (Bool-cases (e.start_offset == key)) [
        | inl x ↦
            let f : e.start_offset ≡ key = (==_iff e.start_offset key).0 x in
            simp x (f, le, rw f at agrees)
        | inr x ↦ simp x (h key)
      ])

  pub status_from-MapOk :
      (file : ℕ → ℕ) (es : List StatusEntry) (m : List (ℕ × StatusEntry))
      → All (EntryOk size content len file) es
      → MapOk file m
      → MapOk file (status_from es m)
  unfolding status_from
  status_from-MapOk file [] m hs h = h
  status_from-MapOk file (e ∷ es) m (k, ks) h =
      status_from-MapOk file es (insert e.start_offset e m) ks (insert-MapOk file e m k h)

  pub All-Better :
      (new old : ℕ → ℕ) (es : List StatusEntry)
      → Better size content new old
      → All (EntryOk size content len old) es
      → All (EntryOk size content len new) es
  All-Better new old [] b hs = tt
  All-Better new old (e ∷ es) b ((le, k), ks) = (
    (
      le,
      Agrees-Better size content e.start_offset (e.start_offset + e.completed_length) new old b k,
    ),
    All-Better new old es b ks,
  )

  pub All-snoc :
      (file : ℕ → ℕ) (es : List StatusEntry) (e : StatusEntry)
      → All (EntryOk size content len file) es
      → EntryOk size content len file e
      → All (EntryOk size content len file) (es ++ e ∷ [])
  All-snoc file [] e hs k = (k, tt)
  All-snoc file (x ∷ es) e (h, hs) k = (h, All-snoc file es e hs k)
