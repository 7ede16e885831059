-- ===== src/Transfer/Progress.antt =====
-- What every step of a download keeps: a task stands where it says, and the bytes that it counts are in the file.
use go_irodsclient.Base.{
  ℕ, ◌+◌, ◌-◌, ◌≤◌, ◌<◌, ◌≡◌, refl, ◌∙◌, ◌&&◌, ltb, leb, ◌⊎◌, inl, inr, arith, Bool-cases,
}
use go_irodsclient.Transfer.{Phase, opening, copying, done, failed, Task, write_at}

module _ (size : ℕ) (content : ℕ → ℕ) where
  -- From an offset up to another, the file has the bytes of the data object, as far as that goes.
  abbrev pub Agrees : ℕ → ℕ → (ℕ → ℕ) → Type 0
  Agrees from to file = (i : ℕ) → from ≤ i → i < to → i < size → file i ≡ content i

  -- What a phase asks for: copying is at the last offset, and a task ends with nothing left, or at the end.
  abbrev pub At : Phase → Task → Type 0
  At opening t = Unit
  At (copying position) t = position ≡ t.last_offset
  At done t = (t.task_remain ≡ 0) ⊎ (size ≤ t.last_offset)
  At failed t = Unit

  pub record Counted (file : ℕ → ℕ) (t : Task) : Type 0 where
    pub bounded : t.task_remain ≤ t.task_length
    pub position : t.last_offset + t.task_remain ≡ t.task_offset + t.task_length
    pub agrees : Agrees t.task_offset t.last_offset file

  abbrev pub TaskOk : (ℕ → ℕ) → Task → Type 0
  TaskOk file t = Counted file t × At t.phase t

  -- A file that differs from another only where it has the right bytes.
  abbrev pub Better : (ℕ → ℕ) → (ℕ → ℕ) → Type 0
  Better new old = (i : ℕ) → (new i ≡ old i) ⊎ (new i ≡ content i)

  pub Agrees-Better :
      (from to : ℕ) (new old : ℕ → ℕ) → Better new old → Agrees from to old → Agrees from to new
  Agrees-Better from to new old b h i x y z = elim (b i) [ inl e ↦ e ∙ h i x y z | inr e ↦ e ]

  pub Counted-Better : (new old : ℕ → ℕ) (t : Task) → Better new old → Counted old t → Counted new t
  Counted-Better new old t b h = record {
    bounded = h.bounded;
    position = h.position;
    agrees = Agrees-Better t.task_offset t.last_offset new old b h.agrees;
  }

  -- Writing at the position that was read.
  pub write_at-Better :
      (position count : ℕ) (file : ℕ → ℕ)
      → Better (write_at position count (λ i. content (position + i)) file) file
  write_at-Better position count file i =
      elim (Bool-cases (leb position i && ltb i (position + count))) [
        | inl e ↦ let f : position + (i - position) ≡ i = ground (arith, e) in inr (rw (e, f) refl)
        | inr e ↦ inl (rw e refl)
      ]

  pub write_at-Agrees :
      (from position count : ℕ) (file : ℕ → ℕ)
      → Agrees from position file
      → Agrees from (position + count) (write_at position count (λ i. content (position + i)) file)
  write_at-Agrees from position count file h i x y z =
      elim (Bool-cases (leb position i && ltb i (position + count))) [
        | inl e ↦ let f : position + (i - position) ≡ i = ground (arith, e) in rw (e, f) refl
        | inr e ↦ rw e (h i x (ground (arith, e, y)) z)
      ]
