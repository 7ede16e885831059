-- ===== src/Transfer/Ending.antt =====
-- A task that meets no errors ends.
use go_irodsclient.Base.{
  ℕ, zero, suc, ◌+◌, ◌-◌, ◌≤◌, ◌<◌, ◌≡◌, refl, ap, ◌∙◌, true, false, ◌∷◌, ltb, ◌==◌, ◌⊎◌, inl, inr,
  if◌then◌else◌, arith, Bool-cases, replicate,
}
use go_irodsclient.Transfer.{
  opening, copying, done, Task, Download, Event, opens, reads, asked, received, after_read,
  next_round, advance, task_step, step, run,
}

module _ (buffer_size : ℕ) (size : ℕ) (content : ℕ → ℕ) where
  abbrev read_one : Task → Task
  read_one t = task_step buffer_size size content (reads false false) t.phase t

  abbrev read_all : ℕ → Task → Task
  read_all zero t = t
  read_all (suc k) t = read_all k (read_one t)

  -- A task is done, or copying with less than so much left.
  abbrev Near : ℕ → Task → Type 0
  Near k t =
      (t.phase ≡ done) ⊎ ((position : ℕ) × (t.phase ≡ copying position) × (t.task_remain < k))

  next_round-Near : (position k : ℕ) (t : Task) → t.task_remain < k → Near k (next_round position t)
  next_round-Near position k t lt = elim (Bool-cases (ltb 0 t.task_remain)) [
    | inl e ↦ simp e (inr (position, refl, lt))
    | inr e ↦ simp e (inl refl)
  ]

  -- A read that is not the last makes the rest shorter.
  after_read-Near :
      (position : ℕ) (t : Task)
      → 0 < buffer_size
      → let n = received buffer_size size content position t in
        Near
          (if ltb 0 t.task_remain then t.task_remain else 1)
          (after_read buffer_size size content position false false n t)
  after_read-Near position t pos =
      let n = received buffer_size size content position t in
      elim (Bool-cases (ltb n (asked buffer_size size content t))) [
        | inl e ↦ rw e (inl refl)
        | inr e ↦ rw e (
            next_round-Near (position + n) (if ltb 0 t.task_remain then t.task_remain else 1)
              (advance buffer_size size content n t) (ground (arith, e, pos)))
      ]

  Near-le : (m n : ℕ) (t : Task) → m ≤ n → Near m t → Near n t
  Near-le m n t le (inl e) = inl e
  Near-le m n t le (inr (position, e, lt)) = inr (position, e, omega arith)

  reads_at :
      (position : ℕ) (t : Task)
      → t.phase ≡ copying position
      → read_one t
        ≡ after_read buffer_size size content position false false
            (received buffer_size size content position t)
            t
  unfolding task_step
  reads_at position t e = ap (λ p. task_step buffer_size size content (reads false false) p t) e

  reads_done : (t : Task) → t.phase ≡ done → read_one t ≡ t
  unfolding task_step
  reads_done t e = ap (λ p. task_step buffer_size size content (reads false false) p t) e

  read_one-Near :
      (k : ℕ) (t : Task) → 0 < buffer_size → Near (suc (suc k)) t → Near (suc k) (read_one t)
  read_one-Near k t pos (inl e) = rw (reads_done t e) (inl e)
  read_one-Near k t pos (inr (position, e, lt)) = rw (reads_at position t e) (
      Near-le (if ltb 0 t.task_remain then t.task_remain else 1) (suc k)
        (after_read buffer_size size content position false false
          (received buffer_size size content position t) t)
        (ground arith) (after_read-Near position t pos))

  -- With at most one byte fewer left than reads come, the task ends.
  read_last : (t : Task) → 0 < buffer_size → Near 1 t → (read_one t).phase ≡ done
  read_last t pos (inl e) = ap (λ u. u.phase) (reads_done t e) ∙ e
  read_last t pos (inr (position, e, lt)) =
      let n = received buffer_size size content position t in
      let nothing_left : ltb 0 (t.task_remain - n) ≡ false = ground (arith, lt) in
      rw (reads_at position t e) (elim (Bool-cases (ltb n (asked buffer_size size content t))) [
        | inl f ↦ rw f refl
        | inr f ↦ rw (f, nothing_left) refl
      ])

  read_all_done :
      (k : ℕ) (t : Task) → 0 < buffer_size → Near (suc k) t → (read_all (suc k) t).phase ≡ done
  read_all_done zero t pos h = read_last t pos h
  read_all_done (suc k) t pos h = read_all_done k (read_one t) pos (read_one-Near k t pos h)

  step_self :
      (i : ℕ) (event : Event) (d : Download)
      → (step buffer_size size content i event d).tasks i
        ≡ task_step buffer_size size content event (d.tasks i).phase (d.tasks i)
  unfolding step
  step_self i event d = let e : (i == i) ≡ true = ground arith in rw e refl

  run-reads :
      (k i : ℕ) (d : Download)
      → (run buffer_size size content (replicate k (i, reads false false)) d).tasks i
        ≡ read_all k (d.tasks i)
  unfolding run
  run-reads zero i d = refl
  run-reads (suc k) i d =
      run-reads k i (step buffer_size size content i (reads false false) d)
      ∙ ap (read_all k) (step_self i (reads false false) d)

  opens_at :
      (t : Task)
      → t.phase ≡ opening
      → task_step buffer_size size content opens t.phase t
        ≡ next_round (if ltb 0 t.last_offset then t.last_offset else 0) t
  unfolding task_step
  opens_at t e = ap (λ p. task_step buffer_size size content opens p t) e

  -- A task that is about to open the data object, opens it and then reads without errors, into a buffer that is not
  -- empty, once for each byte that is left and once more, is done, wherever the other tasks are.
  pub opens_reads-done :
      (i : ℕ) (d : Download)
      → 0 < buffer_size
      → (d.tasks i).phase ≡ opening
      → ((run buffer_size size content
            ((i, opens) ∷ replicate (suc (d.tasks i).task_remain) (i, reads false false))
            d).tasks
          i).phase
        ≡ done
  unfolding run
  opens_reads-done i d pos e =
      let t = d.tasks i in
      let from = if ltb 0 t.last_offset then t.last_offset else 0 in
      let opened = step_self i opens d ∙ opens_at t e in
      ap (λ u. u.phase)
        (run-reads (suc t.task_remain) i (step buffer_size size content i opens d)
          ∙ ap (read_all (suc t.task_remain)) opened)
      ∙ read_all_done t.task_remain (next_round from t) pos
          (next_round-Near from (suc t.task_remain) t (omega arith))
