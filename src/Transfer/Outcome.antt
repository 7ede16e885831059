-- ===== src/Transfer/Outcome.antt =====
-- What every step of a download keeps, and what is in the file when the tasks are done.
use go_irodsclient.Base.{
  ℕ, ◌+◌, ◌≤◌, ◌≡◌, refl, ap, ◌∙◌, sym, Bool, true, false, ltb, inl, inr, if◌then◌else◌, arith,
  Bool-cases,
}
use go_irodsclient.Transfer.{
  Phase, opening, copying, done, failed, Task, Download, Event, opens, open_error, reads,
  read_error, write_error, smaller, write_at, after_error, next_round, asked, received, advance,
  after_read, write_position, task_step, file_step,
}
use go_irodsclient.Transfer.Progress.{
  Agrees, At, Counted, TaskOk, Better, Counted-Better, write_at-Better, write_at-Agrees,
}

module _ (buffer_size : ℕ) (size : ℕ) (content : ℕ → ℕ) where
  Counted-phase :
      (file : ℕ → ℕ) (p : Phase) (t : Task)
      → Counted size content file t
      → Counted size content file (record t { phase = p })
  Counted-phase file p t h = record {
    bounded = h.bounded;
    position = h.position;
    agrees = h.agrees;
  }

  after_error-TaskOk :
      (file : ℕ → ℕ) (retry : Bool) (t : Task)
      → Counted size content file t
      → TaskOk size content file (after_error retry t)
  after_error-TaskOk file true t h = (Counted-phase file opening t h, tt)
  after_error-TaskOk file false t h = (Counted-phase file failed t h, tt)

  next_round-TaskOk :
      (file : ℕ → ℕ) (position : ℕ) (t : Task)
      → Counted size content file t
      → position ≡ t.last_offset
      → TaskOk size content file (next_round position t)
  next_round-TaskOk file position t h e = elim (Bool-cases (ltb 0 t.task_remain)) [
    | inl f ↦ simp f (Counted-phase file (copying position) t h, e)
    | inr f ↦ simp f (Counted-phase file done t h, inl (ground (arith, f)))
  ]

  -- How far a read goes.
  received-remain :
      (position : ℕ) (t : Task) → received buffer_size size content position t ≤ t.task_remain
  received-remain position t = ground arith

  short_read :
      (position : ℕ) (t : Task)
      → ltb (received buffer_size size content position t) (asked buffer_size size content t) ≡ true
      → size ≤ position + received buffer_size size content position t
  short_read position t h = ground (arith, h)

  write_position-last :
      (file : ℕ → ℕ) (t : Task)
      → Counted size content file t
      → write_position buffer_size size content t ≡ t.last_offset
  write_position-last file t h = omega (arith, h.bounded, h.position)

  advance-Counted :
      (file new : ℕ → ℕ) (n : ℕ) (t : Task)
      → Counted size content file t
      → n ≤ t.task_remain
      → Agrees size content t.task_offset (t.last_offset + n) new
      → Counted size content new (advance buffer_size size content n t)
  advance-Counted file new n t h le agrees = record {
    bounded = omega (arith, h.bounded);
    position = omega (arith, h.position);
    agrees = agrees;
  }

  after_read-TaskOk :
      (new : ℕ → ℕ) (others retry : Bool) (position : ℕ) (t : Task)
      → position ≡ t.last_offset
      → let n = received buffer_size size content position t in
        Counted size content new (advance buffer_size size content n t)
        → TaskOk size content new (after_read buffer_size size content position others retry n t)
  after_read-TaskOk new others retry position t e h =
      let n = received buffer_size size content position t in
      let u = advance buffer_size size content n t in
      elim (Bool-cases (ltb n (asked buffer_size size content t))) [
        | inl f ↦ rw f (Counted-phase new done u h, inr (rw (← e) (short_read position t f)))
        | inr f ↦ elim (Bool-cases others) [
          | inl g ↦ rw (f, g) (after_error-TaskOk new retry u h)
          | inr g ↦ rw (f, g) (next_round-TaskOk new (position + n) u h (ap (λ p. p + n) e))
        ]
      ]

  -- That a file got better and the task on it is as it should be.
  abbrev pub Stepped : (ℕ → ℕ) → (ℕ → ℕ) → Task → Type 0
  Stepped old new t = Better size content new old × TaskOk size content new t

  unchanged : (file : ℕ → ℕ) (t : Task) → TaskOk size content file t → Stepped file file t
  unchanged file t h = ((λ i. inl refl), h)

  opens_lem :
      (file : ℕ → ℕ) (t : Task)
      → Counted size content file t
      → Stepped file file (next_round (if ltb 0 t.last_offset then t.last_offset else 0) t)
  opens_lem file t h =
      unchanged file (next_round (if ltb 0 t.last_offset then t.last_offset else 0) t) (
        next_round-TaskOk file (if ltb 0 t.last_offset then t.last_offset else 0) t h
          (ground arith))

  reads_lem :
      (others retry : Bool) (position : ℕ) (t : Task) (file : ℕ → ℕ)
      → Counted size content file t
      → position ≡ t.last_offset
      → let n = received buffer_size size content position t in
        Stepped file
          (write_at
            (write_position buffer_size size content t)
            n
            (λ i. content (position + i))
            file)
          (after_read buffer_size size content position others retry n t)
  reads_lem others retry position t file h e =
      let n = received buffer_size size content position t in
      let new = write_at position n (λ i. content (position + i)) file in
      let f : write_position buffer_size size content t ≡ position =
        write_position-last file t h ∙ sym e in
      rw f (
        write_at-Better size content position n file,
        after_read-TaskOk new others retry position t e (
            advance-Counted file new n t h (received-remain position t) (
              rw (← e)
                (write_at-Agrees size content t.task_offset position n file (rw e h.agrees)))),
      )

  write_error_lem :
      (count : ℕ) (retry : Bool) (position : ℕ) (t : Task) (file : ℕ → ℕ)
      → Counted size content file t
      → position ≡ t.last_offset
      → Stepped file
          (write_at
            (write_position buffer_size size content t)
            (smaller count (received buffer_size size content position t))
            (λ i. content (position + i))
            file)
          (after_error retry t)
  write_error_lem count retry position t file h e =
      let n = smaller count (received buffer_size size content position t) in
      let new = write_at position n (λ i. content (position + i)) file in
      let f : write_position buffer_size size content t ≡ position =
        write_position-last file t h ∙ sym e in
      let b = write_at-Better size content position n file in
      rw f (b, after_error-TaskOk new retry t (Counted-Better size content new file t b h))

  pub task_step-Stepped :
      (event : Event) (p : Phase) (t : Task) (file : ℕ → ℕ)
      → TaskOk size content file t
      → At size content p t
      → Stepped file
          (file_step buffer_size size content event p t file)
          (task_step buffer_size size content event p t)
  unfolding task_step file_step
  task_step-Stepped opens opening t file (h, k) a = opens_lem file t h
  task_step-Stepped opens (copying position) t file h a = unchanged file t h
  task_step-Stepped opens done t file h a = unchanged file t h
  task_step-Stepped opens failed t file h a = unchanged file t h
  task_step-Stepped (open_error r) opening t file (h, k) a =
      unchanged file (after_error r t) (after_error-TaskOk file r t h)
  task_step-Stepped (open_error r) (copying position) t file h a = unchanged file t h
  task_step-Stepped (open_error r) done t file h a = unchanged file t h
  task_step-Stepped (open_error r) failed t file h a = unchanged file t h
  task_step-Stepped (reads o r) (copying position) t file (h, k) a =
      reads_lem o r position t file h a
  task_step-Stepped (reads o r) opening t file h a = unchanged file t h
  task_step-Stepped (reads o r) done t file h a = unchanged file t h
  task_step-Stepped (reads o r) failed t file h a = unchanged file t h
  task_step-Stepped (read_error r) (copying position) t file (h, k) a =
      unchanged file (after_error r t) (after_error-TaskOk file r t h)
  task_step-Stepped (read_error r) opening t file h a = unchanged file t h
  task_step-Stepped (read_error r) done t file h a = unchanged file t h
  task_step-Stepped (read_error r) failed t file h a = unchanged file t h
  task_step-Stepped (write_error c r) (copying position) t file (h, k) a =
      write_error_lem c r position t file h a
  task_step-Stepped (write_error c r) opening t file h a = unchanged file t h
  task_step-Stepped (write_error c r) done t file h a = unchanged file t h
  task_step-Stepped (write_error c r) failed t file h a = unchanged file t h

  -- All tasks are as they should be.
  abbrev pub AllOk : Download → Type 0
  AllOk d = (i : ℕ) → TaskOk size content d.file (d.tasks i)
