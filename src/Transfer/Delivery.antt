-- ===== src/Transfer/Delivery.antt =====
-- The whole download: any order of the tasks' events, and what was left of an earlier transfer.
use go_irodsclient.Base.{
  ℕ, ◌+◌, ◌≤◌, ◌<◌, ◌≡◌, refl, ◌∙◌, List, [], ◌∷◌, Option, none, some, ◌==◌, inl, inr, arith,
  Bool-cases, ==_iff,
}
use go_irodsclient.Base.Maps.{lookup}
use go_irodsclient.Transfer.{
  Phase, done, Task, Download, Event, opens, open_error, reads, read_error, write_error, task_step,
  file_step, step, run, start, new_task, StatusEntry, TransferStatus, offset_of, length_per_thread,
  find_last,
}
use go_irodsclient.Transfer.Partition.{parts_suffice, part_of}
use go_irodsclient.Transfer.Progress.{Agrees, TaskOk, Counted-Better}
use go_irodsclient.Transfer.Outcome.{task_step-Stepped, AllOk}

-- That an entry tells the truth of a file about the task at an offset: the bytes that it counts are there.
abbrev pub TruthfulAt : ℕ → (ℕ → ℕ) → ℕ → ℕ → (ℕ → ℕ) → Option StatusEntry → Type 0
TruthfulAt size content len offset file none = Unit
TruthfulAt size content len offset file (some e) =
    (e.start_offset ≡ offset)
    × (e.completed_length ≤ len)
    × Agrees size content offset (offset + e.completed_length) file

abbrev pub Truthful : ℕ → (ℕ → ℕ) → ℕ → TransferStatus → (ℕ → ℕ) → Type 0
Truthful size content len status file =
    (i : ℕ)
    → TruthfulAt size content len (offset_of len i) file
        (lookup (offset_of len i) status.status_map)

module _ (buffer_size : ℕ) (size : ℕ) (content : ℕ → ℕ) where
  pub step-AllOk :
      (i : ℕ) (event : Event) (d : Download)
      → AllOk buffer_size size content d
      → AllOk buffer_size size content (step buffer_size size content i event d)
  unfolding step
  step-AllOk i event d h j =
      let t = d.tasks i in
      let (better, ok) =
        task_step-Stepped buffer_size size content event t.phase t d.file (h i) (h i).1 in
      elim (Bool-cases (j == i)) [
        | inl e ↦ rw e ok
        | inr e ↦ rw e (
          Counted-Better size content (file_step buffer_size size content event t.phase t d.file)
              d.file (d.tasks j) better (h j).0,
          (h j).1,
        )
      ]

  pub run-AllOk :
      (events : List (ℕ × Event)) (d : Download)
      → AllOk buffer_size size content d
      → AllOk buffer_size size content (run buffer_size size content events d)
  unfolding run
  run-AllOk [] d h = h
  run-AllOk ((i, event) ∷ events) d h =
      run-AllOk events (step buffer_size size content i event d) (step-AllOk i event d h)

  -- The start.
  found :
      (len offset : ℕ) (file : ℕ → ℕ) (o : Option StatusEntry)
      → TruthfulAt size content len offset file o
      → (offset ≤ find_last offset o)
        × (find_last offset o ≤ offset + len)
        × Agrees size content offset (find_last offset o) file
  found len offset file none h = (omega arith, omega arith, (λ i x y z. absurd (omega arith)))
  found len offset file (some e) (a, b, c) = (omega arith, omega arith, rw a c)

  new_task-TaskOk :
      (len offset : ℕ) (status : TransferStatus) (file : ℕ → ℕ)
      → TruthfulAt size content len offset file (lookup offset status.status_map)
      → TaskOk size content file (new_task offset len status)
  unfolding new_task
  new_task-TaskOk len offset status file h =
      let (a, b, c) = found len offset file (lookup offset status.status_map) h in
      (record { bounded = omega arith; position = omega (arith, a, b); agrees = c }, tt)

  pub start-AllOk :
      (num_tasks : ℕ) (status : TransferStatus) (file : ℕ → ℕ)
      → Truthful size content (length_per_thread size num_tasks) status file
      → AllOk buffer_size size content (start buffer_size size content num_tasks status file)
  unfolding start
  start-AllOk num_tasks status file h i =
      let len = length_per_thread size num_tasks in
      new_task-TaskOk len (offset_of len i) status file (h i)

  -- Tasks stay at their place.
  task_step-place :
      (event : Event) (p : Phase) (t : Task)
      → let u = task_step buffer_size size content event p t in
        (u.task_offset ≡ t.task_offset) × (u.task_length ≡ t.task_length)
  unfolding task_step
  task_step-place opens p t = ground arith
  task_step-place (open_error r) p t = ground arith
  task_step-place (reads o r) p t = ground arith
  task_step-place (read_error r) p t = ground arith
  task_step-place (write_error c r) p t = ground arith

  pub step-place :
      (j : ℕ) (event : Event) (d : Download) (i : ℕ)
      → let u = (step buffer_size size content j event d).tasks i in
        (u.task_offset ≡ (d.tasks i).task_offset) × (u.task_length ≡ (d.tasks i).task_length)
  unfolding step
  step-place j event d i = elim (Bool-cases (i == j)) [
    | inl e ↦ rw (e, (==_iff i j).0 e) (task_step-place event (d.tasks j).phase (d.tasks j))
    | inr e ↦ rw e (refl, refl)
  ]

  pub run-place :
      (events : List (ℕ × Event)) (d : Download) (i : ℕ)
      → let u = (run buffer_size size content events d).tasks i in
        (u.task_offset ≡ (d.tasks i).task_offset) × (u.task_length ≡ (d.tasks i).task_length)
  unfolding run
  run-place [] d i = (refl, refl)
  run-place ((j, event) ∷ events) d i =
      let (a, b) = step-place j event d i in
      let (p, q) = run-place events (step buffer_size size content j event d) i in (p ∙ a, q ∙ b)

  -- A task that is done has its part, as far as the data goes.
  done-part :
      (file : ℕ → ℕ) (t : Task) (j : ℕ)
      → TaskOk size content file t
      → t.phase ≡ done
      → t.task_offset ≤ j
      → j < t.task_offset + t.task_length
      → j < size
      → file j ≡ content j
  done-part file t j (h, a) e x y z =
      let b = rw e at a in
      h.agrees j x (elim b [ inl r ↦ omega (arith, r, h.position) | inr r ↦ omega arith ]) z

  pub start-place :
      (num_tasks : ℕ) (status : TransferStatus) (file : ℕ → ℕ) (i : ℕ)
      → let len = length_per_thread size num_tasks in
        let t = (start buffer_size size content num_tasks status file).tasks i in
        (t.task_offset ≡ offset_of len i) × (t.task_length ≡ len)
  unfolding start new_task
  start-place num_tasks status file i = (refl, refl)

  -- A download in parallel, resumed from a status file that tells the truth of the local file: whatever events its
  -- tasks meet and in whatever order, when all of them are done, the local file has every byte of the data
  -- object.
  pub download-delivers :
      (num_tasks : ℕ) (status : TransferStatus) (file : ℕ → ℕ) (events : List (ℕ × Event))
      → 0 < num_tasks
      → Truthful size content (length_per_thread size num_tasks) status file
      → ((i : ℕ)
          → i < num_tasks
          → ((run buffer_size size content events
                (start buffer_size size content num_tasks status file)).tasks
              i).phase
            ≡ done)
      → (j : ℕ) → j < size
      → (run buffer_size size content events
            (start buffer_size size content num_tasks status file)).file
          j
        ≡ content j
  download-delivers num_tasks status file events pos truth all_done j lt =
      let len = length_per_thread size num_tasks in
      let d = start buffer_size size content num_tasks status file in
      let ok = run-AllOk events d (start-AllOk num_tasks status file truth) in
      let (i, a, b, c) =
        part_of len num_tasks j (omega (arith, parts_suffice size num_tasks pos)) in
      let (p, q) = run-place events d i in
      let (r, s) = start-place num_tasks status file i in
      let u = run buffer_size size content events d in
      done-part u.file (u.tasks i) j (ok i) (all_done i a) (rw (p ∙ r) b) (rw (p ∙ r, q ∙ s) c) lt
