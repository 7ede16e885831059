-- ===== src/Transfer/Resume.antt =====
-- What a download leaves in its status file, and what another one makes of it.
use go_irodsclient.Base.{
  ℕ, ◌+◌, ◌-◌, ◌<◌, ◌≡◌, ◌∙◌, Bool, true, List, [], ◌∷◌, some, ltb, inl, inr, arith, Bool-cases,
  All, Bytes,
}
use go_irodsclient.Base.Maps.{lookup}
use go_irodsclient.Transfer.{
  Phase, opening, copying, done, failed, Task, Download, Event, opens, open_error, reads,
  read_error, write_error, task_step, file_step, status_step, entry_of, received, step, run, start,
  StatusEntry, TransferStatus, offset_of, length_per_thread, status_from,
  get_or_new_transfer_status, validate,
}
use go_irodsclient.Transfer.Progress.{Counted}
use go_irodsclient.Transfer.Outcome.{task_step-Stepped, AllOk}
use go_irodsclient.Transfer.Delivery.{
  Truthful, download-delivers, start-AllOk, step-AllOk, start-place, step-place,
}
use go_irodsclient.Transfer.Entries.{EntryOk, MapOk, status_from-MapOk, All-Better, All-snoc}

module _ (buffer_size : ℕ) (size : ℕ) (content : ℕ → ℕ) (len : ℕ) where
  after_read_last :
      (others retry : Bool) (position : ℕ) (t : Task)
      → let u = task_step buffer_size size content (reads others retry) (copying position) t in
        (u.task_offset ≡ t.task_offset)
        × (u.task_length ≡ t.task_length)
        × (u.last_offset ≡ t.last_offset + received buffer_size size content position t)
  unfolding task_step
  after_read_last others retry position t = (ground arith, ground arith, ground arith)

  entry_of-EntryOk :
      (others retry : Bool) (position : ℕ) (t : Task) (old new : ℕ → ℕ)
      → Counted size content old t
      → t.task_length ≡ len
      → Counted size content new
          (task_step buffer_size size content (reads others retry) (copying position) t)
      → EntryOk size content len new
          (entry_of buffer_size size content (received buffer_size size content position t) t)
  entry_of-EntryOk others retry position t old new h l k =
      let (a, b, c) = after_read_last others retry position t in
      let n = received buffer_size size content position t in
      let e : t.task_offset + ((t.task_length - t.task_remain) + n) ≡ t.last_offset + n =
        omega (arith, h.bounded, h.position) in
      (
        ground (arith, h.bounded, l),
        (λ i x y z. k.agrees i (omega (arith, a, x)) (omega (arith, c, e, y)) z),
      )

  -- The invariant of the entries that are written.
  record Noted (d : Download) : Type 0 where
    ok : AllOk buffer_size size content d
    lengths : (i : ℕ) → (d.tasks i).task_length ≡ len
    entries : All (EntryOk size content len d.file) d.written

  with_entry :
      (event : Event) (p : Phase) (t : Task) (old new : ℕ → ℕ) (written : List StatusEntry)
      → Counted size content old t
      → Counted size content new (task_step buffer_size size content event p t)
      → t.task_length ≡ len
      → All (EntryOk size content len new) written
      → All (EntryOk size content len new) (status_step buffer_size size content event p t written)
  unfolding status_step
  with_entry opens p t old new written h k l hs = hs
  with_entry (open_error r) p t old new written h k l hs = hs
  with_entry (read_error r) p t old new written h k l hs = hs
  with_entry (write_error c r) p t old new written h k l hs = hs
  with_entry (reads o r) opening t old new written h k l hs = hs
  with_entry (reads o r) done t old new written h k l hs = hs
  with_entry (reads o r) failed t old new written h k l hs = hs
  with_entry (reads o r) (copying position) t old new written h k l hs =
      let n = received buffer_size size content position t in
      elim (Bool-cases (ltb 0 n)) [
        | inl e ↦ rw e (
            All-snoc size content len new written (entry_of buffer_size size content n t) hs
              (entry_of-EntryOk o r position t old new h l k))
        | inr e ↦ rw e hs
      ]

  step-entries :
      (i : ℕ) (event : Event) (d : Download)
      → Noted d
      → All
          (EntryOk size content len (step buffer_size size content i event d).file)
          (step buffer_size size content i event d).written
  unfolding step
  step-entries i event d h =
      let t = d.tasks i in
      let p = t.phase in
      let new = file_step buffer_size size content event p t d.file in
      let (better, (k, m)) =
        task_step-Stepped buffer_size size content event p t d.file (h.ok i) (h.ok i).1 in
      with_entry event p t d.file new d.written (h.ok i).0 k (h.lengths i)
        (All-Better size content len new d.file d.written better h.entries)

  run-Noted :
      (events : List (ℕ × Event)) (d : Download)
      → Noted d
      → Noted (run buffer_size size content events d)
  unfolding run
  run-Noted [] d h = h
  run-Noted ((i, event) ∷ events) d h =
      run-Noted events (step buffer_size size content i event d) (record {
        ok = step-AllOk buffer_size size content i event d h.ok;
        lengths = λ j. (step-place buffer_size size content i event d j).1 ∙ h.lengths j;
        entries = step-entries i event d h;
      })

module _ (buffer_size : ℕ) (size : ℕ) (content : ℕ → ℕ) where
  -- What the status file holds: its header, and the entries written since.
  abbrev pub left : Bytes → ℕ → Download → TransferStatus
  left path num_tasks d = record {
    path = path;
    size = size;
    threads = num_tasks;
    status_map = status_from d.written [];
  }

  nothing-Truthful : (len : ℕ) (file : ℕ → ℕ) → MapOk size content len file []
  unfolding lookup
  nothing-Truthful len file key = tt

  no_entries :
      (num_tasks : ℕ) (status : TransferStatus) (file : ℕ → ℕ)
      → let d = start buffer_size size content num_tasks status file in
        All (EntryOk size content (length_per_thread size num_tasks) d.file) d.written
  unfolding start
  no_entries num_tasks status file = tt

  start-Noted :
      (num_tasks : ℕ) (status : TransferStatus) (file : ℕ → ℕ)
      → Truthful size content (length_per_thread size num_tasks) status file
      → Noted buffer_size size content
          (length_per_thread size num_tasks)
          (start buffer_size size content num_tasks status file)
  start-Noted num_tasks status file truth = record {
    ok = start-AllOk buffer_size size content num_tasks status file truth;
    lengths = λ i. (start-place buffer_size size content num_tasks status file i).1;
    entries = no_entries num_tasks status file;
  }

  left-MapOk :
      (path : Bytes) (num_tasks : ℕ) (status : TransferStatus) (file : ℕ → ℕ)
      (events : List (ℕ × Event))
      → Truthful size content (length_per_thread size num_tasks) status file
      → let d =
          run buffer_size size content events
            (start buffer_size size content num_tasks status file) in
        MapOk size content
          (length_per_thread size num_tasks)
          d.file
          (left path num_tasks d).status_map
  left-MapOk path num_tasks status file events truth =
      let len = length_per_thread size num_tasks in
      let d =
        run buffer_size size content events
          (start buffer_size size content num_tasks status file) in
      let h =
        run-Noted buffer_size size content len events
          (start buffer_size size content num_tasks status file)
          (start-Noted num_tasks status file truth) in
      status_from-MapOk size content len d.file d.written [] h.entries (nothing-Truthful len d.file)

  same_threads :
      (path next_path : Bytes) (num_tasks next_tasks : ℕ) (d : Download)
      → validate (left path num_tasks d) next_path size next_tasks ≡ true
      → num_tasks ≡ next_tasks
  unfolding validate
  same_threads path next_path num_tasks next_tasks d h = ground (arith, h)

  -- What a later transfer takes from the status file tells the truth of the file that was left, also if it has
  -- another number of tasks.
  resume-Truthful :
      (path next_path : Bytes) (num_tasks next_tasks : ℕ) (status : TransferStatus) (file : ℕ → ℕ)
      (events : List (ℕ × Event))
      → Truthful size content (length_per_thread size num_tasks) status file
      → let d =
          run buffer_size size content events
            (start buffer_size size content num_tasks status file) in
        Truthful size content
          (length_per_thread size next_tasks)
          (get_or_new_transfer_status (some (left path num_tasks d)) next_path size next_tasks)
          d.file
  unfolding get_or_new_transfer_status
  resume-Truthful path next_path num_tasks next_tasks status file events truth i =
      let d =
        run buffer_size size content events
          (start buffer_size size content num_tasks status file) in
      elim (Bool-cases (validate (left path num_tasks d) next_path size next_tasks)) [
        | inl e ↦
            let f : num_tasks ≡ next_tasks = same_threads path next_path num_tasks next_tasks d e in
            rw (e, ← f)
              (left-MapOk path num_tasks status file events truth
                (offset_of (length_per_thread size num_tasks) i))
        | inr e ↦ rw e (
            nothing-Truthful (length_per_thread size next_tasks) d.file
              (offset_of (length_per_thread size next_tasks) i))
      ]

  -- A download in parallel that started from a truthful status and stopped anywhere, with whatever errors, and a second
  -- one, of at least one task, with the status file that the first one left, with the same or another number of
  -- tasks: when all tasks of the second one are done, the local file has every byte of the data object.
  pub resumed-delivers :
      (path next_path : Bytes) (num_tasks next_tasks : ℕ) (status : TransferStatus) (file : ℕ → ℕ)
      (first second : List (ℕ × Event))
      → 0 < next_tasks
      → Truthful size content (length_per_thread size num_tasks) status file
      → let d =
          run buffer_size size content first
            (start buffer_size size content num_tasks status file) in
        let again =
          get_or_new_transfer_status (some (left path num_tasks d)) next_path size next_tasks in
        let result =
          run buffer_size size content second
            (start buffer_size size content next_tasks again d.file) in
        ((i : ℕ) → i < next_tasks → (result.tasks i).phase ≡ done)
        → (j : ℕ) → j < size
        → result.file j ≡ content j
  resumed-delivers path next_path num_tasks next_tasks status file first second pos truth all_done j
        lt =
      let d =
        run buffer_size size content first (start buffer_size size content num_tasks status file) in
      let again =
        get_or_new_transfer_status (some (left path num_tasks d)) next_path size next_tasks in
      download-delivers buffer_size size content next_tasks again d.file second pos
        (resume-Truthful path next_path num_tasks next_tasks status file first truth) all_done j lt
