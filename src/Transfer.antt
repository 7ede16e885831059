-- ===== src/Transfer.antt =====
-- irods/util/tasks.go, irods/fs/transfer_status.go and the resumable parallel download of
-- irods/fs/data_object_bulk.go. Tasks run in any order, one event of one task at a time. What the server and the
-- network do is in the events: a read gives the bytes of the data object at the position, as many as fit.
pub mod Partition
pub mod Progress
pub mod Outcome
pub mod Delivery
pub mod Entries
pub mod Resume
pub mod Ending
mod Tests
use go_irodsclient.Base.{
  ℕ, zero, suc, ◌+◌, ◌-◌, ◌/◌, ◌%◌, Bool, true, false, ◌&&◌, List, [], ◌∷◌, ◌++◌, Option, none,
  some, ltb, leb, ◌==◌, if◌then◌else◌,
}
use go_irodsclient.Base.Maps.{insert, lookup}
use go_irodsclient.Base.{Bytes}
use go_irodsclient.Base.Text.{eq_text}

abbrev pub transfer_task_min_length : ℕ
transfer_task_min_length = 33554432

abbrev pub transfer_task_max_num : ℕ
transfer_task_max_num = 16

unfoldable pub get_num_tasks_for_parallel_transfer : ℕ → ℕ
get_num_tasks_for_parallel_transfer data_object_length =
    let whole = data_object_length / transfer_task_min_length in
    let num_tasks =
      if ltb 0 (data_object_length % transfer_task_min_length) then whole + 1 else whole in
    if leb data_object_length transfer_task_min_length
    then 1
    else if leb num_tasks 1
    then 1
    else if ltb transfer_task_max_num num_tasks
    then transfer_task_max_num
    else num_tasks

-- How the data is divided.
unfoldable pub length_per_thread : ℕ → ℕ → ℕ
length_per_thread size num_tasks =
    if ltb 0 (size % num_tasks) then size / num_tasks + 1 else size / num_tasks

-- The offset of a task: the loop adds the length for each task before it.
unfoldable pub offset_of : ℕ → ℕ → ℕ
offset_of len zero = 0
offset_of len (suc i) = offset_of len i + len

pub record StatusEntry : Type 0 where
  pub start_offset : ℕ
  pub len : ℕ
  pub completed_length : ℕ

-- Of DataObjectTransferStatus: whom it is for, and the entries by their start.
pub record TransferStatus : Type 0 where
  pub path : Bytes
  pub size : ℕ
  pub threads : ℕ
  pub status_map : List (ℕ × StatusEntry)

unfoldable pub validate : TransferStatus → Bytes → ℕ → ℕ → Bool
unfolding eq_text
validate status path size threads =
    eq_text status.path path && (status.size == size) && (status.threads == threads)

abbrev pub new_transfer_status : Bytes → ℕ → ℕ → TransferStatus
new_transfer_status path size threads = record {
  path = path;
  size = size;
  threads = threads;
  status_map = [];
}

-- What newDataObjectTransferFromBytes makes of the entries in the file, the last of each start staying.
unfoldable pub status_from : List StatusEntry → List (ℕ × StatusEntry) → List (ℕ × StatusEntry)
unfolding insert
status_from [] entries = entries
status_from (e ∷ rest) entries = status_from rest (insert e.start_offset e entries)

-- GetOrNewDataObjectTransferStatusLocal, with what the status file holds, if there is one.
unfoldable pub get_or_new_transfer_status : Option TransferStatus → Bytes → ℕ → ℕ → TransferStatus
unfolding validate
get_or_new_transfer_status none path size threads = new_transfer_status path size threads
get_or_new_transfer_status (some status) path size threads =
    if validate status path size threads then status else new_transfer_status path size threads

-- What a task is at: about to open the data object, copying from a position in it, or at an end.
pub data Phase : Type 0 where
  opening : Phase
  copying : ℕ → Phase
  done : Phase
  failed : Phase

pub record Task : Type 0 where
  pub task_offset : ℕ
  pub task_length : ℕ
  pub task_remain : ℕ
  pub last_offset : ℕ
  pub phase : Phase

-- The local file byte by byte, the tasks, and the entries written to the status file.
pub record Download : Type 0 where
  pub file : ℕ → ℕ
  pub tasks : ℕ → Task
  pub written : List StatusEntry

-- What a task meets: opening and seeking, with or without success; a read, after which other tasks may have failed;
-- an error of reading; an error of writing to the file after some bytes. An error says whether the socket
-- failed and the connection could be made again.
pub data Event : Type 0 where
  opens : Event
  open_error : Bool → Event
  reads : Bool → Bool → Event
  read_error : Bool → Event
  write_error : ℕ → Bool → Event

abbrev pub smaller : ℕ → ℕ → ℕ
smaller a b = if ltb a b then a else b

-- WriteAt of some bytes of the data object.
abbrev pub write_at : ℕ → ℕ → (ℕ → ℕ) → (ℕ → ℕ) → ℕ → ℕ
write_at offset count bytes file i =
    if leb offset i && ltb i (offset + count) then bytes (i - offset) else file i

abbrev pub after_error : Bool → Task → Task
after_error true t = record t { phase = opening }
after_error false t = record t { phase = failed }

-- The test of the loop.
abbrev pub next_round : ℕ → Task → Task
next_round position t = record t { phase = if ltb 0 t.task_remain then copying position else done }

abbrev pub find_last : ℕ → Option StatusEntry → ℕ
find_last offset none = offset
find_last offset (some e) = e.start_offset + e.completed_length

-- The start of a task: where it failed the last time.
unfoldable pub new_task : ℕ → ℕ → TransferStatus → Task
unfolding lookup
new_task offset len status =
    let last = find_last offset (lookup offset status.status_map) in
    record {
      task_offset = offset;
      task_length = len;
      task_remain = len - (last - offset);
      last_offset = last;
      phase = opening;
    }

module _ (buffer_size : ℕ) (size : ℕ) (content : ℕ → ℕ) where
  -- How many bytes the loop asks for, and how many the server has.
  abbrev pub asked : Task → ℕ
  asked t = smaller t.task_remain buffer_size

  abbrev pub received : ℕ → Task → ℕ
  received position t = smaller (asked t) (size - position)

  abbrev pub advance : ℕ → Task → Task
  advance n t = record t { task_remain = t.task_remain - n; last_offset = t.last_offset + n }

  -- The task behind a read of `n` bytes at a position: a short read is the end of the data.
  abbrev pub after_read : ℕ → Bool → Bool → ℕ → Task → Task
  after_read position others_failed retry n t =
      if ltb n (asked t)
      then record (advance n t) { phase = done }
      else if others_failed
      then after_error retry (advance n t)
      else next_round (position + n) (advance n t)

  abbrev pub write_position : Task → ℕ
  write_position t = t.task_offset + (t.task_length - t.task_remain)

  abbrev pub entry_of : ℕ → Task → StatusEntry
  entry_of n t = record {
    start_offset = t.task_offset;
    len = t.task_length;
    completed_length = (t.task_length - t.task_remain) + n;
  }

  -- The task itself, by an event.
  unfoldable pub task_step : Event → Phase → Task → Task
  task_step opens opening t = next_round (if ltb 0 t.last_offset then t.last_offset else 0) t
  task_step (open_error retry) opening t = after_error retry t
  task_step (reads others_failed retry) (copying position) t =
      after_read position others_failed retry (received position t) t
  task_step (read_error retry) (copying position) t = after_error retry t
  task_step (write_error count retry) (copying position) t = after_error retry t
  task_step event phase t = t

  -- What it writes to the file.
  unfoldable pub file_step : Event → Phase → Task → (ℕ → ℕ) → ℕ → ℕ
  file_step (reads others_failed retry) (copying position) t file =
      write_at (write_position t) (received position t) (λ i. content (position + i)) file
  file_step (write_error count retry) (copying position) t file =
      write_at (write_position t) (smaller count (received position t))
        (λ i. content (position + i)) file
  file_step event phase t file = file

  -- What it writes to the status file.
  unfoldable pub status_step : Event → Phase → Task → List StatusEntry → List StatusEntry
  status_step (reads others_failed retry) (copying position) t written =
      if ltb 0 (received position t)
      then written ++ entry_of (received position t) t ∷ []
      else written
  status_step event phase t written = written

  unfoldable pub step : ℕ → Event → Download → Download
  unfolding task_step file_step status_step
  step i event d =
      let t = d.tasks i in
      record {
        file = file_step event t.phase t d.file;
        tasks = λ j. if j == i then task_step event t.phase t else d.tasks j;
        written = status_step event t.phase t d.written;
      }

  unfoldable pub run : List (ℕ × Event) → Download → Download
  unfolding step
  run [] d = d
  run ((i, event) ∷ events) d = run events (step i event d)

  -- The tasks at the start of a transfer.
  unfoldable pub start : ℕ → TransferStatus → (ℕ → ℕ) → Download
  unfolding length_per_thread offset_of new_task
  start num_tasks status file =
      let len = length_per_thread size num_tasks in
      record { file = file; tasks = λ i. new_task (offset_of len i) len status; written = [] }
