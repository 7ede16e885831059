-- ===== src/Transfer/Tests.antt =====
-- A download of five bytes by two tasks, which stops and is resumed.
use go_irodsclient.Base.{
  ℕ, zero, suc, ◌+◌, ◌-◌, ◌*◌, ◌≤◌, ◌<◌, ◌≡◌, refl, false, List, [], ◌∷◌, some, Bytes, codes, arith,
  ◌⊎◌, replicate,
}
use go_irodsclient.Base.Text.{eq_text}
use go_irodsclient.Base.Maps.{lookup, insert}
use go_irodsclient.Transfer.{
  Download, opening, done, Event, opens, reads, read_error, TransferStatus, new_transfer_status,
  step, run, start, get_num_tasks_for_parallel_transfer, length_per_thread, offset_of, new_task,
  task_step, file_step, status_step, status_from, get_or_new_transfer_status, validate,
}
use go_irodsclient.Transfer.Partition.{get_num_tasks-bounds}
use go_irodsclient.Transfer.Delivery.{Truthful}
use go_irodsclient.Transfer.Resume.{left, resumed-delivers}
use go_irodsclient.Transfer.Ending.{opens_reads-done}

abbrev content : ℕ → ℕ
content i = i + 10

abbrev blank : ℕ → ℕ
blank i = 0

abbrev path : Bytes
path = codes "a"

abbrev fresh_status : TransferStatus
fresh_status = new_transfer_status path 5 2

-- The first task ends, the second one meets an error.
abbrev first : List (ℕ × Event)
first = (0, opens) ∷ (1, opens) ∷ (0, reads false false) ∷ (1, read_error false) ∷ []

abbrev second : List (ℕ × Event)
second = (1, opens) ∷ (0, opens) ∷ (1, reads false false) ∷ []

nothing_yet : Truthful 5 content (length_per_thread 5 2) fresh_status blank
unfolding lookup
nothing_yet i = tt

abbrev stopped : Download
stopped = run 4 5 content first (start 4 5 content 2 fresh_status blank)

abbrev finished : Download
finished = run 4 5 content second (
    start 4 5 content 2
      (get_or_new_transfer_status (some (left 4 5 content path 2 stopped)) path 5 2) stopped.file)

both_done : (i : ℕ) → i < 2 → (finished.tasks i).phase ≡ done
unfolding run step start new_task task_step file_step status_step status_from
    get_or_new_transfer_status validate length_per_thread offset_of lookup insert eq_text
both_done zero h = refl
both_done (suc zero) h = refl
both_done (suc (suc i)) h = absurd (omega arith)

-- If the second transfer stops before the first task reads, the third one starts that task from the beginning: the
-- status file was made anew.
forgotten_test : finished.written ≡ record { start_offset = 3; len = 3; completed_length = 2 } ∷ []
unfolding run step start new_task task_step file_step status_step status_from
    get_or_new_transfer_status validate length_per_thread offset_of lookup insert eq_text
forgotten_test = refl

resumed-delivers_example : finished.file 4 ≡ 14
resumed-delivers_example =
    resumed-delivers 4 5 content path path 2 2 fresh_status blank first second (omega arith)
      nothing_yet both_done 4 (omega arith)

abbrev begun : Download
begun = start 4 5 content 2 fresh_status blank

begins : (begun.tasks 1).phase ≡ opening
unfolding start new_task
begins = refl

opens_reads-done_example :
    ((run 4 5 content
        ((1, opens) ∷ replicate (suc (begun.tasks 1).task_remain) (1, reads false false))
        begun).tasks
      1).phase
    ≡ done
opens_reads-done_example = opens_reads-done 4 5 content 1 begun (omega arith) begins

get_num_tasks-bounds_example :
    (1 ≤ get_num_tasks_for_parallel_transfer 100000000)
    × (get_num_tasks_for_parallel_transfer 100000000 ≤ 16)
    × ((get_num_tasks_for_parallel_transfer 100000000 ≡ 16)
        ⊎ (100000000 ≤ get_num_tasks_for_parallel_transfer 100000000 * 33554432))
    × ((get_num_tasks_for_parallel_transfer 100000000 ≡ 1)
        ⊎ ((get_num_tasks_for_parallel_transfer 100000000 - 1) * 33554432 < 100000000))
get_num_tasks-bounds_example = get_num_tasks-bounds 100000000
