-- ===== src/Transfer/Partition.antt =====
-- The number of tasks, and the parts of the data that they are received.
use go_irodsclient.Base.{
  ℕ, zero, suc, ◌+◌, ◌-◌, ◌*◌, ◌/◌, ◌%◌, ◌≤◌, ◌<◌, ◌≡◌, ltb, ◌⊎◌, inl, inr, arith, Bool-cases,
}
use go_irodsclient.Transfer.{get_num_tasks_for_parallel_transfer, length_per_thread, offset_of}
use native.Mathlib.Nat.{div-add-mod', mod-lt}

-- GetNumTasksForParallelTransfer gives from 1 to 16 tasks; unless they are 16, they hold the data with at most
-- 32 MB each, and unless there is one, one task fewer would not.
pub get_num_tasks-bounds :
    (size : ℕ)
    → (1 ≤ get_num_tasks_for_parallel_transfer size)
      × (get_num_tasks_for_parallel_transfer size ≤ 16)
      × ((get_num_tasks_for_parallel_transfer size ≡ 16)
          ⊎ (size ≤ get_num_tasks_for_parallel_transfer size * 33554432))
      × ((get_num_tasks_for_parallel_transfer size ≡ 1)
          ⊎ ((get_num_tasks_for_parallel_transfer size - 1) * 33554432 < size))
unfolding get_num_tasks_for_parallel_transfer
get_num_tasks-bounds size = (ground arith, ground arith, ground arith, ground arith)

offset_of-times : (len i : ℕ) → offset_of len i ≡ i * len
unfolding offset_of
offset_of-times len zero = omega arith
offset_of-times len (suc i) = grind (arith, offset_of-times len i)

-- The parts together are at least as long as the data.
pub parts_suffice : (size n : ℕ) → 0 < n → size ≤ offset_of (length_per_thread size n) n
unfolding length_per_thread
parts_suffice size n pos = elim (Bool-cases (ltb 0 (size % n))) [
  | inl e ↦
      rw (e, offset_of-times (size / n + 1) n) (grind (arith, div-add-mod' size n, mod-lt size pos))
  | inr e ↦ rw (e, offset_of-times (size / n) n) (grind (arith, e, div-add-mod' size n))
]

-- Every byte before the end of the parts is in the part of one task.
pub part_of :
    (len n j : ℕ)
    → j < offset_of len n
    → (i : ℕ) × (i < n) × (offset_of len i ≤ j) × (j < offset_of len i + len)
unfolding offset_of
part_of len zero j h = absurd (omega arith)
part_of len (suc n) j h = elim (Bool-cases (ltb j (offset_of len n))) [
  | inl e ↦ let (i, a, b, c) = part_of len n j (ground (arith, e)) in (i, omega arith, b, c)
  | inr e ↦ (n, omega arith, ground (arith, e), omega arith)
]
