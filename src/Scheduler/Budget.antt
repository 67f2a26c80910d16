-- ===== src/Scheduler/Budget.antt =====
-- The budget of src/sched/scheduler.cpp: `max_job_bytes`, `budget_bytes`, and the reservations.
use gpu_batch_inference_sche.Common.{
  ℕ, ◌+◌, ◌%◌, ◌^◌, ◌≤◌, ◌<◌, ◌≡◌, List, [], ◌∷◌, total, arith, ◌∙◌,
}
use native.Mathlib.Nat.{add_assoc}
use gpu_batch_inference_sche.Job.{InferenceJob, bytes_required}
use gpu_batch_inference_sche.Scheduler.{
  BatchScheduler, reserve_bytes, release_bytes, base_bytes, budget_bytes, batch_bytes_from,
  batch_bytes,
}

-- Each addition stays below 2^64, so the loop returns the exact sum.
batch_bytes_from_lem :
    (sum : ℕ) (jobs : List InferenceJob)
    → sum + total bytes_required jobs < 2 ^ 64
    → batch_bytes_from sum jobs ≡ sum + total bytes_required jobs
unfolding batch_bytes_from
batch_bytes_from_lem sum [] h = omega arith
batch_bytes_from_lem sum (job ∷ jobs) h =
    let small : (sum + bytes_required job) % 2 ^ 64 ≡ sum + bytes_required job = omega arith in
    rw small (
      batch_bytes_from_lem (sum + bytes_required job) jobs (omega arith)
      ∙ add_assoc sum (bytes_required job) (total bytes_required jobs))

-- The bytes of a batch are summed exactly where the sum is below 2^64.
pub batch_bytes-total :
    (jobs : List InferenceJob)
    → total bytes_required jobs < 2 ^ 64
    → batch_bytes jobs ≡ total bytes_required jobs
unfolding batch_bytes
batch_bytes-total jobs h = batch_bytes_from_lem 0 jobs (omega arith) ∙ omega arith

-- Reserved bytes and the budget that is left never exceed the base, unless the reservations do.
pub budget_bytes-le :
    (free_mem_bytes : ℕ) (s : BatchScheduler)
    → s.reserved_bytes ≤ base_bytes s.opts free_mem_bytes
    → s.reserved_bytes + budget_bytes free_mem_bytes s ≡ base_bytes s.opts free_mem_bytes
unfolding budget_bytes
budget_bytes-le free_mem_bytes s h = ground arith

-- A reservation that fits 64 bits is undone by its release.
pub release-reserve :
    (bytes : ℕ) (s : BatchScheduler)
    → s.reserved_bytes + bytes < 2 ^ 64
    → release_bytes bytes (reserve_bytes bytes s) ≡ s
unfolding release_bytes reserve_bytes
release-reserve bytes s h = ground arith
