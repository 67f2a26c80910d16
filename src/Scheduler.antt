-- ===== src/Scheduler.antt =====
-- `BatchScheduler` of src/sched/scheduler.hpp and src/sched/scheduler.cpp: its fields, and the
-- operations that one thread performs without interruption (under a mutex, or on one atomic).
-- Durations are kept in nanoseconds; the code stores them as milliseconds in a `double`.
pub mod Budget
pub mod Threads
pub mod Frame
pub mod Holding
pub mod Abstract
pub mod Outcome
pub mod Refines
pub mod Counters
pub mod Counted
pub mod Reserve
pub mod Commit
pub mod Batches
pub mod Shutdown
pub mod Stranded
pub mod Restart
pub mod Idle
pub mod Wakeup
mod Tests
use gpu_batch_inference_sche.Common.{
  ℕ, suc, ◌+◌, ◌-◌, ◌*◌, ◌%◌, ◌^◌, Bool, true, false, List, [], ◌∷◌, ◌++◌, Option, none, some, ℤ,
  ltb, leb, ◌==◌, if◌then◌else◌, length, map, size_of_int, not,
}
use gpu_batch_inference_sche.Job.{InferenceJob, bytes_required}
use gpu_batch_inference_sche.Queue.{JobQueue, push, empty_queue}

-- The values of `Options::impl`: the code asks only whether it is "cublas".
pub data Impl : Type 0 where
  tiled cublas : Impl

pub record Options : Type 0 where
  pub max_batch : ℤ
  pub safety_margin_bytes : ℕ
  pub num_workers : ℤ
  pub impl : Impl
  pub retain_results : Bool
  pub fixed_budget_bytes : ℕ
  pub util_sample_ms : ℤ

pub record JobMetrics : Type 0 where
  pub job_id : ℕ
  pub seq : ℕ
  pub priority : ℤ
  pub queue_wait_ns : ℕ
  pub exec_ns : ℕ
  pub e2e_ns : ℕ
  pub ok : Bool

-- The fields that the threads share.
pub record BatchScheduler : Type 0 where
  pub opts : Options
  pub queue : JobQueue
  pub next_seq : ℕ
  pub batch_queue : List (List InferenceJob)
  pub started : Bool
  pub shutdown : Bool
  pub gpu_absent : Bool
  pub submitted : ℕ
  pub completed : ℕ
  pub reserved_bytes : ℕ
  pub total_mem_bytes : ℕ
  pub rejected_jobs : ℕ
  pub oom_failures : ℕ
  pub alloc_retries : ℕ
  pub metrics : List JobMetrics

-- The constructor.
unfoldable pub new_scheduler : Options → BatchScheduler
new_scheduler opts = record {
  opts = opts;
  queue = empty_queue;
  next_seq = 0;
  batch_queue = [];
  started = false;
  shutdown = false;
  gpu_absent = false;
  submitted = 0;
  completed = 0;
  reserved_bytes = 0;
  total_mem_bytes = 0;
  rejected_jobs = 0;
  oom_failures = 0;
  alloc_retries = 0;
  metrics = [];
}

-- `start`, as far as the fields above go: the number of devices that `cudaGetDeviceCount` gave, or 0
-- where it failed, the total memory of the monitor's sample, and the total that `cudaMemGetInfo` gave
-- where it succeeded.
unfoldable pub start : ℕ → ℕ → Option ℕ → BatchScheduler → BatchScheduler
start ndev sampled_total mem_info s = if s.started then s else record s {
  started = true;
  shutdown = false;
  gpu_absent = ndev == 0;
  total_mem_bytes =
      if sampled_total == 0 then elim mem_info [ none ↦ 0 | some t ↦ t ] else sampled_total;
}

-- The part of `submit` under `queue_mutex_`; the result is the job's sequence number.
unfoldable pub submit_push : ℕ → InferenceJob → BatchScheduler → BatchScheduler × ℕ
submit_push now job s = (
  record s {
    queue = push s.queue (record job { submit_time = now; seq = s.next_seq });
    next_seq = suc s.next_seq;
  },
  s.next_seq,
)

-- The counter that `submit` increments after it has left the mutex.
unfoldable pub submit_count : BatchScheduler → BatchScheduler
submit_count s = record s { submitted = suc s.submitted }

-- `max_job_bytes`: 0 means that no limit is known.
unfoldable pub max_job_bytes : BatchScheduler → ℕ
max_job_bytes s =
    if s.total_mem_bytes == 0
    then 0
    else if ltb s.opts.safety_margin_bytes s.total_mem_bytes
    then s.total_mem_bytes - s.opts.safety_margin_bytes
    else 0

unfoldable pub reserve_bytes : ℕ → BatchScheduler → BatchScheduler
reserve_bytes bytes s = record s { reserved_bytes = (s.reserved_bytes + bytes) % 2 ^ 64 }

unfoldable pub release_bytes : ℕ → BatchScheduler → BatchScheduler
release_bytes bytes s = record s {
  reserved_bytes = if ltb s.reserved_bytes bytes then 0 else s.reserved_bytes - bytes;
}

-- The budget before reservations, from the fixed option or from the sampled free memory.
unfoldable pub base_bytes : Options → ℕ → ℕ
base_bytes opts free_mem_bytes =
    if ltb 0 opts.fixed_budget_bytes
    then opts.fixed_budget_bytes
    else if leb free_mem_bytes opts.safety_margin_bytes
    then 0
    else free_mem_bytes - opts.safety_margin_bytes

-- `budget_bytes`, with the free memory of the monitor's sample. Where the code returns 0 early the
-- subtraction below gives 0 too.
unfoldable pub budget_bytes : ℕ → BatchScheduler → ℕ
budget_bytes free_mem_bytes s =
    let base : ℕ = base_bytes s.opts free_mem_bytes in
    if ltb s.reserved_bytes base then base - s.reserved_bytes else 0

-- The record that `fail_batch` writes for a job.
pub failed_metrics : InferenceJob → JobMetrics
failed_metrics job = record {
  job_id = job.id;
  seq = job.seq;
  priority = job.priority;
  queue_wait_ns = 0;
  exec_ns = 0;
  e2e_ns = 0;
  ok = false;
}

unfoldable pub fail_batch : List InferenceJob → BatchScheduler → BatchScheduler
fail_batch batch s = record s {
  metrics = s.metrics ++ map failed_metrics batch;
  completed = s.completed + length batch;
}

-- The loop that sums the bytes of a batch; the sum wraps modulo 2^64.
unfoldable pub batch_bytes_from : ℕ → List InferenceJob → ℕ
batch_bytes_from sum [] = sum
batch_bytes_from sum (job ∷ jobs) = batch_bytes_from ((sum + bytes_required job) % 2 ^ 64) jobs

unfoldable pub batch_bytes : List InferenceJob → ℕ
unfolding batch_bytes_from
batch_bytes batch = batch_bytes_from 0 batch
