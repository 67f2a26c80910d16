-- ===== src/Scheduler/Threads.antt =====
-- The threads of src/sched/scheduler.cpp: clients in `submit`, `dispatcher_loop`, the `worker_loop`s
-- and the thread that calls `stop`. Each step is what one thread does between two points at which
-- another may run; the order of steps is free. A wait on a condition variable is a step that its
-- predicate allows: a thread that sleeps on without a notification makes no step. So every behaviour of the
-- code is among the runs; the notifications of `stop` beside a wait are in `Scheduler.Wakeup`.
use gpu_batch_inference_sche.Common.{
  Option, pos_part, ℕ, zero, suc, ◌+◌, ◌-◌, ◌*◌, ◌%◌, ◌^◌, ◌≤◌, ◌<◌, ◌≡◌, ◌≢◌, true, false, List,
  [], ◌∷◌, ◌++◌, ltb, leb, if◌then◌else◌, keep, length, size_of_int,
}
use gpu_batch_inference_sche.Job.{InferenceJob, bytes_required}
use gpu_batch_inference_sche.Queue.{push_all, drain, empty_queue}
use gpu_batch_inference_sche.Pack.{Packing, pack_jobs}
use gpu_batch_inference_sche.Scheduler.{
  start, new_scheduler, BatchScheduler, Options, JobMetrics, submit_push, submit_count,
  max_job_bytes, reserve_bytes, release_bytes, base_bytes, budget_bytes, fail_batch, batch_bytes,
}

-- Where the dispatcher stands, with the local variables that are live there.
pub data DispatcherPc : Type 0 where
  await_space : DispatcherPc  -- before the wait on `batch_space_cv_`
  await_jobs : DispatcherPc  -- before the wait on `queue_cv_`
  drained : (candidates : List InferenceJob) → DispatcherPc
  admitted : (candidates : List InferenceJob) → DispatcherPc  -- the oversized jobs are gone
  packed : (selected remaining : List InferenceJob) → DispatcherPc
  requeued : (selected : List InferenceJob) → DispatcherPc
  reserved : (selected : List InferenceJob) → DispatcherPc
  dispatcher_done : DispatcherPc

pub data WorkerPc : Type 0 where
  idle : WorkerPc  -- before the wait on `batch_cv_`
  running : (batch : List InferenceJob) → WorkerPc
  recorded : (batch : List InferenceJob) → WorkerPc  -- metrics written, `completed_` not yet
  finished : (batch : List InferenceJob) → WorkerPc  -- before `release_bytes`
  worker_done : WorkerPc

pub record System : Type 0 where
  pub sched : BatchScheduler
  pub dispatcher : DispatcherPc
  pub workers : List WorkerPc
  pub uncounted : ℕ  -- clients between the mutex and the counter of `submit`

-- `std::max<std::size_t>(2, static_cast<std::size_t>(opts_.num_workers) * 2)`
unfoldable pub max_queue_depth : Options → ℕ
max_queue_depth opts =
    let twice : ℕ = size_of_int opts.num_workers * 2 % 2 ^ 64 in if ltb twice 2 then 2 else twice

-- The jobs of the loop that fills `oversized`, and those that it leaves; with 0 no job is oversized.
unfoldable pub oversized : ℕ → List InferenceJob → List InferenceJob
oversized max_job jobs =
    if ltb 0 max_job then keep (λ job. ltb max_job (bytes_required job)) jobs else []

unfoldable pub fitting : ℕ → List InferenceJob → List InferenceJob
fitting max_job jobs =
    if ltb 0 max_job then keep (λ job. leb (bytes_required job) max_job) jobs else jobs

-- Rejects the oversized jobs.
unfoldable pub reject_oversized : List InferenceJob → BatchScheduler → BatchScheduler
unfolding oversized
reject_oversized candidates s =
    let big = oversized (max_job_bytes s) candidates in
    if ltb 0 (length big)
    then fail_batch big (record s { rejected_jobs = s.rejected_jobs + length big })
    else s

-- The record of a job that `execute_batch` has finished, from its clock readings.
unfoldable pub finished_metrics : InferenceJob → ℕ → ℕ → JobMetrics
finished_metrics job pickup finish = record {
  job_id = job.id;
  seq = job.seq;
  priority = job.priority;
  queue_wait_ns = pickup - job.submit_time;
  exec_ns = finish - pickup;
  e2e_ns = finish - job.submit_time;
  ok = true;
}

-- The records of a batch; `clock` gives the readings taken for each job.
unfoldable pub batch_metrics : (InferenceJob → ℕ × ℕ) → List InferenceJob → List JobMetrics
batch_metrics clock [] = []
batch_metrics clock (job ∷ jobs) =
    finished_metrics job (clock job).0 (clock job).1 ∷ batch_metrics clock jobs

-- The end of a successful `execute_batch`: its metrics, then its counter.
unfoldable pub record_batch :
    (InferenceJob → ℕ × ℕ) → List InferenceJob → BatchScheduler → BatchScheduler
record_batch clock batch s = record s { metrics = s.metrics ++ batch_metrics clock batch }

unfoldable pub count_batch : List InferenceJob → BatchScheduler → BatchScheduler
count_batch batch s = record s { completed = s.completed + length batch }

-- The counters that the allocation loop of `execute_batch` moves.
unfoldable pub count_allocations : ℕ → ℕ → BatchScheduler → BatchScheduler
count_allocations retries failures s = record s {
  alloc_retries = s.alloc_retries + retries;
  oom_failures = s.oom_failures + failures;
}

-- One step of the dispatcher. `limit` bounds the base budget that the monitor's samples give.
pub data Dispatch (limit : ℕ) (s : BatchScheduler)
    : DispatcherPc → BatchScheduler → DispatcherPc → Type 0 where
  leave_space : s.shutdown ≡ true → Dispatch limit s await_space s dispatcher_done
  find_space :
      s.shutdown ≡ false
      → length s.batch_queue < max_queue_depth s.opts
      → Dispatch limit s await_space s await_jobs
  leave_jobs : s.shutdown ≡ true → Dispatch limit s await_jobs s dispatcher_done
  take_jobs :
      s.shutdown ≡ false
      → s.queue.jobs ≢ []
      → Dispatch limit s await_jobs (record s { queue = empty_queue }) (drained (drain s.queue))
  fail_no_gpu :
      {candidates : List InferenceJob}
      → s.gpu_absent ≡ true
      → Dispatch limit s (drained candidates) (fail_batch candidates s) await_space
  admit :
      {candidates : List InferenceJob}
      → s.gpu_absent ≡ false
      → Dispatch limit s
          (drained candidates)
          (reject_oversized candidates s)
          (admitted (fitting (max_job_bytes s) candidates))
  pack :
      {candidates : List InferenceJob} (now free_mem_bytes : ℕ) (p : Packing)
      → base_bytes s.opts free_mem_bytes ≤ limit
      → p ≡ pack_jobs now candidates (budget_bytes free_mem_bytes s) s.opts.max_batch
      → Dispatch limit s (admitted candidates) s (packed p.selected p.remaining)
  requeue :
      {selected remaining : List InferenceJob}
      → Dispatch limit s
          (packed selected remaining)
          (record s { queue = push_all s.queue remaining })
          (requeued selected)
  pause : Dispatch limit s (requeued []) s await_space
  reserve :
      {job : InferenceJob} {jobs : List InferenceJob}
      → Dispatch limit s
          (requeued (job ∷ jobs))
          (reserve_bytes (batch_bytes (job ∷ jobs)) s)
          (reserved (job ∷ jobs))
  enqueue :
      {selected : List InferenceJob}
      → Dispatch limit s
          (reserved selected)
          (record s { batch_queue = s.batch_queue ++ selected ∷ [] })
          await_space

-- One step of a worker.
pub data Work (s : BatchScheduler) : WorkerPc → BatchScheduler → WorkerPc → Type 0 where
  leave : s.shutdown ≡ true → s.batch_queue ≡ [] → Work s idle s worker_done
  take_batch :
      (batch : List InferenceJob) (rest : List (List InferenceJob))
      → s.batch_queue ≡ batch ∷ rest
      → Work s idle (record s { batch_queue = rest }) (running batch)
  drop_no_gpu :
      {batch : List InferenceJob}
      → s.gpu_absent ≡ true
      → Work s (running batch) (fail_batch batch s) (finished batch)
  succeed :
      {batch : List InferenceJob} (clock : InferenceJob → ℕ × ℕ) (retries : ℕ)
      → s.gpu_absent ≡ false
      → Work s
          (running batch)
          (record_batch clock batch (count_allocations retries 0 s))
          (recorded batch)
  fail :
      {batch : List InferenceJob} (retries failures : ℕ)
      → s.gpu_absent ≡ false
      → Work s
          (running batch)
          (fail_batch batch (count_allocations retries failures s))
          (finished batch)
  count :
      {batch : List InferenceJob} → Work s (recorded batch) (count_batch batch s) (finished batch)
  release :
      {batch : List InferenceJob}
      → Work s (finished batch) (release_bytes (batch_bytes batch) s) idle

-- One step of the whole program.
pub data Step (limit : ℕ) (x : System) : System → Type 0 where
  client_push :
      (now : ℕ) (job : InferenceJob)
      → Step limit x
          (record x { sched = (submit_push now job x.sched).0; uncounted = suc x.uncounted })
  client_count :
      (n : ℕ)
      → x.uncounted ≡ suc n
      → Step limit x (record x { sched = submit_count x.sched; uncounted = n })
  dispatch :
      {s : BatchScheduler} {pc : DispatcherPc}
      → Dispatch limit x.sched x.dispatcher s pc
      → Step limit x (record x { sched = s; dispatcher = pc })
  work :
      (before after : List WorkerPc) (old : WorkerPc) {s : BatchScheduler} {pc : WorkerPc}
      → x.workers ≡ before ++ old ∷ after
      → Work x.sched old s pc
      → Step limit x (record x { sched = s; workers = before ++ pc ∷ after })
  request_stop : Step limit x (record x { sched = record (x.sched) { shutdown = true } })

-- The threads as `start` leaves them.
abbrev pub idles : ℕ → List WorkerPc
idles zero = []
idles (suc n) = idle ∷ idles n

abbrev pub launch : BatchScheduler → ℕ → System
launch s workers = record {
  sched = s;
  dispatcher = await_space;
  workers = idles workers;
  uncounted = 0;
}

pub data Reach (limit : ℕ) (x : System) : System → Type 0 where
  here : Reach limit x x
  next : {y z : System} → Reach limit x y → Step limit y z → Reach limit x z

-- `start` on a new scheduler: the dispatcher, and a worker for each of `num_workers`.
unfoldable pub initial : Options → ℕ → ℕ → Option ℕ → System
initial opts ndev sampled_total mem_info =
    launch (start ndev sampled_total mem_info (new_scheduler opts)) (pos_part opts.num_workers)
