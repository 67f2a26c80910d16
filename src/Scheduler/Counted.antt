-- ===== src/Scheduler/Counted.antt =====
-- The counters of src/sched/scheduler.cpp against the jobs and the metrics, in every reachable state,
-- and what the test at the end of `main` in src/main.cpp tells.
use gpu_batch_inference_sche.Common.{
  ℕ, zero, suc, ◌+◌, ◌≤◌, ◌≡◌, refl, List, [], ◌∷◌, total, total-append, total_congr, length-total,
  length, length-append, map, pos_part, arith, ltb, ap, Option, Bool-cases, inl, inr,
}
use gpu_batch_inference_sche.Job.{InferenceJob}
use gpu_batch_inference_sche.Scheduler.{
  BatchScheduler, Options, new_scheduler, start, submit_push, submit_count, reserve_bytes,
  release_bytes, fail_batch, failed_metrics, max_job_bytes,
}
use gpu_batch_inference_sche.Scheduler.Threads.{
  DispatcherPc, WorkerPc, idles, recorded, System, reject_oversized, record_batch, batch_metrics,
  count_batch, count_allocations, Dispatch, leave_space, find_space, leave_jobs, take_jobs,
  fail_no_gpu, admit, pack, requeue, pause, reserve, enqueue, Work, leave, take_batch, drop_no_gpu,
  succeed, fail, count, release, Step, client_push, client_count, dispatch, work, request_stop,
  Reach, here, next, initial, oversized,
}
use gpu_batch_inference_sche.Scheduler.Frame.{Dispatch-frame, Work-frame}
use gpu_batch_inference_sche.Scheduler.Holding.{
  dispatcher_jobs, worker_jobs, Agrees, holding, Step-holding, submitted_weight,
}

-- Jobs that have been accepted and have no record yet.
abbrev pub unrecorded : System → ℕ
unrecorded x =
    length x.sched.queue.jobs
    + length (dispatcher_jobs x.dispatcher)
    + total length x.sched.batch_queue
    + total (λ pc. length (worker_jobs pc)) x.workers

ones-Agrees : Agrees (λ _. 1) (λ _. 1)
ones-Agrees = record { on_failed = λ _. refl; on_finished = λ _ _ _. refl }

holding-ones : (x : System) → holding (λ _. 1) (λ _. 1) x ≡ length x.sched.metrics + unrecorded x
holding-ones x = omega (
  arith,
  length-total x.sched.metrics,
  length-total x.sched.queue.jobs,
  length-total (dispatcher_jobs x.dispatcher),
  total_congr length (total (λ _. 1)) length-total x.sched.batch_queue,
  total_congr (λ pc. length (worker_jobs pc)) (λ pc. total (λ _. 1) (worker_jobs pc))
      (λ pc. length-total (worker_jobs pc)) x.workers,
)

-- Jobs of a worker that have a record and are not yet counted as completed.
abbrev pub uncompleted : WorkerPc → ℕ
uncompleted (recorded batch) = length batch
uncompleted _ = 0

-- The counters against the jobs.
pub record Counted (x : System) : Type 0 where
  pub on_submitted : x.sched.submitted + x.uncounted ≡ x.sched.next_seq
  pub on_completed : x.sched.completed + total uncompleted x.workers ≡ length x.sched.metrics
  pub on_recorded : length x.sched.metrics + unrecorded x ≡ x.sched.next_seq

length-failed : (batch : List InferenceJob) → length (map failed_metrics batch) ≡ length batch
length-failed [] = refl
length-failed (job ∷ batch) = ap suc (length-failed batch)

length-batch_metrics :
    (clock : InferenceJob → ℕ × ℕ) (batch : List InferenceJob)
    → length (batch_metrics clock batch) ≡ length batch
unfolding batch_metrics
length-batch_metrics clock [] = refl
length-batch_metrics clock (job ∷ batch) = ap suc (length-batch_metrics clock batch)

-- Completed jobs and records move together.
abbrev Together : BatchScheduler → ℕ → BatchScheduler → ℕ → Type 0
Together s m t n = t.completed + n + length s.metrics ≡ s.completed + m + length t.metrics

fail_batch-Together :
    (batch : List InferenceJob) (s : BatchScheduler) → Together s 0 (fail_batch batch s) 0
unfolding fail_batch
fail_batch-Together batch s =
    omega (arith, length-append s.metrics (map failed_metrics batch), length-failed batch)

reject_oversized-Together :
    (jobs : List InferenceJob) (s : BatchScheduler) → Together s 0 (reject_oversized jobs s) 0
unfolding reject_oversized
reject_oversized-Together jobs s =
    let big : List InferenceJob = oversized (max_job_bytes s) jobs in
    elim (Bool-cases (ltb 0 (length big))) [
      | inl e ↦
          rw e (fail_batch-Together big (record s { rejected_jobs = s.rejected_jobs + length big }))
      | inr e ↦ rw e refl
    ]

Dispatch-Together :
    {limit : ℕ} {s t : BatchScheduler} {pc pc' : DispatcherPc}
    → Dispatch limit s pc t pc'
    → Together s 0 t 0
unfolding reserve_bytes
Dispatch-Together (leave_space _) = refl
Dispatch-Together (find_space _ _) = refl
Dispatch-Together (leave_jobs _) = refl
Dispatch-Together (take_jobs _ _) = refl
Dispatch-Together {s} (fail_no_gpu {candidates} _) = fail_batch-Together candidates s
Dispatch-Together {s} (admit {candidates} _) = reject_oversized-Together candidates s
Dispatch-Together (pack _ _ _ _ _) = refl
Dispatch-Together requeue = refl
Dispatch-Together pause = refl
Dispatch-Together reserve = refl
Dispatch-Together enqueue = refl

Work-Together :
    {s t : BatchScheduler} {pc pc' : WorkerPc}
    → Work s pc t pc'
    → Together s (uncompleted pc) t (uncompleted pc')
unfolding record_batch count_batch count_allocations release_bytes
Work-Together (leave _ _) = refl
Work-Together (take_batch _ _ _) = refl
Work-Together {s} (drop_no_gpu {batch} _) = fail_batch-Together batch s
Work-Together {s} (succeed {batch} clock _ _) =
    omega
      (arith, length-append s.metrics (batch_metrics clock batch), length-batch_metrics clock batch)
Work-Together {s} (fail {batch} retries failures _) =
    fail_batch-Together batch (count_allocations retries failures s)
Work-Together count = omega arith
Work-Together release = refl

uncompleted-idles : (n : ℕ) → total uncompleted (idles n) ≡ 0
uncompleted-idles zero = refl
uncompleted-idles (suc n) = omega (arith, uncompleted-idles n)

Step-next_seq :
    {limit : ℕ} {x y : System} (st : Step limit x y)
    → y.sched.next_seq ≡ x.sched.next_seq + submitted_weight ones-Agrees st
unfolding submit_push submit_count
Step-next_seq (client_push _ _) = omega arith
Step-next_seq (client_count _ _) = omega arith
Step-next_seq (dispatch d) = omega (arith, (Dispatch-frame d).same_seq)
Step-next_seq (work _ _ _ _ k) = omega (arith, (Work-frame k).same_seq)
Step-next_seq request_stop = omega arith

recorded-Counted :
    {limit : ℕ} {x y : System} (st : Step limit x y)
    → Counted x
    → length y.sched.metrics + unrecorded y ≡ y.sched.next_seq
recorded-Counted {x = x} {y} st c = omega (
  arith,
  holding-ones x,
  holding-ones y,
  Step-holding ones-Agrees st,
  Step-next_seq st,
  c.on_recorded,
)

submitted-Counted :
    {limit : ℕ} {x y : System} (st : Step limit x y)
    → Counted x
    → y.sched.submitted + y.uncounted ≡ y.sched.next_seq
unfolding submit_push submit_count
submitted-Counted (client_push _ _) c = omega (arith, c.on_submitted)
submitted-Counted (client_count _ e) c = omega (arith, c.on_submitted)
submitted-Counted (dispatch d) c =
    omega (arith, c.on_submitted, (Dispatch-frame d).same_seq, (Dispatch-frame d).same_submitted)
submitted-Counted (work _ _ _ _ k) c =
    omega (arith, c.on_submitted, (Work-frame k).same_seq, (Work-frame k).same_submitted)
submitted-Counted request_stop c = c.on_submitted

completed-Counted :
    {limit : ℕ} {x y : System} (st : Step limit x y)
    → Counted x
    → y.sched.completed + total uncompleted y.workers ≡ length y.sched.metrics
unfolding submit_push submit_count
completed-Counted (client_push _ _) c = c.on_completed
completed-Counted (client_count _ e) c = c.on_completed
completed-Counted (dispatch d) c = omega (arith, c.on_completed, Dispatch-Together d)
completed-Counted (work before after old {pc = pc} e k) c = omega (
  arith,
  c.on_completed,
  Work-Together k,
  ap (total uncompleted) e,
  total-append uncompleted before (old ∷ after),
  total-append uncompleted before (pc ∷ after),
)
completed-Counted request_stop c = c.on_completed

pub Step-Counted : {limit : ℕ} {x y : System} → Step limit x y → Counted x → Counted y
Step-Counted st c = record {
  on_submitted = submitted-Counted st c;
  on_completed = completed-Counted st c;
  on_recorded = recorded-Counted st c;
}

idle_jobs : (n : ℕ) → total (λ pc. length (worker_jobs pc)) (idles n) ≡ 0
idle_jobs zero = refl
idle_jobs (suc n) = omega (arith, idle_jobs n)

pub initial-Counted :
    (opts : Options) (ndev sampled_total : ℕ) (mem_info : Option ℕ)
    → Counted (initial opts ndev sampled_total mem_info)
unfolding initial start new_scheduler
initial-Counted opts ndev sampled_total mem_info = record {
  on_submitted = omega arith;
  on_completed = omega (arith, uncompleted-idles (pos_part opts.num_workers));
  on_recorded = omega (arith, idle_jobs (pos_part opts.num_workers));
}

module _ (opts : Options) (ndev sampled_total : ℕ) (mem_info : Option ℕ) (limit : ℕ) where
  abbrev start_state : System
  start_state = initial opts ndev sampled_total mem_info

  -- In every reachable state `submitted_` is the number of submissions less those about to count,
  -- `completed_` is the number of records less those about to be counted, and the records together
  -- with the jobs still on their way are all the jobs ever accepted.
  pub Reach-Counted : {x : System} → Reach limit start_state x → Counted x
  Reach-Counted here = initial-Counted opts ndev sampled_total mem_info
  Reach-Counted (next r st) = Step-Counted st (Reach-Counted r)

  -- With no submission under way and `completed_` at least `submitted_`, no job is left anywhere: each
  -- job submitted has its record, and the counters agree.
  pub drained_complete :
      {x : System}
      → Reach limit start_state x
      → x.uncounted ≡ 0
      → x.sched.submitted ≤ x.sched.completed
      → (unrecorded x ≡ 0)
        × (length x.sched.metrics ≡ x.sched.submitted)
        × (x.sched.completed ≡ x.sched.submitted)
  drained_complete {x} r quiet enough =
      let c = Reach-Counted r in
      (omega (arith, c, enough), omega (arith, c, enough), omega (arith, c, enough))
