-- ===== src/Scheduler/Holding.antt =====
-- Every job of src/sched/scheduler.cpp is in one place: in the queue, with the dispatcher, in a
-- batch, with a worker, or in the metrics. Places are counted by a weight on jobs and records.
use gpu_batch_inference_sche.Common.{
  ℕ, ◌+◌, ◌≡◌, refl, List, [], ◌∷◌, ◌++◌, map, keep, total, total-append, total-perm, length, false,
  Bool-cases, inl, inr, arith, ltb, leb, ap,
}
use gpu_batch_inference_sche.Job.{InferenceJob, bytes_required}
use gpu_batch_inference_sche.Queue.Order.{push-perm, push_all-perm, drain-jobs}
use gpu_batch_inference_sche.Pack.Sweep.{pack_jobs-perm}
use gpu_batch_inference_sche.Scheduler.{
  BatchScheduler, JobMetrics, submit_push, submit_count, max_job_bytes, reserve_bytes,
  release_bytes, fail_batch, failed_metrics,
}
use gpu_batch_inference_sche.Scheduler.Threads.{
  DispatcherPc, drained, admitted, packed, requeued, reserved, WorkerPc, running, System, oversized,
  fitting, reject_oversized, finished_metrics, batch_metrics, record_batch, count_batch,
  count_allocations, Dispatch, leave_space, find_space, leave_jobs, take_jobs, fail_no_gpu, admit,
  pack, requeue, pause, reserve, enqueue, Work, leave, take_batch, drop_no_gpu, succeed, fail,
  count, release, Step, client_push, client_count, dispatch, work, request_stop,
}

-- Jobs in the dispatcher's variables, and in a worker's: those without a record yet.
abbrev pub dispatcher_jobs : DispatcherPc → List InferenceJob
dispatcher_jobs (drained candidates) = candidates
dispatcher_jobs (admitted candidates) = candidates
dispatcher_jobs (packed selected remaining) = selected ++ remaining
dispatcher_jobs (requeued selected) = selected
dispatcher_jobs (reserved selected) = selected
dispatcher_jobs _ = []

abbrev pub worker_jobs : WorkerPc → List InferenceJob
worker_jobs (running batch) = batch
worker_jobs _ = []

module _ (w : InferenceJob → ℕ) (v : JobMetrics → ℕ) where
  -- The weight of what the shared fields hold.
  abbrev pub shared : BatchScheduler → ℕ
  shared s = total v s.metrics + total w s.queue.jobs + total (total w) s.batch_queue

  abbrev pub worker_weight : WorkerPc → ℕ
  worker_weight pc = total w (worker_jobs pc)

  -- The weight of everything in the system.
  abbrev pub holding : System → ℕ
  holding x =
      shared x.sched + total w (dispatcher_jobs x.dispatcher) + total worker_weight x.workers

pub empty-total {ℓ} :
    {A : Type ℓ} (w : A → ℕ) (xs : List A) → ltb 0 (length xs) ≡ false → total w xs ≡ 0
empty-total w [] h = refl
empty-total w (x ∷ xs) h = absurd (ground arith)

-- The loop that finds the oversized jobs splits the candidates.
keep_split :
    (w : InferenceJob → ℕ) (limit : ℕ) (jobs : List InferenceJob)
    → total w (keep (λ job. ltb limit (bytes_required job)) jobs)
        + total w (keep (λ job. leb (bytes_required job) limit) jobs)
      ≡ total w jobs
keep_split w limit [] = refl
keep_split w limit (job ∷ jobs) = ground (arith, keep_split w limit jobs)

pub total-oversized :
    (w : InferenceJob → ℕ) (limit : ℕ) (jobs : List InferenceJob)
    → total w (oversized limit jobs) + total w (fitting limit jobs) ≡ total w jobs
unfolding oversized fitting
total-oversized w limit jobs = ground (arith, keep_split w limit jobs)

-- Records weigh what their jobs weigh.
pub record Agrees (w : InferenceJob → ℕ) (v : JobMetrics → ℕ) : Type 0 where
  pub on_failed : (job : InferenceJob) → v (failed_metrics job) ≡ w job
  pub on_finished :
      (job : InferenceJob) (pickup finish : ℕ) → v (finished_metrics job pickup finish) ≡ w job

module _ {w : InferenceJob → ℕ} {v : JobMetrics → ℕ} (g : Agrees w v) where
  total-failed : (batch : List InferenceJob) → total v (map failed_metrics batch) ≡ total w batch
  total-failed [] = refl
  total-failed (job ∷ batch) = omega (arith, total-failed batch, g.on_failed job)

  total-batch_metrics :
      (clock : InferenceJob → ℕ × ℕ) (batch : List InferenceJob)
      → total v (batch_metrics clock batch) ≡ total w batch
  unfolding batch_metrics
  total-batch_metrics clock [] = refl
  total-batch_metrics clock (job ∷ batch) =
      omega (arith, total-batch_metrics clock batch, g.on_finished job (clock job).0 (clock job).1)

  pub shared-fail_batch :
      (batch : List InferenceJob) (s : BatchScheduler)
      → shared w v (fail_batch batch s) ≡ shared w v s + total w batch
  unfolding fail_batch
  shared-fail_batch batch s =
      omega (arith, total-append v s.metrics (map failed_metrics batch), total-failed batch)

  pub shared-record_batch :
      (clock : InferenceJob → ℕ × ℕ) (batch : List InferenceJob) (s : BatchScheduler)
      → shared w v (record_batch clock batch s) ≡ shared w v s + total w batch
  unfolding record_batch
  shared-record_batch clock batch s =
      omega (
        arith,
        total-append v s.metrics (batch_metrics clock batch),
        total-batch_metrics clock batch,
      )

  shared-reject_oversized :
      (jobs : List InferenceJob) (s : BatchScheduler)
      → shared w v (reject_oversized jobs s) + total w (fitting (max_job_bytes s) jobs)
        ≡ shared w v s + total w jobs
  unfolding reject_oversized
  shared-reject_oversized jobs s =
      elim (Bool-cases (ltb 0 (length (oversized (max_job_bytes s) jobs)))) [
        | inl some_big ↦ rw some_big (
            omega (
              arith,
              shared-fail_batch (oversized (max_job_bytes s) jobs) _,
              total-oversized w (max_job_bytes s) jobs,
            ))
        | inr none_big ↦
            rw none_big
              (omega (arith, empty-total w _ none_big, total-oversized w (max_job_bytes s) jobs))
      ]

  -- A step of the dispatcher moves jobs, and neither loses nor makes one.
  Dispatch-shared :
      {limit : ℕ} {s t : BatchScheduler} {pc pc' : DispatcherPc}
      → Dispatch limit s pc t pc'
      → shared w v t + total w (dispatcher_jobs pc') ≡ shared w v s + total w (dispatcher_jobs pc)
  unfolding reserve_bytes
  Dispatch-shared (leave_space _) = refl
  Dispatch-shared (find_space _ _) = refl
  Dispatch-shared (leave_jobs _) = refl
  Dispatch-shared {s} (take_jobs _ _) = omega (arith, ap (total w) (drain-jobs s.queue))
  Dispatch-shared {s} (fail_no_gpu {candidates} _) = omega (arith, shared-fail_batch candidates s)
  Dispatch-shared {s} (admit {candidates} _) = shared-reject_oversized candidates s
  Dispatch-shared {s} (pack {candidates} now free_mem_bytes p _ e) =
      let t : total w (p.selected ++ p.remaining) ≡ total w candidates =
        rw e (total-perm w (pack_jobs-perm now candidates _ _)) in
      omega arith
  Dispatch-shared {s} (requeue {selected} {remaining}) = omega (
    arith,
    total-perm w (push_all-perm s.queue remaining),
    total-append w remaining s.queue.jobs,
    total-append w selected remaining,
  )
  Dispatch-shared pause = refl
  Dispatch-shared reserve = refl
  Dispatch-shared {s} (enqueue {selected}) =
      omega (arith, total-append (total w) s.batch_queue (selected ∷ []))

  Work-shared :
      {s t : BatchScheduler} {pc pc' : WorkerPc}
      → Work s pc t pc'
      → shared w v t + total w (worker_jobs pc') ≡ shared w v s + total w (worker_jobs pc)
  unfolding release_bytes count_batch count_allocations
  Work-shared (leave _ _) = refl
  Work-shared (take_batch batch rest e) = omega (arith, ap (total (total w)) e)
  Work-shared {s} (drop_no_gpu {batch} _) = omega (arith, shared-fail_batch batch s)
  Work-shared {s} (succeed {batch} clock retries _) =
      omega (arith, shared-record_batch clock batch (count_allocations retries 0 s))
  Work-shared {s} (fail {batch} retries failures _) =
      omega (arith, shared-fail_batch batch (count_allocations retries failures s))
  Work-shared count = refl
  Work-shared release = refl

  -- No step but a submission changes the total weight; a submission adds the weight of its job.
  abbrev pub submitted_weight : {limit : ℕ} {x y : System} → Step limit x y → ℕ
  submitted_weight {x = x} (client_push now job) =
      w (record job { submit_time = now; seq = x.sched.next_seq })
  submitted_weight _ = 0

  pub Step-holding :
      {limit : ℕ} {x y : System} (st : Step limit x y)
      → holding w v y ≡ holding w v x + submitted_weight st
  unfolding submit_push submit_count
  Step-holding {x = x} (client_push now job) = omega (
    arith,
    total-perm w
        (push-perm x.sched.queue (record job { submit_time = now; seq = x.sched.next_seq })),
  )
  Step-holding (client_count n _) = omega arith
  Step-holding (dispatch d) = omega (arith, Dispatch-shared d)
  Step-holding (work before after old {pc = pc} e k) = omega (
    arith,
    Work-shared k,
    ap (total (worker_weight w v)) e,
    total-append (worker_weight w v) before (old ∷ after),
    total-append (worker_weight w v) before (pc ∷ after),
  )
  Step-holding request_stop = omega arith
