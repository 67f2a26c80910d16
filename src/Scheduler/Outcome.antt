-- ===== src/Scheduler/Outcome.antt =====
-- What one step of a thread of src/sched/scheduler.cpp does to the jobs that have no record yet.
use gpu_batch_inference_sche.Common.{
  ℕ, ◌+◌, ◌≡◌, refl, ap, inl, inr, List, [], ◌∷◌, ◌++◌, map, total, total-append, total-perm,
  Bool-cases, ltb, length, arith,
}
use gpu_batch_inference_sche.Job.{InferenceJob}
use gpu_batch_inference_sche.Queue.Order.{push_all-perm, drain-jobs}
use gpu_batch_inference_sche.Pack.Sweep.{pack_jobs-perm}
use gpu_batch_inference_sche.Scheduler.{
  BatchScheduler, JobMetrics, max_job_bytes, reserve_bytes, release_bytes, fail_batch,
  failed_metrics,
}
use gpu_batch_inference_sche.Scheduler.Threads.{
  DispatcherPc, WorkerPc, System, oversized, fitting, reject_oversized, batch_metrics, record_batch,
  count_batch, count_allocations, Dispatch, leave_space, find_space, leave_jobs, take_jobs,
  fail_no_gpu, admit, pack, requeue, pause, reserve, enqueue, Work, leave, take_batch, drop_no_gpu,
  succeed, fail, count, release,
}
use gpu_batch_inference_sche.Scheduler.Holding.{
  dispatcher_jobs, worker_jobs, total-oversized, empty-total,
}
use gpu_batch_inference_sche.Scheduler.Abstract.{bag, Promise, Verdict, all_failed, all_finished}

-- The jobs of the members of a list.
abbrev pub join_jobs {ℓ} : {A : Type ℓ} → (A → List InferenceJob) → List A → List InferenceJob
join_jobs jobs [] = []
join_jobs jobs (x ∷ xs) = jobs x ++ join_jobs jobs xs

total-join_jobs {ℓ} :
    {A : Type ℓ} (w : InferenceJob → ℕ) (jobs : A → List InferenceJob) (xs : List A)
    → total w (join_jobs jobs xs) ≡ total (λ x. total w (jobs x)) xs
total-join_jobs w jobs [] = refl
total-join_jobs w jobs (x ∷ xs) =
    omega (arith, total-join_jobs w jobs xs, total-append w (jobs x) (join_jobs jobs xs))

-- The jobs without a record: in the queue, in the batches, with the dispatcher, with the workers.
abbrev pub pending_jobs : System → List InferenceJob
pending_jobs x =
    x.sched.queue.jobs
    ++ (join_jobs (λ batch. batch) x.sched.batch_queue
        ++ (dispatcher_jobs x.dispatcher ++ join_jobs worker_jobs x.workers))

-- What a client can tell of a state.
abbrev pub view : System → Promise
view x = record {
  pending = bag (pending_jobs x);
  records = x.sched.metrics;
  next_seq = x.sched.next_seq;
}

-- The weight of the jobs in the shared fields.
abbrev pub waiting : (InferenceJob → ℕ) → BatchScheduler → ℕ
waiting w s = total w s.queue.jobs + total (total w) s.batch_queue

pub total-pending_jobs :
    (w : InferenceJob → ℕ) (x : System)
    → total w (pending_jobs x)
      ≡ waiting w x.sched
        + total w (dispatcher_jobs x.dispatcher)
        + total (λ pc. total w (worker_jobs pc)) x.workers
total-pending_jobs w x =
    let batches : List InferenceJob = join_jobs (λ batch. batch) x.sched.batch_queue in
    let working : List InferenceJob = join_jobs worker_jobs x.workers in
    omega (
      arith,
      total-append w x.sched.queue.jobs (batches ++ (dispatcher_jobs x.dispatcher ++ working)),
      total-append w batches (dispatcher_jobs x.dispatcher ++ working),
      total-append w (dispatcher_jobs x.dispatcher) working,
      total-join_jobs w (λ batch. batch) x.sched.batch_queue,
      total-join_jobs w worker_jobs x.workers,
    )

-- What a step of one thread does to the jobs in the shared fields and in its variables: it moves them,
-- or takes some out with their records.
pub data Outcome (s : BatchScheduler) (jobs : List InferenceJob) (t : BatchScheduler)
    (jobs' : List InferenceJob) : Type 0 where
  moved :
      t.metrics ≡ s.metrics
      → t.next_seq ≡ s.next_seq
      → ((w : InferenceJob → ℕ) → waiting w t + total w jobs' ≡ waiting w s + total w jobs)
      → Outcome s jobs t jobs'
  written :
      (batch : List InferenceJob) (records : List JobMetrics)
      → Verdict batch records
      → t.metrics ≡ s.metrics ++ records
      → t.next_seq ≡ s.next_seq
      → ((w : InferenceJob → ℕ)
          → waiting w t + total w jobs' + total w batch ≡ waiting w s + total w jobs)
      → Outcome s jobs t jobs'

reject_oversized-Outcome :
    (jobs : List InferenceJob) (s : BatchScheduler)
    → Outcome s jobs (reject_oversized jobs s) (fitting (max_job_bytes s) jobs)
unfolding reject_oversized fail_batch
reject_oversized-Outcome jobs s =
    let big = oversized (max_job_bytes s) jobs in
    elim (Bool-cases (ltb 0 (length big))) [
      | inl some_big ↦ rw some_big (
          written big (map failed_metrics big) all_failed refl refl
            (λ w. omega (arith, total-oversized w (max_job_bytes s) jobs)))
      | inr none_big ↦ rw none_big (
          moved refl refl (λ w.
            omega (arith, empty-total w big none_big, total-oversized w (max_job_bytes s) jobs)))
    ]

pub Dispatch-Outcome :
    {limit : ℕ} {s t : BatchScheduler} {pc pc' : DispatcherPc}
    → Dispatch limit s pc t pc'
    → Outcome s (dispatcher_jobs pc) t (dispatcher_jobs pc')
unfolding reserve_bytes fail_batch
Dispatch-Outcome (leave_space _) = moved refl refl (λ w. refl)
Dispatch-Outcome (find_space _ _) = moved refl refl (λ w. refl)
Dispatch-Outcome (leave_jobs _) = moved refl refl (λ w. refl)
Dispatch-Outcome {s} (take_jobs _ _) =
    moved refl refl (λ w. omega (arith, ap (total w) (drain-jobs s.queue)))
Dispatch-Outcome {s} (fail_no_gpu {candidates} _) =
    written candidates (map failed_metrics candidates) all_failed refl refl (λ w. omega arith)
Dispatch-Outcome {s} (admit {candidates} _) = reject_oversized-Outcome candidates s
Dispatch-Outcome {s} (pack {candidates} now free_mem_bytes p _ e) = moved refl refl (λ w.
    let t : total w (p.selected ++ p.remaining) ≡ total w candidates =
      rw e (total-perm w (pack_jobs-perm now candidates _ _)) in
    omega arith)
Dispatch-Outcome {s} (requeue {selected} {remaining}) = moved refl refl (λ w. omega (
  arith,
  total-perm w (push_all-perm s.queue remaining),
  total-append w remaining s.queue.jobs,
  total-append w selected remaining,
))
Dispatch-Outcome pause = moved refl refl (λ w. refl)
Dispatch-Outcome reserve = moved refl refl (λ w. refl)
Dispatch-Outcome {s} (enqueue {selected}) =
    moved refl refl (λ w. omega (arith, total-append (total w) s.batch_queue (selected ∷ [])))

pub Work-Outcome :
    {s t : BatchScheduler} {pc pc' : WorkerPc}
    → Work s pc t pc'
    → Outcome s (worker_jobs pc) t (worker_jobs pc')
unfolding release_bytes count_batch count_allocations fail_batch record_batch
Work-Outcome (leave _ _) = moved refl refl (λ w. refl)
Work-Outcome (take_batch batch rest e) =
    moved refl refl (λ w. omega (arith, ap (total (total w)) e))
Work-Outcome {s} (drop_no_gpu {batch} _) =
    written batch (map failed_metrics batch) all_failed refl refl (λ w. omega arith)
Work-Outcome {s} (succeed {batch} clock retries _) =
    written batch (batch_metrics clock batch) (all_finished clock) refl refl (λ w. omega arith)
Work-Outcome {s} (fail {batch} retries failures _) =
    written batch (map failed_metrics batch) all_failed refl refl (λ w. omega arith)
Work-Outcome count = moved refl refl (λ w. refl)
Work-Outcome release = moved refl refl (λ w. refl)
