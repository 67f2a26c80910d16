-- ===== src/Scheduler/Refines.antt =====
-- The threads of src/sched/scheduler.cpp against the service of `Scheduler.Abstract`.
use gpu_batch_inference_sche.Common.{
  ℕ, zero, suc, pos_part, ◌+◌, ◌≡◌, refl, ap, ◌⊎◌, inl, inr, List, [], ◌∷◌, ◌++◌, total,
  total-append, total-perm, Option, arith, sym, subst,
}
use gpu_batch_inference_sche.Job.{InferenceJob}
use gpu_batch_inference_sche.Queue.Order.{push-perm}
use gpu_batch_inference_sche.Scheduler.{
  Options, new_scheduler, start, JobMetrics, submit_push, submit_count,
}
use gpu_batch_inference_sche.Scheduler.Threads.{
  WorkerPc, System, Step, client_push, client_count, dispatch, work, request_stop, initial, idles,
}
use gpu_batch_inference_sche.Scheduler.Holding.{dispatcher_jobs, worker_jobs}
use gpu_batch_inference_sche.Scheduler.Abstract.{
  SameJobs, bag, bag_path, add_jobs, Verdict, Serve, submitted, settled, nothing,
}
use gpu_batch_inference_sche.Scheduler.Outcome.{
  join_jobs, pending_jobs, view, waiting, total-pending_jobs, Outcome, moved, written,
  Dispatch-Outcome, Work-Outcome,
}

pub same_view :
    (x y : System)
    → SameJobs (pending_jobs y) (pending_jobs x)
    → y.sched.metrics ≡ x.sched.metrics
    → y.sched.next_seq ≡ x.sched.next_seq
    → view y ≡ view x
same_view x y jobs metrics seq =
    rw (bag_path (pending_jobs y) (pending_jobs x) jobs) (rw metrics (rw seq refl))

-- A step of one thread, where `rest` weighs what the others have.
written_view :
    (x y : System) (batch : List InferenceJob) (records : List JobMetrics)
    → SameJobs (pending_jobs x) (batch ++ pending_jobs y)
    → y.sched.metrics ≡ x.sched.metrics ++ records
    → y.sched.next_seq ≡ x.sched.next_seq
    → Verdict batch records
    → Serve (view x) (view y)
unfolding add_jobs
written_view x y batch records jobs metrics seq v = rw metrics (
    rw seq (
      settled batch (bag (pending_jobs y)) records
        (bag_path (pending_jobs x) (batch ++ pending_jobs y) jobs) v))

-- A step of one thread, where `rest` weighs what the others have.
Outcome-view :
    (x y : System) (jobs jobs' : List InferenceJob) (rest : (InferenceJob → ℕ) → ℕ)
    → Outcome x.sched jobs y.sched jobs'
    → ((w : InferenceJob → ℕ)
        → total w (pending_jobs x) ≡ waiting w x.sched + total w jobs + rest w)
    → ((w : InferenceJob → ℕ)
        → total w (pending_jobs y) ≡ waiting w y.sched + total w jobs' + rest w)
    → (view y ≡ view x) ⊎ Serve (view x) (view y)
Outcome-view x y jobs jobs' rest (moved metrics seq weight) before after =
    inl (same_view x y (λ w. omega (arith, weight w, before w, after w)) metrics seq)
Outcome-view x y jobs jobs' rest (written batch records v metrics seq weight) before after = inr (
    written_view x y batch records
      (λ w. omega (arith, weight w, before w, after w, total-append w batch (pending_jobs y)))
      metrics seq v)

-- What one step of the program is to a client: nothing, or one step of the service.
pub Step-refines :
    {limit : ℕ} {x y : System} → Step limit x y → (view y ≡ view x) ⊎ Serve (view x) (view y)
unfolding submit_push submit_count add_jobs
Step-refines {x = x} (client_push now job) =
    let new : InferenceJob = record job { submit_time = now; seq = x.sched.next_seq } in
    let y : System = record x {
      sched = (submit_push now job x.sched).0;
      uncounted = suc x.uncounted;
    } in
    let jobs : SameJobs (pending_jobs y) (new ∷ pending_jobs x) = λ w. omega (
      arith,
      total-perm w (push-perm x.sched.queue new),
      total-pending_jobs w x,
      total-pending_jobs w y,
    ) in
    inr (
      subst (λ b. Serve (view x) (record (view x) { pending = b; next_seq = suc x.sched.next_seq }))
        (sym (bag_path (pending_jobs y) (new ∷ pending_jobs x) jobs)) (submitted now job))
Step-refines (client_count n _) = inl refl
Step-refines {x = x} (dispatch {s} {pc} d) =
    let y : System = record x { sched = s; dispatcher = pc } in
    Outcome-view x y (dispatcher_jobs x.dispatcher) (dispatcher_jobs pc)
      (λ w. total (λ k. total w (worker_jobs k)) x.workers) (Dispatch-Outcome d)
      (λ w. total-pending_jobs w x) (λ w. total-pending_jobs w y)
Step-refines {x = x} (work before after old {s} {pc} e k) =
    let y : System = record x { sched = s; workers = before ++ pc ∷ after } in
    let weight : (InferenceJob → ℕ) → WorkerPc → ℕ = λ w k. total w (worker_jobs k) in
    Outcome-view x y (worker_jobs old) (worker_jobs pc)
      (λ w.
        total w (dispatcher_jobs x.dispatcher) + total (weight w) before + total (weight w) after)
      (Work-Outcome k)
      (λ w. omega (
        arith,
        total-pending_jobs w x,
        ap (total (weight w)) e,
        total-append (weight w) before (old ∷ after),
      ))
      (λ w. omega (arith, total-pending_jobs w y, total-append (weight w) before (pc ∷ after)))
Step-refines request_stop = inl refl

idle_jobs : (n : ℕ) → join_jobs worker_jobs (idles n) ≡ []
idle_jobs zero = refl
idle_jobs (suc n) = idle_jobs n

pub view-initial :
    (opts : Options) (ndev sampled_total : ℕ) (mem_info : Option ℕ)
    → view (initial opts ndev sampled_total mem_info) ≡ nothing
unfolding initial start new_scheduler
view-initial opts ndev sampled_total mem_info =
    ap (λ jobs. record nothing { pending = bag jobs }) (idle_jobs (pos_part opts.num_workers))
