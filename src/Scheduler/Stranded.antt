-- ===== src/Scheduler/Stranded.antt =====
-- `stop` of src/sched/scheduler.cpp against a dispatcher that is about to enqueue a batch.
use gpu_batch_inference_sche.Common.{
  ℕ, zero, suc, ◌≡◌, refl, List, [], ◌∷◌, ◌++◌, ap, true, All, sym, subst, append_assoc,
}
use gpu_batch_inference_sche.Job.{InferenceJob}
use gpu_batch_inference_sche.Scheduler.{BatchScheduler}
use gpu_batch_inference_sche.Scheduler.Threads.{
  await_space, reserved, dispatcher_done, WorkerPc, idle, idles, worker_done, System, Dispatch,
  leave_space, enqueue, leave, dispatch, work, request_stop, Reach, here, next,
}

dones : ℕ → List WorkerPc
dones zero = []
dones (suc n) = worker_done ∷ dones n

Reach-trans : {limit : ℕ} {x y z : System} → Reach limit x y → Reach limit y z → Reach limit x z
Reach-trans r here = r
Reach-trans r (next q st) = next (Reach-trans r q) st

-- With an empty batch queue and the shutdown requested, the idle workers end one after another.
workers_leave :
    (limit : ℕ) (x : System) (n : ℕ) (before : List WorkerPc)
    → x.workers ≡ before ++ idles n
    → x.sched.shutdown ≡ true
    → x.sched.batch_queue ≡ []
    → Reach limit x (record x { workers = before ++ dones n })
unfolding dones
workers_leave limit x zero before e h q = rw (← e) here
workers_leave limit x (suc n) before e h q =
    let y : System = record x { workers = before ++ worker_done ∷ idles n } in
    let r : Reach limit x y = next here (work before (idles n) idle e (leave h q)) in
    let rest =
      workers_leave limit y n (before ++ worker_done ∷ []) (sym (append_assoc before _ _)) h q in
    Reach-trans r
      (subst (λ l. Reach limit y (record x { workers = l })) (append_assoc before _ _) rest)

-- What `stop` leaves behind when the dispatcher has reserved for `selected` and all workers are idle.
pub record IsStranded (selected : List InferenceJob) (x y : System) : Type 0 where
  pub dispatcher_ended : y.dispatcher ≡ dispatcher_done
  pub workers_ended : All (λ pc. pc ≡ worker_done) y.workers
  pub not_run : y.sched.batch_queue ≡ selected ∷ []
  pub not_released : y.sched.reserved_bytes ≡ x.sched.reserved_bytes
  pub not_recorded : y.sched.metrics ≡ x.sched.metrics

dones-ended : (n : ℕ) → All (λ pc. pc ≡ worker_done) (dones n)
unfolding dones
dones-ended zero = tt
dones-ended (suc n) = (refl, dones-ended n)

-- If the stop is requested while the dispatcher holds a packed batch that it has not enqueued, the
-- batch queue is empty and all workers are idle, then all threads may end with that batch in the
-- queue: it is never executed, its jobs get no record, and its bytes stay reserved.
pub stop_may_strand :
    (limit : ℕ) (x : System) (n : ℕ) (selected : List InferenceJob)
    → x.dispatcher ≡ reserved selected
    → x.sched.batch_queue ≡ []
    → x.workers ≡ idles n
    → (y : System) × Reach limit x y × IsStranded selected x y
stop_may_strand limit x n selected d q e = (
  record x { sched = queued; dispatcher = dispatcher_done; workers = dones n },
  next (next stopped (dispatch enqueued)) (dispatch (leave_space refl)),
  record {
    dispatcher_ended = refl;
    workers_ended = dones-ended n;
    not_run = ap (λ batches. batches ++ selected ∷ []) q;
    not_released = refl;
    not_recorded = refl;
  },
)
  where
    halted : BatchScheduler
    halted = record (x.sched) { shutdown = true }

    queued : BatchScheduler
    queued = record halted { batch_queue = x.sched.batch_queue ++ selected ∷ [] }

    stopped : Reach limit x (record x { sched = halted; workers = dones n })
    stopped =
        Reach-trans (next here request_stop)
          (workers_leave limit (record x { sched = halted }) n [] e refl q)

    enqueued : Dispatch limit halted x.dispatcher queued await_space
    enqueued = subst (λ pc. Dispatch limit halted pc queued await_space) (sym d) enqueue
