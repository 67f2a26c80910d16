-- ===== src/Scheduler/Restart.antt =====
-- `stop` and `start` of src/sched/scheduler.cpp one after the other: the life of a scheduler that is
-- stopped and started again.
use gpu_batch_inference_sche.Common.{
  ℕ, zero, suc, ◌^◌, ◌≤◌, ◌<◌, ◌≡◌, refl, inl, inr, List, [], ◌∷◌, All, total, arith, ltb,
  if◌then◌else◌, Option, pos_part, false, sym, subst, ◌∙◌, length, ap,
}
use gpu_batch_inference_sche.Job.{InferenceJob}
use gpu_batch_inference_sche.Scheduler.{BatchScheduler, Options, JobMetrics, start}
use gpu_batch_inference_sche.Scheduler.Threads.{
  await_space, dispatcher_done, WorkerPc, idle, idles, worker_done, System, Step, initial, here,
}
use gpu_batch_inference_sche.Scheduler.Holding.{
  dispatcher_jobs, worker_jobs, holding, Step-holding, worker_weight,
}
use gpu_batch_inference_sche.Scheduler.Counters.{
  seq_is, record_is, seq-Agrees, Step-seq, placed_once,
}
use gpu_batch_inference_sche.Scheduler.Counted.{Counted, Step-Counted, initial-Counted, uncompleted}
use gpu_batch_inference_sche.Scheduler.Reserve.{
  IsReserved, unfinished_bytes, worker_reserved, bytes_of, dispatcher_reserved,
}
use gpu_batch_inference_sche.Scheduler.Commit.{Step-IsReserved, initial-IsReserved}
use gpu_batch_inference_sche.Scheduler.Abstract.{Served, unserved, serve, nothing}
use gpu_batch_inference_sche.Scheduler.Outcome.{view, total-pending_jobs}
use gpu_batch_inference_sche.Scheduler.Refines.{Step-refines, view-initial, same_view}

-- The joins of `stop` return: all threads have ended.
abbrev pub HasStopped : System → Type 0
HasStopped x = (x.dispatcher ≡ dispatcher_done) × All (λ pc. pc ≡ worker_done) x.workers

-- The end of `stop`, after the joins.
abbrev pub end_stop : BatchScheduler → BatchScheduler
end_stop s = record s { started = false }

-- `start` on a scheduler that was stopped, and its new threads.
unfoldable pub restart : ℕ → ℕ → Option ℕ → System → System
restart ndev sampled_total mem_info x = record x {
  sched = start ndev sampled_total mem_info (end_stop x.sched);
  dispatcher = await_space;
  workers = idles (pos_part x.sched.opts.num_workers);
}

-- A scheduler that is started, runs, and may be stopped and started again.
pub data Life (limit : ℕ) (x₀ : System) : System → Type 0 where
  born : Life limit x₀ x₀
  acts : {x y : System} → Life limit x₀ x → Step limit x y → Life limit x₀ y
  restarts :
      {x : System} (ndev sampled_total : ℕ) (mem_info : Option ℕ)
      → Life limit x₀ x
      → HasStopped x
      → Life limit x₀ (restart ndev sampled_total mem_info x)

total-idles : (f : WorkerPc → ℕ) → f idle ≡ 0 → (n : ℕ) → total f (idles n) ≡ 0
total-idles f e zero = refl
total-idles f e (suc n) = omega (arith, e, total-idles f e n)

total-ended :
    (f : WorkerPc → ℕ)
    → f worker_done ≡ 0
    → (workers : List WorkerPc) → All (λ pc. pc ≡ worker_done) workers
    → total f workers ≡ 0
total-ended f e [] h = refl
total-ended f e (pc ∷ workers) (same, h) =
    let here : f pc ≡ 0 = rw same e in omega (arith, here, total-ended f e workers h)

module _ (ndev sampled_total : ℕ) (mem_info : Option ℕ) (x : System) (h : HasStopped x) where
  -- Workers weigh nothing before and after.
  workers_total :
      (f : WorkerPc → ℕ)
      → f idle ≡ 0
      → f worker_done ≡ 0
      → total f (idles (pos_part x.sched.opts.num_workers)) ≡ total f x.workers
  workers_total f e e' =
      total-idles f e (pos_part x.sched.opts.num_workers) ∙ sym (total-ended f e' x.workers h.1)

  restart-Counted : Counted x → Counted (restart ndev sampled_total mem_info x)
  unfolding restart start
  restart-Counted c = record {
    on_submitted = c.on_submitted;
    on_completed = omega (arith, c.on_completed, workers_total uncompleted refl refl);
    on_recorded = omega (
      arith,
      c.on_recorded,
      ap (λ pc. length (dispatcher_jobs pc)) h.0,
      workers_total (λ pc. length (worker_jobs pc)) refl refl,
    );
  }

  restart-IsReserved :
      (limit : ℕ) → IsReserved limit x → IsReserved limit (restart ndev sampled_total mem_info x)
  unfolding restart start
  restart-IsReserved limit c = record {
    exact = omega (
      arith,
      c.exact,
      ap (λ pc. bytes_of (dispatcher_reserved pc)) h.0,
      workers_total worker_reserved refl refl,
    );
    room = omega (arith, c.room);
  }

  restart-holding :
      (w : InferenceJob → ℕ) (v : JobMetrics → ℕ)
      → holding w v (restart ndev sampled_total mem_info x) ≡ holding w v x
  unfolding restart start
  restart-holding w v = omega (
    arith,
    ap (λ pc. total w (dispatcher_jobs pc)) h.0,
    workers_total (worker_weight w v) refl refl,
  )

  restart-next_seq : (restart ndev sampled_total mem_info x).sched.next_seq ≡ x.sched.next_seq
  unfolding restart start
  restart-next_seq = refl

  restart-view : view (restart ndev sampled_total mem_info x) ≡ view x
  unfolding restart start
  restart-view =
      same_view x (restart ndev sampled_total mem_info x)
        (λ w. omega (
          arith,
          total-pending_jobs w x,
          total-pending_jobs w (restart ndev sampled_total mem_info x),
          ap (λ pc. total w (dispatcher_jobs pc)) h.0,
          workers_total (λ pc. total w (worker_jobs pc)) refl refl,
        ))
        refl refl

module _ (opts : Options) (ndev sampled_total : ℕ) (mem_info : Option ℕ) (limit : ℕ) where
  abbrev start_state : System
  start_state = initial opts ndev sampled_total mem_info

  -- Each sequence number that was given out stands in exactly one place: in the queue, with the
  -- dispatcher, in a batch, with a worker, or in the metrics; the others stand nowhere. So it is in
  -- every state that the threads reach, however often the scheduler is stopped and started again.
  pub Life-placed_once :
      {x : System}
      → Life limit start_state x
      → (a : ℕ) → holding (seq_is a) (record_is a) x ≡ (if ltb a x.sched.next_seq then 1 else 0)
  Life-placed_once born a = placed_once opts ndev sampled_total mem_info limit here a
  Life-placed_once (acts l st) a =
      omega (arith, Step-holding (seq-Agrees a) st, Step-seq st a, Life-placed_once l a)
  Life-placed_once (restarts {x} n t i l h) a =
      restart-holding n t i x h (seq_is a) (record_is a)
      ∙ Life-placed_once l a
      ∙ ap (λ s. if ltb a s then 1 else 0) (sym (restart-next_seq n t i x h))

  -- In every such state `submitted_` is the number of submissions less those about to count,
  -- `completed_` is the number of records less those about to be counted, and the records together
  -- with the jobs still on their way are all the jobs ever accepted.
  pub Life-Counted : {x : System} → Life limit start_state x → Counted x
  Life-Counted born = initial-Counted opts ndev sampled_total mem_info
  Life-Counted (acts l st) = Step-Counted st (Life-Counted l)
  Life-Counted (restarts {x} n t i l h) = restart-Counted n t i x h (Life-Counted l)

  Life-IsReserved : limit < 2 ^ 63 → {x : System} → Life limit start_state x → IsReserved limit x
  Life-IsReserved small born = initial-IsReserved limit small opts ndev sampled_total mem_info
  Life-IsReserved small (acts l st) = Step-IsReserved limit small st (Life-IsReserved small l)
  Life-IsReserved small (restarts {x} n t i l h) =
      restart-IsReserved n t i x h limit (Life-IsReserved small l)

  -- In every such state `reserved_bytes_` is exactly the number of bytes that the batches packed and
  -- not finished need, and that number is at most the bound on the base budgets that the threads
  -- sample, provided this bound is below 2^63.
  pub Life-never_overcommitted :
      {x : System}
      → limit < 2 ^ 63
      → Life limit start_state x
      → (x.sched.reserved_bytes ≡ unfinished_bytes x) × (unfinished_bytes x ≤ limit)
  Life-never_overcommitted small l =
      let h = Life-IsReserved small l in (h.exact, omega (arith, h.exact, h.room))

  -- Whatever the threads do, and however often the scheduler is stopped and started again, a client
  -- sees the abstract service: its view goes from the empty service by submissions and by settlements,
  -- in each of which jobs that were pending, and no others, get their records, all as failed or all as
  -- finished. Nothing else that happens can be seen.
  pub Life-refines : {x : System} → Life limit start_state x → Served nothing (view x)
  Life-refines born = rw (view-initial opts ndev sampled_total mem_info) unserved
  Life-refines (acts l st) = elim (Step-refines st) [
    | inl same ↦ subst (Served nothing) (sym same) (Life-refines l)
    | inr served ↦ serve (Life-refines l) served
  ]
  Life-refines (restarts {x} n t i l h) =
      subst (Served nothing) (sym (restart-view n t i x h)) (Life-refines l)
