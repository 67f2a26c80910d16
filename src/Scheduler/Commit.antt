-- ===== src/Scheduler/Commit.antt =====
-- The scheduler of src/sched/scheduler.cpp never overcommits against itself, in any interleaving.
use gpu_batch_inference_sche.Common.{
  ℕ, zero, suc, ◌+◌, ◌^◌, ◌≤◌, ◌<◌, ◌≡◌, refl, List, ◌∷◌, ◌++◌, total, total-append, arith, ap,
  Option, pos_part,
}
use gpu_batch_inference_sche.Scheduler.{
  BatchScheduler, Options, new_scheduler, start, submit_push, submit_count,
}
use gpu_batch_inference_sche.Scheduler.Threads.{
  DispatcherPc, WorkerPc, idles, System, Dispatch, Work, Step, client_push, client_count, dispatch,
  work, request_stop, Reach, here, next, initial,
}
use gpu_batch_inference_sche.Scheduler.Reserve.{
  bytes_of, dispatcher_reserved, dispatcher_planned, worker_reserved, unfinished_bytes, IsReserved,
  Beside, Dispatch-Beside, Among, Work-Among,
}

module _ (limit : ℕ) (small : limit < 2 ^ 63) where
  Dispatch-IsReserved :
      {x : System} {s : BatchScheduler} {pc : DispatcherPc}
      → Dispatch limit x.sched x.dispatcher s pc
      → IsReserved limit x
      → IsReserved limit (record x { sched = s; dispatcher = pc })
  Dispatch-IsReserved {x} {s} {pc} d h =
      let held : ℕ = total worker_reserved x.workers in
      let b : Beside limit small held s pc =
        Dispatch-Beside limit small held d (record { exact = h.exact; room = h.room }) in
      record { exact = b.exact; room = b.room }

  Work-IsReserved :
      {x : System} (before after : List WorkerPc) (old : WorkerPc) {s : BatchScheduler}
      {pc : WorkerPc}
      → x.workers ≡ before ++ old ∷ after
      → Work x.sched old s pc
      → IsReserved limit x
      → IsReserved limit (record x { sched = s; workers = before ++ pc ∷ after })
  Work-IsReserved {x} before after old {s} {pc} e k h =
      let held : ℕ =
        bytes_of (dispatcher_reserved x.dispatcher)
        + total worker_reserved before
        + total worker_reserved after in
      let b : Among limit small held (bytes_of (dispatcher_planned x.dispatcher)) s pc =
        Work-Among limit small held _ k (record {
          exact = omega (
            arith,
            h.exact,
            ap (total worker_reserved) e,
            total-append worker_reserved before (old ∷ after),
          );
          room = h.room;
        }) in
      record {
        exact = omega (arith, b.exact, total-append worker_reserved before (pc ∷ after));
        room = b.room;
      }

  pub Step-IsReserved : {x y : System} → Step limit x y → IsReserved limit x → IsReserved limit y
  unfolding submit_push submit_count
  Step-IsReserved (client_push _ _) h = record { exact = h.exact; room = h.room }
  Step-IsReserved (client_count _ _) h = record { exact = h.exact; room = h.room }
  Step-IsReserved (dispatch d) h = Dispatch-IsReserved d h
  Step-IsReserved (work before after old e k) h = Work-IsReserved before after old e k h
  Step-IsReserved request_stop h = record { exact = h.exact; room = h.room }

  reserved-idles : (n : ℕ) → total worker_reserved (idles n) ≡ 0
  reserved-idles zero = refl
  reserved-idles (suc n) = omega (arith, reserved-idles n)

  pub initial-IsReserved :
      (opts : Options) (ndev sampled_total : ℕ) (mem_info : Option ℕ)
      → IsReserved limit (initial opts ndev sampled_total mem_info)
  unfolding initial start new_scheduler
  initial-IsReserved opts ndev sampled_total mem_info = record {
    exact = omega (arith, reserved-idles (pos_part opts.num_workers));
    room = omega arith;
  }

  Reach-IsReserved :
      (opts : Options) (ndev sampled_total : ℕ) (mem_info : Option ℕ) {x : System}
      → Reach limit (initial opts ndev sampled_total mem_info) x
      → IsReserved limit x
  Reach-IsReserved opts ndev sampled_total mem_info here =
      initial-IsReserved opts ndev sampled_total mem_info
  Reach-IsReserved opts ndev sampled_total mem_info (next r st) =
      Step-IsReserved st (Reach-IsReserved opts ndev sampled_total mem_info r)

  -- In every reachable state `reserved_bytes_` is exactly the number of bytes that the batches packed
  -- and not finished need, and that number is at most the bound on the base budgets that the run
  -- samples, provided this bound is below 2^63.
  pub never_overcommitted :
      (opts : Options) (ndev sampled_total : ℕ) (mem_info : Option ℕ) {x : System}
      → Reach limit (initial opts ndev sampled_total mem_info) x
      → (x.sched.reserved_bytes ≡ unfinished_bytes x) × (unfinished_bytes x ≤ limit)
  never_overcommitted opts ndev sampled_total mem_info r =
      let h = Reach-IsReserved opts ndev sampled_total mem_info r in
      (h.exact, omega (arith, h.exact, h.room))
