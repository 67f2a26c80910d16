-- ===== src/Scheduler/Batches.antt =====
-- The batch queue of src/sched/scheduler.cpp: how long it gets, and what its batches are.
use gpu_batch_inference_sche.Common.{
  ℕ, ◌+◌, ◌^◌, ◌≤◌, ◌<◌, ◌≡◌, refl, List, [], ◌∷◌, length, length-append, arith, ap, Option, pos,
  All, All-append, ◌∙◌,
}
use gpu_batch_inference_sche.Job.{InferenceJob}
use gpu_batch_inference_sche.Scheduler.{
  BatchScheduler, Options, new_scheduler, start, submit_push, submit_count, reserve_bytes,
  release_bytes, fail_batch,
}
use gpu_batch_inference_sche.Scheduler.Threads.{
  DispatcherPc, await_space, packed, requeued, reserved, dispatcher_done, WorkerPc, System,
  max_queue_depth, record_batch, count_batch, count_allocations, Dispatch, leave_space, find_space,
  leave_jobs, take_jobs, fail_no_gpu, admit, pack, requeue, pause, reserve, enqueue, Work, leave,
  take_batch, drop_no_gpu, succeed, fail, count, release, Step, client_push, client_count, dispatch,
  work, request_stop, Reach, here, next, initial,
}
use gpu_batch_inference_sche.Pack.{pack_jobs}
use gpu_batch_inference_sche.Pack.Budget.{pack_jobs_capped}
use gpu_batch_inference_sche.Scheduler.Frame.{reject_oversized-reserved, reject_oversized-frame}

-- The dispatcher has found space, and may still enqueue a batch.
abbrev pub holds_slot : DispatcherPc → ℕ
holds_slot await_space = 0
holds_slot dispatcher_done = 0
holds_slot _ = 1

-- A batch has a job, and no more than the cap.
abbrev pub IsBatch : ℕ → List InferenceJob → Type 0
IsBatch cap batch = (0 < length batch) × (length batch ≤ cap)

-- What the dispatcher has chosen so far.
abbrev pub IsChoice : ℕ → DispatcherPc → Type 0
IsChoice cap (packed selected remaining) = length selected ≤ cap
IsChoice cap (requeued selected) = length selected ≤ cap
IsChoice cap (reserved selected) = IsBatch cap selected
IsChoice cap _ = Unit {0}

pub record IsShaped (opts : Options) (cap : ℕ) (s : BatchScheduler) (pc : DispatcherPc)
    : Type 0 where
  pub same_opts : s.opts ≡ opts
  pub depth : length s.batch_queue + holds_slot pc ≤ max_queue_depth opts
  pub batches : All (IsBatch cap) s.batch_queue
  pub choice : IsChoice cap pc

module _ (opts : Options) (cap : ℕ) (capped : opts.max_batch ≡ pos cap) (positive : 0 < cap)
    (fits : cap < 2 ^ 31) where
  pack-choice :
      (s : BatchScheduler) (now budget : ℕ) (candidates : List InferenceJob)
      → s.opts ≡ opts
      → length (pack_jobs now candidates budget s.opts.max_batch).selected ≤ cap
  pack-choice s now budget candidates e =
      let m : s.opts.max_batch ≡ pos cap = ap (λ (o : Options). o.max_batch) e ∙ capped in
      rw m (pack_jobs_capped budget cap positive fits now candidates)

  Dispatch-IsShaped :
      {limit : ℕ} {s t : BatchScheduler} {pc pc' : DispatcherPc}
      → Dispatch limit s pc t pc'
      → IsShaped opts cap s pc
      → IsShaped opts cap t pc'
  unfolding fail_batch reserve_bytes
  Dispatch-IsShaped (leave_space _) h = record {
    same_opts = h.same_opts;
    depth = h.depth;
    batches = h.batches;
    choice = tt;
  }
  Dispatch-IsShaped {s} (find_space _ room) h = record {
    same_opts = h.same_opts;
    depth = rw (← h.same_opts) (omega (arith, room));
    batches = h.batches;
    choice = tt;
  }
  Dispatch-IsShaped (leave_jobs _) h = record {
    same_opts = h.same_opts;
    depth = omega (arith, h.depth);
    batches = h.batches;
    choice = tt;
  }
  Dispatch-IsShaped (take_jobs _ _) h = record {
    same_opts = h.same_opts;
    depth = h.depth;
    batches = h.batches;
    choice = tt;
  }
  Dispatch-IsShaped (fail_no_gpu _) h = record {
    same_opts = h.same_opts;
    depth = omega (arith, h.depth);
    batches = h.batches;
    choice = tt;
  }
  Dispatch-IsShaped {s} (admit {candidates} a) h =
      let (_, q) = reject_oversized-reserved candidates s in
      record {
        same_opts = (reject_oversized-frame candidates s).same_opts ∙ h.same_opts;
        depth = omega (arith, h.depth, ap length q);
        batches = rw q h.batches;
        choice = tt;
      }
  Dispatch-IsShaped {s} (pack {candidates} now free_mem_bytes p base e) h = record {
    same_opts = h.same_opts;
    depth = h.depth;
    batches = h.batches;
    choice = rw e (pack-choice s now _ candidates h.same_opts);
  }
  Dispatch-IsShaped requeue h = record {
    same_opts = h.same_opts;
    depth = h.depth;
    batches = h.batches;
    choice = h.choice;
  }
  Dispatch-IsShaped pause h = record {
    same_opts = h.same_opts;
    depth = omega (arith, h.depth);
    batches = h.batches;
    choice = tt;
  }
  Dispatch-IsShaped reserve h = record {
    same_opts = h.same_opts;
    depth = h.depth;
    batches = h.batches;
    choice = (omega arith, h.choice);
  }
  Dispatch-IsShaped {s} (enqueue {selected}) h = record {
    same_opts = h.same_opts;
    depth = omega (arith, h.depth, length-append s.batch_queue (selected ∷ []));
    batches = All-append (IsBatch cap) s.batch_queue (selected ∷ []) h.batches (h.choice, tt);
    choice = tt;
  }

  Work-IsShaped :
      {s t : BatchScheduler} {pc pc' : WorkerPc} {d : DispatcherPc}
      → Work s pc t pc'
      → IsShaped opts cap s d
      → IsShaped opts cap t d
  unfolding fail_batch record_batch count_batch count_allocations release_bytes
  Work-IsShaped (leave _ _) h = h
  Work-IsShaped (take_batch batch rest e) h = record {
    same_opts = h.same_opts;
    depth = omega (arith, h.depth, ap length e);
    batches = (rw e at h.batches).1;
    choice = h.choice;
  }
  Work-IsShaped (drop_no_gpu _) h = record {
    same_opts = h.same_opts;
    depth = h.depth;
    batches = h.batches;
    choice = h.choice;
  }
  Work-IsShaped (succeed _ _ _) h = record {
    same_opts = h.same_opts;
    depth = h.depth;
    batches = h.batches;
    choice = h.choice;
  }
  Work-IsShaped (fail _ _ _) h = record {
    same_opts = h.same_opts;
    depth = h.depth;
    batches = h.batches;
    choice = h.choice;
  }
  Work-IsShaped count h = record {
    same_opts = h.same_opts;
    depth = h.depth;
    batches = h.batches;
    choice = h.choice;
  }
  Work-IsShaped release h = record {
    same_opts = h.same_opts;
    depth = h.depth;
    batches = h.batches;
    choice = h.choice;
  }

  Step-IsShaped :
      {limit : ℕ} {x y : System}
      → Step limit x y
      → IsShaped opts cap x.sched x.dispatcher
      → IsShaped opts cap y.sched y.dispatcher
  unfolding submit_push submit_count
  Step-IsShaped (client_push _ _) h = record {
    same_opts = h.same_opts;
    depth = h.depth;
    batches = h.batches;
    choice = h.choice;
  }
  Step-IsShaped (client_count _ _) h = record {
    same_opts = h.same_opts;
    depth = h.depth;
    batches = h.batches;
    choice = h.choice;
  }
  Step-IsShaped (dispatch d) h = Dispatch-IsShaped d h
  Step-IsShaped (work _ _ _ _ k) h = Work-IsShaped k h
  Step-IsShaped request_stop h = record {
    same_opts = h.same_opts;
    depth = h.depth;
    batches = h.batches;
    choice = h.choice;
  }

  initial-IsShaped :
      (ndev sampled_total : ℕ) (mem_info : Option ℕ)
      → IsShaped opts cap
          (initial opts ndev sampled_total mem_info).sched
          (initial opts ndev sampled_total mem_info).dispatcher
  unfolding initial start new_scheduler
  initial-IsShaped ndev sampled_total mem_info = record {
    same_opts = refl;
    depth = omega arith;
    batches = tt;
    choice = tt;
  }

  Reach-IsShaped :
      (limit ndev sampled_total : ℕ) (mem_info : Option ℕ) {x : System}
      → Reach limit (initial opts ndev sampled_total mem_info) x
      → IsShaped opts cap x.sched x.dispatcher
  Reach-IsShaped limit ndev sampled_total mem_info here =
      initial-IsShaped ndev sampled_total mem_info
  Reach-IsShaped limit ndev sampled_total mem_info (next r st) =
      Step-IsShaped st (Reach-IsShaped limit ndev sampled_total mem_info r)

  -- With a batch cap that is positive and fits an `int`, the batch queue never holds more than
  -- `max_queue_depth` batches, and every batch in it has at least one job and at most `max_batch`.
  pub batch_queue_bounded :
      (limit ndev sampled_total : ℕ) (mem_info : Option ℕ) {x : System}
      → Reach limit (initial opts ndev sampled_total mem_info) x
      → (length x.sched.batch_queue ≤ max_queue_depth opts) × All (IsBatch cap) x.sched.batch_queue
  batch_queue_bounded limit ndev sampled_total mem_info r =
      let h = Reach-IsShaped limit ndev sampled_total mem_info r in
      (omega (arith, h.depth), h.batches)
