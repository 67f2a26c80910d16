-- ===== src/Scheduler/Reserve.antt =====
-- The reservations of src/sched/scheduler.cpp: `reserved_bytes_` is what the unfinished batches need,
-- and never exceeds the largest base budget that was sampled.
use gpu_batch_inference_sche.Common.{
  ℕ, ◌+◌, ◌^◌, ◌≤◌, ◌<◌, ◌≡◌, List, [], ◌∷◌, total, total-append, arith, ap,
}
use gpu_batch_inference_sche.Job.{InferenceJob, bytes_required}
use gpu_batch_inference_sche.Pack.{pack_jobs}
use gpu_batch_inference_sche.Pack.Budget.{pack_jobs_within}
use gpu_batch_inference_sche.Scheduler.{
  BatchScheduler, reserve_bytes, release_bytes, fail_batch, base_bytes, budget_bytes, batch_bytes,
}
use gpu_batch_inference_sche.Scheduler.Budget.{batch_bytes-total}
use gpu_batch_inference_sche.Scheduler.Threads.{
  DispatcherPc, packed, requeued, reserved, WorkerPc, idle, running, recorded, finished, System,
  record_batch, count_batch, count_allocations, Dispatch, leave_space, find_space, leave_jobs,
  take_jobs, fail_no_gpu, admit, pack, requeue, pause, reserve, enqueue, Work, leave, take_batch,
  drop_no_gpu, succeed, fail, count, release,
}
use gpu_batch_inference_sche.Scheduler.Frame.{reject_oversized-reserved}

-- Bytes of a list of jobs.
abbrev pub bytes_of : List InferenceJob → ℕ
bytes_of = total bytes_required

-- The dispatcher has reserved for these jobs.
abbrev pub dispatcher_reserved : DispatcherPc → List InferenceJob
dispatcher_reserved (reserved selected) = selected
dispatcher_reserved _ = []

-- The dispatcher has chosen these jobs, and is going to reserve for them.
abbrev pub dispatcher_planned : DispatcherPc → List InferenceJob
dispatcher_planned (packed selected remaining) = selected
dispatcher_planned (requeued selected) = selected
dispatcher_planned _ = []

-- The worker has not released the reservation of these jobs.
abbrev pub worker_reserved : WorkerPc → ℕ
worker_reserved (running batch) = bytes_of batch
worker_reserved (recorded batch) = bytes_of batch
worker_reserved (finished batch) = bytes_of batch
worker_reserved _ = 0

-- The bytes of every batch that is packed and not finished.
abbrev pub unfinished_bytes : System → ℕ
unfinished_bytes x =
    total bytes_of x.sched.batch_queue
    + bytes_of (dispatcher_reserved x.dispatcher)
    + total worker_reserved x.workers

pub record IsReserved (limit : ℕ) (x : System) : Type 0 where
  pub exact : x.sched.reserved_bytes ≡ unfinished_bytes x
  pub room : x.sched.reserved_bytes + bytes_of (dispatcher_planned x.dispatcher) ≤ limit

module _ (limit : ℕ) (small : limit < 2 ^ 63) where
  -- The same for the dispatcher beside workers that hold `held` bytes.
  pub record Beside (held : ℕ) (s : BatchScheduler) (pc : DispatcherPc) : Type 0 where
    pub exact :
        s.reserved_bytes ≡ total bytes_of s.batch_queue + bytes_of (dispatcher_reserved pc) + held
    pub room : s.reserved_bytes + bytes_of (dispatcher_planned pc) ≤ limit

  pack-room :
      (s : BatchScheduler) (candidates : List InferenceJob) (now free_mem_bytes : ℕ)
      → base_bytes s.opts free_mem_bytes ≤ limit
      → s.reserved_bytes ≤ limit
      → s.reserved_bytes
          + bytes_of
              (pack_jobs now candidates (budget_bytes free_mem_bytes s) s.opts.max_batch).selected
        ≤ limit
  unfolding budget_bytes
  pack-room s candidates now free_mem_bytes base h =
      let enough : budget_bytes free_mem_bytes s < 2 ^ 63 = ground arith in
      ground (
        arith,
        pack_jobs_within (budget_bytes free_mem_bytes s) s.opts.max_batch enough now candidates,
      )

  reserve-Beside :
      (held : ℕ) (s : BatchScheduler) (selected : List InferenceJob)
      → Beside held s (requeued selected)
      → Beside held (reserve_bytes (batch_bytes selected) s) (reserved selected)
  unfolding reserve_bytes
  reserve-Beside held s selected b =
      let exactly : batch_bytes selected ≡ bytes_of selected =
        batch_bytes-total selected (omega (arith, b.room)) in
      record {
        exact = omega (arith, exactly, b.exact, b.room);
        room = omega (arith, exactly, b.room);
      }

  pub Dispatch-Beside :
      {s t : BatchScheduler} {pc pc' : DispatcherPc} (held : ℕ)
      → Dispatch limit s pc t pc'
      → Beside held s pc
      → Beside held t pc'
  unfolding fail_batch
  Dispatch-Beside held (leave_space _) b = record { exact = b.exact; room = b.room }
  Dispatch-Beside held (find_space _ _) b = record { exact = b.exact; room = b.room }
  Dispatch-Beside held (leave_jobs _) b = record { exact = b.exact; room = b.room }
  Dispatch-Beside held (take_jobs _ _) b = record { exact = b.exact; room = b.room }
  Dispatch-Beside held (fail_no_gpu _) b = record { exact = b.exact; room = b.room }
  Dispatch-Beside {s} held (admit {candidates} _) b =
      let (r, q) = reject_oversized-reserved candidates s in
      record {
        exact = omega (arith, r, ap (total bytes_of) q, b.exact);
        room = omega (arith, r, b.room);
      }
  Dispatch-Beside {s} held (pack {candidates} now free_mem_bytes p base e) b = record {
    exact = b.exact;
    room = rw e (pack-room s candidates now free_mem_bytes base (omega (arith, b.room)));
  }
  Dispatch-Beside held requeue b = record { exact = b.exact; room = b.room }
  Dispatch-Beside held pause b = record { exact = b.exact; room = b.room }
  Dispatch-Beside {s} held (reserve {job} {jobs}) b = reserve-Beside held s (job ∷ jobs) b
  Dispatch-Beside {s} held (enqueue {selected}) b = record {
    exact = omega (arith, b.exact, total-append bytes_of s.batch_queue (selected ∷ []));
    room = b.room;
  }

  -- The same for a worker, beside `held` bytes of the others and `plan` bytes to be reserved.
  pub record Among (held plan : ℕ) (s : BatchScheduler) (pc : WorkerPc) : Type 0 where
    pub exact : s.reserved_bytes ≡ total bytes_of s.batch_queue + worker_reserved pc + held
    pub room : s.reserved_bytes + plan ≤ limit

  release-Among :
      (held plan : ℕ) (s : BatchScheduler) (batch : List InferenceJob)
      → Among held plan s (finished batch)
      → Among held plan (release_bytes (batch_bytes batch) s) idle
  unfolding release_bytes
  release-Among held plan s batch b =
      let exactly : batch_bytes batch ≡ bytes_of batch =
        batch_bytes-total batch (omega (arith, b.exact, b.room)) in
      record {
        exact = ground (arith, exactly, b.exact);
        room = ground (arith, exactly, b.exact, b.room);
      }

  pub Work-Among :
      {s t : BatchScheduler} {pc pc' : WorkerPc} (held plan : ℕ)
      → Work s pc t pc'
      → Among held plan s pc
      → Among held plan t pc'
  unfolding fail_batch record_batch count_batch count_allocations
  Work-Among held plan (leave _ _) b = record { exact = b.exact; room = b.room }
  Work-Among held plan (take_batch batch rest e) b = record {
    exact = omega (arith, b.exact, ap (total bytes_of) e);
    room = b.room;
  }
  Work-Among held plan (drop_no_gpu _) b = record { exact = b.exact; room = b.room }
  Work-Among held plan (succeed _ _ _) b = record { exact = b.exact; room = b.room }
  Work-Among held plan (fail _ _ _) b = record { exact = b.exact; room = b.room }
  Work-Among held plan count b = record { exact = b.exact; room = b.room }
  Work-Among {s} held plan (release {batch}) b = release-Among held plan s batch b
