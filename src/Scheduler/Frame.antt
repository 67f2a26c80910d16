-- ===== src/Scheduler/Frame.antt =====
-- What the dispatcher and the workers of src/sched/scheduler.cpp leave alone.
use gpu_batch_inference_sche.Common.{ℕ, ◌≡◌, refl, List, Bool-cases, ltb, length, inl, inr}
use gpu_batch_inference_sche.Job.{InferenceJob}
use gpu_batch_inference_sche.Scheduler.{
  BatchScheduler, reserve_bytes, release_bytes, fail_batch, max_job_bytes,
}
use gpu_batch_inference_sche.Scheduler.Threads.{
  DispatcherPc, WorkerPc, oversized, reject_oversized, record_batch, count_batch, count_allocations,
  Dispatch, leave_space, find_space, leave_jobs, take_jobs, fail_no_gpu, admit, pack, requeue,
  pause, reserve, enqueue, Work, leave, take_batch, drop_no_gpu, succeed, fail, count, release,
}

pub record SameFrame (s t : BatchScheduler) : Type 0 where
  pub same_opts : t.opts ≡ s.opts
  pub same_seq : t.next_seq ≡ s.next_seq
  pub same_submitted : t.submitted ≡ s.submitted
  pub same_shutdown : t.shutdown ≡ s.shutdown
  pub same_absent : t.gpu_absent ≡ s.gpu_absent

same : {s : BatchScheduler} → SameFrame s s
same = record {
  same_opts = refl;
  same_seq = refl;
  same_submitted = refl;
  same_shutdown = refl;
  same_absent = refl;
}

kept :
    {s t : BatchScheduler}
    → t.opts ≡ s.opts
    → t.next_seq ≡ s.next_seq
    → t.submitted ≡ s.submitted
    → t.shutdown ≡ s.shutdown
    → t.gpu_absent ≡ s.gpu_absent
    → SameFrame s t
kept a b c d e = record {
  same_opts = a;
  same_seq = b;
  same_submitted = c;
  same_shutdown = d;
  same_absent = e;
}

-- Rejecting changes neither these fields, nor the reservations, nor the batches.
pub reject_oversized-frame :
    (jobs : List InferenceJob) (s : BatchScheduler) → SameFrame s (reject_oversized jobs s)
unfolding reject_oversized fail_batch
reject_oversized-frame jobs s =
    elim (Bool-cases (ltb 0 (length (oversized (max_job_bytes s) jobs)))) [
      | inl e ↦ rw e (kept refl refl refl refl refl)
      | inr e ↦ rw e same
    ]

pub reject_oversized-reserved :
    (jobs : List InferenceJob) (s : BatchScheduler)
    → ((reject_oversized jobs s).reserved_bytes ≡ s.reserved_bytes)
      × ((reject_oversized jobs s).batch_queue ≡ s.batch_queue)
unfolding reject_oversized fail_batch
reject_oversized-reserved jobs s =
    elim (Bool-cases (ltb 0 (length (oversized (max_job_bytes s) jobs)))) [
      | inl e ↦ rw e (refl, refl)
      | inr e ↦ rw e (refl, refl)
    ]

pub Dispatch-frame :
    {limit : ℕ} {s t : BatchScheduler} {pc pc' : DispatcherPc}
    → Dispatch limit s pc t pc'
    → SameFrame s t
unfolding fail_batch reserve_bytes
Dispatch-frame (leave_space _) = same
Dispatch-frame (find_space _ _) = same
Dispatch-frame (leave_jobs _) = same
Dispatch-frame (take_jobs _ _) = kept refl refl refl refl refl
Dispatch-frame (fail_no_gpu _) = kept refl refl refl refl refl
Dispatch-frame {s} (admit {candidates} _) = reject_oversized-frame candidates s
Dispatch-frame (pack _ _ _ _ _) = same
Dispatch-frame requeue = kept refl refl refl refl refl
Dispatch-frame pause = same
Dispatch-frame reserve = kept refl refl refl refl refl
Dispatch-frame enqueue = kept refl refl refl refl refl

pub Work-frame : {s t : BatchScheduler} {pc pc' : WorkerPc} → Work s pc t pc' → SameFrame s t
unfolding fail_batch record_batch count_batch count_allocations release_bytes
Work-frame (leave _ _) = same
Work-frame (take_batch _ _ _) = kept refl refl refl refl refl
Work-frame (drop_no_gpu _) = kept refl refl refl refl refl
Work-frame (succeed _ _ _) = kept refl refl refl refl refl
Work-frame (fail _ _ _) = kept refl refl refl refl refl
Work-frame count = kept refl refl refl refl refl
Work-frame release = kept refl refl refl refl refl
