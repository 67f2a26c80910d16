-- ===== src/Scheduler/Counters.antt =====
-- Sequence numbers, counters and metrics of src/sched/scheduler.cpp in every reachable state.
use gpu_batch_inference_sche.Common.{
  ℕ, zero, suc, ◌+◌, ◌≡◌, refl, total, ◌∙◌, arith, ltb, ◌==◌, if◌then◌else◌, Option,
}
use gpu_batch_inference_sche.Job.{InferenceJob}
use gpu_batch_inference_sche.Scheduler.{
  Options, JobMetrics, new_scheduler, start, submit_push, submit_count, failed_metrics,
}
use gpu_batch_inference_sche.Scheduler.Threads.{
  idles, System, finished_metrics, Step, client_push, client_count, dispatch, work, request_stop,
  Reach, here, next, initial,
}
use gpu_batch_inference_sche.Scheduler.Frame.{Dispatch-frame, Work-frame}
use gpu_batch_inference_sche.Scheduler.Holding.{
  Agrees, holding, worker_weight, Step-holding, submitted_weight,
}

-- The jobs, and the records, with sequence number `a`.
abbrev pub seq_is : ℕ → InferenceJob → ℕ
seq_is a job = if job.seq == a then 1 else 0

abbrev pub record_is : ℕ → JobMetrics → ℕ
record_is a m = if m.seq == a then 1 else 0

pub seq-Agrees : (a : ℕ) → Agrees (seq_is a) (record_is a)
unfolding failed_metrics finished_metrics
seq-Agrees a = record { on_failed = λ job. refl; on_finished = λ job pickup finish. refl }

total-idles :
    (w : InferenceJob → ℕ) (v : JobMetrics → ℕ) (n : ℕ) → total (worker_weight w v) (idles n) ≡ 0
total-idles w v zero = refl
total-idles w v (suc n) = omega (arith, total-idles w v n)

-- At the start there is no job anywhere.
pub holding-initial :
    (w : InferenceJob → ℕ) (v : JobMetrics → ℕ) (opts : Options) (ndev sampled_total : ℕ)
    (mem_info : Option ℕ)
    → holding w v (initial opts ndev sampled_total mem_info) ≡ 0
unfolding initial start new_scheduler
holding-initial w v opts ndev sampled_total mem_info = omega (arith, total-idles w v)

-- A submission gives out one more number; no other step does.
pub Step-seq :
    {limit : ℕ} {x y : System} (st : Step limit x y) (a : ℕ)
    → (if ltb a y.sched.next_seq then 1 else 0)
      ≡ (if ltb a x.sched.next_seq then 1 else 0) + submitted_weight (seq-Agrees a) st
unfolding submit_push submit_count
Step-seq (client_push now job) a = ground arith
Step-seq (client_count n _) a = omega arith
Step-seq (dispatch d) a = rw (Dispatch-frame d).same_seq (omega arith)
Step-seq (work _ _ _ _ k) a = rw (Work-frame k).same_seq (omega arith)
Step-seq request_stop a = omega arith

pub initial-next_seq :
    (opts : Options) (ndev sampled_total : ℕ) (mem_info : Option ℕ)
    → (initial opts ndev sampled_total mem_info).sched.next_seq ≡ 0
unfolding initial start new_scheduler
initial-next_seq opts ndev sampled_total mem_info = refl

module _ (opts : Options) (ndev sampled_total : ℕ) (mem_info : Option ℕ) (limit : ℕ) where
  -- In every reachable state each sequence number that was given out stands in exactly one place: in
  -- the queue, with the dispatcher, in a batch, with a worker, or in the metrics. The others stand
  -- nowhere.
  pub placed_once :
      {x : System}
      → Reach limit (initial opts ndev sampled_total mem_info) x
      → (a : ℕ) → holding (seq_is a) (record_is a) x ≡ (if ltb a x.sched.next_seq then 1 else 0)
  placed_once here a =
      rw (initial-next_seq opts ndev sampled_total mem_info)
        (holding-initial (seq_is a) (record_is a) opts ndev sampled_total mem_info ∙ ground arith)
  placed_once (next r st) a =
      omega (arith, Step-holding (seq-Agrees a) st, Step-seq st a, placed_once r a)
