-- ===== src/Pipeline.antt =====
-- The pipeline of execute_batch (src/sched/scheduler.cpp): the calls by which the worker's thread
-- drives three streams and three events for each job of a batch, which has at least one. The calls are
-- those of a batch in which every one of them succeeds; one that fails is in `Pipeline.Attempt`. The
-- events are those of the thread's context,
-- which earlier batches have used and waited for. The clock readings and the metrics of the same loops
-- are in `Scheduler`; whether the kernel is cuBLAS or the tiled one is in `Gemm`.
pub mod Account
pub mod Checked
pub mod Settled
pub mod Attempt
pub mod Recovers
pub mod Right
pub mod Results
pub mod Tests
use gpu_batch_inference_sche.Common.{
  ℕ, zero, suc, ◌+◌, Bool, List, [], ◌∷◌, ◌++◌, if◌then◌else◌, ltb,
}
use gpu_batch_inference_sche.Stream.{
  copy_a, copy_b, run_kernel, copy_c, Action, fill, launch, record_on, wait_on, synchronize,
  collect,
}

-- The streams and the arrays of events of the worker's context.
abbrev pub h2d_stream : ℕ
h2d_stream = 0

abbrev pub compute_stream : ℕ
compute_stream = 1

abbrev pub d2h_stream : ℕ
d2h_stream = 2

abbrev pub h2d_done : ℕ
h2d_done = 0

abbrev pub kern_done : ℕ
kern_done = 1

abbrev pub done : ℕ
done = 2

-- `for (i = from; ...; ++i)`, of `count` rounds.
abbrev pub for_each : (ℕ → List Action) → (from count : ℕ) → List Action
for_each body i zero = []
for_each body i (suc k) = body i ++ for_each body (suc i) k

abbrev pub enqueue_h2d : ℕ → List Action
enqueue_h2d i =
    fill i
    ∷ launch h2d_stream (copy_a i)
    ∷ launch h2d_stream (copy_b i)
    ∷ record_on h2d_stream h2d_done i
    ∷ []

-- One round of the loop over the batch of `size` jobs.
abbrev pub issue_job : (size : ℕ) → ℕ → List Action
issue_job size i =
    wait_on compute_stream h2d_done i
    ∷ launch compute_stream (run_kernel i)
    ∷ record_on compute_stream kern_done i
    ∷ wait_on d2h_stream kern_done i
    ∷ launch d2h_stream (copy_c i)
    ∷ record_on d2h_stream done i
    ∷ (if ltb (i + 1) size then enqueue_h2d (i + 1) else [])

-- One round of the loop that waits for the jobs.
abbrev pub finish_job : (retain_results : Bool) → ℕ → List Action
finish_job retain_results i = synchronize done i ∷ (if retain_results then collect i ∷ [] else [])

abbrev pub execute_batch : (retain_results : Bool) → (size : ℕ) → List Action
execute_batch retain_results size =
    enqueue_h2d 0 ++ for_each (issue_job size) 0 size ++ for_each (finish_job retain_results) 0 size
