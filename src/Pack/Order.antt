-- ===== src/Pack/Order.antt =====
-- The order in which `pack_jobs` of src/sched/scheduler.cpp looks at the jobs.
use gpu_batch_inference_sche.Common.{ℕ, List}
use gpu_batch_inference_sche.Common.Sorting.{
  StrictWeak, IsSorted, stable_sort, stable_sort-IsSorted,
}
use gpu_batch_inference_sche.Common.Lexicographic.{
  ltb-StrictWeak, ascending-StrictWeak, descending-StrictWeak, descending_ℤ-StrictWeak,
}
use gpu_batch_inference_sche.Job.{InferenceJob, bytes_required}
use gpu_batch_inference_sche.Pack.{age_bucket, packs_before}

-- The comparator is a strict weak ordering at every reading of the clock, as `std::stable_sort`
-- requires.
pub packs_before-StrictWeak : (now : ℕ) → StrictWeak (packs_before now)
unfolding packs_before
packs_before-StrictWeak now =
    descending-StrictWeak _
      (ascending-StrictWeak _
        (descending_ℤ-StrictWeak _ (ltb-StrictWeak (λ j. j.seq)) (λ j. j.priority)) bytes_required)
      (age_bucket now)

-- `pack_jobs` sweeps the candidates in this order.
pub sweep_order-IsSorted :
    (now : ℕ) (jobs : List InferenceJob)
    → IsSorted (packs_before now) (stable_sort (packs_before now) jobs)
sweep_order-IsSorted now jobs =
    stable_sort-IsSorted (packs_before now) (packs_before-StrictWeak now) jobs
