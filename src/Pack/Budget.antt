-- ===== src/Pack/Budget.antt =====
-- What `pack_jobs` of src/sched/scheduler.cpp selects fits the budget and the batch cap.
use gpu_batch_inference_sche.Common.{
  ℕ, ◌^◌, ◌≤◌, ◌<◌, ◌≡◌, List, [], ◌∷◌, ℤ, pos, length, total, length-append, total-append, arith,
  false,
}
use gpu_batch_inference_sche.Common.Sorting.{stable_sort}
use gpu_batch_inference_sche.Job.{InferenceJob, bytes_required}
use gpu_batch_inference_sche.Pack.{
  Packing, is_full, is_over, pack_step, sweep, pack_jobs, packs_before, no_packing,
}
use gpu_batch_inference_sche.Pack.Sweep.{pack_step_cases, accept}

-- `used` is the number of bytes selected, and stays within the budget.
pub record IsWithin (budget : ℕ) (p : Packing) : Type 0 where
  pub counted : p.used ≡ total bytes_required p.selected
  pub within : p.used ≤ budget

module _ (budget : ℕ) (max_batch : ℤ) (small : budget < 2 ^ 63) where
  pub accept-IsWithin :
      (p : Packing) (job : InferenceJob)
      → is_over budget p (bytes_required job) ≡ false
      → IsWithin budget p
      → IsWithin budget (accept p job)
  unfolding is_over
  accept-IsWithin p job fits h = ground (arith, total-append bytes_required p.selected (job ∷ []))

  pub pack_step-IsWithin :
      (p : Packing) (job : InferenceJob)
      → IsWithin budget p
      → IsWithin budget (pack_step budget max_batch p job)
  pack_step-IsWithin p job h =
      pack_step_cases (IsWithin budget) budget max_batch p job
        (λ _. record { counted = h.counted; within = h.within })
        (λ _ fits. accept-IsWithin p job fits h)

  pub sweep-IsWithin :
      (jobs : List InferenceJob) (p : Packing)
      → IsWithin budget p
      → IsWithin budget (sweep budget max_batch p jobs)
  unfolding sweep
  sweep-IsWithin [] p h = h
  sweep-IsWithin (job ∷ jobs) p h = sweep-IsWithin jobs _ (pack_step-IsWithin p job h)

  pub pack_jobs-IsWithin :
      (now : ℕ) (candidates : List InferenceJob)
      → IsWithin budget (pack_jobs now candidates budget max_batch)
  unfolding pack_jobs
  pack_jobs-IsWithin now candidates =
      sweep-IsWithin (stable_sort (packs_before now) candidates) no_packing (omega arith)

  -- The selected jobs need no more than the budget, for any budget below 2^63 bytes; the sum of
  -- their sizes is the exact one, no addition having wrapped.
  pub pack_jobs_within :
      (now : ℕ) (candidates : List InferenceJob)
      → total bytes_required (pack_jobs now candidates budget max_batch).selected ≤ budget
  pack_jobs_within now candidates =
      let w = pack_jobs-IsWithin now candidates in omega (arith, w.counted, w.within)

-- A cap that is positive and fits an `int`.
module _ (budget cap : ℕ) (positive : 0 < cap) (fits : cap < 2 ^ 31) where
  pack_step_capped :
      (p : Packing) (job : InferenceJob)
      → length p.selected ≤ cap
      → length (pack_step budget (pos cap) p job).selected ≤ cap
  unfolding is_full
  pack_step_capped p job h =
      pack_step_cases (λ q. length q.selected ≤ cap) budget (pos cap) p job (λ _. h)
        λ free _. ground (arith, length-append p.selected (job ∷ []))

  sweep_capped :
      (jobs : List InferenceJob) (p : Packing)
      → length p.selected ≤ cap
      → length (sweep budget (pos cap) p jobs).selected ≤ cap
  unfolding sweep
  sweep_capped [] p h = h
  sweep_capped (job ∷ jobs) p h = sweep_capped jobs _ (pack_step_capped p job h)

  -- No more jobs are selected than `max_batch`, if that is positive and fits an `int`.
  pub pack_jobs_capped :
      (now : ℕ) (candidates : List InferenceJob)
      → length (pack_jobs now candidates budget (pos cap)).selected ≤ cap
  unfolding pack_jobs
  pack_jobs_capped now candidates = sweep_capped _ no_packing (omega arith)
