-- ===== src/Pack/Greedy.antt =====
-- `pack_jobs` of src/sched/scheduler.cpp leaves no job behind that would still fit.
use gpu_batch_inference_sche.Common.{
  ℕ, ◌+◌, ◌^◌, ◌≤◌, ◌<◌, ◌≡◌, List, [], ◌∷◌, ℤ, pos, length, total, All, All-append, All-map, ◌⊎◌,
  inl, inr, arith, false,
}
use gpu_batch_inference_sche.Job.{InferenceJob, bytes_required}
use gpu_batch_inference_sche.Pack.{
  Packing, is_full, is_over, pack_step, sweep, pack_jobs, no_packing,
}
use gpu_batch_inference_sche.Pack.Sweep.{pack_step_cases, accept, Refused}
use gpu_batch_inference_sche.Pack.Budget.{
  IsWithin, pack_step-IsWithin, pack_jobs-IsWithin, pack_jobs_capped,
}

-- Each job left behind is refused by the packing as it now stands.
abbrev AllRefused : ℕ → ℤ → Packing → Type 0
AllRefused budget max_batch p = All (Refused budget max_batch p) p.remaining

module _ (budget : ℕ) (max_batch : ℤ) (small : budget < 2 ^ 63) where
  -- A job that was refused for its size stays refused when another is taken.
  Refused-accept :
      (p : Packing) (job : InferenceJob)
      → IsWithin budget p
      → is_full max_batch p ≡ false
      → is_over budget p (bytes_required job) ≡ false
      → (other : InferenceJob) → Refused budget max_batch p other
      → Refused budget max_batch (accept p job) other
  unfolding is_over
  Refused-accept p job w free fits other (inl full) = cc
  Refused-accept p job w free fits other (inr over) = inr (ground arith)

  pack_step-AllRefused :
      (p : Packing) (job : InferenceJob)
      → IsWithin budget p
      → AllRefused budget max_batch p
      → AllRefused budget max_batch (pack_step budget max_batch p job)
  unfolding is_full is_over
  pack_step-AllRefused p job w h =
      pack_step_cases (AllRefused budget max_batch) budget max_batch p job
        (λ r. All-append (Refused budget max_batch p) p.remaining (job ∷ []) h (r, tt))
        (λ free fits. All-map _ _ (Refused-accept p job w free fits) p.remaining h)

  sweep-AllRefused :
      (jobs : List InferenceJob) (p : Packing)
      → IsWithin budget p
      → AllRefused budget max_batch p
      → AllRefused budget max_batch (sweep budget max_batch p jobs)
  unfolding sweep
  sweep-AllRefused [] p w h = h
  sweep-AllRefused (job ∷ jobs) p w h =
      sweep-AllRefused jobs _ (pack_step-IsWithin budget max_batch small p job w)
        (pack_step-AllRefused p job w h)

  pack_jobs-AllRefused :
      (now : ℕ) (candidates : List InferenceJob)
      → AllRefused budget max_batch (pack_jobs now candidates budget max_batch)
  unfolding pack_jobs
  pack_jobs-AllRefused now candidates = sweep-AllRefused _ no_packing (omega arith) tt

-- What a refusal says in numbers.
pub Refused-reason :
    (budget cap : ℕ) (p : Packing) (job : InferenceJob)
    → cap < 2 ^ 31
    → IsWithin budget p
    → length p.selected ≤ cap
    → Refused budget (pos cap) p job
    → (length p.selected ≡ cap) ⊎ (budget < total bytes_required p.selected + bytes_required job)
unfolding is_full is_over
Refused-reason budget cap p job fits w capped (inl full) = inl (ground arith)
Refused-reason budget cap p job fits w capped (inr over) = inr (ground arith)

-- The sweep is maximal: unless the cap is reached, no job that remains could be added to the
-- selected ones without exceeding the budget. The budget is below 2^63 and the cap is positive and
-- fits an `int`.
pub pack_jobs_maximal :
    (budget cap : ℕ)
    → budget < 2 ^ 63
    → 0 < cap
    → cap < 2 ^ 31
    → (now : ℕ) (candidates : List InferenceJob)
    → let p = pack_jobs now candidates budget (pos cap) in
      All
        (λ job.
          (length p.selected ≡ cap)
          ⊎ (budget < total bytes_required p.selected + bytes_required job))
        p.remaining
pack_jobs_maximal budget cap small positive fits now candidates =
    All-map (Refused budget (pos cap) p) _ explain p.remaining refused
  where
    p : Packing
    p = pack_jobs now candidates budget (pos cap)

    w : IsWithin budget p
    w = pack_jobs-IsWithin budget (pos cap) small now candidates

    refused : AllRefused budget (pos cap) p
    refused = pack_jobs-AllRefused budget (pos cap) small now candidates

    explain :
        (job : InferenceJob)
        → Refused budget (pos cap) p job
        → (length p.selected ≡ cap)
          ⊎ (budget < total bytes_required p.selected + bytes_required job)
    explain job r =
        Refused-reason budget cap p job fits w
          (pack_jobs_capped budget cap positive fits now candidates) r
