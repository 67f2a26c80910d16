-- ===== src/Pack/Phases.antt =====
-- The phases that the sweep of `pack_jobs` in src/sched/scheduler.cpp goes through on a list in order
-- of size.
use gpu_batch_inference_sche.Common.{
  ℕ, ◌+◌, ◌^◌, ◌≤◌, ◌<◌, ◌≡◌, List, [], ◌∷◌, ℤ, total, All, All-append, All-map, inl, inr, arith,
  true, false,
}
use gpu_batch_inference_sche.Job.{InferenceJob, bytes_required}
use gpu_batch_inference_sche.Pack.{Packing, is_full, is_over, pack_step, sweep}
use gpu_batch_inference_sche.Pack.Sweep.{pack_step_cases, reject, accept, Refused}
use gpu_batch_inference_sche.Pack.Budget.{IsWithin, pack_step-IsWithin}

abbrev pub BytesLe : ℕ → InferenceJob → Type 0
BytesLe w job = bytes_required job ≤ w

abbrev pub BytesGe : ℕ → InferenceJob → Type 0
BytesGe w job = w ≤ bytes_required job

-- Each job needs at least as many bytes as those in front of it.
abbrev pub IsAscending : List InferenceJob → Type 0
IsAscending [] = Unit
IsAscending (job ∷ jobs) = All (BytesGe (bytes_required job)) jobs × IsAscending jobs

-- What the sweep has reached with `rest` still to come.
pub data Phase (budget : ℕ) (max_batch : ℤ) (p : Packing) (rest : List InferenceJob) : Type 0 where
  -- nothing is refused yet
  filling :
      (w : ℕ)
      → p.remaining ≡ []
      → All (BytesLe w) p.selected
      → All (BytesGe w) rest
      → Phase budget max_batch p rest
  -- the batch cap is reached
  full : is_full max_batch p ≡ true → Phase budget max_batch p rest
  -- `w` bytes are too many, and all the others need at least so many
  over :
      (w : ℕ)
      → budget < total bytes_required p.selected + w
      → All (BytesLe w) p.selected
      → All (BytesGe w) p.remaining
      → All (BytesGe w) rest
      → Phase budget max_batch p rest

ge_trans :
    (w : ℕ) (job : InferenceJob)
    → w ≤ bytes_required job
    → (jobs : List InferenceJob) → All (BytesGe (bytes_required job)) jobs
    → All (BytesGe w) jobs
ge_trans w job h jobs = All-map (BytesGe (bytes_required job)) (BytesGe w) (λ x k. omega arith) jobs

module _ (budget : ℕ) (max_batch : ℤ) (small : budget < 2 ^ 63) where
  over_reason :
      (p : Packing) (job : InferenceJob)
      → IsWithin budget p
      → is_over budget p (bytes_required job) ≡ true
      → budget < total bytes_required p.selected + bytes_required job
  unfolding is_over
  over_reason p job w h = ground arith

  over_again :
      (p : Packing) (job : InferenceJob) (w : ℕ)
      → IsWithin budget p
      → budget < total bytes_required p.selected + w
      → w ≤ bytes_required job
      → is_over budget p (bytes_required job) ≡ true
  unfolding is_over
  over_again p job w v h k = ground arith

  reject-Phase :
      (p : Packing) (job : InferenceJob) (rest : List InferenceJob)
      → IsWithin budget p
      → Refused budget max_batch p job
      → All (BytesGe (bytes_required job)) rest
      → Phase budget max_batch p (job ∷ rest)
      → Phase budget max_batch (reject p job) rest
  unfolding is_full
  reject-Phase p job rest v r a (full e) = full e
  reject-Phase p job rest v (inl e) a (filling w none light heavy) = full e
  reject-Phase p job rest v (inr e) a (filling w none light heavy) =
      over (bytes_required job) (over_reason p job v e)
        (All-map _ _ (λ x k. omega arith) p.selected light) (rw none (omega arith, tt)) a
  reject-Phase p job rest v r a (over w e light heavy later) =
      over w e light (All-append _ p.remaining (job ∷ []) heavy (later.0, tt)) later.1

  accept-Phase :
      (p : Packing) (job : InferenceJob) (rest : List InferenceJob)
      → IsWithin budget p
      → is_full max_batch p ≡ false
      → is_over budget p (bytes_required job) ≡ false
      → All (BytesGe (bytes_required job)) rest
      → Phase budget max_batch p (job ∷ rest)
      → Phase budget max_batch (accept p job) rest
  accept-Phase p job rest v free fits a (full e) = cc
  accept-Phase p job rest v free fits a (filling w none light heavy) =
      filling (bytes_required job) none
        (All-append _ p.selected (job ∷ []) (All-map _ _ (λ x k. omega arith) p.selected light)
          (omega arith, tt))
        a
  accept-Phase p job rest v free fits a (over w e light heavy later) =
      cc (over_again p job w v e later.0)

  pub sweep-Phase :
      (jobs : List InferenceJob) (p : Packing)
      → IsAscending jobs
      → IsWithin budget p
      → Phase budget max_batch p jobs
      → Phase budget max_batch (sweep budget max_batch p jobs) []
  unfolding sweep
  sweep-Phase [] p a v h = h
  sweep-Phase (job ∷ jobs) p a v h =
      sweep-Phase jobs (pack_step budget max_batch p job) a.1
        (pack_step-IsWithin budget max_batch small p job v)
        (pack_step_cases (λ q. Phase budget max_batch q jobs) budget max_batch p job
          (λ r. reject-Phase p job jobs v r a.0 h)
          (λ free fits. accept-Phase p job jobs v free fits a.0 h))
