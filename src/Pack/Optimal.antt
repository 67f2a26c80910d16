-- ===== src/Pack/Optimal.antt =====
-- Among jobs of one age bucket `pack_jobs` of src/sched/scheduler.cpp packs as many as possible.
use mathlib.Core.List.Perm
use gpu_batch_inference_sche.Common.{
  ℕ, ◌^◌, ◌≤◌, ◌<◌, ◌≡◌, refl, ap, List, [], ◌∷◌, ◌++◌, pos, length, length-append, length-perm,
  total, All, All-Mem, Mem, Perm, arith, true, false,
}
use gpu_batch_inference_sche.Common.Sorting.{stable_sort, IsSorted, stable_sort-perm}
use gpu_batch_inference_sche.Job.{InferenceJob, bytes_required}
use gpu_batch_inference_sche.Pack.{
  Packing, is_full, pack_jobs, packs_before, no_packing, age_bucket,
}
use gpu_batch_inference_sche.Pack.Order.{sweep_order-IsSorted}
use gpu_batch_inference_sche.Pack.Sweep.{pack_jobs-perm}
use gpu_batch_inference_sche.Pack.Budget.{pack_jobs_capped}
use gpu_batch_inference_sche.Pack.Exchange.{longest}
use gpu_batch_inference_sche.Pack.Phases.{
  IsAscending, BytesGe, Phase, filling, full, over, sweep-Phase,
}

-- All the jobs have waited equally many intervals.
abbrev pub SameBucket : ℕ → List InferenceJob → Type 0
SameBucket now jobs = (g : ℕ) × ((job : InferenceJob) → Mem job jobs → age_bucket now job ≡ g)

module _ (now g : ℕ) where
  size_decides :
      (a b : InferenceJob)
      → age_bucket now a ≡ g
      → age_bucket now b ≡ g
      → packs_before now b a ≡ false
      → bytes_required a ≤ bytes_required b
  unfolding packs_before
  size_decides a b ea eb h = ground arith

  IsSorted-IsAscending :
      (jobs : List InferenceJob)
      → All (λ job. age_bucket now job ≡ g) jobs
      → IsSorted (packs_before now) jobs
      → IsAscending jobs
  IsSorted-IsAscending [] e s = tt
  IsSorted-IsAscending (job ∷ jobs) e s = (heavier jobs e.1 s.0, IsSorted-IsAscending jobs e.1 s.1)
    where
      heavier :
          (rest : List InferenceJob)
          → All (λ x. age_bucket now x ≡ g) rest
          → All (λ x. packs_before now x job ≡ false) rest
          → All (BytesGe (bytes_required job)) rest
      heavier [] e' s' = tt
      heavier (x ∷ rest) e' s' = (size_decides job x e.0 e'.0 s'.0, heavier rest e'.1 s'.1)

pub sorted-IsAscending :
    (now : ℕ) (candidates : List InferenceJob)
    → SameBucket now candidates
    → IsAscending (stable_sort (packs_before now) candidates)
sorted-IsAscending now candidates (g, same) =
    let p = stable_sort-perm (packs_before now) candidates in
    IsSorted-IsAscending now g _ (All-Mem _ _ (λ job m. same job ((Perm.mem_iff p).0 m)))
      (sweep_order-IsSorted now candidates)

module _ (budget cap : ℕ) (small : budget < 2 ^ 63) (positive : 0 < cap) (fits : cap < 2 ^ 31) where
  full_reason :
      (p : Packing) → length p.selected ≤ cap → is_full (pos cap) p ≡ true → length p.selected ≡ cap
  unfolding is_full
  full_reason p h e = ground arith

  longest_of_Phase :
      (p : Packing)
      → Phase budget (pos cap) p []
      → length p.selected ≤ cap
      → (chosen others : List InferenceJob) → Perm (chosen ++ others) (p.selected ++ p.remaining)
      → total bytes_required chosen ≤ budget
      → length chosen ≤ cap
      → length chosen ≤ length p.selected
  longest_of_Phase p (full e) c chosen others r w k = omega (arith, full_reason p c e)
  longest_of_Phase p (filling x none light _) c chosen others r w k = omega (
    arith,
    ap length none,
    length-perm r,
    length-append chosen others,
    length-append p.selected p.remaining,
  )
  longest_of_Phase p (over x e light heavy _) c chosen others r w k =
      longest bytes_required x budget p.selected p.remaining chosen others light heavy e r w

  pack_jobs-Phase :
      (now : ℕ) (candidates : List InferenceJob)
      → SameBucket now candidates
      → Phase budget (pos cap) (pack_jobs now candidates budget (pos cap)) []
  unfolding pack_jobs
  pack_jobs-Phase now candidates same =
      let sorted : List InferenceJob = stable_sort (packs_before now) candidates in
      sweep-Phase budget (pos cap) small sorted no_packing (sorted-IsAscending now candidates same)
        (omega arith) (filling 0 refl tt (All-Mem (BytesGe 0) sorted (λ job _. omega arith)))

  -- Among jobs that have waited equally many intervals the packing has the greatest possible number
  -- of jobs: no choice from the candidates that fits the budget and the cap has more. The budget is
  -- below 2^63 and the cap is positive and fits an `int`.
  pub pack_jobs_optimal :
      (now : ℕ) (candidates : List InferenceJob)
      → SameBucket now candidates
      → (chosen others : List InferenceJob) → Perm (chosen ++ others) candidates
      → total bytes_required chosen ≤ budget
      → length chosen ≤ cap
      → length chosen ≤ length (pack_jobs now candidates budget (pos cap)).selected
  pack_jobs_optimal now candidates same chosen others r =
      longest_of_Phase (pack_jobs now candidates budget (pos cap))
        (pack_jobs-Phase now candidates same)
        (pack_jobs_capped budget cap positive fits now candidates) chosen others
        (Perm.trans r (Perm.symm (pack_jobs-perm now candidates budget (pos cap))))
