-- ===== src/Pack/Aging.antt =====
-- Aging in `pack_jobs` of src/sched/scheduler.cpp: a job that outranks the others is packed next.
use mathlib.Core.List.Perm
use mathlib.Core.Bool.{Bool-set}
use mathlib.Core.List.{perm_middle, not-mem-nil, mem-cons_self, mem-cons, mem-append_left, Mem-prop}
use mathlib.Core.Logic.{◌∨₁◌, ∨₁_prop}
use mathlib.Core.Logic.Or
use gpu_batch_inference_sche.Common.{
  ℕ, ◌+◌, ◌*◌, ◌^◌, ◌≤◌, ◌<◌, ◌≡◌, ap, List, [], ◌∷◌, ◌++◌, ℤ, pos, Mem, arith, true, false,
  All-get, ◌≢◌, inl, inr, Perm,
}
use gpu_batch_inference_sche.Common.Sorting.{stable_sort, IsSorted, stable_sort-perm}
use gpu_batch_inference_sche.Job.{InferenceJob, bytes_required}
use gpu_batch_inference_sche.Pack.{
  Packing, is_full, is_over, pack_step, sweep, pack_jobs, packs_before, no_packing, age_bucket,
  aging_interval_ms, ns_per_ms,
}
use gpu_batch_inference_sche.Pack.Order.{sweep_order-IsSorted}
use gpu_batch_inference_sche.Pack.Sweep.{pack_step_cases, Refused}

-- What is selected stays selected.
pack_step-Mem :
    (budget : ℕ) (max_batch : ℤ) (x : InferenceJob) (p : Packing) (job : InferenceJob)
    → Mem x p.selected
    → Mem x (pack_step budget max_batch p job).selected
pack_step-Mem budget max_batch x p job m =
    pack_step_cases (λ q. Mem x q.selected) budget max_batch p job (λ _. m)
      (λ _ _. mem-append_left (job ∷ []) m)

sweep-Mem :
    (budget : ℕ) (max_batch : ℤ) (x : InferenceJob) (jobs : List InferenceJob) (p : Packing)
    → Mem x p.selected
    → Mem x (sweep budget max_batch p jobs).selected
unfolding sweep
sweep-Mem budget max_batch x [] p m = m
sweep-Mem budget max_batch x (job ∷ jobs) p m =
    sweep-Mem budget max_batch x jobs _ (pack_step-Mem budget max_batch x p job m)

module _ (budget cap : ℕ) (small : budget < 2 ^ 64) (positive : 0 < cap) (fits : cap < 2 ^ 31) where
  -- The first job is refused for its own size alone.
  not-Refused-first :
      (job : InferenceJob) → bytes_required job ≤ budget → ¬ Refused budget (pos cap) no_packing job
  unfolding is_full is_over
  not-Refused-first job h (inl full) = ground arith
  not-Refused-first job h (inr over) = ground arith

  pack_step-first :
      (job : InferenceJob)
      → bytes_required job ≤ budget
      → Mem job (pack_step budget (pos cap) no_packing job).selected
  pack_step-first job h =
      pack_step_cases (λ q. Mem job q.selected) budget (pos cap) no_packing job
        (λ r. absurd (not-Refused-first job h r)) (λ _ _. mem-cons_self)

  sweep-first :
      (job : InferenceJob) (jobs : List InferenceJob)
      → bytes_required job ≤ budget
      → Mem job (sweep budget (pos cap) no_packing (job ∷ jobs)).selected
  unfolding sweep
  sweep-first job jobs h = sweep-Mem budget (pos cap) job jobs _ (pack_step-first job h)

  outranks :
      (now : ℕ) (a b : InferenceJob)
      → age_bucket now b < age_bucket now a
      → packs_before now a b ≡ true
  unfolding packs_before
  outranks now a b h = ground arith

  -- A sorted list in which `job` outranks all the others begins with it.
  sweep_outranking :
      (now : ℕ) (job : InferenceJob) (sorted : List InferenceJob)
      → IsSorted (packs_before now) sorted
      → Mem job sorted
      → ((x : InferenceJob) → Mem x sorted → (x ≡ job) ∨₁ (age_bucket now x < age_bucket now job))
      → bytes_required job ≤ budget
      → Mem job (sweep budget (pos cap) no_packing sorted).selected
  sweep_outranking now job [] s m others h = absurd (not-mem-nil m)
  sweep_outranking now job (x ∷ xs) s m others h =
      Or.elim Mem-prop (others x mem-cons_self) (λ e. rw e (sweep-first job xs h))
        λ younger.
          Or.elim Mem-prop (mem-cons.0 m) (λ e. absurd (omega (arith, ap (age_bucket now) e)))
            λ later. cc (
              outranks now job x younger,
              All-get (λ y. packs_before now y x ≡ false) (λ y. Bool-set _ _) xs s.0 job later,
            )

  -- A job that has waited more intervals than every other candidate, and fits the budget, is packed.
  pub pack_jobs_oldest :
      (now : ℕ) (job : InferenceJob) (earlier later : List InferenceJob)
      → ((x : InferenceJob) → Mem x (earlier ++ later) → age_bucket now x < age_bucket now job)
      → bytes_required job ≤ budget
      → Mem job (pack_jobs now (earlier ++ job ∷ later) budget (pos cap)).selected
  unfolding pack_jobs
  pack_jobs_oldest now job earlier later older h =
      sweep_outranking now job sorted (sweep_order-IsSorted now _)
        ((Perm.mem_iff r).1 mem-cons_self)
        (λ x m.
          Or.elim ∨₁_prop (mem-cons.0 ((Perm.mem_iff r).0 m)) (λ e. Or.inl e)
            (λ other. Or.inr (older x other)))
        h
    where
      sorted : List InferenceJob
      sorted = stable_sort (packs_before now) (earlier ++ job ∷ later)

      r : Perm sorted (job ∷ earlier ++ later)
      r = Perm.trans (stable_sort-perm (packs_before now) _) (perm_middle earlier later)

  aged_bucket :
      (now : ℕ) (job : InferenceJob)
      → job.submit_time ≢ 0
      → job.submit_time + ns_per_ms * aging_interval_ms ≤ now
      → 1 ≤ age_bucket now job
  unfolding age_bucket
  aged_bucket now job stamped waited = ground arith

  fresh_bucket :
      (now : ℕ) (job : InferenceJob)
      → now < job.submit_time + ns_per_ms * aging_interval_ms
      → age_bucket now job ≡ 0
  unfolding age_bucket
  fresh_bucket now job recent = ground arith

  -- No starvation by fresh arrivals: a job that fits the budget and has waited one aging interval is
  -- packed in this round where all the other candidates arrived within the interval, however small
  -- and urgent they are. The budget is below 2^64, the cap is positive and fits an `int`, and the job
  -- has a submission time other than 0.
  pub pack_jobs_aged :
      (now : ℕ) (job : InferenceJob) (earlier later : List InferenceJob)
      → job.submit_time ≢ 0
      → job.submit_time + ns_per_ms * aging_interval_ms ≤ now
      → ((x : InferenceJob)
          → Mem x (earlier ++ later)
          → now < x.submit_time + ns_per_ms * aging_interval_ms)
      → bytes_required job ≤ budget
      → Mem job (pack_jobs now (earlier ++ job ∷ later) budget (pos cap)).selected
  pack_jobs_aged now job earlier later stamped waited fresh =
      pack_jobs_oldest now job earlier later
        λ x m. omega (arith, aged_bucket now job stamped waited, fresh_bucket now x (fresh x m))
