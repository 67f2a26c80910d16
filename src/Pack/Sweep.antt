-- ===== src/Pack/Sweep.antt =====
-- The sweep of `pack_jobs` in src/sched/scheduler.cpp splits the candidates in two.
use mathlib.Core.List.{perm_middle}
use mathlib.Core.List.Perm
use gpu_batch_inference_sche.Common.{
  ℕ, ◌+◌, ◌%◌, ◌^◌, ◌≡◌, ◌⊎◌, true, false, List, [], ◌∷◌, ◌++◌, ℤ, Perm, append-nil, inl, inr,
  Bool-cases, append_last-perm, append_inner-perm,
}
use gpu_batch_inference_sche.Common.Sorting.{stable_sort-perm}
use gpu_batch_inference_sche.Job.{InferenceJob, bytes_required}
use gpu_batch_inference_sche.Pack.{
  Packing, is_full, is_over, pack_step, sweep, pack_jobs, packs_before, no_packing,
}

-- Everything that a packing holds.
abbrev pub packed : Packing → List InferenceJob
packed p = p.selected ++ p.remaining

abbrev pub reject : Packing → InferenceJob → Packing
reject p job = record p { remaining = p.remaining ++ job ∷ [] }

abbrev pub accept : Packing → InferenceJob → Packing
accept p job = record p {
  selected = p.selected ++ job ∷ [];
  used = (p.used + bytes_required job) % 2 ^ 64;
}

-- Why a round leaves its job.
abbrev pub Refused : ℕ → ℤ → Packing → InferenceJob → Type 0
Refused budget max_batch p job =
    (is_full max_batch p ≡ true) ⊎ (is_over budget p (bytes_required job) ≡ true)

-- The two outcomes of a round.
pub pack_step_cases {ℓ} :
    (P : Packing → Type ℓ) (budget : ℕ) (max_batch : ℤ) (p : Packing) (job : InferenceJob)
    → (Refused budget max_batch p job → P (reject p job))
    → (is_full max_batch p ≡ false
        → is_over budget p (bytes_required job) ≡ false
        → P (accept p job))
    → P (pack_step budget max_batch p job)
unfolding pack_step
pack_step_cases P budget max_batch p job refused taken = elim (Bool-cases (is_full max_batch p)) [
  | inl full ↦ rw full (refused (inl full))
  | inr free ↦ elim (Bool-cases (is_over budget p (bytes_required job))) [
    | inl over ↦ rw (free, over) (refused (inr over))
    | inr fits ↦ rw (free, fits) (taken free fits)
  ]
]

pack_step-perm :
    (budget : ℕ) (max_batch : ℤ) (p : Packing) (job : InferenceJob)
    → Perm (packed (pack_step budget max_batch p job)) (job ∷ packed p)
pack_step-perm budget max_batch p job =
    pack_step_cases (λ q. Perm (packed q) (job ∷ packed p)) budget max_batch p job
      (λ _. append_last-perm p.selected p.remaining job)
      (λ _ _. append_inner-perm p.selected p.remaining job)

sweep-perm :
    (budget : ℕ) (max_batch : ℤ) (jobs : List InferenceJob) (p : Packing)
    → Perm (packed (sweep budget max_batch p jobs)) (jobs ++ packed p)
unfolding sweep
sweep-perm budget max_batch [] p = Perm.rfl
sweep-perm budget max_batch (job ∷ jobs) p =
    let q = pack_step budget max_batch p job in
    Perm.trans (sweep-perm budget max_batch jobs q) (
      Perm.trans (Perm.append_left jobs (pack_step-perm budget max_batch p job))
        (perm_middle jobs (packed p)))

-- Packing loses no job, makes none up and takes none twice: what is selected and what remains are
-- together a rearrangement of the candidates.
pub pack_jobs-perm :
    (now : ℕ) (candidates : List InferenceJob) (budget : ℕ) (max_batch : ℤ)
    → Perm (packed (pack_jobs now candidates budget max_batch)) candidates
unfolding pack_jobs
pack_jobs-perm now candidates budget max_batch =
    let sorted = stable_sort-perm (packs_before now) candidates in
    Perm.trans (sweep-perm budget max_batch _ no_packing) (rw append-nil sorted)
