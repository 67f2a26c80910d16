-- ===== src/Pack/Tests.antt =====
-- A concrete round of `pack_jobs` of src/sched/scheduler.cpp.
use mathlib.Core.Bool.{Bool-set}
use mathlib.Core.List.Perm
use gpu_batch_inference_sche.Common.{
  ℕ, pos, List, [], ◌∷◌, ◌++◌, ◌≡◌, ◌<◌, ◌≤◌, ◌+◌, ◌*◌, ◌⊎◌, refl, Perm, Mem, All, total, length,
  arith, All-get, ltb, true,
}
use gpu_batch_inference_sche.Job.{InferenceJob, bytes_required}
use gpu_batch_inference_sche.Pack.{age_bucket, pack_jobs, aging_interval_ms, ns_per_ms}
use gpu_batch_inference_sche.Pack.Sweep.{packed, pack_jobs-perm}
use gpu_batch_inference_sche.Pack.Budget.{pack_jobs_within}
use gpu_batch_inference_sche.Pack.Greedy.{pack_jobs_maximal}
use gpu_batch_inference_sche.Pack.Optimal.{pack_jobs_optimal}
use gpu_batch_inference_sche.Pack.Aging.{pack_jobs_aged}

-- 12 bytes, 120 bytes and 240 bytes.
abbrev small_job : InferenceJob
small_job = record {
  id = 1;
  m = pos 1;
  n = pos 1;
  k = pos 1;
  batch = pos 1;
  priority = pos 0;
  submit_time = 3_000_000_000;
  seq = 2;
}

abbrev middle_job : InferenceJob
middle_job = record small_job { id = 2; batch = pos 10; seq = 1 }

abbrev large_job : InferenceJob
large_job = record small_job { id = 3; batch = pos 20; seq = 0 }

abbrev fresh_jobs : List InferenceJob
fresh_jobs = large_job ∷ middle_job ∷ small_job ∷ []

-- The large job has waited two seconds, the others half a second.
abbrev old_job : InferenceJob
old_job = record large_job { submit_time = 1_500_000_000 }

abbrev half_past : ℕ
half_past = 3_500_000_000

pack_jobs-perm_example : Perm (packed (pack_jobs half_past fresh_jobs 250 (pos 2))) fresh_jobs
pack_jobs-perm_example = pack_jobs-perm half_past fresh_jobs 250 (pos 2)

pack_jobs_within_example :
    total bytes_required (pack_jobs half_past fresh_jobs 250 (pos 2)).selected ≤ 250
pack_jobs_within_example = pack_jobs_within 250 (pos 2) (omega arith) half_past fresh_jobs

pack_jobs_maximal_example :
    All
      (λ job.
        (length (pack_jobs half_past fresh_jobs 250 (pos 3)).selected ≡ 3)
        ⊎ (250
            < total bytes_required (pack_jobs half_past fresh_jobs 250 (pos 3)).selected
              + bytes_required job))
      (pack_jobs half_past fresh_jobs 250 (pos 3)).remaining
pack_jobs_maximal_example =
    pack_jobs_maximal 250 3 (omega arith) (omega arith) (omega arith) half_past fresh_jobs

-- At the clock reading 0 all jobs are in the first bucket.
age_zero : (job : InferenceJob) → age_bucket 0 job ≡ 0
unfolding age_bucket
age_zero job = ground arith

pack_jobs_optimal_example :
    2 ≤ length (pack_jobs 0 (middle_job ∷ small_job ∷ large_job ∷ []) 250 (pos 3)).selected
unfolding bytes_required
pack_jobs_optimal_example =
    pack_jobs_optimal 250 3 (omega arith) (omega arith) (omega arith) 0
      (middle_job ∷ small_job ∷ large_job ∷ []) (0, λ job _. age_zero job)
      (middle_job ∷ small_job ∷ []) (large_job ∷ []) Perm.rfl (omega arith) (omega arith)

others_fresh :
    (x : InferenceJob)
    → Mem x ((middle_job ∷ []) ++ small_job ∷ [])
    → half_past < x.submit_time + ns_per_ms * aging_interval_ms
others_fresh x m =
    let fresh =
      All-get (λ y. ltb half_past (y.submit_time + 1_000_000_000) ≡ true) (λ y. Bool-set _ _)
        (middle_job ∷ small_job ∷ []) (refl, (refl, tt)) x m in
    ground arith

pack_jobs_aged_example :
    Mem old_job (pack_jobs half_past (middle_job ∷ old_job ∷ small_job ∷ []) 250 (pos 1)).selected
unfolding bytes_required
pack_jobs_aged_example =
    pack_jobs_aged 250 1 (omega arith) (omega arith) (omega arith) half_past old_job
      (middle_job ∷ []) (small_job ∷ []) (omega arith) (omega arith) others_fresh (omega arith)
