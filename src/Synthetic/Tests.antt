-- ===== src/Synthetic/Tests.antt =====
-- Concrete inputs of `fill_matrices` in src/sched/scheduler.cpp.
use gpu_batch_inference_sche.Common.{ℕ, ◌+◌, ◌^◌, none, pos, [], ◌∷◌, some, ◌≡◌, refl}
use gpu_batch_inference_sche.Job.{InferenceJob}
use gpu_batch_inference_sche.Alloc.{job_sizes}
use gpu_batch_inference_sche.Synthetic.{
  Uniform, seed_of, size_a, size_b, fill_loop, fill_matrices, set_elem,
}
use gpu_batch_inference_sche.Synthetic.Filled.{fill_matrices-fills}

-- A generator that counts up from its seed.
abbrev counting : Uniform
counting = record { Rng = ℕ; Float = ℕ; seeded = λ seed. seed; draw = λ rng. (rng, rng + 1) }

abbrev job : InferenceJob
job = record {
  id = 2 ^ 33 + 3;
  m = pos 2;
  n = pos 3;
  k = pos 1;
  batch = pos 1;
  priority = pos 0;
  submit_time = 0;
  seq = 0;
}

-- `(3 ^ 2) * 0x9e3779b97f4a7c15` modulo 2^32.
low_seed : seed_of job ≡ 2135587861
unfolding seed_of
low_seed = refl

short_buffer : fill_matrices counting job (0 ∷ []) (0 ∷ 0 ∷ 0 ∷ []) ≡ none
unfolding fill_matrices fill_loop set_elem size_a size_b seed_of
short_buffer = refl

sizes : job_sizes job ≡ 2 ∷ 3 ∷ 6 ∷ []
unfolding job_sizes
sizes = refl

fill_matrices-fills_example :
    fill_matrices counting job (9 ∷ 9 ∷ []) (7 ∷ 7 ∷ 7 ∷ [])
    ≡ some (2135587861 ∷ 2135587862 ∷ [], 2135587863 ∷ 2135587864 ∷ 2135587865 ∷ [])
unfolding seed_of
fill_matrices-fills_example = fill_matrices-fills counting job (9 ∷ 9 ∷ []) (7 ∷ 7 ∷ 7 ∷ []) 6 sizes
