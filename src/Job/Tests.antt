-- ===== src/Job/Tests.antt =====
-- Concrete jobs of src/sched/job.hpp.
use gpu_batch_inference_sche.Common.{pos, ◌≡◌, refl}
use gpu_batch_inference_sche.Job.{InferenceJob, bytes_required}
use gpu_batch_inference_sche.Job.Bytes.{bytes_required-eq_mod}

abbrev bulk_job : InferenceJob
bulk_job = record {
  id = 1;
  m = pos 64;
  n = pos 128;
  k = pos 32;
  batch = pos 4;
  priority = pos 2;
  submit_time = 5;
  seq = 3;
}

-- Its bytes are a multiple of 2^64.
abbrev huge_job : InferenceJob
huge_job = record bulk_job {
  m = pos 65_536;
  n = pos 65_536;
  k = pos 65_536;
  batch = pos 1_073_741_824;
}

bytes_required-eq_mod_example : bytes_required huge_job ≡ 0
bytes_required-eq_mod_example =
    bytes_required-eq_mod huge_job 65_536 65_536 65_536 1_073_741_824 refl refl refl refl
