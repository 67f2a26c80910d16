-- ===== src/Queue/Tests.antt =====
-- A concrete queue of src/sched/scheduler.hpp.
use gpu_batch_inference_sche.Common.{pos, [], ◌∷◌, List, Perm}
use gpu_batch_inference_sche.Job.{InferenceJob}
use gpu_batch_inference_sche.Queue.{push_all, empty_queue, drain}
use gpu_batch_inference_sche.Queue.Order.{IsServed, drain-push_all}

abbrev calm_job : InferenceJob
calm_job = record {
  id = 1;
  m = pos 64;
  n = pos 128;
  k = pos 32;
  batch = pos 4;
  priority = pos 0;
  submit_time = 5;
  seq = 0;
}

abbrev two_jobs : List InferenceJob
two_jobs = calm_job ∷ record calm_job { id = 2; priority = pos 3; seq = 1 } ∷ []

drain-push_all_example :
    IsServed (drain (push_all empty_queue two_jobs))
    × Perm (drain (push_all empty_queue two_jobs)) two_jobs
drain-push_all_example = drain-push_all two_jobs
