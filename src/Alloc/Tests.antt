-- ===== src/Alloc/Tests.antt =====
-- Concrete allocations of src/sched/scheduler.cpp.
use gpu_batch_inference_sche.Common.{pos, [], ◌∷◌, ◌+◌, ◌≡◌, refl, ltb, if◌then◌else◌}
use gpu_batch_inference_sche.Job.{InferenceJob}
use gpu_batch_inference_sche.Alloc
use gpu_batch_inference_sche.Alloc.Retries.{IsRetried, IsFollowed, allocate_batch-retries}

abbrev pub job : InferenceJob
job = record {
  id = 1;
  m = pos 2;
  n = pos 3;
  k = pos 4;
  batch = pos 1;
  priority = pos 0;
  submit_time = 1;
  seq = 0;
}

-- A device whose fourth allocation and all later ones are refused.
abbrev small_device : Alloc.Driver
small_device call bytes =
    if ltb call 3 then Alloc.granted (1000 + call) else Alloc.refused Alloc.memory_allocation

-- A device that is broken.
abbrev broken_device : Alloc.Driver
broken_device call bytes = Alloc.refused Alloc.other_error

abbrev host : Alloc.Driver
host call bytes = Alloc.granted (5000 + call)

abbrev pub unused : Alloc.Space
unused =
    let memory : Alloc.Memory = record { calls = 0; live = λ _. 0 } in
    record { device = memory; host = memory }

-- A driver that grants everything.
abbrev pub generous : Alloc.Driver
generous call bytes = Alloc.granted (1000 + call)

pub generous_allocated :
    (Alloc.allocate_batch generous generous (job ∷ []) unused).ending ≡ Alloc.allocated
unfolding Alloc.allocate_batch Alloc.alloc_loop Alloc.alloc_pass Alloc.conclude Alloc.gave_up
    Alloc.try_all Alloc.try_allocate Alloc.settle Alloc.release Alloc.continue_all
    Alloc.after_device Alloc.job_sizes Alloc.fresh_execs Alloc.continue_pass Alloc.host_verdict
generous_allocated = refl

allocate_batch-retries_example :
    let a = Alloc.allocate_batch small_device host (job ∷ job ∷ []) unused in
    IsRetried a.ending a.retries
    × IsFollowed
        (Alloc.alloc_pass small_device host
          (job ∷ job ∷ [])
          (Alloc.fresh_execs (job ∷ job ∷ []))
          unused).verdict
        a
allocate_batch-retries_example = allocate_batch-retries small_device host (job ∷ job ∷ []) unused
