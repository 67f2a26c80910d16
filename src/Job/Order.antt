-- ===== src/Job/Order.antt =====
-- `JobPriorityCompare` of src/sched/job.hpp as an ordering.
use gpu_batch_inference_sche.Common.{◌≡◌, ◌↔◌, false, ◌+◌, pos_part, neg_part, arith, ◌<◌, ◌≤◌, ◌⊎◌}
use gpu_batch_inference_sche.Common.Sorting.{StrictWeak}
use gpu_batch_inference_sche.Job.{InferenceJob, job_priority_compare}

-- The comparator is a strict weak ordering, as `std::priority_queue` requires.
pub job_priority_compare-StrictWeak : StrictWeak job_priority_compare
unfolding job_priority_compare
job_priority_compare-StrictWeak = record {
  asymm = λ a b h. ground arith;
  weak_trans = λ a b c h h'. ground arith;
}

-- It leaves two jobs unordered exactly when their priorities and their sequence numbers agree.
pub job_priority_compare_tie :
    (a b : InferenceJob)
    → ((job_priority_compare a b ≡ false) × (job_priority_compare b a ≡ false)) ↔ (
        (pos_part a.priority + neg_part b.priority ≡ pos_part b.priority + neg_part a.priority)
        × (a.seq ≡ b.seq))
unfolding job_priority_compare
job_priority_compare_tie a b =
    (λ h. (ground arith, ground arith), λ h. (ground arith, ground arith))

-- `a` is to be served before `b`, or they may change places: by the numbers themselves, a priority
-- that is higher, or the same one and a sequence number that is not larger.
abbrev pub Precedes : InferenceJob → InferenceJob → Type 0
Precedes a b =
    (pos_part b.priority + neg_part a.priority < pos_part a.priority + neg_part b.priority)
    ⊎ ((pos_part a.priority + neg_part b.priority ≡ pos_part b.priority + neg_part a.priority)
        × (a.seq ≤ b.seq))

-- The comparator puts no job behind one that it precedes.
pub job_priority_compare-Precedes :
    (a b : InferenceJob) → job_priority_compare a b ≡ false → Precedes a b
unfolding job_priority_compare
job_priority_compare-Precedes a b h = ground arith
