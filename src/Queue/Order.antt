-- ===== src/Queue/Order.antt =====
-- The order in which the job queue of src/sched/scheduler.hpp gives its jobs back.
use mathlib.Core.List.Perm
use mathlib.Core.List.{perm_middle}
use gpu_batch_inference_sche.Common.{
  ◌≡◌, sym, subst, ◌∙◌, List, [], ◌∷◌, ◌++◌, Perm, append-nil, append_assoc, All, All-map,
}
use gpu_batch_inference_sche.Common.Sorting.{StrictWeak, IsSorted, insert-perm, insert-IsSorted}
use gpu_batch_inference_sche.Job.{InferenceJob}
use gpu_batch_inference_sche.Job.Order.{
  job_priority_compare-StrictWeak, Precedes, job_priority_compare-Precedes,
}
use gpu_batch_inference_sche.Queue.{
  JobQueue, comes_first, push, push_all, drain_loop, drain, empty_queue,
}

-- Highest priority first, and first come first served within a priority.
abbrev pub IsOrdered : JobQueue → Type 0
IsOrdered q = IsSorted comes_first q.jobs

comes_first-StrictWeak : StrictWeak comes_first
comes_first-StrictWeak = record {
  asymm = λ a b h. job_priority_compare-StrictWeak.asymm b a h;
  weak_trans = λ a b c h h'. job_priority_compare-StrictWeak.weak_trans c b a h' h;
}

pub push-IsOrdered : (q : JobQueue) (job : InferenceJob) → IsOrdered q → IsOrdered (push q job)
unfolding push
push-IsOrdered q job h = insert-IsSorted comes_first comes_first-StrictWeak job q.jobs h

-- Pushing keeps the queue in order.
pub push_all-IsOrdered :
    (q : JobQueue) (jobs : List InferenceJob) → IsOrdered q → IsOrdered (push_all q jobs)
unfolding push_all
push_all-IsOrdered q [] h = h
push_all-IsOrdered q (job ∷ jobs) h = push_all-IsOrdered (push q job) jobs (push-IsOrdered q job h)

pub push-perm : (q : JobQueue) (job : InferenceJob) → Perm (push q job).jobs (job ∷ q.jobs)
unfolding push
push-perm q job = insert-perm comes_first job q.jobs

-- Pushing adds exactly the jobs that are pushed.
pub push_all-perm :
    (q : JobQueue) (jobs : List InferenceJob) → Perm (push_all q jobs).jobs (jobs ++ q.jobs)
unfolding push_all
push_all-perm q [] = Perm.rfl
push_all-perm q (job ∷ jobs) =
    Perm.trans (push_all-perm (push q job) jobs)
      (Perm.trans (Perm.append_left jobs (push-perm q job)) (perm_middle jobs q.jobs))

drain_loop_lem : (jobs out : List InferenceJob) → drain_loop jobs out ≡ out ++ jobs
unfolding drain_loop
drain_loop_lem [] out = sym (append-nil out)
drain_loop_lem (job ∷ jobs) out =
    drain_loop_lem jobs (out ++ job ∷ []) ∙ append_assoc out (job ∷ []) jobs

-- Emptying the queue returns its jobs in the queue's order.
pub drain-jobs : (q : JobQueue) → drain q ≡ q.jobs
unfolding drain
drain-jobs q = drain_loop_lem q.jobs []

-- Each job precedes all that follow it.
abbrev pub IsServed : List InferenceJob → Type 0
IsServed [] = Unit
IsServed (job ∷ jobs) = All (Precedes job) jobs × IsServed jobs

sorted-IsServed : (jobs : List InferenceJob) → IsSorted comes_first jobs → IsServed jobs
sorted-IsServed [] h = tt
sorted-IsServed (job ∷ jobs) h = (
  All-map _ (Precedes job) (λ other. job_priority_compare-Precedes job other) jobs h.0,
  sorted-IsServed jobs h.1,
)

-- A queue filled with any jobs and then emptied gives them all back, each once, and in this order: a
-- job that comes out before another has a higher priority, or the same one and a sequence number that
-- is not larger.
pub drain-push_all :
    (jobs : List InferenceJob)
    → IsServed (drain (push_all empty_queue jobs)) × Perm (drain (push_all empty_queue jobs)) jobs
drain-push_all jobs = rw (drain-jobs (push_all empty_queue jobs)) (
  sorted-IsServed (push_all empty_queue jobs).jobs (push_all-IsOrdered empty_queue jobs tt),
  subst (Perm (push_all empty_queue jobs).jobs) (append-nil jobs) (push_all-perm empty_queue jobs),
)
