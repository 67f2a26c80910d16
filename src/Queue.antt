-- ===== src/Queue.antt =====
-- `queue_` of src/sched/scheduler.hpp: a `std::priority_queue` of jobs under `JobPriorityCompare`,
-- and the loop of `dispatcher_loop` in src/sched/scheduler.cpp that empties it. The queue is kept
-- as the list in which its jobs come out, so `top` is the head.
pub mod Order
mod Tests
use gpu_batch_inference_sche.Common.{
  ℕ, Bool, true, false, List, [], ◌∷◌, ◌++◌, Option, none, some, length,
}
use gpu_batch_inference_sche.Common.Sorting.{insert}
use gpu_batch_inference_sche.Job.{InferenceJob, job_priority_compare}

pub record JobQueue : Type 0 where
  pub jobs : List InferenceJob

-- `a` comes out in front of `b`.
abbrev pub comes_first : InferenceJob → InferenceJob → Bool
comes_first a b = job_priority_compare b a

abbrev pub empty_queue : JobQueue
empty_queue = record { jobs = [] }

unfoldable pub push : JobQueue → InferenceJob → JobQueue
push q job = record { jobs = insert comes_first job q.jobs }

-- `queue_.push` for each job of a vector.
unfoldable pub push_all : JobQueue → List InferenceJob → JobQueue
push_all q [] = q
push_all q (job ∷ jobs) = push_all (push q job) jobs

unfoldable pub size : JobQueue → ℕ
size q = length q.jobs

-- `while (!queue_.empty()) { candidates.push_back(queue_.top()); queue_.pop(); }`
unfoldable pub drain_loop : List InferenceJob → List InferenceJob → List InferenceJob
drain_loop [] candidates = candidates
drain_loop (top ∷ rest) candidates = drain_loop rest (candidates ++ top ∷ [])

unfoldable pub drain : JobQueue → List InferenceJob
unfolding drain_loop
drain q = drain_loop q.jobs []
