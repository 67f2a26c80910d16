-- ===== src/Scheduler/Abstract.antt =====
-- What the `BatchScheduler` of src/sched/scheduler.hpp promises its clients, without its threads: a bag
-- of jobs that have no record yet, and the records. A job is submitted, and some pending jobs are
-- settled together, all finished or all failed.
use gpu_batch_inference_sche.Common.{
  ℕ, suc, ◌≡◌, List, [], ◌∷◌, ◌++◌, map, total, total-append, arith,
}
use gpu_batch_inference_sche.Job.{InferenceJob}
use gpu_batch_inference_sche.Scheduler.{JobMetrics, failed_metrics}
use gpu_batch_inference_sche.Scheduler.Threads.{batch_metrics}
use mathlib.Core.Quot
use mathlib.Core.Quot.{Quot, Quot-set}

-- Two lists hold the same jobs, each as often: every count of jobs, and every sum over jobs, agrees.
abbrev pub SameJobs : List InferenceJob → List InferenceJob → Type 0
SameJobs xs ys = (w : InferenceJob → ℕ) → total w xs ≡ total w ys

-- Jobs in no order.
abbrev pub Bag : Type 0
Bag = Quot SameJobs

abbrev pub bag : List InferenceJob → Bag
bag jobs = Quot.mk jobs

pub bag_path : (xs ys : List InferenceJob) → SameJobs xs ys → bag xs ≡ bag ys
bag_path xs ys h = Quot.sound h

-- Adds jobs to a bag.
unfoldable pub add_jobs : List InferenceJob → Bag → Bag
add_jobs batch =
    Quot.lift Quot-set (λ jobs. bag (batch ++ jobs))
      (λ xs ys h.
        Quot.sound (λ w. omega (arith, total-append w batch xs, total-append w batch ys, h w)))

pub record Promise : Type 0 where
  pub pending : Bag
  pub records : List JobMetrics
  pub next_seq : ℕ

-- The records of jobs that are settled together.
pub data Verdict (batch : List InferenceJob) : List JobMetrics → Type 0 where
  all_failed : Verdict batch (map failed_metrics batch)
  all_finished : (clock : InferenceJob → ℕ × ℕ) → Verdict batch (batch_metrics clock batch)

pub data Serve (p : Promise) : Promise → Type 0 where
  submitted :
      (now : ℕ) (job : InferenceJob)
      → Serve p (record p {
        pending = add_jobs (record job { submit_time = now; seq = p.next_seq } ∷ []) p.pending;
        next_seq = suc p.next_seq;
      })
  settled :
      (batch : List InferenceJob) (rest : Bag) (records : List JobMetrics)
      → p.pending ≡ add_jobs batch rest
      → Verdict batch records
      → Serve p (record p { pending = rest; records = p.records ++ records })

pub data Served (p : Promise) : Promise → Type 0 where
  unserved : Served p p
  serve : {q r : Promise} → Served p q → Serve q r → Served p r

-- Nothing submitted.
abbrev pub nothing : Promise
nothing = record { pending = bag []; records = []; next_seq = 0 }
