-- ===== src/Service.antt =====
-- Where the threads of the scheduler and the pipeline of a batch meet, in src/sched/scheduler.cpp: a
-- worker runs execute_batch on a batch that the dispatcher packed, and clients ask get_result for the
-- sequence numbers that submit gave them.
pub mod Batch
mod Tests
use gpu_batch_inference_sche.Common.{
  Bool, ℕ, suc, ◌+◌, ◌≤◌, ◌==◌, ◌≡◌, ◌≢◌, refl, subst, ap, sym, ◌∙◌, List, [], ◌∷◌, ◌++◌, Option,
  some, true, false, All, total, total-append, length, ltb, if◌then◌else◌, arith,
}
use gpu_batch_inference_sche.Job.{InferenceJob}
use gpu_batch_inference_sche.Scheduler.{Options}
use gpu_batch_inference_sche.Scheduler.Threads.{System, WorkerPc, running, Reach, initial}
use gpu_batch_inference_sche.Scheduler.Holding.{holding, worker_weight}
use gpu_batch_inference_sche.Scheduler.Counters.{seq_is, record_is, placed_once}
use gpu_batch_inference_sche.Stream.{Jobs, Memory, Runtime, Execution, start_program}
use gpu_batch_inference_sche.Pipeline.{execute_batch}
use gpu_batch_inference_sche.Pipeline.Results.{
  Results, retain_all, get_result, get_result-execute_batch,
}

differs : (b a rest : ℕ) → (if b == a then 1 else 0) + rest ≡ 0 → b ≢ a
differs b a rest h = λ e. absurd (grind arith)

weighs_one : (a : ℕ) → (let one : ℕ = if a == a then 1 else 0 in one ≡ 1)
weighs_one a = ground arith

at_most_one : (b : Bool) → (if b then 1 else 0) ≤ 1
at_most_one true = omega arith
at_most_one false = omega arith

unweighed :
    (a : ℕ) (jobs : List InferenceJob)
    → total (seq_is a) jobs ≡ 0
    → All (λ other. other.seq ≢ a) jobs
unweighed a [] h = tt
unweighed a (job ∷ jobs) h =
    (differs job.seq a (total (seq_is a) jobs) h, unweighed a jobs (omega (arith, h)))

-- In a reachable state, the jobs after a job of a running batch have other sequence numbers.
running-Distinct :
    (opts : Options) (ndev sampled_total : ℕ) (mem_info : Option ℕ) (limit : ℕ) {x : System}
    → Reach limit (initial opts ndev sampled_total mem_info) x
    → (left right : List WorkerPc) (before : List InferenceJob) (job : InferenceJob)
      (after : List InferenceJob)
    → x.workers ≡ left ++ running (before ++ job ∷ after) ∷ right
    → All (λ other. other.seq ≢ job.seq) after
running-Distinct opts ndev sampled_total mem_info limit {x} r left right before job after e =
    let a : ℕ = job.seq in
    let once = placed_once opts ndev sampled_total mem_info limit r a in
    let split =
      total-append (worker_weight (seq_is a) (record_is a)) left
        (running (before ++ job ∷ after) ∷ right) in
    let in_batch = total-append (seq_is a) before (job ∷ after) in
    let same = ap (total (worker_weight (seq_is a) (record_is a))) e in
    unweighed a after (
      omega
        (arith, once, split, in_batch, same, weighs_one a, at_most_one (ltb a x.sched.next_seq)))

-- In every reachable state of a scheduler that retains results, on any machine that does what the
-- documentation of CUDA allows: for a batch that a worker is executing, once it has made all its calls
-- for the batch, get_result returns for each job of the batch the product of that job, since no other
-- job has its sequence number.
pub get_result-running :
    (opts : Options) (ndev sampled_total : ℕ) (mem_info : Option ℕ) (limit : ℕ) {x : System}
    → opts.retain_results ≡ true
    → Reach limit (initial opts ndev sampled_total mem_info) x
    → (left right : List WorkerPc) (before : List InferenceJob) (job : InferenceJob)
      (after : List InferenceJob)
    → x.workers ≡ left ++ running (before ++ job ∷ after) ∷ right
    → (j : Jobs) (cuda : Runtime j) (m : Memory j) (d d' : cuda.Device)
      (results : Results (Option j.Matrix))
    → cuda.view d
      ≡ start_program j (execute_batch opts.retain_results (length (before ++ job ∷ after))) m
    → Execution cuda d d'
    → (cuda.view d').program ≡ []
    → get_result (retain_all (before ++ job ∷ after) (cuda.view d').results results) job.seq
      ≡ some (
          some (j.multiply (length before) (j.input_a (length before)) (j.input_b (length before))))
get_result-running opts ndev sampled_total mem_info limit {x} retains r left right before job after
      e j cuda m d d' results begun run ended =
    get_result-execute_batch j cuda before job after m d d' results
      (running-Distinct opts ndev sampled_total mem_info limit r left right before job after e)
      (subst
        (λ b. cuda.view d ≡ start_program j (execute_batch b (length (before ++ job ∷ after))) m)
        retains begun)
      run ended
