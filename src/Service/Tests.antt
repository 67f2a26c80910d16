-- ===== src/Service/Tests.antt =====
-- A job from its submission to its result.
use gpu_batch_inference_sche.Common.{
  ◌≡◌, ◌≢◌, refl, true, List, [], ◌∷◌, none, some, pos, arith, false,
}
use gpu_batch_inference_sche.Common.Sorting.{insert, stable_sort}
use gpu_batch_inference_sche.Job.{InferenceJob, bytes_required, job_priority_compare}
use gpu_batch_inference_sche.Queue.{push, push_all, drain, drain_loop}
use gpu_batch_inference_sche.Pack.{
  pack_jobs, sweep, pack_step, is_full, is_over, packs_before, age_bucket,
}
use gpu_batch_inference_sche.Scheduler.{
  tiled, Options, new_scheduler, start, submit_push, submit_count, max_job_bytes, reserve_bytes,
  base_bytes, budget_bytes, batch_bytes, batch_bytes_from,
}
use gpu_batch_inference_sche.Scheduler.Threads.{
  running, System, max_queue_depth, oversized, fitting, reject_oversized, find_space, take_jobs,
  admit, pack, requeue, reserve, enqueue, take_batch, client_push, client_count, dispatch, work,
  Reach, here, next, initial,
}
use gpu_batch_inference_sche.Pipeline.Results.{retain_all, get_result}
use gpu_batch_inference_sche.Pipeline.Tests.{
  two_numbers, empty_buffers, by_the_book, begin, one_job, any_fault, failing_attempt,
}
use gpu_batch_inference_sche.Alloc
use gpu_batch_inference_sche.Alloc.Tests.{job, unused, generous, generous_allocated}
use gpu_batch_inference_sche.Stream.Failing.{IsQuiet, ReadsFirst}
use gpu_batch_inference_sche.Service.Batch.{Executed, aborted, SameLive, Executed-IsClean}
use gpu_batch_inference_sche.Service.{get_result-running}

abbrev options : Options
options = record {
  max_batch = pos 2;
  safety_margin_bytes = 10;
  num_workers = pos 1;
  impl = tiled;
  retain_results = true;
  fixed_budget_bytes = 100;
  util_sample_ms = pos 100;
}

abbrev submitted_job : InferenceJob
submitted_job = record {
  id = 7;
  m = pos 1;
  n = pos 1;
  k = pos 1;
  batch = pos 1;
  priority = pos 0;
  submit_time = 5;
  seq = 0;
}

cons_not_nil : {job : InferenceJob} {jobs : List InferenceJob} → (job ∷ jobs) ≢ []
cons_not_nil e = absurd cc

-- The worker has taken the batch of the one job.
running_state :
    (x : System) × Reach 100 (initial options 1 1000 none) x
    × (x.workers ≡ running (submitted_job ∷ []) ∷ [])
unfolding initial start new_scheduler submit_push submit_count push insert job_priority_compare
    max_queue_depth drain drain_loop push_all pack_jobs stable_sort packs_before age_bucket sweep
    pack_step is_full is_over bytes_required max_job_bytes base_bytes budget_bytes reserve_bytes
    batch_bytes batch_bytes_from fitting oversized reject_oversized
running_state =
    let r₀ : Reach 100 (initial options 1 1000 none) (initial options 1 1000 none) = here in
    let r₁ = next r₀ (client_push 5 submitted_job) in
    let r₂ = next r₁ (client_count 0 refl) in
    let r₃ = next r₂ (dispatch (find_space refl (omega arith))) in
    let r₄ = next r₃ (dispatch (take_jobs refl cons_not_nil)) in
    let r₅ = next r₄ (dispatch (admit refl)) in
    let r₆ = next r₅ (dispatch (pack 7 0 _ (omega arith) refl)) in
    let r₇ = next r₆ (dispatch requeue) in
    let r₈ = next r₇ (dispatch reserve) in
    let r₉ = next r₈ (dispatch enqueue) in
    let r₁₀ = next r₉ (work [] [] _ refl (take_batch (submitted_job ∷ []) [] refl)) in
    (_, r₁₀, refl)

get_result-running_example :
    get_result (retain_all (submitted_job ∷ []) (one_job.0.results) []) 0 ≡ some (some 42)
get_result-running_example =
    get_result-running options 1 1000 none 100 refl running_state.1 [] [] [] submitted_job []
      running_state.2 two_numbers by_the_book empty_buffers begin (one_job.0) [] refl (one_job.1)
      (one_job.2)

-- The buffers of the job are there, and its second upload fails.
aborted_batch :
    (space : Alloc.Space) × Executed any_fault generous generous
      (job ∷ [])
      unused
      begin
      false
      (failing_attempt.0)
      space
aborted_batch = (_, aborted generous_allocated (failing_attempt.1))

Executed-IsClean_example :
    SameLive unused (aborted_batch.0)
    × IsQuiet two_numbers (failing_attempt.0)
    × ReadsFirst (failing_attempt.0.results) (some 42 ∷ [])
Executed-IsClean_example =
    Executed-IsClean two_numbers by_the_book any_fault generous generous true 0 (job ∷ []) unused
      empty_buffers begin refl refl (aborted_batch.1)
