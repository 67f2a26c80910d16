-- ===== src/Scheduler/Tests.antt =====
-- A run of the scheduler of src/sched/scheduler.cpp, and the theorems about runs applied to it.
use gpu_batch_inference_sche.Common.{
  All, ltb, if◌then◌else◌, length, ◌≡◌, refl, true, false, List, [], ◌∷◌, none, pos, arith, ◌<◌,
  ◌≤◌, ◌≢◌,
}
use gpu_batch_inference_sche.Common.Sorting.{insert, stable_sort}
use gpu_batch_inference_sche.Job.{InferenceJob, bytes_required, job_priority_compare}
use gpu_batch_inference_sche.Queue.{push, push_all, drain, drain_loop}
use gpu_batch_inference_sche.Pack.{
  pack_jobs, sweep, pack_step, is_full, is_over, packs_before, age_bucket,
}
use gpu_batch_inference_sche.Scheduler.{
  tiled, Options, new_scheduler, start, submit_push, submit_count, max_job_bytes, reserve_bytes,
  base_bytes, budget_bytes, fail_batch, batch_bytes, batch_bytes_from,
}
use gpu_batch_inference_sche.Scheduler.Holding.{holding}
use gpu_batch_inference_sche.Scheduler.Counters.{seq_is, record_is}
use gpu_batch_inference_sche.Scheduler.Counted.{Counted}
use gpu_batch_inference_sche.Scheduler.Abstract.{Served, nothing}
use gpu_batch_inference_sche.Scheduler.Outcome.{view}
use gpu_batch_inference_sche.Scheduler.Restart.{
  Life, born, acts, restarts, restart, Life-never_overcommitted, Life-placed_once, Life-Counted,
  Life-refines,
}
use mathlib.Core.List.{mem-cons_self, mem-cons_of_mem}
use gpu_batch_inference_sche.Scheduler.Idle.{idle_packs}
use gpu_batch_inference_sche.Scheduler.Reserve.{unfinished_bytes}
use gpu_batch_inference_sche.Scheduler.Batches.{IsBatch, batch_queue_bounded}
use gpu_batch_inference_sche.Scheduler.Shutdown.{steps_left, shutdown_terminates}
use gpu_batch_inference_sche.Scheduler.Stranded.{IsStranded, stop_may_strand}
use gpu_batch_inference_sche.Scheduler.Threads.{
  dispatcher_done, admitted, leave_space, reserved, System, max_queue_depth, oversized, fitting,
  reject_oversized, find_space, take_jobs, admit, fail_no_gpu, pack, requeue, reserve, enqueue,
  Step, idle, leave, work, request_stop, client_push, client_count, dispatch, Reach, here, next,
  initial,
}

abbrev options : Options
options = record {
  max_batch = pos 2;
  safety_margin_bytes = 10;
  num_workers = pos 1;
  impl = tiled;
  retain_results = false;
  fixed_budget_bytes = 100;
  util_sample_ms = pos 100;
}

abbrev small_job : InferenceJob
small_job = record {
  id = 7;
  m = pos 1;
  n = pos 1;
  k = pos 1;
  batch = pos 1;
  priority = pos 0;
  submit_time = 0;
  seq = 0;
}

abbrev large_job : InferenceJob
large_job = record small_job { id = 8; batch = pos 20 }

abbrev second_large : InferenceJob
second_large = record large_job { submit_time = 9; seq = 1 }

abbrev second_small : InferenceJob
second_small = record small_job { submit_time = 10; seq = 2 }

cons_not_nil : {job : InferenceJob} {jobs : List InferenceJob} → (job ∷ jobs) ≢ []
cons_not_nil e = absurd cc

abbrev one_gpu : System
one_gpu = initial options 1 1000 none

-- Two submissions, of which one has counted: the first job is packed, reserved for and queued, the
-- second is oversized for the budget and goes back to the queue.
queued_run : (x : System) × Reach 100 one_gpu x
unfolding initial start new_scheduler submit_push submit_count push insert job_priority_compare
    max_queue_depth drain drain_loop push_all pack_jobs stable_sort packs_before age_bucket sweep
    pack_step is_full is_over bytes_required max_job_bytes base_bytes budget_bytes reserve_bytes
    batch_bytes batch_bytes_from fitting oversized reject_oversized
queued_run =
    let r₀ : Reach 100 one_gpu one_gpu = here in
    let r₁ = next r₀ (client_push 5 small_job) in
    let r₂ = next r₁ (client_push 6 large_job) in
    let r₃ = next r₂ (client_count 1 refl) in
    let r₄ = next r₃ (dispatch (find_space refl (omega arith))) in
    let r₅ = next r₄ (dispatch (take_jobs refl cons_not_nil)) in
    let r₆ = next r₅ (dispatch (admit refl)) in
    let r₇ = next r₆ (dispatch (pack 7 0 _ (omega arith) refl)) in
    let r₈ = next r₇ (dispatch requeue) in
    let r₉ = next r₈ (dispatch reserve) in let r₁₀ = next r₉ (dispatch enqueue) in (_, r₁₀)

abbrev no_gpu : System
no_gpu = initial options 0 0 none

batch_queue_bounded_example :
    (length queued_run.0.sched.batch_queue ≤ max_queue_depth options)
    × All (IsBatch 2) queued_run.0.sched.batch_queue
batch_queue_bounded_example =
    batch_queue_bounded options 2 refl (omega arith) (omega arith) 100 1 1000 none queued_run.1

-- The scheduler of `queued_run`, with the stop requested.
abbrev stopping : System
stopping = record (queued_run.0) { sched = record (queued_run.0.sched) { shutdown = true } }

-- The dispatcher sees the stop before its next round.
abbrev leaving : Step 100 stopping (record stopping { dispatcher = dispatcher_done })
unfolding queued_run
leaving = dispatch (leave_space refl)

shutdown_terminates_example :
    (steps_left (record stopping { dispatcher = dispatcher_done }) < steps_left stopping)
    × (stopping.sched.shutdown ≡ true)
unfolding queued_run leaving
shutdown_terminates_example = shutdown_terminates leaving tt refl

-- A scheduler whose dispatcher has reserved for a batch, while its worker has none.
abbrev holding_batch : System
holding_batch = record one_gpu { dispatcher = reserved (small_job ∷ []) }

stop_may_strand_example :
    (y : System) × Reach 100 holding_batch y × IsStranded (small_job ∷ []) holding_batch y
unfolding initial start new_scheduler
stop_may_strand_example = stop_may_strand 100 holding_batch 1 (small_job ∷ []) refl refl refl

-- A job fails without a GPU; the scheduler is stopped, and started again with one; a job comes.
two_lives : (x : System) × Life 100 no_gpu x
unfolding initial start new_scheduler submit_push submit_count push insert max_queue_depth drain
    drain_loop fail_batch restart job_priority_compare
two_lives =
    let l₀ : Life 100 no_gpu no_gpu = born in
    let l₁ = acts l₀ (client_push 5 small_job) in
    let l₂ = acts l₁ (client_count 0 refl) in
    let l₃ = acts l₂ (dispatch (find_space refl (omega arith))) in
    let l₄ = acts l₃ (dispatch (take_jobs refl cons_not_nil)) in
    let l₅ = acts l₄ (dispatch (fail_no_gpu refl)) in
    let l₆ = acts l₅ request_stop in
    let l₇ = acts l₆ (work [] [] idle refl (leave refl refl)) in
    let l₈ = acts l₇ (dispatch (leave_space refl)) in
    let l₉ = restarts 1 1000 none l₈ (refl, (refl, tt)) in
    let l₁₀ = acts l₉ (client_push 9 large_job) in (_, l₁₀)

-- The second life goes on to pack a small job and to reserve its bytes.
busy_life : (x : System) × Life 100 no_gpu x
unfolding initial start new_scheduler submit_push submit_count push insert max_queue_depth drain
    drain_loop fail_batch restart job_priority_compare two_lives pack_jobs stable_sort packs_before
    age_bucket sweep pack_step is_full is_over bytes_required max_job_bytes base_bytes budget_bytes
    reserve_bytes batch_bytes batch_bytes_from fitting oversized reject_oversized push_all
busy_life =
    let l₁ = acts two_lives.1 (client_push 10 small_job) in
    let l₂ = acts l₁ (dispatch (find_space refl (omega arith))) in
    let l₃ = acts l₂ (dispatch (take_jobs refl cons_not_nil)) in
    let l₄ = acts l₃ (dispatch (admit refl)) in
    let l₅ = acts l₄ (dispatch (pack 11 0 _ (omega arith) refl)) in
    let l₆ = acts l₅ (dispatch requeue) in let l₇ = acts l₆ (dispatch reserve) in (_, l₇)

Life-never_overcommitted_example :
    (busy_life.0.sched.reserved_bytes ≡ unfinished_bytes busy_life.0)
    × (unfinished_bytes busy_life.0 ≤ 100)
Life-never_overcommitted_example =
    Life-never_overcommitted options 0 0 none 100 (omega arith) busy_life.1

Life-placed_once_example :
    holding (seq_is 1) (record_is 1) busy_life.0
    ≡ (if ltb 1 busy_life.0.sched.next_seq then 1 else 0)
Life-placed_once_example = Life-placed_once options 0 0 none 100 busy_life.1 1

Life-Counted_example : Counted busy_life.0
Life-Counted_example = Life-Counted options 0 0 none 100 busy_life.1

Life-refines_example : Served nothing (view busy_life.0)
Life-refines_example = Life-refines options 0 0 none 100 busy_life.1

-- The second life with both jobs drained, of which the small one fits the budget.
admitted_life :
    (x : System) × Life 100 no_gpu x
    × (x.dispatcher ≡ admitted (second_large ∷ second_small ∷ []))
    × (unfinished_bytes x ≡ 0)
    × (x.sched.opts ≡ options)
unfolding initial start new_scheduler submit_push submit_count push insert max_queue_depth drain
    drain_loop fail_batch restart job_priority_compare two_lives fitting oversized reject_oversized
    max_job_bytes bytes_required
admitted_life =
    let l₁ = acts two_lives.1 (client_push 10 small_job) in
    let l₂ = acts l₁ (dispatch (find_space refl (omega arith))) in
    let l₃ = acts l₂ (dispatch (take_jobs refl cons_not_nil)) in
    let l₄ = acts l₃ (dispatch (admit refl)) in (_, l₄, refl, refl, refl)

idle_packs_example : (pack_jobs 11 (second_large ∷ second_small ∷ []) 100 (pos 2)).selected ≢ []
unfolding base_bytes bytes_required budget_bytes admitted_life reject_oversized
idle_packs_example =
    idle_packs options 0 0 none 100 2 second_small (omega arith) (admitted_life.1) (admitted_life.3)
      refl (omega arith) (omega arith) (second_large ∷ second_small ∷ [])
      (mem-cons_of_mem second_large mem-cons_self) 11 0 (omega arith) (omega arith)
