-- ===== src/Daemon/Tests.antt =====
-- A concrete replay file of src/main.cpp.
use gpu_batch_inference_sche.Common.{
  ℕ, ◌-◌, ◌*◌, ◌+◌, ℤ, leb_ℤ, Option, some, none, false, arith, pos, true, List, [], ◌∷◌, ◌<◌, ◌≡◌,
  ◌≢◌, ◌⊎◌, refl, length,
}
use gpu_batch_inference_sche.Job.{InferenceJob}
use gpu_batch_inference_sche.Daemon.{
  Line, skipped, fields, Numbers, parse_u64, parse_int, is_id, row_job, parse_replay, replay_loop,
}
use gpu_batch_inference_sche.Config.{
  Text, Config, set_jobs, default_config, parse_args, parse_from, finish_args, options_ok,
  ranges_ok, read_argument, gives_rate, apply_saturation, apply_stress, is_known,
}
use gpu_batch_inference_sche.Daemon.Generator.{Random, IsUniform, random_jobs}
use gpu_batch_inference_sche.Daemon.Generator.Ranges.{Submitted, random_jobs-IsGenerated}
use gpu_batch_inference_sche.Common.Sorting.{insert}
use gpu_batch_inference_sche.Queue.{push, drain, drain_loop, size}
use gpu_batch_inference_sche.Scheduler.{
  tiled, Options, new_scheduler, start, submit_push, submit_count, fail_batch,
}
use gpu_batch_inference_sche.Scheduler.Threads.{
  initial, find_space, take_jobs, fail_no_gpu, max_queue_depth,
}
use gpu_batch_inference_sche.Scheduler.Counted.{unrecorded}
use gpu_batch_inference_sche.Daemon.Loop.{
  Daemon, DaemonRun, at_start, goes_on, submit_next, count_next, all_submitted, dispatcher_moves,
  daemon_start, is_generated,
}
use gpu_batch_inference_sche.Daemon.Wait.{
  MainRun, enters, reads, broke, main_reads, main_breaks-IsDone,
}
use gpu_batch_inference_sche.Daemon.Rows.{IsReplay, parse_replay-rows}

-- One digit, or two, and what follows is left.
abbrev digits : Text → Option (ℕ × ℕ)
digits (d ∷ []) = some (d - 48, 1)
digits (c ∷ d ∷ _) = some ((c - 48) * 10 + (d - 48), 2)
digits [] = none

abbrev signed : Option (ℕ × ℕ) → Option (ℤ × ℕ)
signed none = none
signed (some v) = some (pos (v.0), v.1)

abbrev decimal : Numbers
decimal = record { stoull = digits; stoi = λ text. signed (digits text) }

-- `id,m,n,k,batch,priority`, with the names of the columns cut short, then `7,64,32,16,2,1`, then an
-- empty line.
abbrev file : List Line
file =
    fields ((105 ∷ 100 ∷ []) ∷ (109 ∷ []) ∷ (110 ∷ []) ∷ (107 ∷ []) ∷ (98 ∷ []) ∷ (112 ∷ []) ∷ [])
    ∷ fields
        ((55 ∷ []) ∷ (54 ∷ 52 ∷ []) ∷ (51 ∷ 50 ∷ []) ∷ (49 ∷ 54 ∷ []) ∷ (50 ∷ []) ∷ (49 ∷ []) ∷ [])
    ∷ skipped
    ∷ []

abbrev file_jobs : List InferenceJob
file_jobs =
    record {
      id = 7;
      m = pos 64;
      n = pos 32;
      k = pos 16;
      batch = pos 2;
      priority = pos 1;
      submit_time = 0;
      seq = 0;
    }
    ∷ []

parse_replay-rows_example : IsReplay decimal file file_jobs × (0 < length file_jobs)
unfolding parse_replay replay_loop row_job parse_u64 parse_int is_id
parse_replay-rows_example = parse_replay-rows decimal true file file_jobs refl

-- A generator that always draws the least number.
abbrev lowest : Random
lowest = record { Rng = Unit {0}; draw = λ low high rng. (low, rng); pause = λ rng. rng }

leb_refl : (v : ℤ) → leb_ℤ v v ≡ true
leb_refl v = ground arith

lowest-IsUniform : IsUniform lowest
lowest-IsUniform = λ low high rng h. (leb_refl low, h)

abbrev three_jobs : Config
three_jobs = record default_config { jobs = 3 }

random_jobs-IsGenerated_example :
    Submitted three_jobs (λ i. false) 3 1 (random_jobs lowest three_jobs (λ i. false) 3 1 tt)
unfolding parse_args parse_from finish_args options_ok ranges_ok read_argument gives_rate
    apply_saturation apply_stress is_known
random_jobs-IsGenerated_example =
    random_jobs-IsGenerated lowest lowest-IsUniform (set_jobs 3 ∷ []) three_jobs refl refl refl
      (λ i. false) tt

-- The scheduler that `main` starts where there is no GPU.
abbrev loop_options : Options
loop_options = record {
  max_batch = pos 8;
  safety_margin_bytes = 0;
  num_workers = pos 1;
  impl = tiled;
  retain_results = false;
  fixed_budget_bytes = 0;
  util_sample_ms = pos 100;
}

abbrev loop_start : Daemon
loop_start = daemon_start (initial loop_options 0 0 none) file_jobs

jobs_not_nil : {job : InferenceJob} {jobs : List InferenceJob} → (job ∷ jobs) ≢ []
jobs_not_nil e = absurd cc

-- The job of the file is submitted, and fails for want of a GPU; then the loop of `main` reads on to its
-- `break`.
finished_loop : (y : Daemon) × MainRun 0 loop_start broke y
unfolding initial start new_scheduler submit_push submit_count push insert max_queue_depth drain
    drain_loop fail_batch main_reads is_generated size
finished_loop =
    let r₀ : DaemonRun 0 loop_start loop_start = at_start in
    let r₁ = goes_on r₀ (submit_next 5 _ _ refl refl) in
    let r₂ = goes_on r₁ (count_next 0 _ refl refl) in
    let r₃ = goes_on r₂ (all_submitted refl) in
    let r₄ = goes_on r₃ (dispatcher_moves (find_space refl (omega arith))) in
    let r₅ = goes_on r₄ (dispatcher_moves (take_jobs refl jobs_not_nil)) in
    let r₆ = goes_on r₅ (dispatcher_moves (fail_no_gpu refl)) in
    (_, reads (reads (reads (reads (reads (reads (enters r₆)))))))

main_breaks-IsDone_example :
    (length finished_loop.0.system.sched.metrics ≡ finished_loop.0.system.sched.next_seq)
    × (finished_loop.0.system.sched.completed ≡ finished_loop.0.system.sched.next_seq)
    × (unrecorded finished_loop.0.system ≡ 0)
    × ((finished_loop.0.system.sched.next_seq ≡ 1) ⊎ (finished_loop.0.interrupted ≡ true))
main_breaks-IsDone_example = main_breaks-IsDone 0 loop_options 0 0 none file_jobs (finished_loop.1)
