-- ===== src/Status/Tests.antt =====
-- Concrete values that src/server/http_server.cpp reports.
use gpu_batch_inference_sche.Common.{ℕ, pos, false, ◌+◌, ◌*◌, ◌/◌, ◌≡◌, refl, none, total, length}
use gpu_batch_inference_sche.Scheduler.{tiled, Options}
use gpu_batch_inference_sche.Scheduler.Threads.{
  System, Reach, here, next, initial, client_push, client_count,
}
use gpu_batch_inference_sche.Scheduler.Holding.{dispatcher_jobs, worker_jobs}
use gpu_batch_inference_sche.Scheduler.Counted.{uncompleted}
use gpu_batch_inference_sche.Job.{InferenceJob}
use gpu_batch_inference_sche.Status.{metrics_handler}
use gpu_batch_inference_sche.Status.InFlight.{in_flight_lem}

-- The rank of the 95th percentile, in exact arithmetic.
abbrev rank_95 : ℕ → ℕ
rank_95 n = (95 * n + 99) / 100

-- The rank of the median, in exact arithmetic.
abbrev rank_50 : ℕ → ℕ
rank_50 n = (50 * n + 99) / 100

abbrev a_job : InferenceJob
a_job = record {
  id = 1;
  m = pos 2;
  n = pos 3;
  k = pos 4;
  batch = pos 1;
  priority = pos 0;
  submit_time = 1;
  seq = 0;
}

abbrev options : Options
options = record {
  max_batch = pos 2;
  safety_margin_bytes = 10;
  num_workers = pos 1;
  impl = tiled;
  retain_results = false;
  fixed_budget_bytes = 100;
  util_sample_ms = pos 100;
}

-- One submission, which has counted.
submitted_run : (x : System) × Reach 100 (initial options 1 1000 none) x
unfolding initial
submitted_run =
    let r₀ : Reach 100 (initial options 1 1000 none) (initial options 1 1000 none) = here in
    (_, next (next r₀ (client_push 5 a_job)) (client_count 0 refl))

in_flight_lem_example :
    let page = metrics_handler rank_95 submitted_run.0.sched in
    (page.in_flight
      ≡ length (dispatcher_jobs submitted_run.0.dispatcher)
        + total length submitted_run.0.sched.batch_queue
        + total (λ pc. length (worker_jobs pc)) submitted_run.0.workers
        + total uncompleted submitted_run.0.workers)
    × (page.completed_total + page.queue_depth + page.in_flight ≡ page.submitted_total)
unfolding submitted_run
in_flight_lem_example = in_flight_lem options 1 1000 none 100 rank_95 submitted_run.1 refl
