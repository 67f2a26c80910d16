-- ===== src/Status/InFlight.antt =====
-- The gauge `gbis_in_flight_jobs` of src/server/http_server.cpp.
use gpu_batch_inference_sche.Common.{ℕ, ◌+◌, ◌≡◌, Option, total, length, arith, leb, true, refl}
use gpu_batch_inference_sche.Queue.{size}
use gpu_batch_inference_sche.Scheduler.{Options}
use gpu_batch_inference_sche.Scheduler.Threads.{System, Reach, initial}
use gpu_batch_inference_sche.Scheduler.Holding.{dispatcher_jobs, worker_jobs}
use gpu_batch_inference_sche.Scheduler.Counted.{Reach-Counted, uncompleted, unrecorded}
use gpu_batch_inference_sche.Status.{metrics_handler}

module _ (opts : Options) (ndev sampled_total : ℕ) (mem_info : Option ℕ) (limit : ℕ) where
  -- In every reachable state in which no client is about to count a submission, the values read at
  -- once agree: the gauge is the number of jobs that the dispatcher holds, that wait in a batch or
  -- that a worker has and has not yet counted as completed, and with the completed and the queued
  -- jobs it makes up all the submitted ones.
  pub in_flight_lem :
      (rank_of : ℕ → ℕ) {x : System}
      → Reach limit (initial opts ndev sampled_total mem_info) x
      → x.uncounted ≡ 0
      → let page = metrics_handler rank_of x.sched in
        (page.in_flight
          ≡ length (dispatcher_jobs x.dispatcher)
            + total length x.sched.batch_queue
            + total (λ pc. length (worker_jobs pc)) x.workers
            + total uncompleted x.workers)
        × (page.completed_total + page.queue_depth + page.in_flight ≡ page.submitted_total)
  unfolding metrics_handler size
  in_flight_lem rank_of {x} r quiet =
      let c = Reach-Counted opts ndev sampled_total mem_info limit r in
      let s₁ : x.sched.submitted + x.uncounted ≡ x.sched.next_seq = c.on_submitted in
      let s₂ : x.sched.completed + total uncompleted x.workers ≡ length x.sched.metrics =
        c.on_completed in
      let s₃ : length x.sched.metrics + unrecorded x ≡ x.sched.next_seq = c.on_recorded in
      let s₄ : size x.sched.queue ≡ length x.sched.queue.jobs = refl in
      let test : leb (x.sched.completed + size x.sched.queue) x.sched.submitted ≡ true =
        ground arith in
      rw test (omega arith, omega arith)
