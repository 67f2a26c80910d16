-- ===== src/Status.antt =====
-- What the program reports: the `/metrics` handler of src/server/http_server.cpp, `scheduler_stats`
-- of src/bindings/py_module.cpp and `print_summary` of src/sched/scheduler.cpp. Latencies are in
-- nanoseconds.
pub mod Percentile
pub mod Monotone
pub mod InFlight
mod Tests
use gpu_batch_inference_sche.Common.{
  ℕ, zero, suc, ◌+◌, ◌-◌, Bool, true, false, not, ℤ, List, [], ◌∷◌, ltb, leb, if◌then◌else◌, length,
  Option, none, some,
}
use gpu_batch_inference_sche.Common.Sorting.{stable_sort}
use gpu_batch_inference_sche.Queue.{size}
use gpu_batch_inference_sche.Scheduler.{BatchScheduler, JobMetrics}

-- The two variables of the loop over the metrics.
pub record Tally : Type 0 where
  pub e2e : List ℕ
  pub failed : ℕ

-- The loop over the metrics: latencies of the jobs that succeeded, in order, and the other jobs.
pub tally : List JobMetrics → Tally
tally [] = record { e2e = []; failed = 0 }
tally (m ∷ metrics) =
    let rest : Tally = tally metrics in
    if m.ok
    then record rest { e2e = m.e2e_ns ∷ rest.e2e }
    else record rest { failed = suc rest.failed }

-- The element at an index, where there is one.
unfoldable pub get_elem? {ℓ} : {A : Type ℓ} → List A → ℕ → Option A
get_elem? [] i = none
get_elem? (x ∷ xs) zero = some x
get_elem? (x ∷ xs) (suc i) = get_elem? xs i

-- `percentile`; `rank_of n` is `ceil(p / 100.0 * n)` as the hardware computes it. `none` stands for an
-- access outside the vector.
pub percentile : (ℕ → ℕ) → List ℕ → Option ℕ
unfolding get_elem?
percentile rank_of v =
    let rank : ℕ = rank_of (length v) in
    if ltb 0 (length v)
    then get_elem? (stable_sort ltb v) ((if ltb rank 1 then 1 else rank) - 1)
    else some 0

-- The values on the page that the `/metrics` handler renders.
pub record StatusPage : Type 0 where
  pub queue_depth : ℕ
  pub in_flight : ℕ
  pub submitted_total : ℕ
  pub completed_total : ℕ
  pub failed_total : ℕ
  pub latency_p95 : Option ℕ

-- The `/metrics` handler, where no other thread moves between its reads.
pub metrics_handler : (ℕ → ℕ) → BatchScheduler → StatusPage
metrics_handler rank_of s =
    let queued : ℕ = size s.queue in
    let seen : Tally = tally s.metrics in
    record {
      queue_depth = queued;
      in_flight =
          if leb (s.completed + queued) s.submitted then s.submitted - s.completed - queued else 0;
      submitted_total = s.submitted;
      completed_total = s.completed;
      failed_total = seen.failed;
      latency_p95 = percentile rank_of seen.e2e;
    }

-- The ranks of the three percentiles, as the hardware computes them.
pub record Ranks : Type 0 where
  pub rank_50 : ℕ → ℕ
  pub rank_95 : ℕ → ℕ
  pub rank_99 : ℕ → ℕ

-- The values that `print_summary` prints; rates and the utilization are left out.
pub record Summary : Type 0 where
  pub submitted : ℕ
  pub completed : ℕ
  pub failed : ℕ
  pub rejected_oversized : ℕ
  pub malloc_retries : ℕ
  pub malloc_failures : ℕ
  pub p50 : Option ℕ
  pub p95 : Option ℕ
  pub p99 : Option ℕ

pub print_summary : Ranks → BatchScheduler → Summary
unfolding percentile tally
print_summary ranks s =
    let seen : Tally = tally s.metrics in
    record {
      submitted = s.submitted;
      completed = s.completed;
      failed = seen.failed;
      rejected_oversized = s.rejected_jobs;
      malloc_retries = s.alloc_retries;
      malloc_failures = s.oom_failures;
      p50 = percentile ranks.rank_50 seen.e2e;
      p95 = percentile ranks.rank_95 seen.e2e;
      p99 = percentile ranks.rank_99 seen.e2e;
    }

-- The values of the dictionary that `scheduler_stats` returns; rates and times are left out.
pub record Stats : Type 0 where
  pub running : Bool
  pub submitted : ℕ
  pub completed : ℕ
  pub queued : ℕ
  pub failed : ℕ
  pub p50 : Option ℕ
  pub p95 : Option ℕ
  pub p99 : Option ℕ

-- `scheduler_stats`, with the globals `g_sched` and `g_running`.
pub scheduler_stats : Ranks → Option BatchScheduler → Bool → Stats
unfolding percentile tally
scheduler_stats ranks none running = record {
  running = running;
  submitted = 0;
  completed = 0;
  queued = 0;
  failed = 0;
  p50 = some 0;
  p95 = some 0;
  p99 = some 0;
}
scheduler_stats ranks (some s) running =
    let seen : Tally = tally s.metrics in
    record {
      running = running;
      submitted = s.submitted;
      completed = s.completed;
      queued = size s.queue;
      failed = seen.failed;
      p50 = percentile ranks.rank_50 seen.e2e;
      p95 = percentile ranks.rank_95 seen.e2e;
      p99 = percentile ranks.rank_99 seen.e2e;
    }

-- `HttpStatusServer`, as far as its thread goes.
pub record HttpStatusServer : Type 0 where
  pub port : ℤ
  pub serving : Bool

pub new_server : ℤ → HttpStatusServer
new_server port = record { port = port; serving = false }

-- The end of `HttpStatusServer::start`: what it returns, with the answer of `bind_to_port`.
pub start_server : Bool → HttpStatusServer → HttpStatusServer × Bool
start_server bound server =
    if not bound then (server, false) else (record server { serving = true }, true)

-- `HttpStatusServer::stop` ends its thread.
pub stop_server : HttpStatusServer → HttpStatusServer
stop_server server = if server.serving then record server { serving = false } else server
