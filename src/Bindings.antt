-- ===== src/Bindings.antt =====
-- The process-wide scheduler of src/bindings/py_module.cpp. Each function is one step: `start_scheduler`
-- and `stop_scheduler` hold `g_mutex`; `submit_job` takes no lock, and here no other call overlaps it.
pub mod Late
mod Tests
use gpu_batch_inference_sche.Common.{
  ℕ, suc, Bool, true, false, ◌&&◌, ◌||◌, not, List, Option, none, some, ℤ, pos, ltb, ltb_ℤ, leb_ℤ,
  eqb_ℤ, ◌==◌, if◌then◌else◌, ◌≤◌,
}
use gpu_batch_inference_sche.Job.{InferenceJob}
use gpu_batch_inference_sche.Scheduler.{
  Impl, tiled, cublas, Options, BatchScheduler, new_scheduler, start, submit_push, submit_count,
}

-- The globals `g_sched`, `g_opts` and `g_running`.
pub record Globals : Type 0 where
  pub sched : Option BatchScheduler
  pub opts : Options
  pub running : Bool

-- What `start` learns of the host: see `Scheduler.start`.
pub record Host : Type 0 where
  pub ndev : ℕ
  pub sampled_total : ℕ
  pub mem_info : Option ℕ

start_on : Host → Options → BatchScheduler
start_on host opts = start host.ndev host.sampled_total host.mem_info (new_scheduler opts)

-- `ensure_scheduler`: the scheduler that it returns, and the globals after it.
pub ensure_scheduler : Host → Globals → BatchScheduler × Globals
unfolding start_on
ensure_scheduler host g = elim g.sched [
  | some s ↦ (s, g)
  | none ↦
      let s : BatchScheduler = start_on host g.opts in
      (s, record g { sched = some s; running = true })
]

-- The `impl` argument, where `none` is any other text.
pub start_scheduler : Host → ℤ → ℤ → Option Impl → Globals → Option Globals
unfolding start_on
start_scheduler host max_batch workers none g = none
start_scheduler host max_batch workers (some impl) g =
    let opts : Options = record (g.opts) {
      max_batch = max_batch;
      num_workers = workers;
      impl = impl;
    } in
    if leb_ℤ max_batch (pos 0)
    then none
    else if leb_ℤ workers (pos 0)
    then none
    else if g.running
    then some (record g { opts = opts })
    else some (record { sched = some (start_on host opts); opts = opts; running = true })

-- `stop` on the scheduler: the part that `stop_scheduler` sees at once; the threads end after it.
pub stop_scheduler : Globals → Globals
stop_scheduler g = if not g.running then g else record g {
  sched = elim g.sched [
    | none ↦ none
    | some s ↦ some (record s { shutdown = true; started = false })
  ];
  running = false;
}

-- `submit_job`, at the clock reading `now`: the sequence number, or `none` for a `value_error`.
pub submit_job : Host → ℕ → (m n k batch priority : ℤ) → Globals → Option (ℕ × Globals)
unfolding ensure_scheduler
submit_job host now m n k batch priority g =
    let job : InferenceJob = record {
      id = 0;
      m = m;
      n = n;
      k = k;
      batch = batch;
      priority = priority;
      submit_time = 0;
      seq = 0;
    } in
    let found : BatchScheduler × Globals = ensure_scheduler host g in
    let pushed : BatchScheduler × ℕ = submit_push now job found.0 in
    if leb_ℤ m (pos 0) || (leb_ℤ n (pos 0) || leb_ℤ k (pos 0))
    then none
    else if leb_ℤ batch (pos 0)
    then none
    else some (pushed.1, record (found.1) { sched = some (submit_count pushed.0) })

-- The shape tests of `batched_gemm`: the extents of two arrays of three dimensions each.
pub record Extents : Type 0 where
  pub ndim : ℕ
  pub is_float : Bool
  pub shape_0 : ℤ
  pub shape_1 : ℤ
  pub shape_2 : ℤ

-- The arguments of the kernel launch, or `none` for a `value_error`.
pub record Launched : Type 0 where
  pub batch : ℤ
  pub m_dim : ℤ
  pub n_dim : ℤ
  pub k_dim : ℤ

pub batched_gemm : Extents → Extents → Option Launched
batched_gemm a b =
    if not a.is_float
    then none
    else if not b.is_float
    then none
    else if not (a.ndim == 3)
    then none
    else if not (b.ndim == 3)
    then none
    else if not (eqb_ℤ b.shape_0 a.shape_0)
    then none
    else if not (eqb_ℤ b.shape_1 a.shape_2)
    then none
    else if leb_ℤ a.shape_1 (pos 0) || (leb_ℤ b.shape_2 (pos 0) || leb_ℤ a.shape_2 (pos 0))
    then none
    else if leb_ℤ a.shape_0 (pos 0) || ltb_ℤ (pos 65_535) a.shape_0
    then none
    else some
        (record { batch = a.shape_0; m_dim = a.shape_1; n_dim = b.shape_2; k_dim = a.shape_2 })
