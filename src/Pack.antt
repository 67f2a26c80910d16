-- ===== src/Pack.antt =====
-- `pack_jobs` of src/sched/scheduler.cpp. The clock reading `now` is an argument; time points count
-- nanoseconds, and the default `TimePoint{}` is 0.
pub mod Order
pub mod Sweep
pub mod Budget
pub mod Greedy
pub mod Exchange
pub mod Phases
pub mod Optimal
pub mod Aging
mod Tests
use gpu_batch_inference_sche.Common.{
  ℕ, ◌+◌, ◌-◌, ◌/◌, ◌%◌, ◌^◌, Bool, true, false, ◌&&◌, ◌||◌, not, List, [], ◌∷◌, ◌++◌, ℤ, pos, ltb,
  ltb_ℤ, leb_ℤ, eqb_ℤ, int_of_size, ◌==◌, if◌then◌else◌, length,
}
use gpu_batch_inference_sche.Common.Sorting.{stable_sort}
use gpu_batch_inference_sche.Job.{InferenceJob, bytes_required}

-- `kAgingIntervalMs`
abbrev pub aging_interval_ms : ℕ
aging_interval_ms = 1000

-- Nanoseconds in a millisecond, for `duration_cast`.
abbrev pub ns_per_ms : ℕ
ns_per_ms = 1_000_000

-- Whole intervals that the job has waited. A submission in the future gives a difference that is not
-- positive, and so 0, which is what the truncated subtraction gives.
unfoldable pub age_bucket : ℕ → InferenceJob → ℕ
age_bucket now job =
    if job.submit_time == 0
    then 0
    else (let wait_ms : ℕ = (now - job.submit_time) / ns_per_ms in
        if ltb 0 wait_ms then wait_ms / aging_interval_ms else 0)

-- The comparator of the sort: older bucket, then fewer bytes, then higher priority, then first come.
unfoldable pub packs_before : ℕ → InferenceJob → InferenceJob → Bool
packs_before now a b =
    if not (age_bucket now a == age_bucket now b)
    then ltb (age_bucket now b) (age_bucket now a)
    else if not (bytes_required a == bytes_required b)
    then ltb (bytes_required a) (bytes_required b)
    else if not (eqb_ℤ a.priority b.priority)
    then ltb_ℤ b.priority a.priority
    else ltb a.seq b.seq

-- The variables of the sweep: both result vectors, and the bytes used so far.
pub record Packing : Type 0 where
  pub selected : List InferenceJob
  pub remaining : List InferenceJob
  pub used : ℕ

abbrev pub no_packing : Packing
no_packing = record { selected = []; remaining = []; used = 0 }

-- `max_batch > 0 && static_cast<int>(selected.size()) >= max_batch`
unfoldable pub is_full : ℤ → Packing → Bool
is_full max_batch p = ltb_ℤ (pos 0) max_batch && leb_ℤ max_batch (int_of_size (length p.selected))

-- `need > budget_bytes || used + need > budget_bytes`; the sum wraps modulo 2^64.
unfoldable pub is_over : ℕ → Packing → ℕ → Bool
is_over budget p need = ltb budget need || ltb budget ((p.used + need) % 2 ^ 64)

-- One round of the sweep.
unfoldable pub pack_step : ℕ → ℤ → Packing → InferenceJob → Packing
pack_step budget max_batch p job =
    let need : ℕ = bytes_required job in
    if is_full max_batch p
    then record p { remaining = p.remaining ++ job ∷ [] }
    else if is_over budget p need
    then record p { remaining = p.remaining ++ job ∷ [] }
    else record p { selected = p.selected ++ job ∷ []; used = (p.used + need) % 2 ^ 64 }

unfoldable pub sweep : ℕ → ℤ → Packing → List InferenceJob → Packing
sweep budget max_batch p [] = p
sweep budget max_batch p (job ∷ jobs) =
    sweep budget max_batch (pack_step budget max_batch p job) jobs

unfoldable pub pack_jobs : ℕ → List InferenceJob → ℕ → ℤ → Packing
pack_jobs now candidates budget max_batch =
    sweep budget max_batch no_packing (stable_sort (packs_before now) candidates)

-- The returned `!selected.empty()`.
pub any_selected : Packing → Bool
any_selected p = ltb 0 (length p.selected)
