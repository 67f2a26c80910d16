-- ===== src/Monitor.antt =====
-- `GpuMonitor` of src/sched/gpu_monitor.hpp and src/sched/gpu_monitor.cpp. What `dlopen`, NVML and
-- `cudaMemGetInfo` answer is an argument; utilizations are summed exactly, not in a `double`.
pub mod Mean
mod Tests
use gpu_batch_inference_sche.Common.{
  ℕ, suc, ◌+◌, Bool, true, false, ◌&&◌, ◌||◌, not, List, [], ◌∷◌, Option, none, some, ltb,
  if◌then◌else◌,
}

pub record GpuStats : Type 0 where
  pub total_mem_bytes : ℕ
  pub free_mem_bytes : ℕ
  pub utilization_pct : ℕ

abbrev pub no_stats : GpuStats
no_stats = record { total_mem_bytes = 0; free_mem_bytes = 0; utilization_pct = 0 }

-- What the loader and NVML answer to the constructor.
pub record NvmlAnswers : Type 0 where
  pub library_opened : Bool
  pub symbols_found : Bool  -- all five of them
  pub init_ok : Bool
  pub device_found : Bool

-- The device memory that a query found, free and total.
pub record MemInfo : Type 0 where
  pub free : ℕ
  pub total : ℕ

pub record GpuMonitor : Type 0 where
  pub nvml_available : Bool
  pub gpu_present : Bool
  pub sampling : Bool
  pub sampler_running : Bool
  pub util_sum : ℕ
  pub util_count : ℕ

-- The constructor; `mem_info` is the answer of `cudaMemGetInfo`.
unfoldable pub new_monitor : NvmlAnswers → Option MemInfo → GpuMonitor
new_monitor nvml mem_info =
    let usable : Bool =
      nvml.library_opened && (nvml.symbols_found && (nvml.init_ok && nvml.device_found)) in
    record {
      nvml_available = usable;
      gpu_present = if not usable then elim mem_info [ none ↦ false | some _ ↦ true ] else true;
      sampling = false;
      sampler_running = false;
      util_sum = 0;
      util_count = 0;
    }

set_memory : Option MemInfo → GpuStats → GpuStats
set_memory none stats = stats
set_memory (some mem) stats = record stats {
  total_mem_bytes = mem.total;
  free_mem_bytes = mem.free;
}

set_utilization : Option ℕ → GpuStats → GpuStats
set_utilization none stats = stats
set_utilization (some gpu) stats = record stats { utilization_pct = gpu }

-- `sample`: with NVML from its two queries, otherwise from `cudaMemGetInfo`. `has_device` says that
-- the device handle is not null.
pub sample : GpuMonitor → Bool → Option MemInfo → Option ℕ → Option MemInfo → GpuStats
unfolding set_memory set_utilization
sample m has_device nvml_memory nvml_rates mem_info =
    if m.nvml_available && has_device
    then set_utilization nvml_rates (set_memory nvml_memory no_stats)
    else set_memory mem_info no_stats

pub start_sampling : GpuMonitor → GpuMonitor
start_sampling m =
    if not m.gpu_present || m.sampling
    then m
    else record m { sampling = true; sampler_running = true }

-- One round of the sampling thread, with the sample that it took; it ends when `sampling_` is off.
pub sampler_round : GpuStats → GpuMonitor → GpuMonitor
sampler_round st m =
    if m.sampling
    then record m { util_sum = m.util_sum + st.utilization_pct; util_count = suc m.util_count }
    else record m { sampler_running = false }

pub sampler_loop : List GpuStats → GpuMonitor → GpuMonitor
sampler_loop [] m = m
sampler_loop (st ∷ rest) m = sampler_loop rest (sampler_round st m)

-- `stop_sampling` joins the sampling thread.
pub stop_sampling : GpuMonitor → GpuMonitor
stop_sampling m = record m { sampling = false; sampler_running = false }

-- `mean_utilization`, as a numerator and a denominator.
pub mean_utilization : GpuMonitor → ℕ × ℕ
mean_utilization m = if ltb 0 m.util_count then (m.util_sum, m.util_count) else (0, 1)
