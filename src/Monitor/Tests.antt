-- ===== src/Monitor/Tests.antt =====
-- A concrete run of the monitor of src/sched/gpu_monitor.cpp.
use gpu_batch_inference_sche.Common.{◌≡◌, refl, true, List, [], ◌∷◌, none}
use gpu_batch_inference_sche.Monitor.{
  GpuStats, NvmlAnswers, no_stats, new_monitor, start_sampling, sampler_loop, stop_sampling,
  mean_utilization,
}
use gpu_batch_inference_sche.Monitor.Mean.{mean_utilization_lem}

abbrev nvml : NvmlAnswers
nvml = record { library_opened = true; symbols_found = true; init_ok = true; device_found = true }

abbrev samples : List GpuStats
samples = record no_stats { utilization_pct = 40 } ∷ record no_stats { utilization_pct = 75 } ∷ []

mean_utilization_lem_example :
    mean_utilization (stop_sampling (sampler_loop samples (start_sampling (new_monitor nvml none))))
    ≡ (115, 2)
unfolding new_monitor
mean_utilization_lem_example =
    mean_utilization_lem nvml none (record no_stats { utilization_pct = 40 })
      (record no_stats { utilization_pct = 75 } ∷ []) refl
