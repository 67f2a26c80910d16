-- ===== src/Monitor/Mean.antt =====
-- The mean utilization of src/sched/gpu_monitor.cpp.
use gpu_batch_inference_sche.Common.{
  suc, ◌+◌, ◌≡◌, refl, ltb, true, List, [], ◌∷◌, Option, length, total, arith,
}
use gpu_batch_inference_sche.Monitor.{
  GpuStats, GpuMonitor, NvmlAnswers, MemInfo, new_monitor, start_sampling, sampler_round,
  sampler_loop, stop_sampling, mean_utilization,
}

-- What a running sampling thread adds.
sampler_loop-sums :
    (samples : List GpuStats) (m : GpuMonitor)
    → m.sampling ≡ true
    → ((sampler_loop samples m).util_sum ≡ m.util_sum + total (λ st. st.utilization_pct) samples)
      × ((sampler_loop samples m).util_count ≡ m.util_count + length samples)
unfolding sampler_loop sampler_round
sampler_loop-sums [] m h = (omega arith, omega arith)
sampler_loop-sums (st ∷ rest) m h =
    let i = sampler_loop-sums rest (sampler_round st m) (ground arith) in
    (ground (arith, i.0), ground (arith, i.1))

-- Where the constructor has found a device, the mean utilization after `start_sampling`, one sample or
-- more and `stop_sampling` is the sum of the sampled utilizations over the number of samples.
pub mean_utilization_lem :
    (nvml : NvmlAnswers) (mem_info : Option MemInfo) (st : GpuStats) (rest : List GpuStats)
    → (new_monitor nvml mem_info).gpu_present ≡ true
    → mean_utilization
        (stop_sampling (sampler_loop (st ∷ rest) (start_sampling (new_monitor nvml mem_info))))
      ≡ (total (λ s. s.utilization_pct) (st ∷ rest), suc (length rest))
unfolding mean_utilization stop_sampling start_sampling new_monitor
mean_utilization_lem nvml mem_info st rest h =
    let started = start_sampling (new_monitor nvml mem_info) in
    let on : started.sampling ≡ true = ground arith in
    let zero_sum : started.util_sum ≡ 0 = ground arith in
    let zero_count : started.util_count ≡ 0 = ground arith in
    let (sums, counts) = sampler_loop-sums (st ∷ rest) started on in
    let sum : (sampler_loop (st ∷ rest) started).util_sum
        ≡ total (λ s. s.utilization_pct) (st ∷ rest) =
      omega (arith, sums, zero_sum) in
    let count : (sampler_loop (st ∷ rest) started).util_count ≡ suc (length rest) =
      omega (arith, counts, zero_count) in
    let some_sample : ltb 0 (suc (length rest)) ≡ true = ground arith in
    rw (sum, count, some_sample) refl
