-- ===== src/Daemon/Generator.antt =====
-- The thread that `main` of src/main.cpp starts to generate jobs: `make_job` for the random ones, and
-- the jobs of `--stress`. What it submits is the list of the jobs in order. The random generator of the
-- standard library and the floating-point operations are parameters.
pub mod Ranges
use gpu_batch_inference_sche.Common.{
  ℕ, zero, suc, ◌+◌, ◌-◌, ◌*◌, ◌%◌, ◌^◌, ◌==◌, ◌≡◌, Bool, true, false, List, [], ◌∷◌, ◌++◌, Option,
  none, some, ℤ, pos, negsuc, ltb, ltb_ℤ, leb_ℤ, int_of_size, if◌then◌else◌,
}
use gpu_batch_inference_sche.Job.{InferenceJob, bytes_required}
use gpu_batch_inference_sche.Config.{Config}

-- `std::mt19937`, with what `std::uniform_int_distribution<int>(low, high)` draws from it, and its
-- state after a draw of `std::exponential_distribution`.
pub record Random : Type 1 where
  pub Rng : Type 0
  pub draw : (low high : ℤ) → Rng → ℤ × Rng
  pub pause : Rng → Rng

-- The documented range of a draw.
abbrev pub IsUniform : Random → Type 0
IsUniform r =
    (low high : ℤ) (rng : r.Rng)
    → leb_ℤ low high ≡ true
    → (leb_ℤ low ((r.draw low high rng).0) ≡ true) × (leb_ℤ ((r.draw low high rng).0) high ≡ true)

-- `v - 1`, where that is an `int`.
abbrev pub pred_ℤ : ℤ → ℤ
pred_ℤ (pos zero) = negsuc 0
pred_ℤ (pos (suc n)) = pos n
pred_ℤ (negsuc n) = negsuc (suc n)

module _ (r : Random) where
  -- The three sides, the batch and the priority are drawn in this order.
  unfoldable pub make_job : (id : ℕ) → Config → r.Rng → InferenceJob × r.Rng
  make_job id cfg rng =
      let m : ℤ × r.Rng = r.draw cfg.min_size cfg.max_size rng in
      let n : ℤ × r.Rng = r.draw cfg.min_size cfg.max_size (m.1) in
      let k : ℤ × r.Rng = r.draw cfg.min_size cfg.max_size (n.1) in
      let batch : ℤ × r.Rng = r.draw (pos 1) cfg.max_job_batch (k.1) in
      let priority : ℤ × r.Rng = r.draw (pos 0) (pred_ℤ cfg.priority_levels) (batch.1) in
      (
        record {
          id = id;
          m = m.0;
          n = n.0;
          k = k.0;
          batch = batch.0;
          priority = priority.0;
          submit_time = 0;
          seq = 0;
        },
        priority.1,
      )

  -- The loop of random jobs from number `i`, with `left` rounds to go at most; `interrupted i` is what
  -- round `i` reads of `g_interrupted`.
  unfoldable pub random_jobs :
      Config → (interrupted : ℕ → Bool) → (left i : ℕ) → r.Rng → List InferenceJob
  unfolding make_job
  random_jobs cfg interrupted zero i rng = []
  random_jobs cfg interrupted (suc left) i rng = elim (interrupted i) [
    | true ↦ []
    | false ↦
        let job : InferenceJob × r.Rng = make_job i cfg rng in
        let after : r.Rng = if ltb_ℤ (pos 0) cfg.arrival_rate then r.pause (job.1) else job.1 in
        job.0 ∷ random_jobs cfg interrupted left (suc i) after
  ]

-- The memory of the device: what the monitor says, or else `cudaMemGetInfo`, if that succeeds.
unfoldable pub stress_total : (sampled : ℕ) → (mem_info : Option ℕ) → ℕ
stress_total zero none = 0
stress_total zero (some total_bytes) = total_bytes
stress_total (suc n) mem_info = suc n

-- The operations on `double` that the side is computed with; `quarters n` is n / 4, and `ceil_int` is
-- `static_cast<int>(std::ceil(x))`.
pub record Doubles : Type 1 where
  pub Double : Type 0
  pub of_size : ℕ → Double
  pub quarters : ℕ → Double
  pub mul : Double → Double → Double
  pub div : Double → Double → Double
  pub sqrt : Double → Double
  pub ceil_int : Double → ℤ

-- The side of the oversized jobs.
unfoldable pub oversized_side : Doubles → (total : ℕ) → ℤ
oversized_side d total =
    let bytes_per_side : d.Double = d.mul (d.of_size 12) (d.of_size 8) in
    let side : ℤ =
      if ltb 0 total
      then d.ceil_int (d.mul (d.sqrt (d.div (d.of_size total) bytes_per_side)) (d.quarters 5))
      else pos 16_000 in
    if ltb_ℤ side (pos 1) then pos 1 else side

-- The job of round `i`: two oversized ones first.
unfoldable pub stress_job : (side : ℤ) → (i : ℕ) → InferenceJob
stress_job side i =
    if ltb_ℤ (int_of_size i) (pos 2)
    then record {
      id = (i + 1) % 2 ^ 64;
      m = side;
      n = side;
      k = side;
      batch = pos 8;
      priority = pos 0;
      submit_time = 0;
      seq = 0;
    }
    else record {
      id = (i + 1) % 2 ^ 64;
      m = pos 768;
      n = pos 768;
      k = pos 768;
      batch = pos 8;
      priority = pos 0;
      submit_time = 0;
      seq = 0;
    }

-- The loop from round `i`: the jobs, and `queued_bytes` after them.
unfoldable pub stress_jobs :
    (side : ℤ) → (interrupted : ℕ → Bool) → (left i queued_bytes : ℕ) → List InferenceJob × ℕ
unfolding stress_job
stress_jobs side interrupted zero i queued_bytes = ([], queued_bytes)
stress_jobs side interrupted (suc left) i queued_bytes = elim (interrupted i) [
  | true ↦ ([], queued_bytes)
  | false ↦
      let job : InferenceJob = stress_job side i in
      let rest : List InferenceJob × ℕ =
        stress_jobs side interrupted left (suc i) ((queued_bytes + bytes_required job) % 2 ^ 64) in
      (job ∷ rest.0, rest.1)
]

-- The loop over the jobs of a replay file.
unfoldable pub replay_jobs :
    (interrupted : ℕ → Bool) → (i : ℕ) → List InferenceJob → List InferenceJob
replay_jobs interrupted i [] = []
replay_jobs interrupted i (job ∷ jobs) = elim (interrupted i) [
  | true ↦ []
  | false ↦ job ∷ replay_jobs interrupted (suc i) jobs
]
