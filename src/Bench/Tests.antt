-- ===== src/Bench/Tests.antt =====
-- The benchmark of bench/bench_gemm.cpp on small inputs.
use gpu_batch_inference_sche.Common.{ℕ, ◌+◌, ◌/◌, ◌≡◌, refl, none, some, false, [], ◌∷◌, ltb, arith}
use gpu_batch_inference_sche.Common.Lexicographic.{ltb-StrictWeak}
use gpu_batch_inference_sche.Stream.{
  Memory, State, host_acts, stream_runs, start_program, Execution, started, ran, act, can_act,
  enqueue, effect, mark, ready, product,
}
use gpu_batch_inference_sche.Pipeline.Tests.{two_numbers, by_the_book}
use gpu_batch_inference_sche.Bench.{timed_runs, median, overlap_median}
use gpu_batch_inference_sche.Bench.Median.{IsMedian, median-IsMedian}
use gpu_batch_inference_sche.Bench.Timed.{timed_runs-IsRight}

abbrev filled_buffers : Memory two_numbers
filled_buffers = record {
  host_a = λ i. some (i + 6);
  host_b = λ i. some 7;
  host_c = λ i. none;
  device_a = λ i. none;
  device_b = λ i. none;
  device_c = λ i. none;
}

abbrev begin : State two_numbers
begin = start_program two_numbers (timed_runs false 1) filled_buffers

-- One timed run: the calls, the stream, and the readings.
one_run : (st : State two_numbers) × Execution by_the_book begin st × (st.program ≡ [])
unfolding start_program act can_act enqueue effect mark ready product
one_run =
    let r₀ : Execution by_the_book begin begin = started in
    let r₁ = ran r₀ (host_acts _ _ refl refl) in
    let r₂ = ran r₁ (host_acts _ _ refl refl) in
    let r₃ = ran r₂ (host_acts _ _ refl refl) in
    let r₄ = ran r₃ (host_acts _ _ refl refl) in
    let r₅ = ran r₄ (host_acts _ _ refl refl) in
    let r₆ = ran r₅ (host_acts _ _ refl refl) in
    let r₇ = ran r₆ (host_acts _ _ refl refl) in
    let r₈ = ran r₇ (host_acts _ _ refl refl) in
    let r₉ = ran r₈ (host_acts _ _ refl refl) in
    let r₁₀ = ran r₉ (stream_runs 0 _ _ refl refl) in
    let r₁₁ = ran r₁₀ (stream_runs 0 _ _ refl refl) in
    let r₁₂ = ran r₁₁ (stream_runs 0 _ _ refl refl) in
    let r₁₃ = ran r₁₂ (stream_runs 0 _ _ refl refl) in
    let r₁₄ = ran r₁₃ (stream_runs 0 _ _ refl refl) in
    let r₁₅ = ran r₁₄ (stream_runs 0 _ _ refl refl) in
    let r₁₆ = ran r₁₅ (stream_runs 0 _ _ refl refl) in
    let r₁₇ = ran r₁₆ (stream_runs 0 _ _ refl refl) in
    let r₁₈ = ran r₁₇ (stream_runs 0 _ _ refl refl) in
    let r₁₉ = ran r₁₈ (host_acts _ _ refl refl) in
    let r₂₀ = ran r₁₉ (host_acts _ _ refl refl) in
    let r₂₁ = ran r₂₀ (host_acts _ _ refl refl) in
    let r₂₂ = ran r₂₁ (host_acts _ _ refl refl) in
    let r₂₃ = ran r₂₂ (host_acts _ _ refl refl) in
    let r₂₄ = ran r₂₃ (host_acts _ _ refl refl) in (_, r₂₄, refl)

timed_runs-IsRight_example : (one_run.0.results ≡ some 42 ∷ []) × (one_run.0.failed ≡ false)
timed_runs-IsRight_example =
    timed_runs-IsRight false 0 two_numbers by_the_book filled_buffers begin (one_run.0) refl refl
      refl (one_run.1) (one_run.2)

abbrev half_sum : ℕ → ℕ → ℕ
half_sum a b = (a + b) / 2

median-IsMedian_example :
    (v : ℕ) × (median ltb half_sum 0 (9 ∷ 2 ∷ 5 ∷ 4 ∷ []) ≡ some v)
    × (overlap_median ltb half_sum (9 ∷ 2 ∷ 5 ∷ 4 ∷ []) ≡ some v)
    × IsMedian ltb (ltb-StrictWeak (λ x. x)) v (9 ∷ 2 ∷ 5 ∷ 4 ∷ [])
median-IsMedian_example =
    median-IsMedian ltb (ltb-StrictWeak (λ x. x)) half_sum (λ a b h. (ground arith, ground arith)) 0
      (9 ∷ 2 ∷ 5 ∷ 4 ∷ []) (omega arith)
