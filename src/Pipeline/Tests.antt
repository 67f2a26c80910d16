-- ===== src/Pipeline/Tests.antt =====
-- A run of the pipeline on one job, with natural numbers for matrices.
use gpu_batch_inference_sche.Common.{
  ℕ, ◌+◌, ◌*◌, ◌≤◌, ◌≡◌, refl, ◌⊎◌, none, some, arith, true, [], ◌∷◌,
}
use gpu_batch_inference_sche.Stream.{
  Jobs, Memory, State, Step, host_acts, stream_runs, start_program, Runtime, Execution, started,
  ran, act, can_act, enqueue, effect, mark, ready, product,
}
use gpu_batch_inference_sche.Stream.Failing.{Break, after_effect, Faults, IsQuiet, ReadsFirst}
use gpu_batch_inference_sche.Pipeline.Attempt.{
  calling, failed, Attempt, begun, calls, throws, drains, recovers, attempt_length, GoesOn,
}
use gpu_batch_inference_sche.Pipeline.Recovers.{Attempt-IsQuiet, Attempt-IsFinite}
use gpu_batch_inference_sche.Stream.Progress.{run_length, Ended}
use gpu_batch_inference_sche.Pipeline.{execute_batch}
use gpu_batch_inference_sche.Pipeline.Right.{execute_batch-IsRight, execute_batch-IsFinite}

abbrev pub two_numbers : Jobs
two_numbers = record {
  Matrix = ℕ;
  input_a = λ i. i + 6;
  input_b = λ i. 7;
  multiply = λ i a b. a * b;
}

abbrev pub empty_buffers : Memory two_numbers
empty_buffers = record {
  host_a = λ i. none;
  host_b = λ i. none;
  host_c = λ i. none;
  device_a = λ i. none;
  device_b = λ i. none;
  device_c = λ i. none;
}

abbrev pub begin : State two_numbers
begin = start_program two_numbers (execute_batch true 1) empty_buffers

-- The machine whose states and steps are the documented ones.
abbrev pub by_the_book : Runtime two_numbers
by_the_book = record {
  Device = State two_numbers;
  Runs = Step two_numbers;
  view = λ st. st;
  documented = λ d d' s. s;
  proceeds = λ d st s. (st, s);
}

-- The calls come first, then the streams run, and the host waits for the last event.
pub one_job : (st : State two_numbers) × Execution by_the_book begin st × (st.program ≡ [])
unfolding start_program act can_act enqueue effect mark ready product
one_job = (
  _,
  ran
      (ran
        (ran
          (ran
            (ran
              (ran
                (ran
                  (ran
                    (ran
                      (ran
                        (ran
                          (ran
                            (ran
                              (ran
                                (ran
                                  (ran
                                    (ran
                                      (ran
                                        (ran
                                          (ran (ran started (host_acts _ _ refl refl))
                                            (host_acts _ _ refl refl))
                                          (host_acts _ _ refl refl))
                                        (host_acts _ _ refl refl))
                                      (host_acts _ _ refl refl))
                                    (host_acts _ _ refl refl))
                                  (host_acts _ _ refl refl))
                                (host_acts _ _ refl refl))
                              (host_acts _ _ refl refl))
                            (host_acts _ _ refl refl))
                          (stream_runs 0 _ _ refl refl))
                        (stream_runs 0 _ _ refl refl))
                      (stream_runs 0 _ _ refl refl))
                    (stream_runs 1 _ _ refl refl))
                  (stream_runs 1 _ _ refl refl))
                (stream_runs 1 _ _ refl refl))
              (stream_runs 2 _ _ refl refl))
            (stream_runs 2 _ _ refl refl))
          (stream_runs 2 _ _ refl refl))
        (host_acts _ _ refl refl))
      (host_acts _ _ refl refl),
  refl,
)

execute_batch-IsRight_example : one_job.0.results ≡ some 42 ∷ []
execute_batch-IsRight_example =
    execute_batch-IsRight two_numbers by_the_book true 1 empty_buffers begin (one_job.0) refl
      (one_job.1) (one_job.2)

execute_batch-IsFinite_example :
    (run_length {cuda = by_the_book} (one_job.1) ≤ 32)
    × (Ended two_numbers (one_job.0) ⊎ ((x : State two_numbers) × Step two_numbers (one_job.0) x))
execute_batch-IsFinite_example =
    execute_batch-IsFinite two_numbers by_the_book true 1 empty_buffers begin (one_job.0) refl
      (one_job.1)

-- Any call may fail, before or after its effect.
abbrev pub any_fault : Faults by_the_book
any_fault = record { Breaks = Break; break_documented = λ d d' b. b }

-- The second upload throws although it has been issued; the handler waits for both.
pub failing_attempt : (st : State two_numbers) × Attempt any_fault begin failed st
unfolding start_program act can_act enqueue effect mark ready product
failing_attempt =
    let t₀ : Attempt any_fault begin calling begin = begun in
    let t₁ = calls t₀ (host_acts _ _ refl refl) in
    let t₂ = calls t₁ (host_acts _ _ refl refl) in
    let t₃ = throws t₂ (after_effect _ _ refl refl) in
    let t₄ = drains t₃ (stream_runs 0 _ _ refl refl) in
    let t₅ = drains t₄ (stream_runs 0 _ _ refl refl) in (_, recovers t₅ (λ s. ground arith))

Attempt-IsQuiet_example :
    ReadsFirst (failing_attempt.0.results) (some 42 ∷ []) × IsQuiet two_numbers (failing_attempt.0)
Attempt-IsQuiet_example =
    Attempt-IsQuiet two_numbers by_the_book any_fault true 0 empty_buffers begin (failing_attempt.0)
      failed refl (failing_attempt.1)

Attempt-IsFinite_example :
    (attempt_length any_fault begin (failing_attempt.1) ≤ 32)
    × GoesOn by_the_book failed (failing_attempt.0)
Attempt-IsFinite_example =
    Attempt-IsFinite two_numbers by_the_book any_fault true 0 empty_buffers begin
      (failing_attempt.0) failed refl (failing_attempt.1)
