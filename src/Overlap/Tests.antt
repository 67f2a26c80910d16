-- ===== src/Overlap/Tests.antt =====
-- A sequence of one job, with natural numbers for matrices.
use gpu_batch_inference_sche.Common.{ℕ, ◌+◌, ◌*◌, ◌≡◌, refl, none, some, true, false, [], arith}
use gpu_batch_inference_sche.Stream.{
  Jobs, Memory, State, Step, host_acts, stream_runs, start_program, Runtime, Execution, started,
  ran, act, can_act, enqueue, effect, mark, ready, product,
}
use gpu_batch_inference_sche.Overlap.Right.{pinned_single, calls, calls-IsRight}

abbrev two_numbers : Jobs
two_numbers = record {
  Matrix = ℕ;
  input_a = λ i. i + 6;
  input_b = λ i. 7;
  multiply = λ i a b. a * b;
}

abbrev filled_buffers : Memory two_numbers
filled_buffers = record {
  host_a = λ i. some (i + 6);
  host_b = λ i. some 7;
  host_c = λ i. none;
  device_a = λ i. none;
  device_b = λ i. none;
  device_c = λ i. none;
}

abbrev begin : State two_numbers
begin = start_program two_numbers (calls pinned_single true 1) filled_buffers

-- The machine whose states and steps are the documented ones.
abbrev by_the_book : Runtime two_numbers
by_the_book = record {
  Device = State two_numbers;
  Runs = Step two_numbers;
  view = λ st. st;
  documented = λ d d' s. s;
  proceeds = λ d st s. (st, s);
}

one_job : (st : State two_numbers) × (Execution by_the_book begin st) × (st.program ≡ [])
unfolding start_program act can_act enqueue effect mark ready product
one_job = (
  _,
  ran
      (ran
        (ran
          (ran
            (ran
              (ran
                (ran
                  (ran
                    (ran
                      (ran
                        (ran
                          (ran
                            (ran
                              (ran
                                (ran
                                  (ran
                                    (ran
                                      (ran
                                        (ran
                                          (ran
                                            (ran
                                              (ran
                                                (ran
                                                  (ran
                                                    (ran
                                                      (ran
                                                        (ran
                                                          (ran
                                                            (ran started (host_acts _ _ refl refl))
                                                            (host_acts _ _ refl refl))
                                                          (host_acts _ _ refl refl))
                                                        (host_acts _ _ refl refl))
                                                      (host_acts _ _ refl refl))
                                                    (host_acts _ _ refl refl))
                                                  (host_acts _ _ refl refl))
                                                (host_acts _ _ refl refl))
                                              (host_acts _ _ refl refl))
                                            (host_acts _ _ refl refl))
                                          (host_acts _ _ refl refl))
                                        (host_acts _ _ refl refl))
                                      (stream_runs 0 _ _ refl refl))
                                    (stream_runs 0 _ _ refl refl))
                                  (stream_runs 0 _ _ refl refl))
                                (stream_runs 0 _ _ refl refl))
                              (stream_runs 0 _ _ refl refl))
                            (stream_runs 0 _ _ refl refl))
                          (stream_runs 0 _ _ refl refl))
                        (stream_runs 0 _ _ refl refl))
                      (stream_runs 0 _ _ refl refl))
                    (stream_runs 0 _ _ refl refl))
                  (stream_runs 0 _ _ refl refl))
                (stream_runs 0 _ _ refl refl))
              (host_acts _ _ refl refl))
            (host_acts _ _ refl refl))
          (host_acts _ _ refl refl))
        (host_acts _ _ refl refl))
      (host_acts _ _ refl refl),
  refl,
)

calls-IsRight_example : (one_job.0.failed ≡ false) × (one_job.0.memory.host_c 0 ≡ some 42)
unfolding start_program
calls-IsRight_example =
    calls-IsRight pinned_single true 1 two_numbers by_the_book filled_buffers begin (one_job.0)
      (λ l p. (refl, refl)) refl (one_job.1) (one_job.2) 0 (omega arith)
