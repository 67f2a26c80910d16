-- ===== src/Pipeline/Attempt.antt =====
-- The `try` block of execute_batch (src/sched/scheduler.cpp) from the first upload on, and its handler:
-- a call of CUDA that fails throws, and the handler calls `cudaDeviceSynchronize` before it records the
-- jobs as failed.
use gpu_batch_inference_sche.Common.{ℕ, suc, ◌≡◌, ◌⊎◌, List, [], Option}
use gpu_batch_inference_sche.Stream.{Jobs, State, Runtime, Execution, started, ran}
use gpu_batch_inference_sche.Stream.Failing.{Faults, IsQuiet, ReadsFirst}

-- In the block, in the handler before `cudaDeviceSynchronize` has returned, and after either.
pub data Phase : Type 0 where
  calling draining succeeded failed : Phase

module _ {j : Jobs} {cuda : Runtime j} (faults : Faults cuda) (d : cuda.Device) where
  pub data Attempt : Phase → cuda.Device → Type 0 where
    begun : Attempt calling d
    calls : {x y : cuda.Device} → Attempt calling x → cuda.Runs x y → Attempt calling y
    throws : {x y : cuda.Device} → Attempt calling x → faults.Breaks x y → Attempt draining y
    drains : {x y : cuda.Device} → Attempt draining x → cuda.Runs x y → Attempt draining y
    returns :
        {x : cuda.Device} → Attempt calling x → (cuda.view x).program ≡ [] → Attempt succeeded x
    recovers :
        {x : cuda.Device}
        → Attempt draining x
        → ((s : ℕ) → (cuda.view x).queues s ≡ [])
        → Attempt failed x

  -- The number of steps so far.
  abbrev pub attempt_length : {p : Phase} {x : cuda.Device} → Attempt p x → ℕ
  attempt_length begun = 0
  attempt_length (calls t s) = suc (attempt_length t)
  attempt_length (throws t b) = suc (attempt_length t)
  attempt_length (drains t s) = suc (attempt_length t)
  attempt_length (returns t e) = attempt_length t
  attempt_length (recovers t e) = attempt_length t

  -- Before a call throws, an attempt is a run of the machine.
  pub run_of : {x : cuda.Device} → Attempt calling x → Execution cuda d x
  run_of begun = started
  run_of (calls t s) = ran (run_of t) s

-- What has been read, and what is left on the streams, in each phase.
abbrev pub Outcome : (j : Jobs) → List (Option j.Matrix) → Phase → State j → Type 0
Outcome j all calling st = ReadsFirst st.results all
Outcome j all draining st = ReadsFirst st.results all
Outcome j all succeeded st = (st.results ≡ all) × IsQuiet j st
Outcome j all failed st = ReadsFirst st.results all × IsQuiet j st

-- What the thread or the machine can do next.
abbrev pub GoesOn : {j : Jobs} (cuda : Runtime j) → Phase → cuda.Device → Type 0
GoesOn cuda calling x = ((cuda.view x).program ≡ []) ⊎ ((y : cuda.Device) × cuda.Runs x y)
GoesOn cuda draining x =
    ((s : ℕ) → (cuda.view x).queues s ≡ []) ⊎ ((y : cuda.Device) × cuda.Runs x y)
GoesOn cuda succeeded x = Unit {0}
GoesOn cuda failed x = Unit {0}
