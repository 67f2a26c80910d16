-- ===== src/Pipeline/Recovers.antt =====
-- The ends of the `try` block of execute_batch (src/sched/scheduler.cpp), whatever call fails.
use gpu_batch_inference_sche.Common.{
  ℕ, suc, ◌+◌, ◌*◌, ◌≤◌, ◌≡◌, refl, subst, ◌∙◌, ◌⊎◌, inl, inr, List, [], Option, Bool,
  if◌then◌else◌, arith, length,
}
use gpu_batch_inference_sche.Stream.{
  Jobs, Memory, State, Reach, next, here, start_program, Runtime, Execution,
}
use gpu_batch_inference_sche.Stream.Sound.{checked-ReadsFirst}
use gpu_batch_inference_sche.Stream.Closing.{settled-IsDrained}
use gpu_batch_inference_sche.Stream.Failing.{
  Faults, IsQuiet, Break-IsLive, IsLive-IsQuiet, ReadsFirst, Break-ReadsFirst, drain-ReadsFirst,
}
use gpu_batch_inference_sche.Stream.Progress.{
  IsLive, step-IsLive, reach-IsLive, step_or_end, path_of, Ended,
}
use gpu_batch_inference_sche.Pipeline.{execute_batch}
use gpu_batch_inference_sche.Pipeline.Account.{promise, Nothing, Returned}
use gpu_batch_inference_sche.Pipeline.Checked.{execute_batch-Ok}
use gpu_batch_inference_sche.Pipeline.Settled.{execute_batch-Settles}
use gpu_batch_inference_sche.Pipeline.Right.{
  products, execute_batch-IsRight, expected-execute_batch, length-execute_batch,
}
use gpu_batch_inference_sche.Pipeline.Attempt.{
  Phase, calling, draining, succeeded, failed, Attempt, begun, calls, throws, drains, returns,
  recovers, attempt_length, run_of, Outcome, GoesOn,
}

module _ {j : Jobs} {cuda : Runtime j} (faults : Faults cuda) (retain_results : Bool) (n : ℕ)
    (m : Memory j) (d : cuda.Device)
    (start : cuda.view d ≡ start_program j (execute_batch retain_results (suc n)) m) where
  abbrev all : List (Option j.Matrix)
  all = if retain_results then products j 0 (suc n) else []

  abbrev limit : ℕ
  limit = 2 * length (execute_batch retain_results (suc n))

  path_to :
      {x : cuda.Device}
      → Execution cuda d x
      → Reach j (start_program j (execute_batch retain_results (suc n)) m) (cuda.view x)
  path_to {x} r = subst (λ st. Reach j st (cuda.view x)) start (path_of j cuda d x r)

  reach-ReadsFirst :
      (st : State j)
      → Reach j (start_program j (execute_batch retain_results (suc n)) m) st
      → ReadsFirst st.results all
  reach-ReadsFirst st r =
      let (left, e) =
        checked-ReadsFirst promise Nothing (Returned (suc n)) j
          (execute_batch retain_results (suc n)) m st (λ array i φ. elim [ ]) (λ φ. elim [ ])
          (execute_batch-Ok retain_results (suc n)) r in
      (left, e ∙ expected-execute_batch j retain_results (suc n))

  -- The commands that wait can run, in every phase.
  attempt-IsLive :
      {p : Phase} {x : cuda.Device} (t : Attempt faults d p x)
      → IsLive j limit (attempt_length faults d t) (cuda.view x)
  attempt-IsLive begun =
      reach-IsLive j (execute_batch retain_results (suc n)) m (cuda.view d) (cuda.view d) start here
  attempt-IsLive (calls {x} {y} t s) =
      step-IsLive j limit (attempt_length faults d t) (cuda.view x) (cuda.view y) (attempt-IsLive t)
        (cuda.documented x y s)
  attempt-IsLive (throws {x} {y} t b) =
      Break-IsLive j limit (attempt_length faults d t) (cuda.view x) (cuda.view y)
        (attempt-IsLive t) (faults.break_documented x y b)
  attempt-IsLive (drains {x} {y} t s) =
      step-IsLive j limit (attempt_length faults d t) (cuda.view x) (cuda.view y) (attempt-IsLive t)
        (cuda.documented x y s)
  attempt-IsLive (returns t e) = attempt-IsLive t
  attempt-IsLive (recovers t e) = attempt-IsLive t

  -- An attempt in which no call has thrown has read the first products.
  calling-ReadsFirst :
      {x : cuda.Device} → Attempt faults d calling x → ReadsFirst (cuda.view x).results all
  calling-ReadsFirst {x} t = reach-ReadsFirst (cuda.view x) (path_to (run_of faults d t))

  -- After the last call the streams are empty: the thread has waited for the last record of each.
  called-IsQuiet :
      {x : cuda.Device}
      → Attempt faults d calling x
      → (cuda.view x).program ≡ []
      → IsQuiet j (cuda.view x)
  called-IsQuiet {x} t e =
      IsLive-IsQuiet j limit (attempt_length faults d t) (cuda.view x) (attempt-IsLive t) (
        settled-IsDrained promise Nothing (Returned (suc n)) j
          (execute_batch retain_results (suc n)) m (cuda.view x) (λ array i φ. elim [ ])
          (λ φ. elim [ ]) (execute_batch-Ok retain_results (suc n))
          (execute_batch-Settles retain_results n) (path_to (run_of faults d t)) e)

  -- What the machine does next.
  attempt_next :
      {p : Phase} {x : cuda.Device}
      → Attempt faults d p x
      → Ended j (cuda.view x) ⊎ ((y : cuda.Device) × cuda.Runs x y)
  attempt_next {x = x} t =
      let h = attempt-IsLive t in
      elim (step_or_end j (cuda.view x) h.order (cuda.view x).program h.queued h.live h.recorded
        refl) [ inl ended ↦ inl ended | inr (st, s) ↦ inr (cuda.proceeds x st s) ]

  attempt-GoesOn : {p : Phase} {x : cuda.Device} → Attempt faults d p x → GoesOn cuda p x
  attempt-GoesOn {p = calling} t = elim (attempt_next t) [
    | inl ended ↦ inl ended.0
    | inr more ↦ inr more
  ]
  attempt-GoesOn {p = draining} t = elim (attempt_next t) [
    | inl ended ↦ inl ended.1
    | inr more ↦ inr more
  ]
  attempt-GoesOn {p = succeeded} t = tt
  attempt-GoesOn {p = failed} t = tt

  draining-ReadsFirst :
      {x : cuda.Device}
      → Attempt faults d draining x
      → ReadsFirst (cuda.view x).results all × ((cuda.view x).program ≡ [])
  draining-ReadsFirst (throws {x} {y} t b) =
      Break-ReadsFirst all (cuda.view x) (cuda.view y)
        (λ st s. reach-ReadsFirst st (next (path_to (run_of faults d t)) s))
        (reach-ReadsFirst (cuda.view x) (path_to (run_of faults d t)))
        (faults.break_documented x y b)
  draining-ReadsFirst (drains {x} {y} t s) =
      let (reads, e) = draining-ReadsFirst t in
      drain-ReadsFirst all (cuda.view x) (cuda.view y) reads e (cuda.documented x y s)

-- Whatever call of CUDA fails, if any does, and however the streams run, in a batch of `n + 1` jobs:
-- the thread leaves execute_batch with its three streams empty and the latest record of each event run,
-- so that the buffers of the jobs can be freed and the next batch can use the streams and the events.
-- On success it has read the products of all jobs in order, if results are retained, and none
-- otherwise; on failure it has read the products of the first jobs, and nothing else.
pub Attempt-IsQuiet :
    (j : Jobs) (cuda : Runtime j) (faults : Faults cuda) (retain_results : Bool) (n : ℕ)
    (m : Memory j) (d d' : cuda.Device) (p : Phase)
    → cuda.view d ≡ start_program j (execute_batch retain_results (suc n)) m
    → Attempt faults d p d'
    → Outcome j (if retain_results then products j 0 (suc n) else []) p (cuda.view d')
Attempt-IsQuiet j cuda faults retain_results n m d d' _ e begun =
    calling-ReadsFirst faults retain_results n m d e begun
Attempt-IsQuiet j cuda faults retain_results n m d d' _ e (calls t s) =
    calling-ReadsFirst faults retain_results n m d e (calls t s)
Attempt-IsQuiet j cuda faults retain_results n m d d' _ e (throws t b) =
    (draining-ReadsFirst faults retain_results n m d e (throws t b)).0
Attempt-IsQuiet j cuda faults retain_results n m d d' _ e (drains t s) =
    (draining-ReadsFirst faults retain_results n m d e (drains t s)).0
Attempt-IsQuiet j cuda faults retain_results n m d d' _ e (returns t ended) = (
  execute_batch-IsRight j cuda retain_results (suc n) m d d' e (run_of faults d t) ended,
  called-IsQuiet faults retain_results n m d e t ended,
)
Attempt-IsQuiet j cuda faults retain_results n m d d' _ e (recovers t empty) = (
  (draining-ReadsFirst faults retain_results n m d e t).0,
  IsLive-IsQuiet j _ _ (cuda.view d') (attempt-IsLive faults retain_results n m d e t) empty,
)

-- No call that fails makes the thread wait for ever: an attempt goes on until the thread has made all
-- its calls or, after a failure, `cudaDeviceSynchronize` finds all streams empty, and it has at most 24
-- steps for each job and 8 more.
pub Attempt-IsFinite :
    (j : Jobs) (cuda : Runtime j) (faults : Faults cuda) (retain_results : Bool) (n : ℕ)
    (m : Memory j) (d d' : cuda.Device) (p : Phase)
    → cuda.view d ≡ start_program j (execute_batch retain_results (suc n)) m
    → (t : Attempt faults d p d') → (attempt_length faults d t ≤ 24 * suc n + 8) × GoesOn cuda p d'
Attempt-IsFinite j cuda faults retain_results n m d d' p e t =
    let live = attempt-IsLive faults retain_results n m d e t in
    (
      omega (arith, live.bound, length-execute_batch retain_results (suc n)),
      attempt-GoesOn faults retain_results n m d e t,
    )
