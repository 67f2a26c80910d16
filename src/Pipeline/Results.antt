-- ===== src/Pipeline/Results.antt =====
-- `results_` of src/sched/scheduler.hpp: what execute_batch retains and get_result returns.
use gpu_batch_inference_sche.Common.{
  ℕ, suc, ◌+◌, ◌==◌, ◌≡◌, ◌≢◌, refl, ap, ◌∙◌, true, List, [], ◌∷◌, ◌++◌, Option, none, some,
  if◌then◌else◌, Bool-cases, inl, inr, arith, All, length,
}
use gpu_batch_inference_sche.Job.{InferenceJob}
use gpu_batch_inference_sche.Stream.{Jobs, Memory, Runtime, Execution, start_program}
use gpu_batch_inference_sche.Stream.Keeps.{==-same}
use gpu_batch_inference_sche.Pipeline.{execute_batch}
use gpu_batch_inference_sche.Pipeline.Right.{products, execute_batch-IsRight}

-- The map from sequence numbers, where the first entry of a key counts.
abbrev pub Results {ℓ} : Type ℓ → Type ℓ
Results A = List (ℕ × A)

module _ {ℓ} {A : Type ℓ} where
  -- `results_[seq] = c`
  abbrev pub retain : ℕ → A → Results A → Results A
  retain seq c results = (seq, c) ∷ results

  -- `none` where the code returns `false`.
  abbrev pub get_result : Results A → ℕ → Option A
  get_result [] seq = none
  get_result ((key, c) ∷ results) seq = if key == seq then some c else get_result results seq

  -- The matrices that the host read, kept under the sequence numbers of the jobs.
  abbrev pub retain_all : List InferenceJob → List A → Results A → Results A
  retain_all (job ∷ batch) (c ∷ cs) results = retain_all batch cs (retain job.seq c results)
  retain_all [] cs results = results
  retain_all batch [] results = results

  get_result-retain :
      (key seq : ℕ) (c : A) (results : Results A)
      → key ≢ seq
      → get_result (retain key c results) seq ≡ get_result results seq
  get_result-retain key seq c results h = elim (Bool-cases (key == seq)) [
    | inl e ↦ absurd (h (==-same key seq e))
    | inr e ↦ rw e refl
  ]

  get_result-here :
      (seq : ℕ) (c : A) (results : Results A) → get_result (retain seq c results) seq ≡ some c
  get_result-here seq c results = ground arith

  -- Later jobs with other numbers leave a result alone.
  get_result-other :
      (seq : ℕ) (batch : List InferenceJob) (cs : List A) (results : Results A)
      → All (λ job. job.seq ≢ seq) batch
      → get_result (retain_all batch cs results) seq ≡ get_result results seq
  get_result-other seq [] cs results h = refl
  get_result-other seq (job ∷ batch) [] results h = refl
  get_result-other seq (job ∷ batch) (c ∷ cs) results h =
      get_result-other seq batch cs (retain job.seq c results) (h.1)
      ∙ get_result-retain (job.seq) seq c results (h.0)

get_result-products :
    (j : Jobs) (before : List InferenceJob) (job : InferenceJob) (after : List InferenceJob) (i : ℕ)
    (results : Results (Option j.Matrix))
    → All (λ other. other.seq ≢ job.seq) after
    → get_result
        (retain_all (before ++ job ∷ after) (products j i (length (before ++ job ∷ after))) results)
        job.seq
      ≡ some (
          some (
            j.multiply
              (i + length before)
              (j.input_a (i + length before))
              (j.input_b (i + length before))))
get_result-products j [] job after i results h =
    get_result-other job.seq after (products j (suc i) (length after)) _ h
    ∙ get_result-here job.seq _ results
    ∙ ap (λ n. some (some (j.multiply n (j.input_a n) (j.input_b n)))) (omega arith)
get_result-products j (first ∷ before) job after i results h =
    get_result-products j before job after (suc i) _ h
    ∙ ap (λ n. some (some (j.multiply n (j.input_a n) (j.input_b n)))) (omega arith)

-- On any machine that does what the documentation of CUDA allows, where results are retained and no
-- later job of the batch has the sequence number of `job`: once the thread has made all calls for the
-- batch, get_result returns the product of `job` for its number, whatever was retained before.
pub get_result-execute_batch :
    (j : Jobs) (cuda : Runtime j) (before : List InferenceJob) (job : InferenceJob)
    (after : List InferenceJob) (m : Memory j) (d d' : cuda.Device)
    (results : Results (Option j.Matrix))
    → All (λ other. other.seq ≢ job.seq) after
    → cuda.view d ≡ start_program j (execute_batch true (length (before ++ job ∷ after))) m
    → Execution cuda d d'
    → (cuda.view d').program ≡ []
    → get_result (retain_all (before ++ job ∷ after) (cuda.view d').results results) job.seq
      ≡ some (
          some (j.multiply (length before) (j.input_a (length before)) (j.input_b (length before))))
get_result-execute_batch j cuda before job after m d d' results h e r ended =
    let batch : List InferenceJob = before ++ job ∷ after in
    ap (λ cs. get_result (retain_all batch cs results) job.seq)
      (execute_batch-IsRight j cuda true (length batch) m d d' e r ended)
    ∙ get_result-products j before job after 0 results h
    ∙ ap (λ n. some (some (j.multiply n (j.input_a n) (j.input_b n)))) (omega arith)
