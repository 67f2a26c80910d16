-- ===== src/Pipeline/Right.antt =====
-- The pipeline of execute_batch reads the right products, in every order in which the streams run,
-- and ends.
use gpu_batch_inference_sche.Common.{
  ℕ, zero, suc, ◌+◌, ◌≡◌, refl, ap, subst, ◌∙◌, ◌⊎◌, List, [], ◌∷◌, ◌++◌, Option, some, true, false,
  Bool, if◌then◌else◌, arith, ltb, append_assoc, length, length-append, ◌*◌, ◌≤◌,
}
use gpu_batch_inference_sche.Stream.{
  Jobs, Action, fill, launch, record_on, wait_on, synchronize, collect, elapsed, Memory, Reach,
  start_program, Runtime, Execution,
}
use gpu_batch_inference_sche.Stream.Invariant.{expected}
use gpu_batch_inference_sche.Stream.Progress.{run_length, Ended, path_of, Execution-IsBounded}
use gpu_batch_inference_sche.Stream.Sound.{checked-IsRight}
use gpu_batch_inference_sche.Pipeline.{for_each, enqueue_h2d, issue_job, finish_job, execute_batch}
use gpu_batch_inference_sche.Pipeline.Account.{promise, Nothing, Returned}
use gpu_batch_inference_sche.Pipeline.Checked.{execute_batch-Ok}

expected-append :
    (j : Jobs) (p q : List Action) → expected j (p ++ q) ≡ expected j p ++ expected j q
expected-append j [] q = refl
expected-append j (collect i ∷ p) q =
    ap (λ x. some (j.multiply i (j.input_a i) (j.input_b i)) ∷ x) (expected-append j p q)
expected-append j (fill i ∷ p) q = expected-append j p q
expected-append j (launch s c ∷ p) q = expected-append j p q
expected-append j (record_on s a i ∷ p) q = expected-append j p q
expected-append j (wait_on s a i ∷ p) q = expected-append j p q
expected-append j (synchronize a i ∷ p) q = expected-append j p q
expected-append j (elapsed a i b k ∷ p) q = expected-append j p q

-- The products of `k` jobs, from job `i`.
abbrev pub products : (j : Jobs) → (i k : ℕ) → List (Option j.Matrix)
products j i zero = []
products j i (suc k) = some (j.multiply i (j.input_a i) (j.input_b i)) ∷ products j (suc i) k

expected-finish_job :
    (j : Jobs) (retain_results : Bool) (i k : ℕ)
    → expected j (for_each (finish_job retain_results) i k)
      ≡ (if retain_results then products j i k else [])
expected-finish_job j true i zero = refl
expected-finish_job j false i zero = refl
expected-finish_job j true i (suc k) =
    ap (λ x. some (j.multiply i (j.input_a i) (j.input_b i)) ∷ x)
      (expected-finish_job j true (suc i) k)
expected-finish_job j false i (suc k) = expected-finish_job j false (suc i) k

expected-next :
    (j : Jobs) (i : ℕ) (b : Bool) (q : List Action)
    → expected j ((if b then enqueue_h2d i else []) ++ q) ≡ expected j q
expected-next j i true q = refl
expected-next j i false q = refl

expected-issue_job :
    (j : Jobs) (size i k : ℕ) (q : List Action)
    → expected j (for_each (issue_job size) i k ++ q) ≡ expected j q
expected-issue_job j size i zero q = refl
expected-issue_job j size i (suc k) q =
    ap (λ p. expected j p) (append_assoc (issue_job size i) (for_each (issue_job size) (suc i) k) q)
    ∙ expected-next j (i + 1) (ltb (i + 1) size) (for_each (issue_job size) (suc i) k ++ q)
    ∙ expected-issue_job j size (suc i) k q

length-issue_jobs : (size i k : ℕ) → length (for_each (issue_job size) i k) ≤ 10 * k
length-issue_jobs size i zero = omega arith
length-issue_jobs size i (suc k) =
    let rec = length-issue_jobs size (suc i) k in
    let split = length-append (issue_job size i) (for_each (issue_job size) (suc i) k) in
    ground arith

length-finish_jobs :
    (retain_results : Bool) (i k : ℕ) → length (for_each (finish_job retain_results) i k) ≤ 2 * k
length-finish_jobs retain_results i zero = omega arith
length-finish_jobs true i (suc k) = omega (arith, length-finish_jobs true (suc i) k)
length-finish_jobs false i (suc k) = omega (arith, length-finish_jobs false (suc i) k)

pub length-execute_batch :
    (retain_results : Bool) (size : ℕ) → length (execute_batch retain_results size) ≤ 12 * size + 4
length-execute_batch retain_results size =
    let waits : List Action = for_each (finish_job retain_results) 0 size in
    omega (
      arith,
      length-append (for_each (issue_job size) 0 size) waits,
      length-issue_jobs size 0 size,
      length-finish_jobs retain_results 0 size,
    )

pub expected-execute_batch :
    (j : Jobs) (retain_results : Bool) (size : ℕ)
    → expected j (execute_batch retain_results size)
      ≡ (if retain_results then products j 0 size else [])
expected-execute_batch j retain_results size =
    expected-issue_job j size 0 size (for_each (finish_job retain_results) 0 size)
    ∙ expected-finish_job j retain_results 0 size

-- On any machine that does what the documentation of CUDA allows, however the three streams interleave
-- with the calls of the thread and with each other, and whatever stood in the buffers before: once the
-- thread has made all calls for a batch of `size` jobs, the results are the products of the jobs in
-- order, if results are retained, and none otherwise.
pub execute_batch-IsRight :
    (j : Jobs) (cuda : Runtime j) (retain_results : Bool) (size : ℕ) (m : Memory j)
    (d d' : cuda.Device)
    → cuda.view d ≡ start_program j (execute_batch retain_results size) m
    → Execution cuda d d'
    → (cuda.view d').program ≡ []
    → (cuda.view d').results ≡ (if retain_results then products j 0 size else [])
execute_batch-IsRight j cuda retain_results size m d d' e r ended =
    let path = subst (λ st. Reach j st (cuda.view d')) e (path_of j cuda d d' r) in
    (checked-IsRight promise Nothing (Returned size) j (execute_batch retain_results size) m
      (cuda.view d') (λ array i φ. elim [ ]) (λ φ. elim [ ]) (execute_batch-Ok retain_results size)
      path ended).0
    ∙ expected-execute_batch j retain_results size

-- On a machine that also makes a step wherever the documentation allows one, the pipeline ends: every
-- run of it can go on until the thread has made all its calls and the three streams are empty, and it
-- has at most 24 steps for each job and 8 more.
pub execute_batch-IsFinite :
    (j : Jobs) (cuda : Runtime j) (retain_results : Bool) (size : ℕ) (m : Memory j)
    (d d' : cuda.Device)
    → cuda.view d ≡ start_program j (execute_batch retain_results size) m
    → (r : Execution cuda d d')
    → (run_length r ≤ 24 * size + 8)
      × (Ended j (cuda.view d') ⊎ ((x : cuda.Device) × cuda.Runs d' x))
execute_batch-IsFinite j cuda retain_results size m d d' e r =
    let (short, more) = Execution-IsBounded j cuda (execute_batch retain_results size) m d d' e r in
    (omega (arith, short, length-execute_batch retain_results size), more)
