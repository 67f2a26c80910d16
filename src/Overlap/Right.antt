-- ===== src/Overlap/Right.antt =====
-- The timed sequences of bench/bench_overlap.cpp bring the products back and read events that have run.
use gpu_batch_inference_sche.Common.{
  ℕ, zero, suc, ◌+◌, ◌<◌, ◌≡◌, refl, sym, subst, inl, inr, List, [], ◌∷◌, ◌++◌, false, Bool, ◌==◌,
  if◌then◌else◌, arith, append_assoc, some,
}
use gpu_batch_inference_sche.Stream.{
  Jobs, Memory, Runtime, Execution, Reach, start_program, Action, elapsed, record_on, synchronize,
  put,
}
use gpu_batch_inference_sche.Stream.Facts.{
  Fact, Checks, copied, stamped, Knowledge, Both, Within, Holds,
}
use gpu_batch_inference_sche.Stream.Progress.{path_of}
use gpu_batch_inference_sche.Stream.Sound.{checked-IsRight}
use gpu_batch_inference_sche.Pipeline.{for_each}
use gpu_batch_inference_sche.Overlap.{
  start_event, end_event, single_job, overlap_job, read_times, run_sequence, run_pinned_single,
  run_pinned_overlap, run_pinned_double_buffer,
}
use gpu_batch_inference_sche.Overlap.Account.{Given, Finished, Returned, promise, Counts, Waits}
use gpu_batch_inference_sche.Overlap.Readings.{readings-Ok}
use gpu_batch_inference_sche.Overlap.Buffered
use gpu_batch_inference_sche.Overlap.Buffered.Checked.{run_pinned_double_buffer-Ok}
use gpu_batch_inference_sche.Overlap.Checked.{Ok, single_job-Ok, overlap_job-Ok}

-- A sequence of jobs, each of which brings its product back, with an account `I` of its events.
module _ (n : ℕ) (job : ℕ → List Action) (I : ℕ → (ℕ → ℕ → ℕ) → Type 0)
    (counts : (issued : ℕ → ℕ → ℕ) → I n issued → Counts n issued)
    (begun : I 0 (put 6 (put 0 1 (λ i. 0)) (λ array i. 0)))
    (job-Ok : (known : Knowledge) (i : ℕ) (tails : ℕ → Knowledge) (issued : ℕ → ℕ → ℕ)
        (rest : List Action)
      → i < n
      → Within (Given n) (tails 0)
      → Within (Finished i) (tails 0)
      → I i issued
      → ((tails' : ℕ → Knowledge) (issued' : ℕ → ℕ → ℕ)
          → Within (Given n) (tails' 0)
          → Within (Finished (suc i)) (tails' 0)
          → I (suc i) issued'
          → Ok n known tails' issued' rest)
      → Ok n known tails issued (job i ++ rest)) where
  jobs-Ok :
      (known : Knowledge) (k i : ℕ) (tails : ℕ → Knowledge) (issued : ℕ → ℕ → ℕ)
      (rest : List Action)
      → i + k ≡ n
      → Within (Given n) (tails 0)
      → Within (Finished i) (tails 0)
      → I i issued
      → ((tails' : ℕ → Knowledge) (issued' : ℕ → ℕ → ℕ)
          → Within (Finished n) (tails' 0)
          → I n issued'
          → Ok n known tails' issued' rest)
      → Ok n known tails issued (for_each job i k ++ rest)
  jobs-Ok known zero i tails issued rest e g w c k =
      let same : i ≡ n = omega arith in
      k tails issued (subst (λ x. Within (Finished x) (tails 0)) same w)
        (subst (λ x. I x issued) same c)
  jobs-Ok known (suc left) i tails issued rest e g w c k =
      subst (Ok n known tails issued) (sym (append_assoc (job i) (for_each job (suc i) left) rest))
        (job-Ok known i tails issued (for_each job (suc i) left ++ rest) (omega arith) g w c
          (λ tails' issued' g' w' c'.
            jobs-Ok known left (suc i) tails' issued' rest (omega arith) g' w' c' k))

  run_sequence-Ok :
      (timed : Bool) → Ok n (Given n) (λ s. Given n) (λ array i. 0) (run_sequence job 0 timed n)
  run_sequence-Ok timed =
      let tails : ℕ → Knowledge = put 0 (Both (Given n) (λ φ. φ ≡ stamped 6 0 1)) (λ s. Given n) in
      let readings : List Action =
        for_each read_times 0 n ++ (if timed then elapsed start_event 0 end_event 0 ∷ [] else []) in
      let finish : List Action = record_on 0 end_event 0 ∷ synchronize end_event 0 ∷ readings in
      (
        (λ φ. elim [ ]),
        jobs-Ok (Given n) n 0 tails (put 6 (put 0 1 (λ i. 0)) (λ array i. 0)) finish (omega arith)
            (λ φ g. inl g)
            (λ φ. elim [
              | inl (l, p, e) ↦ absurd (omega (arith, p))
              | inr (inl (a, l, q, p, e)) ↦ absurd (omega (arith, p))
              | inr (inr e) ↦ inr e
            ])
            begun
            (λ tails' issued w c. (
              w,
              readings-Ok (promise n) n (λ g φ f. f) timed
                  (put 0 (Both (tails' 0) (λ φ. φ ≡ stamped 7 0 (suc (issued 7 0)))) tails') issued
                  (counts issued c),
            )),
      )

begun-Counts : Counts 0 (put 6 (put 0 1 (λ i. 0)) (λ array i. 0))
begun-Counts = record {
  at_c0 = λ l. ground arith;
  at_c1 = λ l. ground arith;
  at_k0 = λ l. ground arith;
  at_k1 = λ l. ground arith;
  at_d0 = λ l. ground arith;
  at_d1 = λ l. ground arith;
  at_start = refl;
}

begun-Waits : Waits 0 (put 6 (put 0 1 (λ i. 0)) (λ array i. 0))
begun-Waits = record {
  at_c0 = begun-Counts.at_c0;
  at_c1 = begun-Counts.at_c1;
  at_k0 = begun-Counts.at_k0;
  at_k1 = begun-Counts.at_k1;
  at_d0 = begun-Counts.at_d0;
  at_d1 = begun-Counts.at_d1;
  at_start = refl;
  at_h2d = refl;
  at_kern = refl;
}

Waits-Counts : (n : ℕ) (issued : ℕ → ℕ → ℕ) → Waits n issued → Counts n issued
Waits-Counts n issued c = record {
  at_c0 = c.at_c0;
  at_c1 = c.at_c1;
  at_k0 = c.at_k0;
  at_k1 = c.at_k1;
  at_d0 = c.at_d0;
  at_d1 = c.at_d1;
  at_start = c.at_start;
}

given_holds :
    (n : ℕ) (j : Jobs) (m : Memory j)
    → ((l : ℕ) → l < n → (m.host_a l ≡ some (j.input_a l)) × (m.host_b l ≡ some (j.input_b l)))
    → Within (Given n) (Holds j m (λ array i generation. generation == 0))
given_holds n j m h φ (l, p, inl e) =
    subst (Holds j m (λ array i generation. generation == 0)) (sym e) ((h l p).0)
given_holds n j m h φ (l, p, inr e) =
    subst (Holds j m (λ array i generation. generation == 0)) (sym e) ((h l p).1)

-- The three sequences: a run_pinned function, without or with its last reading.
pub data Sequence : Type 0 where
  pinned_single pinned_overlap pinned_double_buffer : Sequence

abbrev pub calls : Sequence → (timed : Bool) → (n : ℕ) → List Action
calls pinned_single timed n = run_pinned_single timed n
calls pinned_overlap timed n = run_pinned_overlap timed n
calls pinned_double_buffer timed n = run_pinned_double_buffer timed n

-- What the events of a sequence stand for.
abbrev promise_of : Sequence → (n array i generation : ℕ) → Knowledge
promise_of pinned_double_buffer n = Buffered.promise n
promise_of _ n = promise n

promise_of-start :
    (which : Sequence) (n array i : ℕ) (φ : Fact) → promise_of which n array i 0 φ → ⊥
promise_of-start pinned_single n array i φ h = h
promise_of-start pinned_overlap n array i φ h = h
promise_of-start pinned_double_buffer n array i φ h = h

calls-Ok :
    (which : Sequence) (timed : Bool) (n : ℕ)
    → Checks
        (promise_of which (suc n))
        (Returned (suc n))
        (Given (suc n))
        (λ s. Given (suc n))
        (λ array i. 0)
        (calls which timed (suc n))
calls-Ok pinned_single timed n =
    run_sequence-Ok (suc n) single_job Counts (λ issued c. c) begun-Counts (single_job-Ok (suc n))
      timed
calls-Ok pinned_overlap timed n =
    run_sequence-Ok (suc n) overlap_job Waits (Waits-Counts (suc n)) begun-Waits
      (overlap_job-Ok (suc n)) timed
calls-Ok pinned_double_buffer timed n = run_pinned_double_buffer-Ok timed n

-- On any machine that does what the documentation of CUDA allows, where the inputs of the `n` jobs stand
-- in the host buffers: however the streams of run_pinned_single, of run_pinned_overlap and of
-- run_pinned_double_buffer interleave, once a sequence has made all its calls, the product of each job
-- `l` is in its host buffer, and no time was asked for an event that had not run.
pub calls-IsRight :
    (which : Sequence) (timed : Bool) (n : ℕ) (j : Jobs) (cuda : Runtime j) (m : Memory j)
    (d d' : cuda.Device)
    → ((l : ℕ) → l < n → (m.host_a l ≡ some (j.input_a l)) × (m.host_b l ≡ some (j.input_b l)))
    → cuda.view d ≡ start_program j (calls which timed n) m
    → Execution cuda d d'
    → (cuda.view d').program ≡ []
    → (l : ℕ) → l < n
    → ((cuda.view d').failed ≡ false)
      × ((cuda.view d').memory.host_c l ≡ some (j.multiply l (j.input_a l) (j.input_b l)))
calls-IsRight which timed zero j cuda m d d' inputs e r ended l p = absurd (omega (arith, p))
calls-IsRight which timed (suc n) j cuda m d d' inputs e r ended l p =
    let path = subst (λ st. Reach j st (cuda.view d')) e (path_of j cuda d d' r) in
    let right =
      checked-IsRight (promise_of which (suc n)) (Given (suc n)) (Returned (suc n)) j
        (calls which timed (suc n)) m (cuda.view d') (promise_of-start which (suc n))
        (given_holds (suc n) j m inputs) (calls-Ok which timed n) path ended in
    (right.1, right.2 (copied l) (l, p, refl))
