-- ===== src/Overlap/Readings.antt =====
-- The end of a timed sequence of bench/bench_overlap.cpp: the wait for its last event, and the readings
-- of the others.
use gpu_batch_inference_sche.Common.{
  ℕ, zero, suc, ◌+◌, ◌<◌, ◌≡◌, refl, sym, subst, ◌⊎◌, inl, inr, List, [], ◌∷◌, ◌++◌, true, false,
  Bool, if◌then◌else◌, arith,
}
use gpu_batch_inference_sche.Stream.{Action, elapsed, synchronize, put}
use gpu_batch_inference_sche.Stream.Facts.{stamped, Knowledge, Both, Within, Checks}
use gpu_batch_inference_sche.Stream.Counting.{CountedTo-old}
use gpu_batch_inference_sche.Pipeline.{for_each}
use gpu_batch_inference_sche.Overlap.{start_event, end_event, read_times}
use gpu_batch_inference_sche.Overlap.Account.{Given, Finished, Returned, Counts}

module _ (promise : (array i generation : ℕ) → Knowledge) (n : ℕ) where
  abbrev Ok : Knowledge → (ℕ → Knowledge) → (ℕ → ℕ → ℕ) → List Action → Type 0
  Ok known tails issued program = Checks promise (Returned n) known tails issued program

  -- The readings, once all events of the jobs have run.
  read_times-Ok :
      (known : Knowledge) (k i : ℕ) (tails : ℕ → Knowledge) (issued : ℕ → ℕ → ℕ)
      (rest : List Action)
      → i + k ≡ n
      → Within (Finished n) known
      → Counts n issued
      → Ok known tails issued rest
      → Ok known tails issued (for_each read_times i k ++ rest)
  read_times-Ok known zero i tails issued rest e w c r = r
  read_times-Ok known (suc k) i tails issued rest e w c r =
      let p : i < n = omega arith in
      let has : (a : ℕ) → a < 6 → issued a i ≡ 1 → known (stamped a i (issued a i)) =
        λ a q h. subst (λ g. known (stamped a i g)) (sym h) (w _ (inr (inl (a, i, q, p, refl)))) in
      (
        has 0 (omega arith) (CountedTo-old n (issued 0) i c.at_c0 p),
        has 1 (omega arith) (CountedTo-old n (issued 1) i c.at_c1 p),
        (
          has 2 (omega arith) (CountedTo-old n (issued 2) i c.at_k0 p),
          has 3 (omega arith) (CountedTo-old n (issued 3) i c.at_k1 p),
          (
            has 4 (omega arith) (CountedTo-old n (issued 4) i c.at_d0 p),
            has 5 (omega arith) (CountedTo-old n (issued 5) i c.at_d1 p),
            read_times-Ok known k (suc i) tails issued rest (omega arith) w c r,
          ),
        ),
      )

  last_reading-Ok :
      (timed : Bool) (known : Knowledge) (tails : ℕ → Knowledge) (issued : ℕ → ℕ → ℕ)
      → Within (Finished n) known
      → known (stamped 6 0 (issued 6 0))
      → known (stamped 7 0 (issued 7 0))
      → Ok known tails issued (if timed then elapsed start_event 0 end_event 0 ∷ [] else [])
  last_reading-Ok true known tails issued w s e = (s, e, λ φ r. w φ (inl r))
  last_reading-Ok false known tails issued w s e = λ φ r. w φ (inl r)

  -- What follows the record of the last event, which stands for everything.
  pub readings-Ok :
      ((g : ℕ) → Within (Finished n) (promise 7 0 (suc g)))
      → (timed : Bool) (tails : ℕ → Knowledge) (issued : ℕ → ℕ → ℕ) → Counts n issued
      → Ok (Given n) tails (put 7 (put 0 (suc (issued 7 0)) (issued 7)) issued) (
          synchronize end_event 0
          ∷ (for_each read_times 0 n
              ++ (if timed then elapsed start_event 0 end_event 0 ∷ [] else [])))
  readings-Ok ends timed tails issued c =
      let g : ℕ = suc (issued 7 0) in
      let counted : ℕ → ℕ → ℕ = put 7 (put 0 g (issued 7)) issued in
      let learned : Knowledge = λ φ. promise 7 0 g φ ⊎ (φ ≡ stamped 7 0 g) in
      let known : Knowledge = Both (Given n) learned in
      let tails' : ℕ → Knowledge = λ s. Both (tails s) learned in
      let all : Within (Finished n) known = λ φ f. inr (inl (ends (issued 7 0) φ f)) in
      read_times-Ok known n 0 tails' counted
        (if timed then elapsed start_event 0 end_event 0 ∷ [] else []) (omega arith) all
        record {
          at_c0 = c.at_c0;
          at_c1 = c.at_c1;
          at_k0 = c.at_k0;
          at_k1 = c.at_k1;
          at_d0 = c.at_d0;
          at_d1 = c.at_d1;
          at_start = c.at_start;
        }
        (last_reading-Ok timed known tails' counted all
          (subst (λ x. known (stamped 6 0 x)) (sym c.at_start) (all _ (inr (inr refl))))
          (inr (inr refl)))
