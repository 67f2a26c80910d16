-- ===== src/Overlap/Buffered.antt =====
-- What is known in the middle of run_pinned_double_buffer of bench/bench_overlap.cpp, and which events
-- have been recorded.
pub mod Checked
use gpu_batch_inference_sche.Common.{
  ℕ, zero, suc, ◌+◌, ◌<◌, ◌≡◌, refl, sym, ap, subst, ◌∙◌, ◌⊎◌, inl, inr, List, [], ◌∷◌, ◌++◌, true,
  false, Bool, ◌==◌, if◌then◌else◌, arith, ltb, append_assoc, Bool-cases,
}
use gpu_batch_inference_sche.Stream.{
  copy_c, Command, work, record_event, await_event, Action, put, elapsed, record_on, synchronize,
}
use gpu_batch_inference_sche.Stream.Facts.{
  loaded_a, loaded_b, computed, copied, stamped, Knowledge, Both, Within, Checks, After,
}
use gpu_batch_inference_sche.Stream.Keeps.{After-start, Both-Within}
use gpu_batch_inference_sche.Stream.Counting.{
  CountedTo, CountedTo-next, CountedTo-old, CountedTo-new, stamp, waited,
}
use gpu_batch_inference_sche.Pipeline.{for_each}
use gpu_batch_inference_sche.Pipeline.Account.{ahead}
use gpu_batch_inference_sche.Pipeline.Checked.{recorded, ahead-last, ahead-more}
use gpu_batch_inference_sche.Overlap.{
  start_event, end_event, upload, buffered_job, read_times, run_pinned_double_buffer, d2h_on,
}
use gpu_batch_inference_sche.Overlap.Account.{Given, Finished, Returned, Counts, Finished-next, six}
use gpu_batch_inference_sche.Overlap.Readings.{readings-Ok}

abbrev pub Begun : Knowledge
Begun φ = φ ≡ stamped 6 0 1

-- What `c1` and `k1` of job `i` stand for.
abbrev pub Uploaded : ℕ → Knowledge
Uploaded i φ = (φ ≡ loaded_a i) ⊎ ((φ ≡ loaded_b i) ⊎ ((φ ≡ stamped 0 i 1) ⊎ (φ ≡ stamped 6 0 1)))

abbrev pub Multiplied : ℕ → Knowledge
Multiplied i φ =
    (φ ≡ computed i)
    ⊎ ((φ ≡ stamped 2 i 1) ⊎ ((φ ≡ stamped 1 i 1) ⊎ ((φ ≡ stamped 0 i 1) ⊎ (φ ≡ stamped 6 0 1))))

abbrev pub promise : (n array i generation : ℕ) → Knowledge
promise n array i zero φ = ⊥
promise n array i (suc g) φ =
    if array == 7
    then Finished n φ
    else if array == 1
    then Uploaded i φ
    else if array == 3
    then Multiplied i φ
    else ⊥

-- The uploads of `up` jobs and the other work of `i` jobs have been issued.
pub record Ahead (up i : ℕ) (issued : ℕ → ℕ → ℕ) : Type 0 where
  pub at_c0 : CountedTo up (issued 0)
  pub at_c1 : CountedTo up (issued 1)
  pub at_k0 : CountedTo i (issued 2)
  pub at_k1 : CountedTo i (issued 3)
  pub at_d0 : CountedTo i (issued 4)
  pub at_d1 : CountedTo i (issued 5)
  pub at_start : issued 6 0 ≡ 1

pub upload-Ahead :
    (k up i : ℕ) (issued : ℕ → ℕ → ℕ)
    → k ≡ up
    → Ahead up i issued
    → Ahead (suc up) i (recorded 1 k (recorded 0 k issued))
upload-Ahead k up i issued same c = rw same (record {
  at_c0 = CountedTo-next up (issued 0) c.at_c0;
  at_c1 = CountedTo-next up (issued 1) c.at_c1;
  at_k0 = c.at_k0;
  at_k1 = c.at_k1;
  at_d0 = c.at_d0;
  at_d1 = c.at_d1;
  at_start = c.at_start;
})

-- The four events of the other work.
abbrev pub worked : ℕ → (ℕ → ℕ → ℕ) → ℕ → ℕ → ℕ
worked i issued = recorded 5 i (recorded 4 i (recorded 3 i (recorded 2 i issued)))

pub worked-Ahead :
    (up i : ℕ) (issued : ℕ → ℕ → ℕ) → Ahead up i issued → Ahead up (suc i) (worked i issued)
worked-Ahead up i issued c = record {
  at_c0 = c.at_c0;
  at_c1 = c.at_c1;
  at_k0 = CountedTo-next i (issued 2) c.at_k0;
  at_k1 = CountedTo-next i (issued 3) c.at_k1;
  at_d0 = CountedTo-next i (issued 4) c.at_d0;
  at_d1 = CountedTo-next i (issued 5) c.at_d1;
  at_start = c.at_start;
}

-- What the ends of the upload and the download streams know between two rounds.
pub record Knows (n i : ℕ) (tails : ℕ → Knowledge) : Type 0 where
  pub inputs : Within (Given n) (tails 0)
  pub begun : tails 0 (stamped 6 0 1)
  pub outputs : Within (Finished i) (Both (tails 2) Begun)
  pub begun_outputs : 0 < i → tails 2 (stamped 6 0 1)

pub Ahead-Counts : (n : ℕ) (issued : ℕ → ℕ → ℕ) → Ahead n n issued → Counts n issued
Ahead-Counts n issued c = record {
  at_c0 = c.at_c0;
  at_c1 = c.at_c1;
  at_k0 = c.at_k0;
  at_k1 = c.at_k1;
  at_d0 = c.at_d0;
  at_d1 = c.at_d1;
  at_start = c.at_start;
}

pub begun-Ahead : Ahead 0 0 (recorded 6 0 (λ array i. 0))
begun-Ahead = record {
  at_c0 = λ l. ground arith;
  at_c1 = λ l. ground arith;
  at_k0 = λ l. ground arith;
  at_k1 = λ l. ground arith;
  at_d0 = λ l. ground arith;
  at_d1 = λ l. ground arith;
  at_start = refl;
}

pub begun-Knows :
    (n : ℕ) → Knows n 0 (put 0 (Both (Given n) (λ φ. φ ≡ stamped 6 0 1)) (λ s. Given n))
begun-Knows n = record {
  inputs = λ φ g. inl g;
  begun = inr refl;
  outputs = λ φ. elim [
    | inl (l, p, e) ↦ absurd (omega (arith, p))
    | inr (inl (a, l, q, p, e)) ↦ absurd (omega (arith, p))
    | inr (inr e) ↦ inr e
  ];
  begun_outputs = λ p. absurd (omega (arith, p));
}

-- The end of the download stream after the round of job `i`.
pub downloaded :
    (n i : ℕ) (before : Knowledge) (issued : ℕ → ℕ → ℕ) (g : ℕ)
    → Ahead (suc i) i issued
    → Within
        (λ φ. promise n 3 i 1 φ ⊎ (φ ≡ stamped 3 i 1))
        (λ φ. promise n 3 i g φ ⊎ (φ ≡ stamped 3 i g))
    → Within (Finished i) (Both before Begun)
    → Within (Finished (suc i)) (
        After (promise n) before (
          await_event 3 i g
          ∷ record_event 4 i (suc (issued 4 i))
          ∷ work (copy_c i)
          ∷ record_event 5 i (suc (issued 5 i))
          ∷ []))
downloaded n i before issued g c multiplied h =
    let ran : List Command =
      await_event 3 i g
      ∷ record_event 4 i (suc (issued 4 i))
      ∷ work (copy_c i)
      ∷ record_event 5 i (suc (issued 5 i))
      ∷ [] in
    let left : Knowledge = After (promise n) before ran in
    let learned : Within (λ φ. promise n 3 i 1 φ ⊎ (φ ≡ stamped 3 i 1)) left =
      λ φ x. inl (inl (inl (inr (multiplied φ x)))) in
    let grown : Within (Both before Begun) left =
      Both-Within before Begun left (After-start (promise n) ran before)
        (λ φ e. learned φ (inl (inr (inr (inr (inr e)))))) in
    Finished-next i (Both before Begun) left h grown (inl (inr refl)) (
      six left i (learned _ (inl (inr (inr (inr (inl refl))))))
        (learned _ (inl (inr (inr (inl refl))))) (learned _ (inl (inr (inl refl))))
        (learned _ (inr refl)) (inl (inl (inr (stamp 4 i (issued 4) c.at_d0))))
        (inr (stamp 5 i (issued 5) c.at_d1)))
