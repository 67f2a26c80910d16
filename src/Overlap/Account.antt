-- ===== src/Overlap/Account.antt =====
-- What is known in the middle of a sequence of bench/bench_overlap.cpp, and which events have run.
use gpu_batch_inference_sche.Common.{
  ℕ, zero, suc, ◌<◌, ◌≡◌, sym, ap, subst, ◌∙◌, ◌⊎◌, inl, inr, ◌==◌, if◌then◌else◌, arith,
}
use gpu_batch_inference_sche.Stream.Facts.{
  filled_a, filled_b, loaded_a, loaded_b, computed, copied, stamped, Knowledge, Within,
}
use gpu_batch_inference_sche.Stream.Keeps.{last}
use gpu_batch_inference_sche.Stream.Counting.{CountedTo}
use gpu_batch_inference_sche.Overlap.{start_event}

-- The inputs of `n` jobs are in the host buffers.
abbrev pub Given : ℕ → Knowledge
Given n φ = (l : ℕ) × (l < n) × ((φ ≡ filled_a l) ⊎ (φ ≡ filled_b l))

-- The products of the first `i` jobs are back, and their six events have run, as well as `start`.
abbrev pub Finished : ℕ → Knowledge
Finished i φ =
    ((l : ℕ) × (l < i) × (φ ≡ copied l))
    ⊎ (((a : ℕ) × (l : ℕ) × (a < 6) × (l < i) × (φ ≡ stamped a l 1))
        ⊎ (φ ≡ stamped start_event 0 1))

-- The products of all jobs are back.
abbrev pub Returned : ℕ → Knowledge
Returned n φ = (l : ℕ) × (l < n) × (φ ≡ copied l)

-- What the record `g + 1` of an event stands for: `end` for everything, and the two events that the
-- streams wait for, which are recorded once for each job, for the job of that number.
abbrev event_promise : (n array g : ℕ) → Knowledge
event_promise n array g φ =
    if array == 7
    then Finished n φ
    else if array == 8
    then (φ ≡ loaded_a g) ⊎ (φ ≡ loaded_b g)
    else if array == 9
    then (φ ≡ computed g) ⊎ ((φ ≡ stamped 2 g 1) ⊎ (φ ≡ stamped 3 g 1))
    else ⊥

abbrev pub promise : (n array i generation : ℕ) → Knowledge
promise n array i zero φ = ⊥
promise n array i (suc g) φ = event_promise n array g φ

-- The six events of a job, and `start`; the other two are recorded once for each job.
pub record Counts (i : ℕ) (issued : ℕ → ℕ → ℕ) : Type 0 where
  pub at_c0 : CountedTo i (issued 0)
  pub at_c1 : CountedTo i (issued 1)
  pub at_k0 : CountedTo i (issued 2)
  pub at_k1 : CountedTo i (issued 3)
  pub at_d0 : CountedTo i (issued 4)
  pub at_d1 : CountedTo i (issued 5)
  pub at_start : issued 6 0 ≡ 1

-- With the two events that the streams wait for, recorded once for each job.
pub record Waits (i : ℕ) (issued : ℕ → ℕ → ℕ) : Type 0 where
  pub at_c0 : CountedTo i (issued 0)
  pub at_c1 : CountedTo i (issued 1)
  pub at_k0 : CountedTo i (issued 2)
  pub at_k1 : CountedTo i (issued 3)
  pub at_d0 : CountedTo i (issued 4)
  pub at_d1 : CountedTo i (issued 5)
  pub at_start : issued 6 0 ≡ 1
  pub at_h2d : issued 8 0 ≡ i
  pub at_kern : issued 9 0 ≡ i

pub Finished-next :
    (i : ℕ) (t t' : Knowledge)
    → Within (Finished i) t
    → Within t t'
    → t' (copied i)
    → ((a : ℕ) → a < 6 → t' (stamped a i 1))
    → Within (Finished (suc i)) t'
Finished-next i t t' h w c s φ (inl (l, p, e)) = elim (last l i p) [
  | inl q ↦ w φ (h φ (inl (l, q, e)))
  | inr q ↦ subst t' (sym (e ∙ ap copied q)) c
]
Finished-next i t t' h w c s φ (inr (inl (a, l, pa, p, e))) = elim (last l i p) [
  | inl q ↦ w φ (h φ (inr (inl (a, l, pa, q, e))))
  | inr q ↦ subst t' (sym (e ∙ ap (λ x. stamped a x 1) q)) (s a pa)
]
Finished-next i t t' h w c s φ (inr (inr e)) = w φ (h φ (inr (inr e)))

-- The six stamps of a job, from one for each event.
pub six :
    (t : Knowledge) (i : ℕ)
    → t (stamped 0 i 1)
    → t (stamped 1 i 1)
    → t (stamped 2 i 1)
    → t (stamped 3 i 1)
    → t (stamped 4 i 1)
    → t (stamped 5 i 1)
    → (a : ℕ) → a < 6
    → t (stamped a i 1)
six t i s0 s1 s2 s3 s4 s5 zero p = s0
six t i s0 s1 s2 s3 s4 s5 (suc zero) p = s1
six t i s0 s1 s2 s3 s4 s5 (suc (suc zero)) p = s2
six t i s0 s1 s2 s3 s4 s5 (suc (suc (suc zero))) p = s3
six t i s0 s1 s2 s3 s4 s5 (suc (suc (suc (suc zero)))) p = s4
six t i s0 s1 s2 s3 s4 s5 (suc (suc (suc (suc (suc zero))))) p = s5
six t i s0 s1 s2 s3 s4 s5 (suc (suc (suc (suc (suc (suc a)))))) p = absurd (omega arith)
