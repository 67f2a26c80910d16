-- ===== src/Pipeline/Account.antt =====
-- What the events of the pipeline of execute_batch stand for, and which have been recorded.
use gpu_batch_inference_sche.Common.{
  ℕ, zero, suc, ◌<◌, ◌≡◌, ◌⊎◌, inl, inr, if◌then◌else◌, ltb, sym, subst, ap, ◌∙◌,
}
use gpu_batch_inference_sche.Stream.Facts.{
  loaded_a, loaded_b, computed, copied, stamped, Knowledge, Within,
}
use gpu_batch_inference_sche.Stream.Keeps.{last}
use gpu_batch_inference_sche.Stream.Counting.{CountedTo}

-- What the records of the three events of job `i` stand for.
abbrev pub promise : (array i generation : ℕ) → Knowledge
promise array i zero φ = ⊥
promise zero i (suc g) φ = (φ ≡ loaded_a i) ⊎ (φ ≡ loaded_b i)
promise (suc zero) i (suc g) φ = (φ ≡ computed i) ⊎ (φ ≡ stamped 0 i 1)
promise (suc (suc zero)) i (suc g) φ = (φ ≡ copied i) ⊎ ((φ ≡ stamped 0 i 1) ⊎ (φ ≡ stamped 1 i 1))
promise (suc (suc (suc a))) i (suc g) φ = ⊥

abbrev pub Nothing : Knowledge
Nothing φ = ⊥

-- The events of the first `n` jobs have run.
abbrev pub Returned : ℕ → Knowledge
Returned n φ =
    (l : ℕ) × (l < n) × ((φ ≡ stamped 0 l 1) ⊎ ((φ ≡ stamped 1 l 1) ⊎ (φ ≡ stamped 2 l 1)))

pub Returned-next :
    (i : ℕ) (known : Knowledge)
    → Within (Returned i) known
    → known (stamped 0 i 1)
    → known (stamped 1 i 1)
    → known (stamped 2 i 1)
    → Within (Returned (suc i)) known
Returned-next i known h s0 s1 s2 φ (l, p, e) = elim (last l i p) [
  | inl q ↦ h φ (l, q, e)
  | inr q ↦ elim e [
    | inl x ↦ subst known (sym (x ∙ ap (λ k. stamped 0 k 1) q)) s0
    | inr (inl x) ↦ subst known (sym (x ∙ ap (λ k. stamped 1 k 1) q)) s1
    | inr (inr x) ↦ subst known (sym (x ∙ ap (λ k. stamped 2 k 1) q)) s2
  ]
]

-- The uploads of `up` jobs and the other work of `i` jobs have been issued.
pub record Counts (up i : ℕ) (issued : ℕ → ℕ → ℕ) : Type 0 where
  pub at_h2d : CountedTo up (issued 0)
  pub at_kern : CountedTo i (issued 1)
  pub at_done : CountedTo i (issued 2)

-- The host is one upload ahead, until the last.
abbrev pub ahead : (size i : ℕ) → ℕ
ahead size i = if ltb i size then suc i else i
