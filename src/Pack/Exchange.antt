-- ===== src/Pack/Exchange.antt =====
-- The counting argument behind the smallest-first sweep of `pack_jobs` in src/sched/scheduler.cpp:
-- a selection of the lightest elements is as long as any other that weighs no more.
use gpu_batch_inference_sche.Common.{
  ℕ, ◌+◌, ◌-◌, ◌*◌, ◌≤◌, ◌<◌, ◌≡◌, List, [], ◌∷◌, ◌++◌, length, total, total-append, total-perm,
  All, Perm, arith,
}

fewer : (a b w : ℕ) → a * w < b * w + w → a ≤ b
fewer a b w h = grind arith

module _ {ℓ} {A : Type ℓ} (weight : A → ℕ) (w : ℕ) where
  -- What an element lacks to the weight `w`.
  abbrev lack : A → ℕ
  lack a = w - weight a

  total-lack-ge : (xs : List A) → length xs * w ≤ total weight xs + total lack xs
  total-lack-ge [] = omega arith
  total-lack-ge (x ∷ xs) = omega (arith, total-lack-ge xs)

  total-lack_light :
      (xs : List A) → All (λ a. weight a ≤ w) xs → total weight xs + total lack xs ≡ length xs * w
  total-lack_light [] h = omega arith
  total-lack_light (x ∷ xs) h = omega (arith, total-lack_light xs h.1, h.0)

  total-lack_heavy : (xs : List A) → All (λ a. w ≤ weight a) xs → total lack xs ≡ 0
  total-lack_heavy [] h = omega arith
  total-lack_heavy (x ∷ xs) h = omega (arith, total-lack_heavy xs h.1, h.0)

  -- If all of `taken` weigh at most `w`, all of `left` at least `w`, and `taken` with `w` exceeds
  -- the budget, then nothing from the same elements that stays within the budget is longer.
  pub longest :
      (budget : ℕ) (taken left chosen others : List A)
      → All (λ a. weight a ≤ w) taken
      → All (λ a. w ≤ weight a) left
      → budget < total weight taken + w
      → Perm (chosen ++ others) (taken ++ left)
      → total weight chosen ≤ budget
      → length chosen ≤ length taken
  longest budget taken left chosen others light heavy over p within =
      fewer (length chosen) (length taken) w (
        omega (
          arith,
          total-lack-ge chosen,
          total-lack_light taken light,
          total-lack_heavy left heavy,
          total-append lack chosen others,
          total-append lack taken left,
          total-perm lack p,
        ))
