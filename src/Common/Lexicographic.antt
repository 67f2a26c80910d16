-- ===== src/Common/Lexicographic.antt =====
-- Lexicographic comparators: a first key decides, and where it ties another ordering does.
use gpu_batch_inference_sche.Common.Tests.{ltb, ◌==◌, if◌then◌else◌}
use gpu_batch_inference_sche.Common.Int.{ℤ, ltb_ℤ, eqb_ℤ}
use gpu_batch_inference_sche.Common.Sorting.{StrictWeak}
use Prim.Native.Nat.{ℕ}
use mathlib.Core.Bool.{Bool, not}
use native.Mathlib.Omega.{arith}

module _ {ℓ} {A : Type ℓ} where
  pub ltb-StrictWeak : (f : A → ℕ) → StrictWeak (λ a b. ltb (f a) (f b))
  ltb-StrictWeak f = record {
    asymm = λ a b h. ground arith;
    weak_trans = λ a b c h h'. ground arith;
  }

  module _ (r : A → A → Bool) (o : StrictWeak r) where
    pub ascending-StrictWeak :
        (f : A → ℕ) → StrictWeak (λ a b. if not (f a == f b) then ltb (f a) (f b) else r a b)
    ascending-StrictWeak f = record {
      asymm = λ a b h. ground (arith, o.asymm a b);
      weak_trans = λ a b c h h'. ground (arith, o.weak_trans a b c);
    }

    pub descending-StrictWeak :
        (f : A → ℕ) → StrictWeak (λ a b. if not (f a == f b) then ltb (f b) (f a) else r a b)
    descending-StrictWeak f = record {
      asymm = λ a b h. ground (arith, o.asymm a b);
      weak_trans = λ a b c h h'. ground (arith, o.weak_trans a b c);
    }

    pub descending_ℤ-StrictWeak :
        (f : A → ℤ)
        → StrictWeak (λ a b. if not (eqb_ℤ (f a) (f b)) then ltb_ℤ (f b) (f a) else r a b)
    descending_ℤ-StrictWeak f = record {
      asymm = λ a b h. ground (arith, o.asymm a b);
      weak_trans = λ a b c h h'. ground (arith, o.weak_trans a b c);
    }
