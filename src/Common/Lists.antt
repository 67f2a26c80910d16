-- ===== src/Common/Lists.antt =====
-- Lists measured by native numbers, a predicate on every element, and weighted sums.
use Prim.Native.Nat.{ℕ, suc, ◌+◌}
use mathlib.Core.Path.{◌≡◌, refl, ap}
use mathlib.Core.Bool.{Bool}
use mathlib.Core.List.{
  not-mem-nil, mem-cons, Mem, mem-cons_self, mem-cons_of_mem, append_assoc, perm_middle,
  perm_append_singleton, List, [], ◌∷◌, ◌++◌, Perm, Permᴰ,
}
use mathlib.Core.Logic.{∥∥₁_elim}
use mathlib.Core.Logic.Or
use native.Mathlib.Nat.{ℕ_set}
use native.Mathlib.Omega.{arith}
use gpu_batch_inference_sche.Common.Tests.{if◌then◌else◌}

module _ {ℓ} {A : Type ℓ} where
  abbrev pub length : List A → ℕ
  length [] = 0
  length (x ∷ xs) = suc (length xs)

  pub length-append : (xs ys : List A) → length (xs ++ ys) ≡ length xs + length ys
  length-append [] ys = omega arith
  length-append (x ∷ xs) ys = omega (arith, length-append xs ys)

  -- The elements that pass a test, in order.
  abbrev pub keep : (A → Bool) → List A → List A
  keep p [] = []
  keep p (x ∷ xs) = if p x then x ∷ keep p xs else keep p xs

  -- The sum of a weight over a list.
  abbrev pub total : (A → ℕ) → List A → ℕ
  total w [] = 0
  total w (x ∷ xs) = w x + total w xs

  pub total-append : (w : A → ℕ) (xs ys : List A) → total w (xs ++ ys) ≡ total w xs + total w ys
  total-append w [] ys = omega arith
  total-append w (x ∷ xs) ys = omega (arith, total-append w xs ys)

  total-permᴰ : (w : A → ℕ) {xs ys : List A} → Permᴰ xs ys → total w xs ≡ total w ys
  total-permᴰ w Permᴰ.nil = refl
  total-permᴰ w (Permᴰ.cons e p) = omega (arith, ap w e, total-permᴰ w p)
  total-permᴰ w (Permᴰ.swap e e') = omega (arith, ap w e, ap w e')
  total-permᴰ w (Permᴰ.trans p q) = omega (arith, total-permᴰ w p, total-permᴰ w q)

  -- A rearrangement has the same sum.
  pub total-perm : (w : A → ℕ) {xs ys : List A} → Perm xs ys → total w xs ≡ total w ys
  total-perm w p = ∥∥₁_elim p (ℕ_set _ _) (λ q. total-permᴰ w q)

-- An element added at either end of the second list, or at the end of the first.
module _ {ℓ} {A : Type ℓ} where
  pub append_last-perm : (xs ys : List A) (x : A) → Perm (xs ++ (ys ++ x ∷ [])) (x ∷ xs ++ ys)
  append_last-perm xs ys x = rw (← append_assoc xs ys (x ∷ [])) (perm_append_singleton x (xs ++ ys))

  pub append_inner-perm : (xs ys : List A) (x : A) → Perm ((xs ++ x ∷ []) ++ ys) (x ∷ xs ++ ys)
  append_inner-perm xs ys x = rw (append_assoc xs (x ∷ []) ys) (perm_middle xs ys)

-- `P` holds of every element; it computes to tuples.
abbrev pub All {ℓ κ} : {A : Type ℓ} → (A → Type κ) → List A → Type κ
All P [] = Unit
All P (x ∷ xs) = P x × All P xs

module _ {ℓ κ} {A : Type ℓ} where
  pub All-append : (P : A → Type κ) (xs ys : List A) → All P xs → All P ys → All P (xs ++ ys)
  All-append P [] ys h k = k
  All-append P (x ∷ xs) ys h k = (h.0, All-append P xs ys h.1 k)

  pub All-map {κ'} :
      (P : A → Type κ) (Q : A → Type κ')
      → ((x : A) → P x → Q x)
      → (xs : List A) → All P xs
      → All Q xs
  All-map P Q f [] h = tt
  All-map P Q f (x ∷ xs) h = (f x h.0, All-map P Q f xs h.1)

  -- A member of the list has the property.
  pub All-get :
      (P : A → Type κ)
      → ((x : A) → IsProp (P x))
      → (xs : List A) → All P xs
      → (a : A) → Mem a xs
      → P a
  All-get P prop [] h a m = absurd (not-mem-nil m)
  All-get P prop (x ∷ xs) h a m =
      Or.elim (prop a) (mem-cons.0 m) (λ e. rw e (h.0)) (All-get P prop xs h.1 a)

  pub All-Mem : (P : A → Type κ) (xs : List A) → ((x : A) → Mem x xs → P x) → All P xs
  All-Mem P [] h = tt
  All-Mem P (x ∷ xs) h = (h x mem-cons_self, All-Mem P xs (λ y m. h y (mem-cons_of_mem x m)))

module _ {ℓ} {A : Type ℓ} where
  pub length-total : (xs : List A) → length xs ≡ total (λ _. 1) xs
  length-total [] = refl
  length-total (x ∷ xs) = omega (arith, length-total xs)

  pub length-perm : {xs ys : List A} → Perm xs ys → length xs ≡ length ys
  length-perm {xs} {ys} p =
      omega (arith, length-total xs, length-total ys, total-perm (λ (x : A). 1) p)

  -- Weights that agree on every element have the same sum.
  pub total_congr : (f g : A → ℕ) → ((x : A) → f x ≡ g x) → (xs : List A) → total f xs ≡ total g xs
  total_congr f g h [] = refl
  total_congr f g h (x ∷ xs) = omega (arith, h x, total_congr f g h xs)
