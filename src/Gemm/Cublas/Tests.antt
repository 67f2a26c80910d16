-- ===== src/Gemm/Cublas/Tests.antt =====
-- A product by way of a cuBLAS that computes with natural numbers, in columns.
use native.Mathlib.Nat.{mul-add-div_right, div-eq_of_lt, mul-le-mul_right, mul_comm}
use gpu_batch_inference_sche.Common.{
  ℕ, zero, suc, ◌+◌, ◌*◌, ◌/◌, ◌-◌, ◌≡◌, ◌<◌, ◌≤◌, refl, sym, ap, ◌∙◌, none, some, inl, inr, arith,
}
use gpu_batch_inference_sche.Gemm.{Elements, Shape}
use gpu_batch_inference_sche.Gemm.Cublas.{
  Sgemm, Cublas, IsDocumented, swapped_call, thread_handle, gemm_cublas_batched,
}
use gpu_batch_inference_sche.Gemm.Cublas.Swapped.{gemm_cublas-IsRowMajor}

abbrev naturals : Elements
naturals = record { Float = ℕ; f_zero = 0; f_add = λ x y. x + y; f_mul = λ x y. x * y }

-- The products from the last to the first.
abbrev sum_of : ℕ → (ℕ → ℕ) → (ℕ → ℕ) → ℕ
sum_of zero a b = 0
sum_of (suc k) a b = a k * b k + sum_of k a b

sum_of_comm : (k : ℕ) (a b : ℕ → ℕ) → sum_of k a b ≡ sum_of k b a
sum_of_comm zero a b = refl
sum_of_comm (suc k) a b =
    let rest = sum_of_comm k a b in let first = mul_comm (a k) (b k) in omega (arith, rest, first)

-- Element (`i`, `j`) of matrix `p`.
abbrev element : Sgemm naturals → (p i j : ℕ) → ℕ
element x p i j =
    x.alpha
    * sum_of x.k (λ l. x.a (p * x.stride_a + (l * x.lda + i)))
        (λ l. x.b (p * x.stride_b + (j * x.ldb + l)))

abbrev by_hand : Cublas naturals
by_hand = record {
  Handle = Unit {0};
  Status = ℕ;
  create = inr tt;
  set_stream = λ h stream. none;
  inner_product = sum_of;
  sgemm_strided_batched = λ h x. inr (λ o.
      let r : ℕ = o - o / x.stride_c * x.stride_c in
      element x (o / x.stride_c) (r - r / x.ldc * x.ldc) (r / x.ldc));
}

quotient : (p n r : ℕ) → r < n → (p * n + r) / n ≡ p
quotient p n r h =
    mul-add-div_right (omega arith) p r ∙ ap (λ x. p + x) (div-eq_of_lt h) ∙ omega arith

remainder : (p n r : ℕ) → r < n → p * n + r - (p * n + r) / n * n ≡ r
remainder p n r h = ap (λ q. p * n + r - q * n) (quotient p n r h) ∙ omega arith

decoded :
    (x : Sgemm naturals) (p i j : ℕ)
    → i < x.ldc
    → j * x.ldc + i < x.stride_c
    → (let o : ℕ = p * x.stride_c + (j * x.ldc + i) in
        let r : ℕ = o - o / x.stride_c * x.stride_c in
        element x (o / x.stride_c) (r - r / x.ldc * x.ldc) (r / x.ldc))
      ≡ element x p i j
decoded x p i j h h' = rw (remainder p (x.stride_c) (j * x.ldc + i) h') (
    rw (quotient p (x.stride_c) (j * x.ldc + i) h')
      (rw (remainder j (x.ldc) i h) (rw (quotient j (x.ldc) i h) refl)))

inside : (m n l i j stride : ℕ) → i < m → m ≤ l → j < n → n * l ≤ stride → j * l + i < stride
inside m n l i j stride hi hl hj h =
    let more : suc j * l ≤ n * l = mul-le-mul_right l hj in grind arith

by_hand-IsDocumented : IsDocumented naturals by_hand
by_hand-IsDocumented = λ h x legal beta out ok p i j hp hi hj.
    sym (ap (λ r. elim r [ inl status ↦ 0 | inr f ↦ f (p * x.stride_c + (j * x.ldc + i)) ]) ok)
    ∙ decoded x p i j (omega (arith, legal))
        (inside x.m x.n x.ldc i j x.stride_c hi (legal.5) hj (legal.6))

-- 2 rows, 3 columns, an inner side of 2, and two matrices.
abbrev shape : Shape
shape = record { rows = 2; cols = 3; inner = 2 }

abbrev call : Sgemm naturals
call = swapped_call naturals 1 (λ i. i) (λ i. i + 1) shape 2

-- The matrices C of that call.
abbrev product_by_hand : ℕ → ℕ
product_by_hand o =
    let r : ℕ = o - o / call.stride_c * call.stride_c in
    element call (o / call.stride_c) (r - r / call.ldc * call.ldc) (r / call.ldc)

gemm_cublas-IsRowMajor_example :
    (gemm_cublas_batched naturals by_hand 1 none (λ i. i) (λ i. i + 1) shape 2 0
      ≡ (some tt, inr product_by_hand))
    × (product_by_hand 11 ≡ sum_of 2 (λ k. 6 + k) (λ k. 8 + k * 3 + 1))
unfolding thread_handle
gemm_cublas-IsRowMajor_example =
    gemm_cublas-IsRowMajor naturals by_hand 1 by_hand-IsDocumented sum_of_comm (λ x. omega arith)
      none tt (λ i. i) (λ i. i + 1) shape 2 0 product_by_hand refl refl refl (omega arith) 1 1 2
      (omega arith) (omega arith) (omega arith)
