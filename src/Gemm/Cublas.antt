-- ===== src/Gemm/Cublas.antt =====
-- The wrapper gemm_cublas_batched of src/kernels/gemm_cublas.cu. cuBLAS is a parameter.
pub mod Swapped
mod Tests
use gpu_batch_inference_sche.Common.{ℕ, ◌+◌, ◌*◌, ◌≤◌, ◌<◌, ◌≡◌, Option, none, some, ◌⊎◌, inl, inr}
use gpu_batch_inference_sche.Gemm.{Elements, Shape}

module _ (e : Elements) where
  open e use {Float, f_zero, f_mul}

  -- The arguments of cublasSgemmStridedBatched for operands that are not transposed.
  pub record Sgemm : Type 0 where
    pub m : ℕ
    pub n : ℕ
    pub k : ℕ
    pub alpha : Float
    pub a : ℕ → Float
    pub lda : ℕ
    pub stride_a : ℕ
    pub b : ℕ → Float
    pub ldb : ℕ
    pub stride_b : ℕ
    pub beta : Float
    pub ldc : ℕ
    pub stride_c : ℕ
    pub batch_count : ℕ

  -- The calls of the library: an error status, or what they give. `inner_product` is the sum of `k`
  -- products as the library forms it, in whatever order and precision.
  pub record Cublas : Type 1 where
    pub Handle : Type 0
    pub Status : Type 0
    pub create : Status ⊎ Handle
    pub set_stream : Handle → (stream : ℕ) → Option Status
    pub inner_product : (k : ℕ) → (a b : ℕ → Float) → Float
    pub sgemm_strided_batched : Handle → Sgemm → Status ⊎ (ℕ → Float)

  -- What the documentation requires of the arguments; the matrices C do not overlap.
  abbrev pub IsLegal : Sgemm → Type 0
  IsLegal x =
      (0 < x.m)
      × (0 < x.n)
      × (0 < x.k)
      × (x.m ≤ x.lda)
      × (x.k ≤ x.ldb)
      × (x.m ≤ x.ldc)
      × (x.n * x.ldc ≤ x.stride_c)

  -- The documented result of a call that succeeds with legal arguments and `beta` 0, in columns:
  -- element (`i`, `j`) of matrix `p` of C is `alpha` times the inner product of row `i` and column `j`.
  abbrev pub IsDocumented : Cublas → Type 0
  IsDocumented c =
      (h : c.Handle) (x : Sgemm)
      → IsLegal x
      → x.beta ≡ f_zero
      → (out : ℕ → Float) → c.sgemm_strided_batched h x ≡ inr out
      → (p i j : ℕ) → p < x.batch_count
      → i < x.m
      → j < x.n
      → out (p * x.stride_c + (j * x.ldc + i))
        ≡ f_mul (x.alpha) (
            c.inner_product x.k (λ l. x.a (p * x.stride_a + (l * x.lda + i)))
              (λ l. x.b (p * x.stride_b + (j * x.ldb + l))))

  -- The arguments of the wrapper's call: the operands change places.
  pub swapped_call : (f_one : Float) → (a b : ℕ → Float) → Shape → (batch : ℕ) → Sgemm
  swapped_call f_one a b s batch = record {
    m = s.cols;
    n = s.rows;
    k = s.inner;
    alpha = f_one;
    a = b;
    lda = s.cols;
    stride_a = s.inner * s.cols;
    b = a;
    ldb = s.inner;
    stride_b = s.rows * s.inner;
    beta = f_zero;
    ldc = s.cols;
    stride_c = s.rows * s.cols;
    batch_count = batch;
  }

  -- The handle of the thread, made by its first call.
  pub thread_handle : (c : Cublas) → Option c.Handle → c.Status ⊎ c.Handle
  thread_handle c none = c.create
  thread_handle c (some h) = inr h

  -- `CUBLAS_CHECK(cublasSetStream(...))`, then the call.
  pub run_call : (c : Cublas) → c.Handle → Option c.Status → Sgemm → c.Status ⊎ (ℕ → Float)
  run_call c h (some status) x = inl status
  run_call c h none x = c.sgemm_strided_batched h x

  -- The handle that the thread keeps, and the error or the matrix C.
  pub gemm_cublas_batched :
      (c : Cublas) (f_one : Float)
      → Option c.Handle
      → (a b : ℕ → Float) → Shape
      → (batch stream : ℕ) → Option c.Handle × (c.Status ⊎ (ℕ → Float))
  unfolding swapped_call thread_handle run_call
  gemm_cublas_batched c f_one handle a b s batch stream = elim (thread_handle c handle) [
    | inl status ↦ (none, inl status)
    | inr h ↦ (some h, run_call c h (c.set_stream h stream) (swapped_call f_one a b s batch))
  ]
