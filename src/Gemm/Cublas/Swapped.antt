-- ===== src/Gemm/Cublas/Swapped.antt =====
-- The wrapper's call, with the operands in each other's place, computes the product in rows.
use gpu_batch_inference_sche.Common.{
  ℕ, ◌+◌, ◌*◌, ◌<◌, ◌≡◌, refl, ◌∙◌, Option, none, some, inr, arith,
}
use gpu_batch_inference_sche.Gemm.{Elements, Shape}
use gpu_batch_inference_sche.Gemm.Cublas.{
  Cublas, IsDocumented, swapped_call, thread_handle, run_call, gemm_cublas_batched,
}

module _ (e : Elements) where
  swapped-IsRight :
      (c : Cublas e) (f_one : e.Float)
      → IsDocumented e c
      → ((k : ℕ) (a b : ℕ → e.Float) → c.inner_product k a b ≡ c.inner_product k b a)
      → ((x : e.Float) → e.f_mul f_one x ≡ x)
      → (h : c.Handle) (a b : ℕ → e.Float) (s : Shape) (count : ℕ) (out : ℕ → e.Float)
      → c.sgemm_strided_batched h (swapped_call e f_one a b s count) ≡ inr out
      → 0 < s.inner
      → (batch row col : ℕ) → batch < count
      → row < s.rows
      → col < s.cols
      → out (batch * (s.rows * s.cols) + (row * s.cols + col))
        ≡ c.inner_product s.inner
            (λ k. a (batch * (s.rows * s.inner) + (row * s.inner + k)))
            (λ k. b (batch * (s.inner * s.cols) + (k * s.cols + col)))
  unfolding swapped_call
  swapped-IsRight c f_one doc comm one h a b s count out ok hk batch row col pb pr pc =
      doc h (swapped_call e f_one a b s count)
        (omega arith, omega arith, hk, omega arith, omega arith, omega arith, omega arith) refl out
        ok batch col row pb pc pr
      ∙ one _
      ∙ comm s.inner _ _

  -- Where the inner side is positive, `f_one` is a unit, an inner product of cuBLAS does not depend on
  -- which factor comes first, and cuBLAS gives a handle, takes the stream and succeeds: the wrapper
  -- keeps the handle and returns a C in rows, each element of which, within the batch and the shape, is
  -- the inner product of a row of A and a column of B, with all three matrices in rows.
  pub gemm_cublas-IsRowMajor :
      (c : Cublas e) (f_one : e.Float)
      → IsDocumented e c
      → ((k : ℕ) (a b : ℕ → e.Float) → c.inner_product k a b ≡ c.inner_product k b a)
      → ((x : e.Float) → e.f_mul f_one x ≡ x)
      → (handle : Option c.Handle) (h : c.Handle) (a b : ℕ → e.Float) (s : Shape) (count stream : ℕ)
        (out : ℕ → e.Float)
      → thread_handle e c handle ≡ inr h
      → c.set_stream h stream ≡ none
      → c.sgemm_strided_batched h (swapped_call e f_one a b s count) ≡ inr out
      → 0 < s.inner
      → (batch row col : ℕ) → batch < count
      → row < s.rows
      → col < s.cols
      → (gemm_cublas_batched e c f_one handle a b s count stream ≡ (some h, inr out))
        × (out (batch * (s.rows * s.cols) + (row * s.cols + col))
            ≡ c.inner_product s.inner
                (λ k. a (batch * (s.rows * s.inner) + (row * s.inner + k)))
                (λ k. b (batch * (s.inner * s.cols) + (k * s.cols + col))))
  unfolding gemm_cublas_batched run_call
  gemm_cublas-IsRowMajor c f_one doc comm one handle h a b s count stream out hh hs ok hk batch row
        col pb pr pc =
      (
        ground arith,
        swapped-IsRight c f_one doc comm one h a b s count out ok hk batch row col pb pr pc,
      )
