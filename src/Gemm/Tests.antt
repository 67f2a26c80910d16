-- ===== src/Gemm/Tests.antt =====
-- Products of matrices of natural numbers by the kernels of src/kernels/gemm.cu.
use gpu_batch_inference_sche.Common.{ℕ, ◌+◌, ◌*◌, ◌≡◌, refl, arith}
use gpu_batch_inference_sche.Gemm.{
  Elements, Thread, Shape, gemm_tiled_batched_kernel, gemm_naive_batched_kernel,
}
use gpu_batch_inference_sche.Gemm.Tiles.{tiled-eq-naive}

abbrev naturals : Elements
naturals = record { Float = ℕ; f_zero = 0; f_add = λ x y. x + y; f_mul = λ x y. x * y }

-- 40 rows, 35 columns and an inner side of 33: no multiples of the tiles.
abbrev shape : Shape
shape = record { rows = 40; cols = 35; inner = 33 }

-- The thread of row 34, column 33 and batch 1, in the tiled and in the naive grid.
abbrev tiled_thread : Thread
tiled_thread = record { block_x = 1; block_y = 1; block_z = 1; thread_x = 1; thread_y = 2 }

abbrev naive_thread : Thread
naive_thread = record { block_x = 2; block_y = 2; block_z = 1; thread_x = 1; thread_y = 2 }

tiled-eq-naive_example :
    gemm_tiled_batched_kernel naturals (λ i. i) (λ i. i + 1) shape tiled_thread
    ≡ gemm_naive_batched_kernel naturals (λ i. i) (λ i. i + 1) shape naive_thread
tiled-eq-naive_example =
    tiled-eq-naive naturals (λ x. omega arith) (λ i. i) (λ i. i + 1) shape tiled_thread naive_thread
      (omega arith) (omega arith) refl (omega arith) (omega arith) (omega arith) (omega arith)
