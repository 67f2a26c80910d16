-- ===== src/Gemm/Grid.antt =====
-- The launches of src/kernels/gemm.cu: each element of C has exactly one thread.
use gpu_batch_inference_sche.Common.{ℕ, ◌+◌, ◌-◌, ◌*◌, ◌/◌, ◌%◌, ◌<◌, ◌≡◌, refl, arith}
use gpu_batch_inference_sche.Gemm.{Shape, Thread}

-- `dim3 grid` and the side of the square `dim3 block`.
pub record Launch : Type 0 where
  pub grid_x : ℕ
  pub grid_y : ℕ
  pub grid_z : ℕ
  pub width : ℕ

-- The launch of `gemm_naive_batched`, for a shape and a batch.
pub gemm_naive_batched : Shape → ℕ → Launch
gemm_naive_batched s batch = record {
  grid_x = (s.cols + 15) / 16;
  grid_y = (s.rows + 15) / 16;
  grid_z = batch;
  width = 16;
}

-- The launch of `gemm_tiled_batched`.
unfoldable pub gemm_tiled_batched : Shape → ℕ → Launch
gemm_tiled_batched s batch = record {
  grid_x = (s.cols + 32 - 1) / 32;
  grid_y = (s.rows + 32 - 1) / 32;
  grid_z = batch;
  width = 32;
}

-- `t` is a thread that the launch starts, and its element is `row`, `col` of batch `b`.
pub record Computes (l : Launch) (t : Thread) (row col b : ℕ) : Type 0 where
  pub in_x : t.block_x < l.grid_x
  pub in_y : t.block_y < l.grid_y
  pub in_z : t.block_z < l.grid_z
  pub inside_x : t.thread_x < l.width
  pub inside_y : t.thread_y < l.width
  pub at_row : t.block_y * l.width + t.thread_y ≡ row
  pub at_col : t.block_x * l.width + t.thread_x ≡ col
  pub at_batch : t.block_z ≡ b

-- The tiled launch starts a thread for each element of C.
tiled_covers :
    (s : Shape) (batch row col b : ℕ)
    → row < s.rows
    → col < s.cols
    → b < batch
    → (t : Thread) × Computes (gemm_tiled_batched s batch) t row col b
unfolding gemm_tiled_batched
tiled_covers s batch row col b r c lt = (
  record {
    block_x = col / 32;
    block_y = row / 32;
    block_z = b;
    thread_x = col % 32;
    thread_y = row % 32;
  },
  record {
    in_x = omega arith;
    in_y = omega arith;
    in_z = lt;
    inside_x = omega arith;
    inside_y = omega arith;
    at_row = omega arith;
    at_col = omega arith;
    at_batch = refl;
  },
)

-- Of the threads of the tiled launch no two write the same element of C: their coordinates are those
-- that the element determines.
pub tiled_unique :
    (s : Shape) (batch row col b : ℕ) (t : Thread)
    → Computes (gemm_tiled_batched s batch) t row col b
    → (t.block_x ≡ col / 32)
      × (t.block_y ≡ row / 32)
      × (t.block_z ≡ b)
      × (t.thread_x ≡ col % 32)
      × (t.thread_y ≡ row % 32)
unfolding gemm_tiled_batched
tiled_unique s batch row col b t c =
    (omega (arith, c), omega (arith, c), c.at_batch, omega (arith, c), omega (arith, c))

-- The naive launch starts a thread for each element of C.
pub naive_covers :
    (s : Shape) (batch row col b : ℕ)
    → row < s.rows
    → col < s.cols
    → b < batch
    → (t : Thread) × Computes (gemm_naive_batched s batch) t row col b
unfolding gemm_naive_batched
naive_covers s batch row col b r c lt = (
  record {
    block_x = col / 16;
    block_y = row / 16;
    block_z = b;
    thread_x = col % 16;
    thread_y = row % 16;
  },
  record {
    in_x = omega arith;
    in_y = omega arith;
    in_z = lt;
    inside_x = omega arith;
    inside_y = omega arith;
    at_row = omega arith;
    at_col = omega arith;
    at_batch = refl;
  },
)
