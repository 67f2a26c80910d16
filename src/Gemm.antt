-- ===== src/Gemm.antt =====
-- The GEMM kernels of src/kernels/gemm.cu, over any type of elements with an addition and a
-- multiplication. A device array is a function from offsets modulo 2^64. An index is a product and sum
-- in 32 bits, which is signed where the operands are `int` and unsigned where `threadIdx` is one of
-- them; a signed one is extended to 64 bits with its sign, as if it wrapped around.
pub mod Tiles
pub mod Grid
pub mod Cublas
mod Tests
use gpu_batch_inference_sche.Common.{
  ℕ, zero, suc, ◌+◌, ◌*◌, Bool, ◌&&◌, ◌||◌, Option, none, some, ltb, leb, if◌then◌else◌, ◌%◌, ◌^◌,
  size_of_int, int_of_size,
}

-- `float`, or any other type in its place.
pub record Elements : Type 1 where
  pub Float : Type 0
  pub f_zero : Float
  pub f_add : Float → Float → Float
  pub f_mul : Float → Float → Float

-- `dim3` coordinates of a thread.
pub record Thread : Type 0 where
  pub block_x : ℕ
  pub block_y : ℕ
  pub block_z : ℕ
  pub thread_x : ℕ
  pub thread_y : ℕ

-- The arguments `M`, `N`, `K` of a kernel.
pub record Shape : Type 0 where
  pub rows : ℕ
  pub cols : ℕ
  pub inner : ℕ

-- An `int` index and an unsigned one, added to the offset `base` of a matrix.
unfoldable pub int_index : (base index : ℕ) → ℕ
int_index base index = (base + size_of_int (int_of_size index)) % 2 ^ 64

unfoldable pub unsigned_index : (base index : ℕ) → ℕ
unsigned_index base index = (base + index % 2 ^ 32) % 2 ^ 64

module _ (e : Elements) where
  open e use {Float, f_zero, f_add, f_mul}

  -- `for (k = ...; n rounds; ++k) acc += a(k) * b(k);`
  pub dot_loop : (ℕ → Float) → (ℕ → Float) → ℕ → ℕ → Float → Float
  dot_loop a b zero k acc = acc
  dot_loop a b (suc n) k acc = dot_loop a b n (k + 1) (f_add acc (f_mul (a k) (b k)))

  -- `gemm_naive_batched_kernel`: the offset of C that the thread writes, and the value.
  pub gemm_naive_batched_kernel : (ℕ → Float) → (ℕ → Float) → Shape → Thread → Option (ℕ × Float)
  unfolding dot_loop int_index
  gemm_naive_batched_kernel a b s t =
      let col : ℕ = t.block_x * 16 + t.thread_x in
      let row : ℕ = t.block_y * 16 + t.thread_y in
      let batch : ℕ = t.block_z in
      if leb s.rows row || leb s.cols col
      then none
      else some (
        int_index (batch * (s.rows * s.cols) + col) (row * s.cols),
        dot_loop (λ k. a (int_index (batch * (s.rows * s.inner)) (row * s.inner + k)))
            (λ k. b (int_index (batch * (s.inner * s.cols)) (k * s.cols + col))) s.inner 0 f_zero,
      )

  -- `As[threadIdx.y][threadIdx.x]` after the loads of the tile at `k0`.
  pub load_a : (ℕ → Float) → Shape → (batch row k0 thread_x : ℕ) → Float
  unfolding unsigned_index
  load_a a s batch row k0 thread_x =
      if ltb row s.rows && ltb (k0 + thread_x) s.inner
      then a (unsigned_index (batch * (s.rows * s.inner)) (row * s.inner + k0 + thread_x))
      else f_zero

  -- `Bs[threadIdx.y][threadIdx.x]` after the loads of the tile at `k0`.
  pub load_b : (ℕ → Float) → Shape → (batch col k0 thread_y : ℕ) → Float
  unfolding unsigned_index
  load_b b s batch col k0 thread_y =
      if ltb (k0 + thread_y) s.inner && ltb col s.cols
      then b (unsigned_index (batch * (s.inner * s.cols)) ((k0 + thread_y) * s.cols + col))
      else f_zero

  -- The loop over the tiles. `As[threadIdx.y][kk]` was loaded by the thread with `threadIdx.x == kk`
  -- of the same row, and `Bs[kk][threadIdx.x]` by the thread with `threadIdx.y == kk` of the same
  -- column. Each round raises `k0` by 32, so `fuel` rounds are enough where `inner` is at most `fuel`;
  -- `k0` is an `int` in the code, which stays below `inner + 32`.
  pub tile_loop : (ℕ → Float) → (ℕ → Float) → Shape → (batch row col fuel k0 : ℕ) → Float → Float
  tile_loop a b s batch row col zero k0 acc = acc
  tile_loop a b s batch row col (suc fuel) k0 acc =
      let acc' : Float = dot_loop (load_a a s batch row k0) (load_b b s batch col k0) 32 0 acc in
      let rest : Float = tile_loop a b s batch row col fuel (k0 + 32) acc' in
      if ltb k0 s.inner then rest else acc

  -- `gemm_tiled_batched_kernel<32, 32, 32>`.
  pub gemm_tiled_batched_kernel : (ℕ → Float) → (ℕ → Float) → Shape → Thread → Option (ℕ × Float)
  unfolding tile_loop load_a load_b dot_loop int_index
  gemm_tiled_batched_kernel a b s t =
      let row : ℕ = t.block_y * 32 + t.thread_y in
      let col : ℕ = t.block_x * 32 + t.thread_x in
      let acc : Float = tile_loop a b s t.block_z row col s.inner 0 f_zero in
      if ltb row s.rows && ltb col s.cols
      then some (int_index (t.block_z * (s.rows * s.cols)) (row * s.cols + col), acc)
      else none
