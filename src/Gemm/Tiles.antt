-- ===== src/Gemm/Tiles.antt =====
-- The tiled kernel of src/kernels/gemm.cu computes what the naive one does.
use native.Mathlib.Nat.{mul-le-mul_right}
use native.Mathlib.Decide.{dec_le}
use gpu_batch_inference_sche.Common.{
  ℕ, zero, suc, ◌+◌, ◌-◌, ◌*◌, ◌%◌, ◌^◌, ◌≤◌, ◌<◌, ◌≡◌, refl, ap, sym, ◌∙◌, some, ltb, ◌⊎◌, ◌&&◌,
  ◌||◌, leb, arith, Bool-cases, inl, inr, true, false,
}
use gpu_batch_inference_sche.Gemm.{
  Elements, Shape, Thread, dot_loop, load_a, load_b, tile_loop, gemm_naive_batched_kernel,
  gemm_tiled_batched_kernel, int_index, unsigned_index,
}

-- An index below 2^31 is its own value in 32 bits, signed or unsigned.
int-small : (base index : ℕ) → index < 2 ^ 31 → int_index base index ≡ (base + index) % 2 ^ 64
unfolding int_index
int-small base index h = ground arith

unsigned-small :
    (base index value : ℕ)
    → index ≡ value
    → value < 2 ^ 31
    → unsigned_index base index ≡ (base + value) % 2 ^ 64
unfolding unsigned_index
unsigned-small base index value e h = let low : index % 2 ^ 32 ≡ value = omega arith in rw low refl

inside_matrix :
    (row col rows cols : ℕ)
    → row < rows
    → col < cols
    → rows * cols ≤ 2 ^ 31
    → row * cols + col < 2 ^ 31
inside_matrix row col rows cols hr hc h =
    let more : suc row * cols ≤ rows * cols = mul-le-mul_right cols hr in grind arith

module _ (e : Elements) where
  open e use {Float, f_zero, f_add, f_mul}

  -- Element `k` of a row of A, and of a column of B.
  abbrev row_element : (ℕ → Float) → Shape → (batch row k : ℕ) → Float
  row_element a s batch row k = a ((batch * (s.rows * s.inner) + (row * s.inner + k)) % 2 ^ 64)

  abbrev col_element : (ℕ → Float) → Shape → (batch col k : ℕ) → Float
  col_element b s batch col k = b ((batch * (s.inner * s.cols) + (k * s.cols + col)) % 2 ^ 64)

  -- The loop looks at its products only where it runs.
  dot_loop_congr :
      (a a' b b' : ℕ → Float) (n k k' : ℕ) (acc : Float)
      → ((i x y : ℕ) → x ≡ k + i → y ≡ k' + i → i < n → f_mul (a x) (b x) ≡ f_mul (a' y) (b' y))
      → dot_loop e a b n k acc ≡ dot_loop e a' b' n k' acc
  unfolding dot_loop
  dot_loop_congr a a' b b' zero k k' acc h = refl
  dot_loop_congr a a' b b' (suc n) k k' acc h =
      ap (λ p. dot_loop e a b n (k + 1) (f_add acc p))
        (h 0 k k' (omega arith) (omega arith) (omega arith))
      ∙ dot_loop_congr a a' b b' n (k + 1) (k' + 1) _
          (λ i x y p q lt. h (suc i) x y (omega arith) (omega arith) (omega arith))

  -- A loop of `t` rounds is one of `n` rounds and one of `m`.
  dot_loop_split :
      (a b : ℕ → Float) (n m t k k' : ℕ) (acc : Float)
      → t ≡ n + m
      → k' ≡ k + n
      → dot_loop e a b t k acc ≡ dot_loop e a b m k' (dot_loop e a b n k acc)
  unfolding dot_loop
  dot_loop_split a b zero m t k k' acc p q =
      let p' : t ≡ m = omega arith in let q' : k' ≡ k = omega arith in rw (p', q')
  dot_loop_split a b (suc n) m zero k k' acc p q = absurd (omega arith)
  dot_loop_split a b (suc n) m (suc t) k k' acc p q =
      dot_loop_split a b n m t (k + 1) k' (f_add acc (f_mul (a k) (b k))) (omega arith)
        (omega arith)

  -- Products of zeros change nothing: the one law of the elements that the padding needs.
  module _ (pad : (x : Float) → f_add x (f_mul f_zero f_zero) ≡ x) where
    dot_loop_pad :
        (a b : ℕ → Float) (n k : ℕ) (acc : Float)
        → ((x : ℕ) → k ≤ x → f_mul (a x) (b x) ≡ f_mul f_zero f_zero)
        → dot_loop e a b n k acc ≡ acc
    unfolding dot_loop
    dot_loop_pad a b zero k acc h = refl
    dot_loop_pad a b (suc n) k acc h =
        dot_loop_pad a b n (k + 1) _ (λ x le. h x (omega arith))
        ∙ ap (f_add acc) (h k (omega arith))
        ∙ pad acc

    module _ (a b : ℕ → Float) (s : Shape) (batch row col : ℕ) (in_row : row < s.rows)
        (in_col : col < s.cols) (fits_a : s.rows * s.inner ≤ 2 ^ 31)
        (fits_b : s.inner * s.cols ≤ 2 ^ 31) where
      abbrev row_of : ℕ → Float
      row_of k = row_element a s batch row k

      abbrev col_of : ℕ → Float
      col_of k = col_element b s batch col k

      load_inside :
          (k0 x y : ℕ)
          → y ≡ k0 + x
          → y < s.inner
          → f_mul (load_a e a s batch row k0 x) (load_b e b s batch col k0 x)
            ≡ f_mul (row_of y) (col_of y)
      unfolding load_a load_b
      load_inside k0 x y p lt =
          let t₁ : (ltb row s.rows && ltb (k0 + x) s.inner) ≡ true = ground arith in
          let t₂ : (ltb (k0 + x) s.inner && ltb col s.cols) ≡ true = ground arith in
          let i₁ =
            unsigned-small (batch * (s.rows * s.inner)) (row * s.inner + k0 + x) (row * s.inner + y)
              (omega arith) (inside_matrix row y s.rows s.inner in_row lt fits_a) in
          let i₂ =
            unsigned-small (batch * (s.inner * s.cols)) ((k0 + x) * s.cols + col) (y * s.cols + col)
              (ap (λ v. v * s.cols + col) (sym p))
              (inside_matrix y col s.inner s.cols lt in_col fits_b) in
          rw (t₁, t₂, i₁, i₂) refl

      load_outside :
          (k0 x : ℕ)
          → s.inner ≤ k0 + x
          → f_mul (load_a e a s batch row k0 x) (load_b e b s batch col k0 x) ≡ f_mul f_zero f_zero
      unfolding load_a load_b
      load_outside k0 x le = ground arith

      -- One tile adds the products at `k0`, ..., `k0 + n - 1` with `n` of the 32 inside.
      tile_lem :
          (n k0 : ℕ) (acc : Float)
          → n ≤ 32
          → k0 + n ≤ s.inner
          → (n ≡ 32) ⊎ (k0 + n ≡ s.inner)
          → dot_loop e (load_a e a s batch row k0) (load_b e b s batch col k0) 32 0 acc
            ≡ dot_loop e row_of col_of n k0 acc
      tile_lem n k0 acc small inside (inl whole) = rw whole (
          dot_loop_congr _ _ _ _ 32 0 k0 acc
            (λ i x y p q lt. load_inside k0 x y (omega arith) (omega arith)))
      tile_lem n k0 acc small inside (inr last) =
          dot_loop_split _ _ n (32 - n) 32 0 n acc (omega arith) (omega arith)
          ∙ dot_loop_pad _ _ (32 - n) n _ (λ x le. load_outside k0 x (omega arith))
          ∙ dot_loop_congr _ _ _ _ n 0 k0 acc
              (λ i x y p q lt. load_inside k0 x y (omega arith) (omega arith))

      none_left :
          (k : ℕ) (acc : Float) → s.inner ≤ k → dot_loop e row_of col_of (s.inner - k) k acc ≡ acc
      unfolding dot_loop
      none_left k acc h = let z : s.inner - k ≡ 0 = omega arith in rw z refl

      -- From `k0` on the loop over the tiles adds all the products that are left.
      tile_loop_lem :
          (fuel k0 : ℕ) (acc : Float)
          → s.inner ≤ k0 + fuel
          → tile_loop e a b s batch row col fuel k0 acc
            ≡ dot_loop e row_of col_of (s.inner - k0) k0 acc
      unfolding tile_loop
      tile_loop_lem zero k0 acc h = sym (none_left k0 acc (omega arith))
      tile_loop_lem (suc fuel) k0 acc h = elim (Bool-cases (ltb k0 s.inner)) [
        | inr over ↦ rw over (sym (none_left k0 acc (ground arith)))
        | inl more ↦ rw more (elim (dec_le (k0 + 32) s.inner) [
          | yes fits ↦
              tile_loop_lem fuel (k0 + 32) _ (omega arith)
              ∙ ap (dot_loop e row_of col_of (s.inner - (k0 + 32)) (k0 + 32))
                  (tile_lem 32 k0 acc (omega arith) fits (inl refl))
              ∙ sym (
                  dot_loop_split row_of col_of 32 (s.inner - (k0 + 32)) (s.inner - k0) k0 (k0 + 32)
                    acc (omega arith) refl)
          | no large ↦
              tile_loop_lem fuel (k0 + 32) _ (omega arith)
              ∙ none_left (k0 + 32) _ (omega arith)
              ∙ tile_lem (s.inner - k0) k0 acc (omega arith) (ground arith) (inr (ground arith))
        ])
      ]

  -- The element of the product as the kernels write it.
  abbrev element : (a b : ℕ → Float) → Shape → (batch row col : ℕ) → ℕ × Float
  element a b s batch row col = (
    (batch * (s.rows * s.cols) + (row * s.cols + col)) % 2 ^ 64,
    dot_loop e (row_element a s batch row) (col_element b s batch col) s.inner 0 f_zero,
  )

  tiled-element :
      ((x : Float) → f_add x (f_mul f_zero f_zero) ≡ x)
      → (a b : ℕ → Float) (s : Shape) (t : Thread) (row col : ℕ) → t.block_y * 32 + t.thread_y ≡ row
      → t.block_x * 32 + t.thread_x ≡ col
      → row < s.rows
      → col < s.cols
      → s.rows * s.inner ≤ 2 ^ 31
      → s.inner * s.cols ≤ 2 ^ 31
      → s.rows * s.cols ≤ 2 ^ 31
      → gemm_tiled_batched_kernel e a b s t ≡ some (element a b s t.block_z row col)
  unfolding gemm_tiled_batched_kernel
  tiled-element pad a b s t row col er ec in_row in_col fa fb fc =
      let test : (ltb row s.rows && ltb col s.cols) ≡ true = ground arith in
      let whole : s.inner - 0 ≡ s.inner = omega arith in
      let loop =
        tile_loop_lem pad a b s t.block_z row col in_row in_col fa fb s.inner 0 f_zero
          (omega arith) in
      let place =
        int-small (t.block_z * (s.rows * s.cols)) (row * s.cols + col)
          (inside_matrix row col s.rows s.cols in_row in_col fc) in
      rw (er, ec, test, loop, whole, place) refl

  naive-element :
      (a b : ℕ → Float) (s : Shape) (t : Thread) (row col : ℕ)
      → t.block_y * 16 + t.thread_y ≡ row
      → t.block_x * 16 + t.thread_x ≡ col
      → row < s.rows
      → col < s.cols
      → s.rows * s.inner ≤ 2 ^ 31
      → s.inner * s.cols ≤ 2 ^ 31
      → s.rows * s.cols ≤ 2 ^ 31
      → gemm_naive_batched_kernel e a b s t ≡ some (element a b s t.block_z row col)
  unfolding gemm_naive_batched_kernel
  naive-element a b s t row col er ec in_row in_col fa fb fc =
      let test : (leb s.rows row || leb s.cols col) ≡ false = ground arith in
      let loop =
        dot_loop_congr (λ k. a (int_index (t.block_z * (s.rows * s.inner)) (row * s.inner + k)))
          (row_element a s t.block_z row)
          (λ k. b (int_index (t.block_z * (s.inner * s.cols)) (k * s.cols + col)))
          (col_element b s t.block_z col) s.inner 0 0 f_zero
          (λ i x y p q lt.
            let same : x ≡ y = omega arith in
            let i₁ =
              int-small (t.block_z * (s.rows * s.inner)) (row * s.inner + y)
                (inside_matrix row y s.rows s.inner in_row (omega arith) fa) in
            let i₂ =
              int-small (t.block_z * (s.inner * s.cols)) (y * s.cols + col)
                (inside_matrix y col s.inner s.cols (omega arith) in_col fb) in
            rw (same, i₁, i₂) refl) in
      let whole = inside_matrix row col s.rows s.cols in_row in_col fc in
      let place : int_index (t.block_z * (s.rows * s.cols) + col) (row * s.cols)
          ≡ (t.block_z * (s.rows * s.cols) + (row * s.cols + col)) % 2 ^ 64 =
        int-small (t.block_z * (s.rows * s.cols) + col) (row * s.cols) (omega arith)
        ∙ ap (λ n. n % 2 ^ 64) (omega arith) in
      rw (er, ec, test, loop, place) refl

  -- The tiled kernel and the naive kernel agree: two threads of the same element of C and the same
  -- matrix of the batch write the same value at the same offset, or both write nothing, for every shape
  -- the three matrices of which have at most 2^31 elements each, also one whose sides are no multiples
  -- of the tiles. The loop variable of the tiles fits an `int`. The only law of the elements is that
  -- adding a product of two zeros changes nothing.
  pub tiled-eq-naive :
      ((x : Float) → f_add x (f_mul f_zero f_zero) ≡ x)
      → (a b : ℕ → Float) (s : Shape) (t u : Thread)
      → t.block_y * 32 + t.thread_y ≡ u.block_y * 16 + u.thread_y
      → t.block_x * 32 + t.thread_x ≡ u.block_x * 16 + u.thread_x
      → t.block_z ≡ u.block_z
      → s.rows * s.inner ≤ 2 ^ 31
      → s.inner * s.cols ≤ 2 ^ 31
      → s.rows * s.cols ≤ 2 ^ 31
      → s.inner + 32 ≤ 2 ^ 31
      → gemm_tiled_batched_kernel e a b s t ≡ gemm_naive_batched_kernel e a b s u
  unfolding gemm_tiled_batched_kernel gemm_naive_batched_kernel
  tiled-eq-naive pad a b s t u er ec ez fa fb fc fk =
      let row : ℕ = u.block_y * 16 + u.thread_y in
      let col : ℕ = u.block_x * 16 + u.thread_x in
      elim (Bool-cases (ltb row s.rows && ltb col s.cols)) [
        | inl inside ↦
            tiled-element pad a b s t row col er ec (ground arith) (ground arith) fa fb fc
            ∙ ap (λ z. some (element a b s z row col)) ez
            ∙ sym (naive-element a b s u row col refl refl (ground arith) (ground arith) fa fb fc)
        | inr outside ↦
            let out : (leb s.rows row || leb s.cols col) ≡ true = ground arith in
            rw (er, ec, outside, out) refl
      ]
