-- ===== src/Synthetic.antt =====
-- `fill_matrices` of src/sched/scheduler.cpp: the inputs that `execute_batch` writes into the pinned
-- buffers of a job. `std::mt19937` with `std::uniform_real_distribution` is a parameter: what a seed
-- starts, and what a draw gives and leaves.
pub mod Filled
mod Tests
use Prim.Native.Nat.{bit_xor}
use gpu_batch_inference_sche.Common.{
  ℕ, zero, suc, ◌+◌, ◌*◌, ◌/◌, ◌%◌, ◌^◌, List, [], ◌∷◌, Option, none, some, size_of_int,
}
use gpu_batch_inference_sche.Job.{InferenceJob}

pub record Uniform : Type 1 where
  pub Rng : Type 0
  pub Float : Type 0
  pub seeded : (seed : ℕ) → Rng
  pub draw : Rng → Float × Rng

-- `seed`, modulo 2^64, of which the generator takes the low 32 bits.
unfoldable pub seed_of : InferenceJob → ℕ
seed_of job = bit_xor job.id (job.id / 2 ^ 32) * 11400714819323198485 % 2 ^ 64 % 2 ^ 32

-- `sa` and `sb`.
unfoldable pub size_a : InferenceJob → ℕ
size_a job = size_of_int job.m * size_of_int job.k % 2 ^ 64 * size_of_int job.batch % 2 ^ 64

unfoldable pub size_b : InferenceJob → ℕ
size_b job = size_of_int job.k * size_of_int job.n % 2 ^ 64 * size_of_int job.batch % 2 ^ 64

module _ {ℓ} {A : Type ℓ} where
  abbrev after_first : A → Option (List A) → Option (List A)
  after_first x none = none
  after_first x (some xs) = some (x ∷ xs)

  -- `xs[i] = v`, with no result where `i` is out of the array.
  unfoldable pub set_elem : (i : ℕ) → A → List A → Option (List A)
  set_elem i v [] = none
  set_elem zero v (x ∷ xs) = some (v ∷ xs)
  set_elem (suc i) v (x ∷ xs) = after_first x (set_elem i v xs)

module _ (u : Uniform) where
  -- The loop at index `i` with `left` rounds to go.
  unfoldable pub fill_loop : (left i : ℕ) → u.Rng → List u.Float → Option (List u.Float × u.Rng)
  unfolding set_elem
  fill_loop zero i rng xs = some (xs, rng)
  fill_loop (suc left) i rng xs =
      let v : u.Float × u.Rng = u.draw rng in
      elim (set_elem i (v.0) xs) [ none ↦ none | some ys ↦ fill_loop left (i + 1) (v.1) ys ]

  -- Both loops draw from one generator.
  unfoldable pub fill_matrices :
      InferenceJob → (a b : List u.Float) → Option (List u.Float × List u.Float)
  unfolding fill_loop seed_of size_a size_b
  fill_matrices job a b = elim (fill_loop (size_a job) 0 (u.seeded (seed_of job)) a) [
    | none ↦ none
    | some x ↦ elim (fill_loop (size_b job) 0 (x.1) b) [ none ↦ none | some y ↦ some (x.0, y.0) ]
  ]
