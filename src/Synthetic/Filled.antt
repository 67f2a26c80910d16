-- ===== src/Synthetic/Filled.antt =====
-- What `fill_matrices` of src/sched/scheduler.cpp leaves in the buffers.
use gpu_batch_inference_sche.Common.{
  ℕ, zero, suc, ◌≡◌, refl, List, [], ◌∷◌, ◌++◌, some, length, length-append, append_assoc,
}
use gpu_batch_inference_sche.Job.{InferenceJob}
use gpu_batch_inference_sche.Alloc.{job_sizes}
use gpu_batch_inference_sche.Synthetic.{
  Uniform, seed_of, size_a, size_b, set_elem, fill_loop, fill_matrices,
}

module _ {ℓ} {A : Type ℓ} where
  -- The element after `xs`.
  set_elem-next :
      (xs : List A) (v y : A) (ys : List A)
      → set_elem (length xs) v (xs ++ y ∷ ys) ≡ some (xs ++ v ∷ ys)
  unfolding set_elem
  set_elem-next [] v y ys = refl
  set_elem-next (x ∷ xs) v y ys = rw (set_elem-next xs v y ys) refl

module _ (u : Uniform) where
  -- The first `n` draws, and the generator after them.
  abbrev pub draws : (n : ℕ) → u.Rng → List u.Float
  draws zero rng = []
  draws (suc n) rng = (u.draw rng).0 ∷ draws n ((u.draw rng).1)

  abbrev pub drawn : (n : ℕ) → u.Rng → u.Rng
  drawn zero rng = rng
  drawn (suc n) rng = drawn n ((u.draw rng).1)

  -- The loop behind the elements `xs` that it has written overwrites those that are left.
  fill_loop-rest :
      (xs ys : List u.Float) (rng : u.Rng)
      → fill_loop u (length ys) (length xs) rng (xs ++ ys)
        ≡ some (xs ++ draws (length ys) rng, drawn (length ys) rng)
  unfolding fill_loop
  fill_loop-rest xs [] rng = refl
  fill_loop-rest xs (y ∷ ys) rng =
      let v = u.draw rng in
      rw
        (
          fill_loop,
          set_elem-next xs (v.0) y ys,
          ← append_assoc xs (v.0 ∷ []) ys,
          ← append_assoc xs (v.0 ∷ []) (draws (length ys) (v.1)),
          ← length-append xs (v.0 ∷ []),
        )
        (fill_loop-rest (xs ++ v.0 ∷ []) ys (v.1))

  -- The whole loop.
  filled :
      (n : ℕ) (rng : u.Rng) (xs : List u.Float)
      → n ≡ length xs
      → fill_loop u n 0 rng xs ≡ some (draws (length xs) rng, drawn (length xs) rng)
  filled n rng xs h = rw h (fill_loop-rest [] xs rng)

  allocated_sizes :
      (job : InferenceJob) (a b : List u.Float) (sc : ℕ)
      → job_sizes job ≡ length a ∷ length b ∷ sc ∷ []
      → (size_a job ≡ length a) × (size_b job ≡ length b)
  unfolding job_sizes size_a size_b
  allocated_sizes job a b sc h = (cc, cc)

  -- In buffers of the sizes that the allocation of the batch asks for, `fill_matrices` writes within
  -- both buffers and overwrites every element: A holds the first draws of a generator seeded by the
  -- number of the job, and B the draws that follow. Nothing of what an earlier batch left is kept.
  pub fill_matrices-fills :
      (job : InferenceJob) (a b : List u.Float) (sc : ℕ)
      → job_sizes job ≡ length a ∷ length b ∷ sc ∷ []
      → let rng : u.Rng = u.seeded (seed_of job) in
        fill_matrices u job a b
        ≡ some (draws (length a) rng, draws (length b) (drawn (length a) rng))
  unfolding fill_matrices
  fill_matrices-fills job a b sc h =
      let sizes = allocated_sizes job a b sc h in
      let rng = u.seeded (seed_of job) in
      rw
        (
          fill_matrices,
          filled (size_a job) rng a (sizes.0),
          filled (size_b job) (drawn (length a) rng) b (sizes.1),
        )
        refl
