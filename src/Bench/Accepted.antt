-- ===== src/Bench/Accepted.antt =====
-- The options that bench/bench_gemm.cpp accepts.
use gpu_batch_inference_sche.Common.{
  ◌≡◌, refl, sym, ◌∙◌, subst, true, ◌&&◌, List, [], ◌∷◌, some, pos, ltb_ℤ, leb_ℤ, arith, Bool-cases,
  inl, inr, Option-cases,
}
use gpu_batch_inference_sche.Bench.{
  GemmArgument, GemmOptions, read_gemm, gemm_ok, gemm_args, is_gemm_impl,
}

-- The extents, the batch and the number of timed runs are positive, and the implementation is known.
pub record IsRunnable (opt : GemmOptions) : Type 0 where
  pub extents : (ltb_ℤ (pos 0) opt.m && (ltb_ℤ (pos 0) opt.n && ltb_ℤ (pos 0) opt.k)) ≡ true
  pub some_batch : ltb_ℤ (pos 0) opt.batch ≡ true
  pub some_run : ltb_ℤ (pos 0) opt.iters ≡ true
  pub some_warmup : leb_ℤ (pos 0) opt.warmup ≡ true
  pub known_impl : is_gemm_impl opt.impl ≡ true

ok-IsRunnable : (opt : GemmOptions) → gemm_ok opt ≡ true → IsRunnable opt
unfolding gemm_ok is_gemm_impl
ok-IsRunnable opt h = record {
  extents = ground arith;
  some_batch = ground arith;
  some_run = ground arith;
  some_warmup = ground arith;
  known_impl = ground arith;
}

-- Whatever the arguments, the options that bench_gemm accepts can be run: the extents, the batch and the
-- number of timed runs are positive, the number of warmup runs is not negative, and the implementation
-- is one of the four.
pub gemm_args-IsRunnable :
    (args : List GemmArgument) (opt out : GemmOptions)
    → gemm_args args opt ≡ some out
    → IsRunnable out
unfolding gemm_args
gemm_args-IsRunnable [] opt out e = elim (Bool-cases (gemm_ok opt)) [
  | inl ok ↦ let same : opt ≡ out = ground arith in subst IsRunnable same (ok-IsRunnable opt ok)
  | inr bad ↦ absurd (ground arith)
]
gemm_args-IsRunnable (arg ∷ args) opt out e = elim (Option-cases (read_gemm arg opt)) [
  | inl q ↦ absurd (cc (e, q))
  | inr (next, q) ↦ gemm_args-IsRunnable args next out (sym (rw (q, gemm_args) refl) ∙ e)
]
