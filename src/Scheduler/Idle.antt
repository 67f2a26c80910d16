-- ===== src/Scheduler/Idle.antt =====
-- The dispatcher of src/sched/scheduler.cpp when nothing is in flight.
use gpu_batch_inference_sche.Common.{
  ℕ, ◌^◌, ◌≤◌, ◌<◌, ◌≡◌, ◌≢◌, sym, ap, subst, ◌∙◌, List, [], ◌++◌, Mem, Option, pos, All, All-get,
  All-map, inl, inr, arith, length, total,
}
use mathlib.Core.List.Perm
use native.Mathlib.Bridge.{le_prop}
use gpu_batch_inference_sche.Job.{InferenceJob, bytes_required}
use gpu_batch_inference_sche.Pack.{pack_jobs}
use gpu_batch_inference_sche.Pack.Greedy.{pack_jobs_maximal}
use gpu_batch_inference_sche.Pack.Sweep.{pack_jobs-perm}
use gpu_batch_inference_sche.Scheduler.{Options, base_bytes, budget_bytes}
use gpu_batch_inference_sche.Scheduler.Threads.{System, initial}
use gpu_batch_inference_sche.Scheduler.Reserve.{unfinished_bytes}
use gpu_batch_inference_sche.Scheduler.Restart.{Life, Life-never_overcommitted}

-- A packing that is empty refuses each candidate for its size alone.
empty_packing :
    (budget cap : ℕ)
    → budget < 2 ^ 63
    → 0 < cap
    → cap < 2 ^ 31
    → (now : ℕ) (candidates : List InferenceJob)
    → (pack_jobs now candidates budget (pos cap)).selected ≡ []
    → (job : InferenceJob) → Mem job candidates
    → budget < bytes_required job
empty_packing budget cap small positive fits now candidates empty job m =
    let p = pack_jobs now candidates budget (pos cap) in
    let among : Mem job (p.selected ++ p.remaining) =
      (Perm.mem_iff (pack_jobs-perm now candidates budget (pos cap))).1 m in
    let left : Mem job p.remaining = subst (λ xs. Mem job (xs ++ p.remaining)) empty among in
    let refused : All (λ other. budget < bytes_required other) p.remaining =
      All-map _ (λ other. budget < bytes_required other)
        (λ other. elim [
          | inl full ↦ absurd (omega (arith, full, ap length empty, positive))
          | inr over ↦ omega (arith, over, ap (total bytes_required) empty)
        ])
        p.remaining (pack_jobs_maximal budget cap small positive fits now candidates) in
    All-get (λ other. budget < bytes_required other) (λ other. le_prop) p.remaining refused job left

module _ (opts : Options) (ndev sampled_total : ℕ) (mem_info : Option ℕ) (limit : ℕ) where
  -- In every state that the threads reach, restarts included, in which no batch is packed and
  -- unfinished: whatever free memory the monitor samples, if some candidate needs no more than the base
  -- budget of that sample, the packing that the dispatcher makes with it is not empty, so that it does
  -- not pause. The cap on a batch is positive and fits an `int`, and the bound on the base budgets is
  -- below 2^63.
  pub idle_packs :
      {x : System} (cap : ℕ) (job : InferenceJob)
      → limit < 2 ^ 63
      → Life limit (initial opts ndev sampled_total mem_info) x
      → unfinished_bytes x ≡ 0
      → x.sched.opts.max_batch ≡ pos cap
      → 0 < cap
      → cap < 2 ^ 31
      → (candidates : List InferenceJob) → Mem job candidates
      → (now free_mem_bytes : ℕ) → base_bytes x.sched.opts free_mem_bytes ≤ limit
      → bytes_required job ≤ base_bytes x.sched.opts free_mem_bytes
      → (pack_jobs now candidates
          (budget_bytes free_mem_bytes x.sched)
          x.sched.opts.max_batch).selected
        ≢ []
  unfolding budget_bytes
  idle_packs {x} cap job small l none_left capped positive fits candidates m now free_mem_bytes
        bound room empty =
      let idle : x.sched.reserved_bytes ≡ 0 =
        (Life-never_overcommitted opts ndev sampled_total mem_info limit small l).0 ∙ none_left in
      let base : ℕ = base_bytes x.sched.opts free_mem_bytes in
      let all_free : budget_bytes free_mem_bytes x.sched ≡ base = ground arith in
      let same : pack_jobs now candidates (budget_bytes free_mem_bytes x.sched)
            x.sched.opts.max_batch
          ≡ pack_jobs now candidates base (pos cap) =
        ap (λ b. pack_jobs now candidates b x.sched.opts.max_batch) all_free
        ∙ ap (pack_jobs now candidates base) capped in
      let refused : base < bytes_required job =
        empty_packing base cap (omega (arith, bound, small)) positive fits now candidates
          (ap (λ q. q.selected) (sym same) ∙ empty) job m in
      absurd (omega (arith, refused, room))
