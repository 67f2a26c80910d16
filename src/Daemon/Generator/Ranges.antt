-- ===== src/Daemon/Generator/Ranges.antt =====
-- The random jobs are within the ranges of the configuration.
use gpu_batch_inference_sche.Common.{
  ℕ, zero, suc, ◌+◌, ◌≡◌, ◌<◌, refl, sym, subst, Bool, true, ◌&&◌, List, [], ◌∷◌, ℤ, pos, negsuc,
  arith, length, inl, inr, ◌⊎◌, some, ltb_ℤ, leb_ℤ, Bool-cases, if◌then◌else◌,
}
use gpu_batch_inference_sche.Job.{InferenceJob}
use gpu_batch_inference_sche.Config.{Argument, Config, parse_args}
use gpu_batch_inference_sche.Config.Valid.{IsUsable, parse_args-IsUsable}
use gpu_batch_inference_sche.Daemon.Generator.{Random, IsUniform, make_job, random_jobs, pred_ℤ}

-- `low <= v <= high`
abbrev IsBetween : ℤ → ℤ → ℤ → Type 0
IsBetween low high v = (leb_ℤ low v ≡ true) × (leb_ℤ v high ≡ true)

-- The ranges of a random job.
pub record IsInRange (cfg : Config) (job : InferenceJob) : Type 0 where
  rows : IsBetween cfg.min_size cfg.max_size job.m
  cols : IsBetween cfg.min_size cfg.max_size job.n
  inner : IsBetween cfg.min_size cfg.max_size job.k
  sides : (ltb_ℤ (pos 0) job.m && (ltb_ℤ (pos 0) job.n && ltb_ℤ (pos 0) job.k)) ≡ true
  matrices : IsBetween (pos 1) cfg.max_job_batch job.batch
  level : (leb_ℤ (pos 0) job.priority ≡ true) × (ltb_ℤ job.priority cfg.priority_levels ≡ true)

-- Jobs numbered from `i`, each within the ranges.
abbrev pub IsGenerated : Config → ℕ → List InferenceJob → Type 0
IsGenerated cfg i [] = Unit {0}
IsGenerated cfg i (job ∷ jobs) = (job.id ≡ i) × IsInRange cfg job × IsGenerated cfg (suc i) jobs

-- What the loop submits from round `i`: it ends early only where it reads that it is interrupted.
abbrev pub Submitted : Config → (interrupted : ℕ → Bool) → (left i : ℕ) → List InferenceJob → Type 0
Submitted cfg interrupted left i jobs =
    IsGenerated cfg i jobs
    × ((length jobs ≡ left) ⊎ ((length jobs < left) × (interrupted (i + length jobs) ≡ true)))

positive : (low v : ℤ) → ltb_ℤ (pos 0) low ≡ true → leb_ℤ low v ≡ true → ltb_ℤ (pos 0) v ≡ true
positive low v h k = ground arith

below_level : (levels v : ℤ) → leb_ℤ v (pred_ℤ levels) ≡ true → ltb_ℤ v levels ≡ true
below_level (pos zero) v h = ground arith
below_level (pos (suc n)) v h = ground arith
below_level (negsuc n) v h = ground arith

both :
    (low high : ℤ)
    → (ltb_ℤ (pos 0) low && leb_ℤ low high) ≡ true
    → (ltb_ℤ (pos 0) low ≡ true) × (leb_ℤ low high ≡ true)
both low high h = ground arith

all_three :
    (m n k : ℤ)
    → ltb_ℤ (pos 0) m ≡ true
    → ltb_ℤ (pos 0) n ≡ true
    → ltb_ℤ (pos 0) k ≡ true
    → (ltb_ℤ (pos 0) m && (ltb_ℤ (pos 0) n && ltb_ℤ (pos 0) k)) ≡ true
all_three m n k h h' h'' = ground arith

one_below : (v : ℤ) → ltb_ℤ (pos 0) v ≡ true → leb_ℤ (pos 1) v ≡ true
one_below v h = ground arith

level_range : (levels : ℤ) → ltb_ℤ (pos 0) levels ≡ true → leb_ℤ (pos 0) (pred_ℤ levels) ≡ true
level_range (pos zero) h = ground arith
level_range (pos (suc n)) h = ground arith
level_range (negsuc n) h = ground arith

random_jobs-next :
    (r : Random) (cfg : Config) (interrupted : ℕ → Bool) (left i : ℕ) (rng : r.Rng)
    → random_jobs r cfg interrupted (suc left) i rng ≡ (
        if interrupted i
        then []
        else (let job : InferenceJob × r.Rng = make_job r i cfg rng in
            (job.0)
            ∷ random_jobs r cfg interrupted left
                (suc i)
                (if ltb_ℤ (pos 0) cfg.arrival_rate then r.pause (job.1) else job.1)))
unfolding random_jobs make_job
random_jobs-next r cfg interrupted left i rng = ground arith

module _ (r : Random) (uniform : IsUniform r) (cfg : Config) (usable : IsUsable cfg)
    (some_matrix : ltb_ℤ (pos 0) cfg.max_job_batch ≡ true)
    (some_level : ltb_ℤ (pos 0) cfg.priority_levels ≡ true) where
  size_range : (ltb_ℤ (pos 0) cfg.min_size ≡ true) × (leb_ℤ cfg.min_size cfg.max_size ≡ true)
  size_range = both cfg.min_size cfg.max_size usable.sizes

  make_job-IsInRange : (id : ℕ) (rng : r.Rng) → IsInRange cfg ((make_job r id cfg rng).0)
  unfolding make_job
  make_job-IsInRange id rng =
      let m : ℤ × r.Rng = r.draw cfg.min_size cfg.max_size rng in
      let n : ℤ × r.Rng = r.draw cfg.min_size cfg.max_size (m.1) in
      let k : ℤ × r.Rng = r.draw cfg.min_size cfg.max_size (n.1) in
      let batch : ℤ × r.Rng = r.draw (pos 1) cfg.max_job_batch (k.1) in
      let in_m = uniform cfg.min_size cfg.max_size rng size_range.1 in
      let in_n = uniform cfg.min_size cfg.max_size (m.1) size_range.1 in
      let in_k = uniform cfg.min_size cfg.max_size (n.1) size_range.1 in
      let in_priority =
        uniform (pos 0) (pred_ℤ cfg.priority_levels) (batch.1)
          (level_range cfg.priority_levels some_level) in
      record {
        rows = in_m;
        cols = in_n;
        inner = in_k;
        sides =
            all_three _ _ _ (positive cfg.min_size (m.0) size_range.0 in_m.0)
              (positive cfg.min_size (n.0) size_range.0 in_n.0)
              (positive cfg.min_size (k.0) size_range.0 in_k.0);
        matrices =
            uniform (pos 1) cfg.max_job_batch (k.1) (one_below cfg.max_job_batch some_matrix);
        level = (
          in_priority.0,
          below_level cfg.priority_levels
              ((r.draw (pos 0) (pred_ℤ cfg.priority_levels) (batch.1)).0) in_priority.1,
        );
      }

  one_more :
      (interrupted : ℕ → Bool) (left i : ℕ) (job : InferenceJob) (jobs : List InferenceJob)
      → job.id ≡ i
      → IsInRange cfg job
      → Submitted cfg interrupted left (suc i) jobs
      → Submitted cfg interrupted (suc left) i (job ∷ jobs)
  one_more interrupted left i job jobs e h rest = (
    (e, h, rest.0),
    elim (rest.1) [
      | inl whole ↦ inl (omega arith)
      | inr (short, stop) ↦ inr (omega arith, subst (λ x. interrupted x ≡ true) (omega arith) stop)
    ],
  )

  random_jobs-Submitted :
      (interrupted : ℕ → Bool) (left i : ℕ) (rng : r.Rng)
      → Submitted cfg interrupted left i (random_jobs r cfg interrupted left i rng)
  unfolding random_jobs make_job
  random_jobs-Submitted interrupted zero i rng = (tt, inl refl)
  random_jobs-Submitted interrupted (suc left) i rng =
      let job : InferenceJob × r.Rng = make_job r i cfg rng in
      let after : r.Rng = if ltb_ℤ (pos 0) cfg.arrival_rate then r.pause (job.1) else job.1 in
      let rest = random_jobs-Submitted interrupted left (suc i) after in
      let jobs : List InferenceJob = random_jobs r cfg interrupted left (suc i) after in
      subst (Submitted cfg interrupted (suc left) i)
        (sym (random_jobs-next r cfg interrupted left i rng))
        (elim (Bool-cases (interrupted i)) [
          | inl e ↦
              subst (λ b. Submitted cfg interrupted (suc left) i (if b then [] else job.0 ∷ jobs))
                (sym e) (tt, inr (omega arith, subst (λ x. interrupted x ≡ true) (omega arith) e))
          | inr e ↦
              subst (λ b. Submitted cfg interrupted (suc left) i (if b then [] else job.0 ∷ jobs))
                (sym e)
                (one_more interrupted left i (job.0) jobs refl (make_job-IsInRange i rng) rest)
        ])

-- Where a configuration that `parse_args` accepts allows a batch of one and one level of priority, and
-- the generator draws within its ranges: the jobs of the random loop are numbered from 1 in order, each
-- has positive sides, a batch and a priority within the ranges of the configuration, and their number
-- is that of the configuration, unless the loop read that it is interrupted.
pub random_jobs-IsGenerated :
    (r : Random)
    → IsUniform r
    → (args : List Argument) (cfg : Config) → parse_args args ≡ some cfg
    → ltb_ℤ (pos 0) cfg.max_job_batch ≡ true
    → ltb_ℤ (pos 0) cfg.priority_levels ≡ true
    → (interrupted : ℕ → Bool) (rng : r.Rng)
    → Submitted cfg interrupted cfg.jobs 1 (random_jobs r cfg interrupted cfg.jobs 1 rng)
random_jobs-IsGenerated r uniform args cfg e batch level interrupted rng =
    random_jobs-Submitted r uniform cfg ((parse_args-IsUsable args cfg e).0) batch level interrupted
      cfg.jobs 1 rng
