-- ===== src/Stream/Counting.antt =====
-- Events of which each job has one, recorded once, in the order of the jobs.
use gpu_batch_inference_sche.Common.{
  ℕ, suc, ◌<◌, ◌≡◌, sym, ap, ◌⊎◌, subst, if◌then◌else◌, arith, ltb,
}
use gpu_batch_inference_sche.Stream.{put}
use gpu_batch_inference_sche.Stream.Facts.{stamped, Knowledge, Within}

-- An event of each job, recorded for the first `i` of them.
abbrev pub CountedTo : ℕ → (ℕ → ℕ) → Type 0
CountedTo i f = (l : ℕ) → f l ≡ (if ltb l i then 1 else 0)

pub CountedTo-next : (i : ℕ) (f : ℕ → ℕ) → CountedTo i f → CountedTo (suc i) (put i (suc (f i)) f)
CountedTo-next i f h l = let old = h l in let here = h i in ground arith

pub CountedTo-new : (i : ℕ) (f : ℕ → ℕ) → CountedTo i f → suc (f i) ≡ 1
CountedTo-new i f h = let here = h i in ground arith

pub CountedTo-old : (i : ℕ) (f : ℕ → ℕ) (l : ℕ) → CountedTo i f → l < i → f l ≡ 1
CountedTo-old i f l h p = let here = h l in ground arith

-- The first record of an event of a job.
pub stamp : (a i : ℕ) (f : ℕ → ℕ) → CountedTo i f → stamped a i 1 ≡ stamped a i (suc (f i))
stamp a i f h = ap (λ g. stamped a i g) (sym (CountedTo-new i f h))

-- What a wait for the one record of an event teaches.
pub waited :
    (promise : (array i generation : ℕ) → Knowledge) (array i g : ℕ) (known : Knowledge)
    → g ≡ 1
    → Within (λ φ. promise array i g φ ⊎ (φ ≡ stamped array i g)) known
    → Within (λ φ. promise array i 1 φ ⊎ (φ ≡ stamped array i 1)) known
waited promise array i g known e h =
    subst (λ x. Within (λ φ. promise array i x φ ⊎ (φ ≡ stamped array i x)) known) e h
