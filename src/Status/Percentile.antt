-- ===== src/Status/Percentile.antt =====
-- `percentile` of src/server/http_server.cpp and src/bindings/py_module.cpp stays inside its vector.
use gpu_batch_inference_sche.Common.{
  ℕ, zero, suc, ◌+◌, ◌-◌, ◌≤◌, ◌<◌, ◌≡◌, refl, List, [], ◌∷◌, some, length, length-perm, arith, ltb,
  Mem, if◌then◌else◌, Bool-cases, inl, inr, true,
}
use mathlib.Core.List.{mem-cons_self, mem-cons_of_mem}
use mathlib.Core.List.Perm
use gpu_batch_inference_sche.Common.Sorting.{stable_sort, stable_sort-perm}
use gpu_batch_inference_sche.Scheduler.{JobMetrics}
use gpu_batch_inference_sche.Status.{tally, get_elem?, percentile}

pub get_elem?-inside :
    (xs : List ℕ) (i : ℕ) → i < length xs → (x : ℕ) × (get_elem? xs i ≡ some x) × Mem x xs
unfolding get_elem?
get_elem?-inside [] i h = absurd (omega arith)
get_elem?-inside (x ∷ xs) zero h = (x, refl, mem-cons_self)
get_elem?-inside (x ∷ xs) (suc i) h =
    let r = get_elem?-inside xs i (omega arith) in (r.0, r.1, mem-cons_of_mem x r.2)

-- Where the computed rank does not exceed the number of latencies, the percentile of a vector that is
-- not empty is one of its elements: no access outside the vector.
pub percentile-Mem :
    (rank_of : ℕ → ℕ) (v : List ℕ)
    → 0 < length v
    → rank_of (length v) ≤ length v
    → (x : ℕ) × (percentile rank_of v ≡ some x) × Mem x v
unfolding percentile
percentile-Mem rank_of v h r =
    let some_left : ltb 0 (length v) ≡ true = ground arith in
    let same : length (stable_sort ltb v) ≡ length v = length-perm (stable_sort-perm ltb v) in
    let found =
      get_elem?-inside (stable_sort ltb v)
        ((if ltb (rank_of (length v)) 1 then 1 else rank_of (length v)) - 1) (ground arith) in
    (found.0, rw some_left (found.1), (Perm.mem_iff (stable_sort-perm ltb v)).0 found.2)

-- Each record counts once: as a latency or as a failure.
pub tally-length :
    (metrics : List JobMetrics)
    → length (tally metrics).e2e + (tally metrics).failed ≡ length metrics
unfolding tally
tally-length [] = refl
tally-length (m ∷ metrics) = elim (Bool-cases m.ok) [
  | inl e ↦ rw e (omega (arith, tally-length metrics))
  | inr e ↦ rw e (omega (arith, tally-length metrics))
]
