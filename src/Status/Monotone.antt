-- ===== src/Status/Monotone.antt =====
-- The percentiles of src/server/http_server.cpp grow with their ranks.
use mathlib.Core.Bool.{Bool-set}
use gpu_batch_inference_sche.Common.{
  ℕ, zero, suc, ◌-◌, ◌≤◌, ◌<◌, ◌≡◌, refl, List, [], ◌∷◌, some, length, length-perm, arith, ltb,
  if◌then◌else◌, true, false, All-get,
}
use gpu_batch_inference_sche.Common.Sorting.{
  stable_sort, stable_sort-perm, stable_sort-IsSorted, IsSorted,
}
use gpu_batch_inference_sche.Common.Lexicographic.{ltb-StrictWeak}
use gpu_batch_inference_sche.Status.{get_elem?, percentile}
use gpu_batch_inference_sche.Status.Percentile.{get_elem?-inside}

-- Two elements of an ascending list, at two indices.
record AreOrdered (xs : List ℕ) (i j : ℕ) : Type 0 where
  lower : ℕ
  upper : ℕ
  at_lower : get_elem? xs i ≡ some lower
  at_upper : get_elem? xs j ≡ some upper
  ordered : lower ≤ upper

get_elem?-AreOrdered :
    (xs : List ℕ) (i j : ℕ) → IsSorted ltb xs → i ≤ j → j < length xs → AreOrdered xs i j
unfolding get_elem?
get_elem?-AreOrdered [] i j s le lt = absurd (omega arith)
get_elem?-AreOrdered (x ∷ xs) zero zero s le lt = record {
  lower = x;
  upper = x;
  at_lower = refl;
  at_upper = refl;
  ordered = omega arith;
}
get_elem?-AreOrdered (x ∷ xs) (suc i) zero s le lt = absurd (omega arith)
get_elem?-AreOrdered (x ∷ xs) zero (suc j) s le lt =
    let r = get_elem?-inside xs j (omega arith) in
    let above : ltb r.0 x ≡ false =
      All-get (λ y. ltb y x ≡ false) (λ y. Bool-set _ _) xs s.0 r.0 r.2 in
    record { lower = x; upper = r.0; at_lower = refl; at_upper = r.1; ordered = ground arith }
get_elem?-AreOrdered (x ∷ xs) (suc i) (suc j) s le lt =
    let r = get_elem?-AreOrdered xs i j s.1 (omega arith) (omega arith) in
    record {
      lower = r.lower;
      upper = r.upper;
      at_lower = r.at_lower;
      at_upper = r.at_upper;
      ordered = r.ordered;
    }

-- Of two percentiles of a vector that is not empty the one with the smaller computed rank is the
-- smaller, where no rank exceeds the length: p50 is at most p95, and p95 at most p99.
pub percentile_mono :
    (rank_p rank_q : ℕ → ℕ) (v : List ℕ)
    → 0 < length v
    → rank_p (length v) ≤ rank_q (length v)
    → rank_q (length v) ≤ length v
    → (x : ℕ) × (y : ℕ) × (percentile rank_p v ≡ some x) × (percentile rank_q v ≡ some y) × (x ≤ y)
unfolding percentile
percentile_mono rank_p rank_q v h pq q =
    let some_left : ltb 0 (length v) ≡ true = ground arith in
    let same : length (stable_sort ltb v) ≡ length v = length-perm (stable_sort-perm ltb v) in
    let r =
      get_elem?-AreOrdered (stable_sort ltb v)
        ((if ltb (rank_p (length v)) 1 then 1 else rank_p (length v)) - 1)
        ((if ltb (rank_q (length v)) 1 then 1 else rank_q (length v)) - 1)
        (stable_sort-IsSorted ltb (ltb-StrictWeak (λ n. n)) v) (ground arith) (ground arith) in
    (r.lower, r.upper, rw some_left (r.at_lower), rw some_left (r.at_upper), r.ordered)
