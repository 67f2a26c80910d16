-- ===== src/Bench/Median.antt =====
-- `median` of bench/bench_gemm.cpp and bench/bench_overlap.cpp.
use gpu_batch_inference_sche.Common.{
  ℕ, zero, suc, ◌+◌, ◌-◌, ◌*◌, ◌/◌, ◌%◌, ◌≤◌, ◌<◌, ◌≡◌, refl, sym, subst, List, [], ◌∷◌, some, Bool,
  true, false, ◌==◌, if◌then◌else◌, All, total, total-perm, length, length-perm, arith, Bool-cases,
  inl, inr,
}
use gpu_batch_inference_sche.Common.Sorting.{
  StrictWeak, IsSorted, stable_sort, stable_sort-perm, stable_sort-IsSorted,
}
use gpu_batch_inference_sche.Status.{get_elem?}
use gpu_batch_inference_sche.Bench.{middle, median, overlap_median}

module _ {ℓ} {A : Type ℓ} (before : A → A → Bool) (o : StrictWeak before) where
  -- How many elements are at most `v`, and how many at least.
  abbrev pub at_most : A → List A → ℕ
  at_most v = total (λ x. if before v x then 0 else 1)

  abbrev pub at_least : A → List A → ℕ
  at_least v = total (λ x. if before x v then 0 else 1)

  itself : (v : A) → before v v ≡ false
  itself v = elim (Bool-cases (before v v)) [ inl e ↦ o.asymm v v e | inr e ↦ e ]

  All-at_least :
      (x : A) (ys : List A) → All (λ y. before y x ≡ false) ys → at_least x ys ≡ length ys
  All-at_least x [] h = refl
  All-at_least x (y ∷ ys) h = let rec = All-at_least x ys h.1 in let here = h.0 in ground arith

  All-get :
      (P : A → Type 0) (xs : List A) (i : ℕ) (v : A) → All P xs → get_elem? xs i ≡ some v → P v
  unfolding get_elem?
  All-get P [] i v h e = absurd cc
  All-get P (x ∷ xs) zero v h e = let same : x ≡ v = cc in subst P same h.0
  All-get P (x ∷ xs) (suc i) v h e = All-get P xs i v h.1 e

  get_inside : (xs : List A) (i : ℕ) → i < length xs → (v : A) × (get_elem? xs i ≡ some v)
  unfolding get_elem?
  get_inside [] i h = absurd (omega arith)
  get_inside (x ∷ xs) zero h = (x, refl)
  get_inside (x ∷ xs) (suc i) h = get_inside xs i (omega arith)

  -- Element `i` of a sorted list has `i + 1` elements that are at most it, and the rest at least.
  sorted_rank :
      (xs : List A) (i : ℕ) (v : A)
      → IsSorted before xs
      → get_elem? xs i ≡ some v
      → (suc i ≤ at_most v xs) × (length xs ≤ i + at_least v xs)
  unfolding get_elem?
  sorted_rank [] i v h e = absurd cc
  sorted_rank (x ∷ xs) zero v h e =
      let same : x ≡ v = cc in
      let all = All-at_least x xs h.0 in
      let self = itself x in
      subst (λ y. (1 ≤ at_most y (x ∷ xs)) × (suc (length xs) ≤ 0 + at_least y (x ∷ xs))) same
        (ground arith, ground arith)
  sorted_rank (x ∷ xs) (suc i) v h e =
      let rec = sorted_rank xs i v h.1 e in
      let small : before v x ≡ false = All-get (λ y. before y x ≡ false) xs i v h.0 e in
      (ground arith, ground arith)

  -- Neighbours in a sorted list.
  sorted_pair :
      (xs : List A) (i : ℕ) (a b : A)
      → IsSorted before xs
      → get_elem? xs i ≡ some a
      → get_elem? xs (suc i) ≡ some b
      → before b a ≡ false
  unfolding get_elem?
  sorted_pair [] i a b h e e' = absurd cc
  sorted_pair (x ∷ xs) zero a b h e e' =
      let same : x ≡ a = cc in
      subst (λ y. before b y ≡ false) same (All-get (λ y. before y x ≡ false) xs 0 b h.0 e')
  sorted_pair (x ∷ xs) (suc i) a b h e e' = sorted_pair xs i a b h.1 e e'

  at_most_mono : (a b : A) (xs : List A) → before b a ≡ false → at_most a xs ≤ at_most b xs
  at_most_mono a b [] h = omega arith
  at_most_mono a b (x ∷ xs) h =
      let rec = at_most_mono a b xs h in let step = o.weak_trans x a b in ground arith

  at_least_mono : (a b : A) (xs : List A) → before b a ≡ false → at_least b xs ≤ at_least a xs
  at_least_mono a b [] h = omega arith
  at_least_mono a b (x ∷ xs) h =
      let rec = at_least_mono a b xs h in let step = o.weak_trans a b x in ground arith

  -- At least half of the elements on either side.
  abbrev pub IsMedian : A → List A → Type 0
  IsMedian v xs = (length xs ≤ 2 * at_most v xs) × (length xs ≤ 2 * at_least v xs)

  module _ (half : A → A → A)
      (between : (a b : A)
        → before b a ≡ false
        → (before (half a b) a ≡ false) × (before b (half a b) ≡ false)) where
    middle-odd :
        (xs : List A)
        → IsSorted before xs
        → length xs % 2 ≡ 1
        → (v : A) × (middle before half xs ≡ some v) × IsMedian v xs
    unfolding middle
    middle-odd xs h odd =
        let (v, e) = get_inside xs (length xs / 2) (omega arith) in
        let rank = sorted_rank xs (length xs / 2) v h e in
        let is_odd : length xs % 2 == 1 ≡ true = ground arith in
        (v, rw is_odd e, (omega (arith, rank), omega (arith, rank)))

    middle-even :
        (xs : List A)
        → IsSorted before xs
        → 0 < length xs
        → length xs % 2 ≡ 0
        → (v : A) × (middle before half xs ≡ some v) × IsMedian v xs
    unfolding middle
    middle-even xs h some_left even =
        let i : ℕ = length xs / 2 - 1 in
        let next : suc i ≡ length xs / 2 = omega arith in
        let (a, e) = get_inside xs i (omega arith) in
        let (b, e') = get_inside xs (length xs / 2) (omega arith) in
        let low = sorted_rank xs i a h e in
        let high = sorted_rank xs (length xs / 2) b h e' in
        let ordered : before b a ≡ false =
          sorted_pair xs i a b h e (subst (λ k. get_elem? xs k ≡ some b) (sym next) e') in
        let (above, below) = between a b ordered in
        let more = at_most_mono a (half a b) xs above in
        let more' = at_least_mono (half a b) b xs below in
        let is_even : length xs % 2 == 1 ≡ false = ground arith in
        (
          half a b,
          rw is_even (rw e (rw e' refl)),
          (omega (arith, low, high, more, more'), omega (arith, low, high, more, more')),
        )

    middle-IsMedian :
        (xs : List A)
        → IsSorted before xs
        → 0 < length xs
        → (v : A) × (middle before half xs ≡ some v) × IsMedian v xs
    middle-IsMedian xs h some_left = elim (Bool-cases (length xs % 2 == 1)) [
      | inl odd ↦ middle-odd xs h (ground arith)
      | inr even ↦ middle-even xs h some_left (ground arith)
    ]

    -- For every list of times that is not empty, in any order, both benchmarks find the same median
    -- without reading outside the vector, and it is one: at least half of the times are at most it, and
    -- at least half are at least it. The ordering is a strict weak one, and half the sum of two times
    -- lies between them.
    pub median-IsMedian :
        (nothing : A) (values : List A)
        → 0 < length values
        → (v : A) × (median before half nothing values ≡ some v)
          × (overlap_median before half values ≡ some v)
          × IsMedian v values
    unfolding median overlap_median
    median-IsMedian nothing [] h = absurd (omega arith)
    median-IsMedian nothing (x ∷ xs) h =
        let values : List A = x ∷ xs in
        let p = stable_sort-perm before values in
        let same = length-perm p in
        let (v, e, (below, above)) =
          middle-IsMedian (stable_sort before values) (stable_sort-IsSorted before o values)
            (omega (arith, same)) in
        (
          v,
          e,
          e,
          (
            omega (arith, below, same, total-perm (λ y. if before v y then 0 else 1) p),
            omega (arith, above, same, total-perm (λ y. if before y v then 0 else 1) p),
          ),
        )
