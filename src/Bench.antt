-- ===== src/Bench.antt =====
-- bench/bench_gemm.cpp: its options, the timed runs of run_benchmark, the median of their times, and the
-- reading of the result for the comparison. An argument is what the comparisons with the option names
-- and `parse_int` make of one option and its value. The CPU reference, which sums in `double`, and the
-- maximum of the errors are not modelled.
pub mod Median
pub mod Accepted
pub mod Timed
mod Tests
use gpu_batch_inference_sche.Common.{
  ℕ, zero, suc, ◌+◌, ◌-◌, ◌/◌, ◌%◌, ◌==◌, Bool, true, false, ◌&&◌, not, List, [], ◌∷◌, ◌++◌, Option,
  none, some, ℤ, pos, ltb_ℤ, leb_ℤ, length, if◌then◌else◌,
}
use gpu_batch_inference_sche.Common.Sorting.{stable_sort}
use gpu_batch_inference_sche.Status.{get_elem?}
use gpu_batch_inference_sche.Stream.{
  copy_a, copy_b, run_kernel, copy_c, Action, launch, record_on, synchronize, elapsed, collect,
}

-- `--impl`
pub data GemmImpl : Type 0 where
  use_naive use_tiled use_cublas use_cpu : GemmImpl

-- The value of `--impl`, where `none` is any other text.
pub record GemmOptions : Type 0 where
  pub m : ℤ
  pub n : ℤ
  pub k : ℤ
  pub batch : ℤ
  pub iters : ℤ
  pub warmup : ℤ
  pub impl : Option GemmImpl
  pub skip_check : Bool
  pub help : Bool

abbrev pub default_gemm : GemmOptions
default_gemm = record {
  m = pos 512;
  n = pos 512;
  k = pos 512;
  batch = pos 8;
  iters = pos 50;
  warmup = pos 10;
  impl = some use_tiled;
  skip_check = false;
  help = false;
}

pub data GemmArgument : Type 0 where
  gemm_help gemm_skip_check : GemmArgument
  gemm_m gemm_n gemm_k gemm_batch gemm_iters gemm_warmup : ℤ → GemmArgument
  gemm_impl : Option GemmImpl → GemmArgument
  gemm_malformed : GemmArgument  -- an unknown option, a missing value, or one that does not parse

-- One round of the loop over `argv`; `none` where it throws.
unfoldable pub read_gemm : GemmArgument → GemmOptions → Option GemmOptions
read_gemm gemm_help opt = some (record opt { help = true })
read_gemm gemm_skip_check opt = some (record opt { skip_check = true })
read_gemm (gemm_m v) opt = some (record opt { m = v })
read_gemm (gemm_n v) opt = some (record opt { n = v })
read_gemm (gemm_k v) opt = some (record opt { k = v })
read_gemm (gemm_batch v) opt = some (record opt { batch = v })
read_gemm (gemm_iters v) opt = some (record opt { iters = v })
read_gemm (gemm_warmup v) opt = some (record opt { warmup = v })
read_gemm (gemm_impl impl) opt = some (record opt { impl = impl })
read_gemm gemm_malformed opt = none

unfoldable pub is_gemm_impl : Option GemmImpl → Bool
is_gemm_impl none = false
is_gemm_impl (some _) = true

-- The tests after the loop; `false` where one throws.
unfoldable pub gemm_ok : GemmOptions → Bool
unfolding is_gemm_impl
gemm_ok opt =
    ltb_ℤ (pos 0) opt.m
    && (ltb_ℤ (pos 0) opt.n
        && (ltb_ℤ (pos 0) opt.k
            && (ltb_ℤ (pos 0) opt.batch
                && (ltb_ℤ (pos 0) opt.iters
                    && (leb_ℤ (pos 0) opt.warmup && is_gemm_impl opt.impl)))))

-- `parse_args` from the options read so far.
unfoldable pub gemm_args : List GemmArgument → GemmOptions → Option GemmOptions
unfolding read_gemm gemm_ok
gemm_args [] opt = if gemm_ok opt then some opt else none
gemm_args (arg ∷ args) opt = elim (read_gemm arg opt) [
  | none ↦ none
  | some next ↦ gemm_args args next
]

-- The times are doubles: an ordering `before` of them, and `half a b` for `0.5 * (a + b)`.
module _ {ℓ} {A : Type ℓ} (before : A → A → Bool) (half : A → A → A) where
  -- The middle of a sorted vector; `none` is an access outside it.
  unfoldable pub middle : List A → Option A
  middle sorted =
      let mid : ℕ = length sorted / 2 in
      if length sorted % 2 == 1 then get_elem? sorted mid else elim (get_elem? sorted (mid - 1)) [
        | none ↦ none
        | some a ↦ elim (get_elem? sorted mid) [ none ↦ none | some b ↦ some (half a b) ]
      ]

  -- `median`; `nothing` is 0.
  unfoldable pub median : (nothing : A) → List A → Option A
  unfolding middle
  median nothing [] = some nothing
  median nothing (v ∷ values) = middle (stable_sort before (v ∷ values))

  -- `median` of bench/bench_overlap.cpp, which does not ask whether there are times.
  unfoldable pub overlap_median : List A → Option A
  unfolding middle
  overlap_median values = middle (stable_sort before values)

-- The events `e_start`, `e_h2d`, `e_k0`, `e_k1` and `e_end`, and the stream 0.
abbrev pub e_start : ℕ
e_start = 0

abbrev pub e_h2d : ℕ
e_h2d = 1

abbrev pub e_k0 : ℕ
e_k0 = 2

abbrev pub e_k1 : ℕ
e_k1 = 3

abbrev pub e_end : ℕ
e_end = 4

abbrev pub bench_stream : ℕ
bench_stream = 0

-- One timed run.
abbrev pub timed_run : List Action
timed_run =
    record_on bench_stream e_start 0
    ∷ launch bench_stream (copy_a 0)
    ∷ launch bench_stream (copy_b 0)
    ∷ record_on bench_stream e_h2d 0
    ∷ record_on bench_stream e_k0 0
    ∷ launch bench_stream (run_kernel 0)
    ∷ record_on bench_stream e_k1 0
    ∷ launch bench_stream (copy_c 0)
    ∷ record_on bench_stream e_end 0
    ∷ synchronize e_end 0
    ∷ elapsed e_start 0 e_h2d 0
    ∷ elapsed e_k0 0 e_k1 0
    ∷ elapsed e_k1 0 e_end 0
    ∷ elapsed e_start 0 e_end 0
    ∷ []

-- The loop of timed runs, and what `max_abs_error` reads of the result, unless `--skip-check`.
abbrev pub timed_runs : (skip_check : Bool) → (iters : ℕ) → List Action
timed_runs skip_check zero = if skip_check then [] else collect 0 ∷ []
timed_runs skip_check (suc iters) = timed_run ++ timed_runs skip_check iters
