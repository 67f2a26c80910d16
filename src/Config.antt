-- ===== src/Config.antt =====
-- `Config` and `parse_args` of src/main.cpp. An argument is what the comparisons with the option
-- names and the number parsers of the standard library make of one option and its value. An arrival
-- rate is counted in thousandths of a job per second: the code asks for its sign alone.
pub mod Valid
mod Tests
use gpu_batch_inference_sche.Common.{
  ℕ, ◌*◌, ◌%◌, ◌^◌, ◌==◌, Bool, true, false, ◌&&◌, ◌||◌, not, List, [], ◌∷◌, Option, none, some, ℤ,
  pos, negsuc, ltb, ltb_ℤ, leb_ℤ, if◌then◌else◌, length,
}
use gpu_batch_inference_sche.Scheduler.{Impl, tiled, cublas, Options}

-- The bytes of a `std::string`.
abbrev pub Text : Type 0
Text = List ℕ

-- The value of `--impl`, where `none` is any other text.
pub record Config : Type 0 where
  pub jobs : ℕ
  pub arrival_rate : ℤ
  pub saturation : Bool
  pub replay_csv : Text
  pub max_batch : ℤ
  pub workers : ℤ
  pub impl : Option Impl
  pub margin_mb : ℕ
  pub metrics_csv : Text
  pub min_size : ℤ
  pub max_size : ℤ
  pub max_job_batch : ℤ
  pub priority_levels : ℤ
  pub http_port : ℤ
  pub force_cpu : Bool
  pub stress : Bool
  pub help : Bool

-- "scheduler_metrics.csv"
abbrev default_metrics_csv : Text
default_metrics_csv =
    115 ∷ 99 ∷ 104 ∷ 101 ∷ 100 ∷ 117 ∷ 108 ∷ 101 ∷ 114 ∷ 95 ∷ 109 ∷ 101 ∷ 116 ∷ 114 ∷ 105 ∷ 99 ∷ 115
    ∷ 46 ∷ 99 ∷ 115 ∷ 118 ∷ []

abbrev pub default_config : Config
default_config = record {
  jobs = 0;
  arrival_rate = pos 0;
  saturation = false;
  replay_csv = [];
  max_batch = pos 8;
  workers = pos 2;
  impl = some tiled;
  margin_mb = 256;
  metrics_csv = default_metrics_csv;
  min_size = pos 64;
  max_size = pos 1024;
  max_job_batch = pos 8;
  priority_levels = pos 4;
  http_port = pos 8080;
  force_cpu = false;
  stress = false;
  help = false;
}

pub data Argument : Type 0 where
  set_help set_saturation set_force_cpu set_stress : Argument
  set_jobs set_margin_mb : ℕ → Argument
  set_max_batch set_workers set_min_size set_max_size set_job_batch_max set_http_port : ℤ → Argument
  set_arrival_rate : ℤ → Argument
  set_replay set_metrics_csv : Text → Argument
  set_impl : Option Impl → Argument
  malformed : Argument  -- an unknown option, a missing value, or one that does not parse

-- One round of the loop over `argv`; `none` where it throws.
unfoldable pub read_argument : Argument → Config → Option Config
read_argument set_help cfg = some (record cfg { help = true })
read_argument set_saturation cfg = some (record cfg { saturation = true })
read_argument set_force_cpu cfg = some (record cfg { force_cpu = true })
read_argument set_stress cfg = some (record cfg { stress = true })
read_argument (set_jobs n) cfg = some (record cfg { jobs = n })
read_argument (set_margin_mb n) cfg = some (record cfg { margin_mb = n })
read_argument (set_max_batch v) cfg = some (record cfg { max_batch = v })
read_argument (set_workers v) cfg = some (record cfg { workers = v })
read_argument (set_min_size v) cfg = some (record cfg { min_size = v })
read_argument (set_max_size v) cfg = some (record cfg { max_size = v })
read_argument (set_job_batch_max v) cfg = some (record cfg { max_job_batch = v })
read_argument (set_http_port v) cfg = some (record cfg { http_port = v })
read_argument (set_arrival_rate v) cfg = some (record cfg { arrival_rate = v })
read_argument (set_replay path) cfg = some (record cfg { replay_csv = path })
read_argument (set_metrics_csv path) cfg = some (record cfg { metrics_csv = path })
read_argument (set_impl impl) cfg = some (record cfg { impl = impl })
read_argument malformed cfg = none

-- `arrival_rate_given`
unfoldable pub gives_rate : Argument → Bool
gives_rate (set_arrival_rate v) = true
gives_rate _ = false

unfoldable pub is_known : Option Impl → Bool
is_known none = false
is_known (some _) = true

-- The defaults that `--saturation` brings.
unfoldable pub apply_saturation : Config → Config
apply_saturation cfg =
    if cfg.saturation
    then record cfg { arrival_rate = pos 0; jobs = if cfg.jobs == 0 then 1000 else cfg.jobs }
    else cfg

-- The defaults that `--stress` brings.
unfoldable pub apply_stress : Config → Config
apply_stress cfg = if cfg.stress && (cfg.jobs == 0) then record cfg { jobs = 1000 } else cfg

-- The tests before the defaults of `--saturation`, and those after; `false` where one throws.
unfoldable pub options_ok : Bool → Config → Bool
unfolding is_known
options_ok rate_given cfg =
    let replays : Bool = ltb 0 (length cfg.replay_csv) in
    ltb_ℤ (pos 0) cfg.max_batch
    && (ltb_ℤ (pos 0) cfg.workers
        && (is_known cfg.impl
            && (leb_ℤ (pos 0) cfg.arrival_rate
                && (not (cfg.saturation && rate_given)
                    && (not (cfg.saturation && replays) && not (cfg.saturation && cfg.stress))))))

unfoldable pub ranges_ok : Config → Bool
ranges_ok cfg =
    let replays : Bool = ltb 0 (length cfg.replay_csv) in
    leb_ℤ (pos 0) cfg.http_port
    && (leb_ℤ cfg.http_port (pos 65_535)
        && (ltb_ℤ (pos 0) cfg.min_size
            && (leb_ℤ cfg.min_size cfg.max_size
                && (not (ltb 0 cfg.jobs && replays) && not (cfg.stress && replays)))))

-- What follows the loop of `parse_args`.
unfoldable pub finish_args : Bool → Config → Option Config
unfolding apply_saturation apply_stress options_ok ranges_ok
finish_args rate_given cfg =
    let filled : Config = apply_saturation cfg in
    if not (options_ok rate_given cfg)
    then none
    else if not (ranges_ok filled)
    then none
    else some (apply_stress filled)

unfoldable pub parse_from : List Argument → Bool → Config → Option Config
unfolding read_argument gives_rate finish_args
parse_from [] rate_given cfg = finish_args rate_given cfg
parse_from (arg ∷ args) rate_given cfg = elim (read_argument arg cfg) [
  | none ↦ none
  | some next ↦ parse_from args (gives_rate arg || rate_given) next
]

unfoldable pub parse_args : List Argument → Option Config
unfolding parse_from
parse_args args = parse_from args false default_config

-- The scheduler options that `main` sets; the margin wraps modulo 2^64.
pub scheduler_options : Config → Impl → Options
scheduler_options cfg impl = record {
  max_batch = cfg.max_batch;
  safety_margin_bytes = cfg.margin_mb * 1024 % 2 ^ 64 * 1024 % 2 ^ 64;
  num_workers = cfg.workers;
  impl = impl;
  retain_results = false;
  fixed_budget_bytes = 0;
  util_sample_ms = pos 100;
}
