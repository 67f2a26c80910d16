-- ===== src/Daemon.antt =====
-- `parse_replay` and the course of `main` in src/main.cpp up to the submissions. A line of a replay file
-- is what `std::getline` makes of it; the number parsers of the standard library are a parameter.
pub mod Loop
pub mod Wait
pub mod Rows
pub mod Generator
mod Tests
use gpu_batch_inference_sche.Common.{
  ℕ, Bool, true, false, ◌&&◌, not, List, [], ◌∷◌, ◌++◌, Option, none, some, ◌==◌, ◌>>=◌, ℤ, pos,
  ltb, ltb_ℤ, if◌then◌else◌, length,
}
use gpu_batch_inference_sche.Job.{InferenceJob}
use gpu_batch_inference_sche.Config.{Text, Config}

pub data Line : Type 0 where
  skipped : Line  -- empty, or a comment
  fields : (tok : List Text) → Line  -- the texts between the commas

-- `std::stoull` and `std::stoi`: the number and `pos`, the count of bytes that were read; `none` where
-- they throw.
pub record Numbers : Type 0 where
  pub stoull : Text → Option (ℕ × ℕ)
  pub stoi : Text → Option (ℤ × ℕ)

-- The number, where all of the text was read.
abbrev pub whole {ℓ} : {A : Type ℓ} → Text → A × ℕ → Option A
whole value v = if v.1 == length value then some (v.0) else none

-- `none` where they throw.
unfoldable pub parse_u64 : Numbers → Text → Option ℕ
parse_u64 numbers value = do v ← numbers.stoull value; whole value v

unfoldable pub parse_int : Numbers → Text → Option ℤ
parse_int numbers value = do v ← numbers.stoi value; whole value v

-- `tok[0] == "id"`
unfoldable pub is_id : Text → Bool
is_id (a ∷ b ∷ []) = (a == 105) && (b == 100)
is_id _ = false

-- The job that a row describes.
unfoldable pub row_job : Numbers → (id m n k batch priority : Text) → Option InferenceJob
unfolding parse_u64 parse_int
row_job numbers id m n k batch priority = do
  id' ← parse_u64 numbers id
  m' ← parse_int numbers m
  n' ← parse_int numbers n
  k' ← parse_int numbers k
  batch' ← parse_int numbers batch
  priority' ← parse_int numbers priority
  some (record {
    id = id';
    m = m';
    n = n';
    k = k';
    batch = batch';
    priority = priority';
    submit_time = 0;
    seq = 0;
  })

-- How `parse_replay` ends: `true` with the vector `out`, `false`, or an exception.
pub data Replay : Type 0 where
  accepted : (jobs : List InferenceJob) → Replay
  rejected : Replay
  threw : Replay

-- The loop over the lines, with what `out` holds.
unfoldable pub replay_loop : Numbers → List Line → List InferenceJob → Replay
unfolding row_job is_id
replay_loop numbers [] out = if ltb 0 (length out) then accepted out else rejected
replay_loop numbers (skipped ∷ lines) out = replay_loop numbers lines out
replay_loop numbers (fields (id ∷ m ∷ n ∷ k ∷ batch ∷ priority ∷ _) ∷ lines) out =
    if is_id id
    then replay_loop numbers lines out
    else elim (row_job numbers id m n k batch priority) [
      | none ↦ threw
      | some job ↦ replay_loop numbers lines (out ++ job ∷ [])
    ]
replay_loop numbers (fields _ ∷ lines) out = rejected

-- `parse_replay` on a file, where `opened` says whether it could be opened.
unfoldable pub parse_replay : Numbers → (opened : Bool) → List Line → Replay
unfolding replay_loop
parse_replay numbers opened lines = if opened then replay_loop numbers lines [] else rejected

-- How far `main` gets: the early ends, or the jobs that it replays, if any, before the wait loop.
pub data Outcome : Type 0 where
  printed_usage : Outcome
  no_gpu : Outcome
  no_replay : Outcome
  no_port : Outcome
  serving : (replay_jobs : List InferenceJob) → Outcome
  exception : Outcome

-- With the HTTP server's answer the end of the start-up.
pub open_server : Config → Bool → List InferenceJob → Outcome
open_server cfg bound jobs =
    if ltb_ℤ (pos 0) cfg.http_port && not bound then no_port else serving jobs

-- With the replay file, if one is given.
pub load_replay : Config → Replay → Bool → Outcome
unfolding open_server
load_replay cfg (accepted jobs) bound = open_server cfg bound jobs
load_replay cfg rejected bound = no_replay
load_replay cfg threw bound = exception

-- `main` after `parse_args`, with what the monitor, the replay file and the server answer.
pub main : Config → (gpu_present : Bool) → Replay → (bound : Bool) → Outcome
unfolding load_replay open_server
main cfg gpu_present replay bound =
    if cfg.help
    then printed_usage
    else if not gpu_present && not cfg.force_cpu
    then no_gpu
    else if ltb 0 (length cfg.replay_csv)
    then load_replay cfg replay bound
    else open_server cfg bound []
