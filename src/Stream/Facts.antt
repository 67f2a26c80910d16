-- ===== src/Stream/Facts.antt =====
-- What is known of the buffers of a batch while streams run: a check of a host program.
use gpu_batch_inference_sche.Common.{ℕ, suc, ◌≡◌, ◌⊎◌, List, [], ◌∷◌, some, true}
use gpu_batch_inference_sche.Stream.{
  Jobs, Command, work, copy_a, copy_b, run_kernel, copy_c, record_event, await_event, Action, fill,
  launch, record_on, wait_on, synchronize, collect, elapsed, put, Done, Memory,
}

-- The right matrix stands in a buffer of job `i`, or a record of an event has run.
pub data Fact : Type 0 where
  filled_a filled_b loaded_a loaded_b computed copied : (i : ℕ) → Fact
  stamped : (array i generation : ℕ) → Fact

abbrev pub Knowledge : Type 1
Knowledge = Fact → Type 0

-- What the two say together.
abbrev pub Both : Knowledge → Knowledge → Knowledge
Both p q φ = p φ ⊎ q φ

abbrev pub Within : Knowledge → Knowledge → Type 0
Within p q = (φ : Fact) → p φ → q φ

-- What a fact says of the state.
abbrev pub Holds : (j : Jobs) → Memory j → Done → Knowledge
Holds j m done (filled_a i) = m.host_a i ≡ some (j.input_a i)
Holds j m done (filled_b i) = m.host_b i ≡ some (j.input_b i)
Holds j m done (loaded_a i) = m.device_a i ≡ some (j.input_a i)
Holds j m done (loaded_b i) = m.device_b i ≡ some (j.input_b i)
Holds j m done (computed i) = m.device_c i ≡ some (j.multiply i (j.input_a i) (j.input_b i))
Holds j m done (copied i) = m.host_c i ≡ some (j.multiply i (j.input_a i) (j.input_b i))
Holds j m done (stamped array i generation) = done array i generation ≡ true

-- `promise` is what a record of an event stands for.
module _ (promise : (array i generation : ℕ) → Knowledge) where
  -- What a command needs.
  abbrev pub Needs : Command → Knowledge
  Needs (work (copy_a i)) φ = φ ≡ filled_a i
  Needs (work (copy_b i)) φ = φ ≡ filled_b i
  Needs (work (run_kernel i)) φ = (φ ≡ loaded_a i) ⊎ (φ ≡ loaded_b i)
  Needs (work (copy_c i)) φ = φ ≡ computed i
  Needs (record_event array i generation) φ = promise array i generation φ
  Needs (await_event array i generation) φ = ⊥

  -- What is known once it has run.
  abbrev pub Gives : Command → Knowledge
  Gives (work (copy_a i)) φ = φ ≡ loaded_a i
  Gives (work (copy_b i)) φ = φ ≡ loaded_b i
  Gives (work (run_kernel i)) φ = φ ≡ computed i
  Gives (work (copy_c i)) φ = φ ≡ copied i
  Gives (record_event array i generation) φ = φ ≡ stamped array i generation
  Gives (await_event array i generation) φ =
      promise array i generation φ ⊎ (φ ≡ stamped array i generation)

  -- What is known after the commands of a stream, and that each finds what it needs.
  abbrev pub After : Knowledge → List Command → Knowledge
  After p [] = p
  After p (c ∷ q) = After (Both p (Gives c)) q

  abbrev pub Runs : Knowledge → List Command → Type 0
  Runs p [] = Unit {0}
  Runs p (c ∷ q) = Within (Needs c) p × Runs (Both p (Gives c)) q

  -- A host program is right, where the host knows `known`, the end of each stream will know `tails`,
  -- and `issued` counts the records; at the end of the program the host knows `goal`.
  module _ (goal : Knowledge) where
    abbrev pub Checks :
        (known : Knowledge) (tails : ℕ → Knowledge) (issued : ℕ → ℕ → ℕ) → List Action → Type 0
    Checks known tails issued [] = Within goal known
    Checks known tails issued (fill i ∷ rest) =
        let filled : Knowledge = λ φ. (φ ≡ filled_a i) ⊎ (φ ≡ filled_b i) in
        Checks known (λ s. Both (tails s) filled) issued rest
    Checks known tails issued (launch stream w ∷ rest) =
        Within (Needs (work w)) (tails stream)
        × Checks known (put stream (Both (tails stream) (Gives (work w))) tails) issued rest
    Checks known tails issued (record_on stream array i ∷ rest) =
        let c : Command = record_event array i (suc (issued array i)) in
        Within (Needs c) (tails stream)
        × Checks known (put stream (Both (tails stream) (Gives c)) tails)
            (put array (put i (suc (issued array i)) (issued array)) issued) rest
    Checks known tails issued (wait_on stream array i ∷ rest) =
        let c : Command = await_event array i (issued array i) in
        Checks known (put stream (Both (tails stream) (Gives c)) tails) issued rest
    Checks known tails issued (synchronize array i ∷ rest) =
        let learned : Knowledge =
          λ φ. promise array i (issued array i) φ ⊎ (φ ≡ stamped array i (issued array i)) in
        Checks (Both known learned) (λ s. Both (tails s) learned) issued rest
    Checks known tails issued (collect i ∷ rest) = known (copied i) × Checks known tails issued rest
    Checks known tails issued (elapsed array i array' i' ∷ rest) =
        known (stamped array i (issued array i))
        × known (stamped array' i' (issued array' i'))
        × Checks known tails issued rest
