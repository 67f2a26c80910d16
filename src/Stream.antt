-- ===== src/Stream.antt =====
-- The part of the CUDA runtime that src/sched/scheduler.cpp and bench/bench_overlap.cpp program
-- against: streams, events and asynchronous copies, as the runtime documents them. A stream runs its
-- commands one after the other, in the order of issue; a wait captures the latest record of its event
-- at the call, and holds its stream until that record has run; nothing else orders two streams.
pub mod Facts
pub mod Keeps
pub mod Invariant
pub mod Sound
pub mod Order
pub mod Progress
pub mod Counting
pub mod Closing
pub mod Once
pub mod Failing
use gpu_batch_inference_sche.Common.{
  ℕ, suc, Bool, true, false, ◌&&◌, ◌||◌, not, List, [], ◌∷◌, ◌++◌, Option, none, some, ◌==◌,
  if◌then◌else◌, ◌≡◌,
}

-- The jobs of a batch: the matrices A and B of each, and the product that the kernel of a job forms.
pub record Jobs : Type 1 where
  pub Matrix : Type 0
  pub input_a : ℕ → Matrix
  pub input_b : ℕ → Matrix
  pub multiply : ℕ → Matrix → Matrix → Matrix

-- What a stream runs: work on the buffers of job `i`, and the records of events, which are numbered
-- from 1, and waits for them.
pub data Work : Type 0 where
  copy_a copy_b run_kernel copy_c : (i : ℕ) → Work

pub data Command : Type 0 where
  work : Work → Command
  record_event await_event : (array i generation : ℕ) → Command

-- What the host thread calls. An event is element `i` of one of the arrays of events.
pub data Action : Type 0 where
  fill : (i : ℕ) → Action
  launch : (stream : ℕ) → Work → Action
  record_on wait_on : (stream array i : ℕ) → Action
  synchronize : (array i : ℕ) → Action
  collect : (i : ℕ) → Action  -- reads C of the job on the host
  elapsed : (array i array' i' : ℕ) → Action

-- A function with another value at one argument.
abbrev pub put {ℓ} : {A : Type ℓ} → ℕ → A → (ℕ → A) → ℕ → A
put k v f i = if i == k then v else f i

-- Which records of which events have run.
abbrev pub Done : Type 0
Done = (array i generation : ℕ) → Bool

-- The records that have run, after a command.
unfoldable pub mark : Command → Done → Done
mark (record_event array i generation) done =
    λ a k g. if a == array && (k == i && g == generation) then true else done a k g
mark (work w) done = done
mark (await_event array i generation) done = done

-- Whether a stream can run its next command.
unfoldable pub ready : Command → Done → Bool
ready (await_event array i generation) done = done array i generation
ready (record_event array i generation) done = true
ready (work w) done = true

module _ (j : Jobs) where
  open j use {Matrix, input_a, input_b, multiply}

  -- The buffers of the jobs, on the host and on the device.
  pub record Memory : Type 0 where
    pub host_a : ℕ → Option Matrix
    pub host_b : ℕ → Option Matrix
    pub host_c : ℕ → Option Matrix
    pub device_a : ℕ → Option Matrix
    pub device_b : ℕ → Option Matrix
    pub device_c : ℕ → Option Matrix

  -- The program that the host has left, what each stream has left, the number of records of each
  -- event so far, and what the host has read. `failed` says that `cudaEventElapsedTime` was called
  -- for an event whose record had not run.
  pub record State : Type 0 where
    pub program : List Action
    pub queues : ℕ → List Command
    pub issued : ℕ → ℕ → ℕ
    pub done : Done
    pub memory : Memory
    pub results : List (Option Matrix)
    pub failed : Bool

  -- The product, where both operands are there.
  unfoldable pub product : ℕ → Option Matrix → Option Matrix → Option Matrix
  product i (some a) (some b) = some (multiply i a b)
  product i _ _ = none

  unfoldable pub effect : Command → Memory → Memory
  unfolding product
  effect (work (copy_a i)) m = record m { device_a = put i (m.host_a i) m.device_a }
  effect (work (copy_b i)) m = record m { device_b = put i (m.host_b i) m.device_b }
  effect (work (run_kernel i)) m = record m {
    device_c = put i (product i (m.device_a i) (m.device_b i)) m.device_c;
  }
  effect (work (copy_c i)) m = record m { host_c = put i (m.device_c i) m.host_c }
  effect (record_event array i generation) m = m
  effect (await_event array i generation) m = m

  -- Whether the host can go on: `cudaEventSynchronize` blocks.
  unfoldable pub can_act : Action → State → Bool
  can_act (synchronize array i) st = st.done array i (st.issued array i)
  can_act (fill i) st = true
  can_act (launch stream w) st = true
  can_act (record_on stream array i) st = true
  can_act (wait_on stream array i) st = true
  can_act (collect i) st = true
  can_act (elapsed array i array' i') st = true

  -- A command at the end of a stream.
  unfoldable pub enqueue : ℕ → Command → State → State
  enqueue stream c st = record st { queues = put stream (st.queues stream ++ c ∷ []) st.queues }

  unfoldable pub act : Action → State → State
  unfolding enqueue
  act (fill i) st = record st {
    memory = record (st.memory) {
      host_a = put i (some (input_a i)) st.memory.host_a;
      host_b = put i (some (input_b i)) st.memory.host_b;
    };
  }
  act (launch stream w) st = enqueue stream (work w) st
  act (record_on stream array i) st =
      let generation : ℕ = suc (st.issued array i) in
      enqueue stream (record_event array i generation)
        (record st { issued = put array (put i generation (st.issued array)) st.issued })
  act (wait_on stream array i) st = enqueue stream (await_event array i (st.issued array i)) st
  act (synchronize array i) st = st
  act (collect i) st = record st { results = st.results ++ st.memory.host_c i ∷ [] }
  act (elapsed array i array' i') st = record st {
    failed =
        st.failed
        || not (st.done array i (st.issued array i) && st.done array' i' (st.issued array' i'));
  }

  -- The host makes its next call, or some stream runs its next command.
  pub data Step (st : State) : State → Type 0 where
    host_acts :
        (a : Action) (rest : List Action)
        → st.program ≡ a ∷ rest
        → can_act a st ≡ true
        → Step st (act a (record st { program = rest }))
    stream_runs :
        (stream : ℕ) (c : Command) (rest : List Command)
        → st.queues stream ≡ c ∷ rest
        → ready c st.done ≡ true
        → Step st (record st {
          queues = put stream rest st.queues;
          memory = effect c st.memory;
          done = mark c st.done;
        })

  pub data Reach (st : State) : State → Type 0 where
    here : Reach st st
    next : {x y : State} → Reach st x → Step x y → Reach st y

  -- The host at the start of a program, all streams empty. The records of the events made before have
  -- run, so counting starts here. Nothing is known of the memory `m`.
  unfoldable pub start_program : List Action → Memory → State
  start_program program m = record {
    program = program;
    queues = λ stream. [];
    issued = λ array i. 0;
    done = λ array i generation. generation == 0;
    memory = m;
    results = [];
    failed = false;
  }

-- A CUDA runtime: the states of the machine and its steps, with what the host and the streams have
-- left and hold in each. Each step is one that the documentation allows, and where the documentation
-- allows a step, the machine makes one.
pub record Runtime (j : Jobs) : Type 1 where
  pub Device : Type 0
  pub Runs : Device → Device → Type 0
  pub view : Device → State j
  pub documented : (d d' : Device) → Runs d d' → Step j (view d) (view d')
  pub proceeds : (d : Device) (st : State j) → Step j (view d) st → (d' : Device) × Runs d d'

module _ {j : Jobs} (cuda : Runtime j) (d : cuda.Device) where
  -- A run of the machine.
  pub data Execution : cuda.Device → Type 0 where
    started : Execution d
    ran : {x y : cuda.Device} → Execution x → cuda.Runs x y → Execution y
