-- ===== src/Stream/Progress.antt =====
-- No host program blocks for ever on its streams: the commands that wait are in some order in which
-- each can run when its turn comes, and every step uses up the program or that order.
use gpu_batch_inference_sche.Common.{
  ℕ, suc, ◌+◌, ◌*◌, ◌≤◌, ◌≡◌, refl, sym, ap, subst, ◌∙◌, ◌⊎◌, inl, inr, List, [], ◌∷◌, ◌++◌, Option,
  true, Bool, arith, length, length-append,
}
use gpu_batch_inference_sche.Stream.{
  Jobs, Command, work, record_event, await_event, Action, fill, launch, record_on, wait_on,
  synchronize, collect, elapsed, put, Memory, effect, mark, ready, State, act, can_act, enqueue,
  Step, host_acts, stream_runs, Reach, here, next, start_program, Runtime, Execution, started, ran,
}
use gpu_batch_inference_sche.Stream.Order.{
  of_stream, queued-drop_first, queued-snoc, mark_all, Live, Live-snoc, mark_all-snoc, drop_first,
  Live-drop_first, of_stream-drop_first, of_stream-head,
}

module _ (j : Jobs) (limit : ℕ) where
  -- The commands that wait can run one after the other, after which the last record of each event has
  -- run; and `used` steps leave that many at most.
  pub record IsLive (used : ℕ) (st : State j) : Type 0 where
    pub order : List (ℕ × Command)
    pub queued : (s : ℕ) → st.queues s ≡ of_stream s order
    pub live : Live order st.done
    pub recorded : (a i : ℕ) → mark_all order st.done a i (st.issued a i) ≡ true
    pub bound : used + (2 * length st.program + length order) ≤ limit

  stream-IsLive :
      (used : ℕ) (st : State j) (s : ℕ) (c : Command) (rest : List Command)
      → IsLive used st
      → st.queues s ≡ c ∷ rest
      → IsLive (suc used) (record st {
        queues = put s rest st.queues;
        memory = effect j c st.memory;
        done = mark c st.done;
      })
  stream-IsLive used st s c rest h q =
      let e : of_stream s h.order ≡ c ∷ rest = sym (h.queued s) ∙ q in
      let ran = Live-drop_first s h.order c rest st.done e h.live in
      let dropped = of_stream-drop_first s h.order c rest e in
      record {
        order = drop_first s h.order;
        queued = queued-drop_first s h.order st.queues c rest h.queued q;
        live = ran.0;
        recorded = λ a i. ran.1 a i (st.issued a i) (h.recorded a i);
        bound = omega (arith, dropped.1, h.bound);
      }

  -- What the host adds to a stream is ready when the commands before it have run.
  enqueue-IsLive :
      (used : ℕ) (st : State j) (s : ℕ) (c : Command) (program : List Action) (issued : ℕ → ℕ → ℕ)
      (h : IsLive used st)
      → length st.program ≡ suc (length program)
      → ready c (mark_all h.order st.done) ≡ true
      → ((a i : ℕ) → mark c (mark_all h.order st.done) a i (issued a i) ≡ true)
      → IsLive (suc used) (enqueue j s c (record st { program = program; issued = issued }))
  unfolding enqueue mark ready
  enqueue-IsLive used st s c program issued h e r k = record {
    order = h.order ++ (s, c) ∷ [];
    queued = queued-snoc s h.order st.queues c h.queued;
    live = Live-snoc h.order s c st.done h.live r;
    recorded = λ a i.
        subst (λ d. d a i (issued a i) ≡ true) (sym (mark_all-snoc h.order s c st.done)) (k a i);
    bound = omega (arith, length-append h.order ((s, c) ∷ []), h.bound, e);
  }

  -- A call that only goes on.
  quiet-IsLive :
      (used : ℕ) (st : State j) (program : List Action) (memory : Memory j)
      (results : List (Option j.Matrix)) (failed : Bool)
      → IsLive used st
      → length st.program ≡ suc (length program)
      → IsLive
          (suc used)
          (record st { program = program; memory = memory; results = results; failed = failed })
  quiet-IsLive used st program memory results failed h e = record {
    order = h.order;
    queued = h.queued;
    live = h.live;
    recorded = h.recorded;
    bound = omega (arith, h.bound, e);
  }

  act-IsLive :
      (used : ℕ) (st : State j) (a : Action) (rest : List Action)
      → IsLive used st
      → st.program ≡ a ∷ rest
      → IsLive (suc used) (act j a (record st { program = rest }))
  unfolding act mark ready
  act-IsLive used st (fill i) rest h e = quiet-IsLive used st rest _ _ _ h (ap length e)
  act-IsLive used st (launch s w) rest h e =
      enqueue-IsLive used st s (work w) rest st.issued h (ap length e) refl h.recorded
  act-IsLive used st (record_on s b k) rest h e =
      let c : Command = record_event b k (suc (st.issued b k)) in
      enqueue-IsLive used st s c rest (put b (put k (suc (st.issued b k)) (st.issued b)) st.issued)
        h (ap length e) refl (λ a i. let old = h.recorded a i in ground arith)
  act-IsLive used st (wait_on s b k) rest h e =
      enqueue-IsLive used st s (await_event b k (st.issued b k)) rest st.issued h (ap length e)
        (h.recorded b k) h.recorded
  act-IsLive used st (synchronize b k) rest h e = quiet-IsLive used st rest _ _ _ h (ap length e)
  act-IsLive used st (collect i) rest h e = quiet-IsLive used st rest _ _ _ h (ap length e)
  act-IsLive used st (elapsed b k b' k') rest h e = quiet-IsLive used st rest _ _ _ h (ap length e)

  pub step-IsLive :
      (used : ℕ) (st st' : State j) → IsLive used st → Step j st st' → IsLive (suc used) st'
  step-IsLive used st st' h (host_acts a rest e r) = act-IsLive used st a rest h e
  step-IsLive used st st' h (stream_runs s c rest q r) = stream-IsLive used st s c rest h q

-- In such a state, a step is possible unless all is done.
can_act-recorded :
    (j : Jobs) (st : State j) (a : Action)
    → ((b i : ℕ) → st.done b i (st.issued b i) ≡ true)
    → can_act j a st ≡ true
unfolding can_act
can_act-recorded j st (synchronize b i) h = h b i
can_act-recorded j st (fill i) h = refl
can_act-recorded j st (launch s w) h = refl
can_act-recorded j st (record_on s b i) h = refl
can_act-recorded j st (wait_on s b i) h = refl
can_act-recorded j st (collect i) h = refl
can_act-recorded j st (elapsed b i b' i') h = refl

-- The host is at its end and every stream is empty.
abbrev pub Ended : (j : Jobs) → State j → Type 0
Ended j st = (st.program ≡ []) × ((s : ℕ) → st.queues s ≡ [])

pub step_or_end :
    (j : Jobs) (st : State j) (order : List (ℕ × Command)) (program : List Action)
    → ((s : ℕ) → st.queues s ≡ of_stream s order)
    → Live order st.done
    → ((a i : ℕ) → mark_all order st.done a i (st.issued a i) ≡ true)
    → st.program ≡ program
    → Ended j st ⊎ ((st' : State j) × Step j st st')
step_or_end j st [] [] q l r e = inl (e, q)
step_or_end j st [] (a ∷ rest) q l r e = inr (_, host_acts a rest e (can_act-recorded j st a r))
step_or_end j st ((t, c) ∷ order) program q l r e =
    inr (_, stream_runs t c (of_stream t order) (q t ∙ of_stream-head t c order) l.0)

-- The number of steps of a run.
abbrev pub steps : {j : Jobs} {st st' : State j} → Reach j st st' → ℕ
steps here = 0
steps (next r s) = suc (steps r)

start-IsLive :
    (j : Jobs) (program : List Action) (m : Memory j)
    → IsLive j (2 * length program) 0 (start_program j program m)
unfolding start_program
start-IsLive j program m = record {
  order = [];
  queued = λ s. refl;
  live = tt;
  recorded = λ a i. refl;
  bound = omega arith;
}

pub reach-IsLive :
    (j : Jobs) (program : List Action) (m : Memory j) (begin st : State j)
    → begin ≡ start_program j program m
    → (r : Reach j begin st) → IsLive j (2 * length program) (steps r) st
reach-IsLive j program m begin st e here =
    subst (IsLive j (2 * length program) 0) (sym e) (start-IsLive j program m)
reach-IsLive j program m begin st e (next {x} r s) =
    step-IsLive j (2 * length program) (steps r) x st (reach-IsLive j program m begin x e r) s

-- The path of the states that a machine goes through.
abbrev pub path_of :
    (j : Jobs) (cuda : Runtime j) (d d' : cuda.Device)
    → Execution cuda d d'
    → Reach j (cuda.view d) (cuda.view d')
path_of j cuda d d' started = here
path_of j cuda d d' (ran {x} r s) = next (path_of j cuda d x r) (cuda.documented x d' s)

abbrev pub run_length : {j : Jobs} {cuda : Runtime j} {d d' : cuda.Device} → Execution cuda d d' → ℕ
run_length started = 0
run_length (ran r s) = suc (run_length r)

pub run_length-steps :
    (j : Jobs) (cuda : Runtime j) (d d' : cuda.Device) (r : Execution cuda d d')
    → steps (path_of j cuda d d' r) ≡ run_length r
run_length-steps j cuda d d' started = refl
run_length-steps j cuda d d' (ran {x} r s) = ap suc (run_length-steps j cuda d x r)

-- Every run of a host program can go on unless the host is at its end and all streams are empty, and
-- has at most two steps for each call of the program.
pub Execution-IsBounded :
    (j : Jobs) (cuda : Runtime j) (program : List Action) (m : Memory j) (d d' : cuda.Device)
    → cuda.view d ≡ start_program j program m
    → (r : Execution cuda d d')
    → (run_length r ≤ 2 * length program)
      × (Ended j (cuda.view d') ⊎ ((x : cuda.Device) × cuda.Runs d' x))
Execution-IsBounded j cuda program m d d' e r =
    let h = reach-IsLive j program m (cuda.view d) (cuda.view d') e (path_of j cuda d d' r) in
    (
      omega (arith, h.bound, run_length-steps j cuda d d' r),
      elim (step_or_end j (cuda.view d') h.order (cuda.view d').program h.queued h.live h.recorded
          refl) [ inl ended ↦ inl ended | inr (st, s) ↦ inr (cuda.proceeds d' st s) ],
    )
