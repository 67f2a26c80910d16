-- ===== src/Stream/Once.antt =====
-- Each record of an event is issued once: it waits in one stream, or has run.
use gpu_batch_inference_sche.Common.{
  ℕ, suc, ◌+◌, ◌≤◌, ◌≡◌, ◌∙◌, refl, sym, ap, List, [], ◌∷◌, ◌++◌, true, ◌==◌, ◌&&◌, leb,
  if◌then◌else◌, arith, Bool-cases, inl, inr, total, total-append,
}
use gpu_batch_inference_sche.Stream.{
  Jobs, Command, work, record_event, await_event, Action, fill, launch, record_on, wait_on,
  synchronize, collect, elapsed, Memory, mark, Done, State, act, enqueue, Step, host_acts,
  stream_runs, start_program,
}
use gpu_batch_inference_sche.Stream.Order.{
  of_stream, drop_first, of_stream-hit, of_stream-miss, queued-drop_first, queued-snoc,
}

-- Whether a command is a record.
abbrev pub is_record : (array i generation : ℕ) → Command → ℕ
is_record a i g (record_event b k f) = if a == b && (i == k && g == f) then 1 else 0
is_record a i g (work w) = 0
is_record a i g (await_event b k f) = 0

-- How often a record waits.
abbrev pub times : (array i generation : ℕ) → List (ℕ × Command) → ℕ
times a i g order = total (λ p. is_record a i g p.1) order

times-drop_first :
    (a i g s : ℕ) (order : List (ℕ × Command)) (c : Command) (rest : List Command)
    → of_stream s order ≡ c ∷ rest
    → times a i g order ≡ is_record a i g c + times a i g (drop_first s order)
times-drop_first a i g s [] c rest e = absurd cc
times-drop_first a i g s ((t, b) ∷ order) c rest e = elim (Bool-cases (s == t)) [
  | inl h ↦ let (same, left) = of_stream-hit s t b order c rest h e in rw left (rw (sym same) refl)
  | inr h ↦
      let (more, left) = of_stream-miss s t b order c rest h e in
      rw left (omega (arith, times-drop_first a i g s order c rest more))
]

times-of_stream :
    (a i g s : ℕ) (order : List (ℕ × Command))
    → total (is_record a i g) (of_stream s order) ≤ times a i g order
times-of_stream a i g s [] = omega arith
times-of_stream a i g s ((t, c) ∷ order) = let rec = times-of_stream a i g s order in ground arith

-- Whether a record has run.
abbrev has_run : Done → (array i generation : ℕ) → ℕ
has_run done a i g = if done a i g then 1 else 0

mark-has_run :
    (a i g : ℕ) (c : Command) (done : Done) (left issued : ℕ)
    → is_record a i g c + left + has_run done a i g ≡ (if leb g issued then 1 else 0)
    → left + has_run (mark c done) a i g ≡ (if leb g issued then 1 else 0)
unfolding mark
mark-has_run a i g (record_event b k f) done left issued e = ground arith
mark-has_run a i g (work w) done left issued e = omega (arith, e)
mark-has_run a i g (await_event b k f) done left issued e = omega (arith, e)

module _ (j : Jobs) where
  pub record IsOnce (st : State j) : Type 0 where
    pub order : List (ℕ × Command)
    pub queued : (s : ℕ) → st.queues s ≡ of_stream s order
    pub once :
        (a i g : ℕ)
        → times a i g order + has_run st.done a i g ≡ (if leb g (st.issued a i) then 1 else 0)

  -- A command that is no record.
  enqueue-IsOnce :
      (st : State j) (s : ℕ) (c : Command) (program : List Action)
      → ((a i g : ℕ) → is_record a i g c ≡ 0)
      → IsOnce st
      → IsOnce (enqueue j s c (record st { program = program }))
  unfolding enqueue
  enqueue-IsOnce st s c program n h = record {
    order = h.order ++ (s, c) ∷ [];
    queued = queued-snoc s h.order st.queues c h.queued;
    once = λ a i g. omega (
      arith,
      total-append (λ p. is_record a i g p.1) h.order ((s, c) ∷ []),
      h.once a i g,
      n a i g,
    );
  }

  record_on-IsOnce :
      (st : State j) (s b k : ℕ) (program : List Action)
      → IsOnce st
      → IsOnce (act j (record_on s b k) (record st { program = program }))
  unfolding act enqueue
  record_on-IsOnce st s b k program h =
      let c : Command = record_event b k (suc (st.issued b k)) in
      record {
        order = h.order ++ (s, c) ∷ [];
        queued = queued-snoc s h.order st.queues c h.queued;
        once = λ a i g.
            let more = total-append (λ p. is_record a i g p.1) h.order ((s, c) ∷ []) in
            let old = h.once a i g in ground arith;
      }

  act-IsOnce :
      (st : State j) (a : Action) (rest : List Action)
      → IsOnce st
      → IsOnce (act j a (record st { program = rest }))
  unfolding act
  act-IsOnce st (launch s w) rest h = enqueue-IsOnce st s (work w) rest (λ a i g. refl) h
  act-IsOnce st (wait_on s b k) rest h =
      enqueue-IsOnce st s (await_event b k (st.issued b k)) rest (λ a i g. refl) h
  act-IsOnce st (record_on s b k) rest h = record_on-IsOnce st s b k rest h
  act-IsOnce st (fill i) rest h = record { order = h.order; queued = h.queued; once = h.once }
  act-IsOnce st (synchronize b k) rest h = record {
    order = h.order;
    queued = h.queued;
    once = h.once;
  }
  act-IsOnce st (collect i) rest h = record { order = h.order; queued = h.queued; once = h.once }
  act-IsOnce st (elapsed b k b' k') rest h = record {
    order = h.order;
    queued = h.queued;
    once = h.once;
  }

  pub step-IsOnce : (st st' : State j) → IsOnce st → Step j st st' → IsOnce st'
  step-IsOnce st st' h (host_acts a rest e r) = act-IsOnce st a rest h
  step-IsOnce st st' h (stream_runs s c rest q r) = record {
    order = drop_first s h.order;
    queued = queued-drop_first s h.order st.queues c rest h.queued q;
    once = λ a i g.
        mark-has_run a i g c st.done (times a i g (drop_first s h.order)) (st.issued a i) (
          omega
            (arith, h.once a i g, times-drop_first a i g s h.order c rest (sym (h.queued s) ∙ q)));
  }

  pub start-IsOnce : (program : List Action) (m : Memory j) → IsOnce (start_program j program m)
  unfolding start_program
  start-IsOnce program m = record { order = []; queued = λ s. refl; once = λ a i g. ground arith }

  -- A record that has run waits nowhere.
  pub done-IsGone :
      (st : State j) (s a i g : ℕ) (front : List Command)
      → IsOnce st
      → st.queues s ≡ front ++ record_event a i g ∷ []
      → st.done a i g ≡ true
      → ⊥
  done-IsGone st s a i g front h q d =
      let one = h.once a i g in
      let waits = times-of_stream a i g s h.order in
      let same = ap (total (is_record a i g)) (sym (h.queued s) ∙ q) in
      let split = total-append (is_record a i g) front (record_event a i g ∷ []) in ground arith
