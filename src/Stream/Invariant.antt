-- ===== src/Stream/Invariant.antt =====
-- What holds in the middle of a host program that passes the check of `Stream.Facts`, kept by a stream
-- that runs a command.
use gpu_batch_inference_sche.Common.{
  ℕ, ◌≡◌, subst, ◌⊎◌, inl, inr, List, [], ◌∷◌, ◌++◌, Option, some, true, false, arith,
}
use gpu_batch_inference_sche.Stream.{
  Jobs, Command, work, record_event, await_event, Action, collect, put, Done, Memory, effect, mark,
  ready, State,
}
use gpu_batch_inference_sche.Stream.Facts.{
  Knowledge, Both, Within, Holds, Needs, Gives, After, Runs, Checks,
}
use gpu_batch_inference_sche.Stream.Keeps.{
  Both-Within, After-mono, Runs-mono, effect-keeps, effect-gives, put-all,
}

-- What the host reads in the course of a program.
abbrev pub expected : (j : Jobs) → List Action → List (Option j.Matrix)
expected j [] = []
expected j (collect i ∷ rest) = some (j.multiply i (j.input_a i) (j.input_b i)) ∷ expected j rest
expected j (a ∷ rest) = expected j rest

module _ (promise : (array i generation : ℕ) → Knowledge) (goal : Knowledge) (j : Jobs)
    (total : List (Option j.Matrix)) where
  -- The state in the middle of a program.
  pub record IsSound (st : State j) : Type 1 where
    pub known : Knowledge
    pub tails : ℕ → Knowledge
    pub checked : Checks promise goal known tails st.issued st.program
    pub known_holds : Within known (Holds j st.memory st.done)
    pub tails_hold :
        (s : ℕ) → Within (tails s) (After promise (Holds j st.memory st.done) (st.queues s))
    pub runs : (s : ℕ) → Runs promise (Holds j st.memory st.done) (st.queues s)
    pub kept :
        (array i generation : ℕ)
        → st.done array i generation ≡ true
        → Within (promise array i generation) (Holds j st.memory st.done)
    pub fine : st.failed ≡ false
    pub collected : st.results ++ expected j st.program ≡ total

  mark-new :
      (b k f : ℕ) (done : Done) (a i g : ℕ)
      → mark (record_event b k f) done a i g ≡ true
      → (done a i g ≡ true) ⊎ ((a ≡ b) × (i ≡ k) × (g ≡ f))
  unfolding mark
  mark-new b k f done a i g d = ground arith

  -- A new record is the one of the event at the head of the stream.
  mark-kept :
      (c : Command) (m : Memory j) (done : Done)
      → Within (Needs promise c) (Holds j m done)
      → ((array i generation : ℕ)
          → done array i generation ≡ true
          → Within (promise array i generation) (Holds j m done))
      → (array i generation : ℕ) → mark c done array i generation ≡ true
      → Within (promise array i generation) (Holds j m done)
  unfolding mark
  mark-kept (record_event b k f) m done n kept a i g d φ p = elim (mark-new b k f done a i g d) [
    | inl old ↦ kept a i g old φ p
    | inr (x, y, z) ↦ n φ (
        subst (λ t. promise t k f φ) x
          (subst (λ t. promise a t f φ) y (subst (λ t. promise a i t φ) z p)))
  ]
  mark-kept (work _) m done n kept a i g d φ p = kept a i g d φ p
  mark-kept (await_event _ _ _) m done n kept a i g d φ p = kept a i g d φ p

  -- A stream runs one command.
  pub stream-IsSound :
      (st : State j) (stream : ℕ) (c : Command) (rest : List Command)
      → IsSound st
      → st.queues stream ≡ c ∷ rest
      → ready c st.done ≡ true
      → IsSound (record st {
        queues = put stream rest st.queues;
        memory = effect j c st.memory;
        done = mark c st.done;
      })
  stream-IsSound st stream c rest h q r =
      let P : Knowledge = Holds j st.memory st.done in
      let P' : Knowledge = Holds j (effect j c st.memory) (mark c st.done) in
      let run : Runs promise P (c ∷ rest) = subst (Runs promise P) q (h.runs stream) in
      let keeps : Within P P' = effect-keeps promise j c st.memory st.done run.0 in
      let gives : Within (Gives promise c) P' =
        effect-gives promise j c st.memory st.done run.0 h.kept r in
      let both : Within (Both P (Gives promise c)) P' =
        Both-Within P (Gives promise c) P' keeps gives in
      record {
        known = h.known;
        tails = h.tails;
        checked = h.checked;
        known_holds = λ φ k. keeps φ (h.known_holds φ k);
        tails_hold =
            put-all (λ s x. Within (h.tails s) (After promise P' x)) stream rest st.queues
              (λ φ t.
                After-mono promise rest _ _ both φ
                  (subst (λ x. After promise P x φ) q (h.tails_hold stream φ t)))
              (λ s φ t. After-mono promise (st.queues s) _ _ keeps φ (h.tails_hold s φ t));
        runs =
            put-all (λ s x. Runs promise P' x) stream rest st.queues
              (Runs-mono promise rest _ _ both run.1)
              (λ s. Runs-mono promise (st.queues s) _ _ keeps (h.runs s));
        kept = λ a i g d φ p. keeps φ (mark-kept c st.memory st.done run.0 h.kept a i g d φ p);
        fine = h.fine;
        collected = h.collected;
      }
