-- ===== src/Stream/Sound.antt =====
-- Host programs that pass the check of `Stream.Facts` do what they should, however the streams
-- interleave.
use gpu_batch_inference_sche.Common.{
  ℕ, suc, append_assoc, append-nil, ◌≡◌, refl, sym, ap, subst, ◌∙◌, ◌⊎◌, inl, inr, List, [], ◌∷◌,
  ◌++◌, Option, some, true, false, ◌==◌, arith,
}
use gpu_batch_inference_sche.Stream.{
  Jobs, Command, work, record_event, await_event, Action, fill, launch, record_on, wait_on,
  synchronize, collect, elapsed, put, Memory, State, act, can_act, enqueue, Step, host_acts,
  stream_runs, Reach, here, next, start_program,
}
use gpu_batch_inference_sche.Stream.Facts.{
  Fact, filled_a, filled_b, copied, stamped, Knowledge, Both, Within, Holds, Needs, Gives, After,
  Runs, Checks,
}
use gpu_batch_inference_sche.Stream.Keeps.{
  ==-same, Both-Within, Both-mono, After-mono, Runs-mono, After-snoc, Runs-snoc, put-all, put-both,
  After-start,
}
use gpu_batch_inference_sche.Stream.Invariant.{expected, IsSound, stream-IsSound}

module _ (promise : (array i generation : ℕ) → Knowledge) (goal : Knowledge) (j : Jobs)
    (total : List (Option j.Matrix)) where
  -- The host appends a command to a stream.
  enqueue-IsSound :
      (st : State j) (tails : ℕ → Knowledge) (stream : ℕ) (c : Command)
      → ((s : ℕ) → Within (tails s) (After promise (Holds j st.memory st.done) (st.queues s)))
      → ((s : ℕ) → Runs promise (Holds j st.memory st.done) (st.queues s))
      → Within (Needs promise c) (tails stream)
      → ((s : ℕ)
          → Within (put stream (Both (tails stream) (Gives promise c)) tails s) (
              After promise
                (Holds j st.memory st.done)
                (put stream (st.queues stream ++ c ∷ []) st.queues s)))
        × ((s : ℕ)
            → Runs promise
                (Holds j st.memory st.done)
                (put stream (st.queues stream ++ c ∷ []) st.queues s))
  enqueue-IsSound st tails stream c t r n =
      let P : Knowledge = Holds j st.memory st.done in
      let q : List Command = st.queues stream in
      (
        put-both (λ k x. Within k (After promise P x)) stream
            (Both (tails stream) (Gives promise c)) (q ++ c ∷ []) tails st.queues
            (λ φ h. After-snoc promise q c P φ (
              Both-mono promise (tails stream) (After promise P q) (Gives promise c) (t stream) φ
                h))
            t,
        put-all (λ s x. Runs promise P x) stream (q ++ c ∷ []) st.queues
            (Runs-snoc promise q c P (r stream) (λ φ h. t stream φ (n φ h))) r,
      )

  -- The host fills the buffers of a job.
  fill-keeps :
      (i : ℕ) (st : State j)
      → Within (Holds j st.memory st.done) (Holds j ((act j (fill i) st).memory) st.done)
  unfolding act
  fill-keeps i st (filled_a k) h = ground arith
  fill-keeps i st (filled_b k) h = ground arith
  fill-keeps i st φ h = h

  fill-gives :
      (i : ℕ) (st : State j)
      → Within
          (λ φ. (φ ≡ filled_a i) ⊎ (φ ≡ filled_b i))
          (Holds j ((act j (fill i) st).memory) st.done)
  unfolding act
  fill-gives i st φ (inl g) =
      let P : Knowledge = Holds j ((act j (fill i) st).memory) st.done in
      let right : P (filled_a i) = ground arith in subst P (sym g) right
  fill-gives i st φ (inr g) =
      let P : Knowledge = Holds j ((act j (fill i) st).memory) st.done in
      let right : P (filled_b i) = ground arith in subst P (sym g) right

  -- The host makes one call.
  act-IsSound :
      (st : State j) (a : Action) (rest : List Action) (h : IsSound promise goal j total st)
      → Checks promise goal h.known h.tails st.issued (a ∷ rest)
      → st.results ++ expected j (a ∷ rest) ≡ total
      → can_act j a st ≡ true
      → IsSound promise goal j total (act j a (record st { program = rest }))
  unfolding act can_act enqueue
  act-IsSound st (fill i) rest h checked collected r =
      let P : Knowledge = Holds j st.memory st.done in
      let P' : Knowledge = Holds j ((act j (fill i) st).memory) st.done in
      let keeps : Within P P' = fill-keeps i st in
      record {
        known = h.known;
        tails = λ s. Both (h.tails s) (λ φ. (φ ≡ filled_a i) ⊎ (φ ≡ filled_b i));
        checked = checked;
        known_holds = λ φ k. keeps φ (h.known_holds φ k);
        tails_hold = λ s.
            Both-Within (h.tails s) (λ φ. (φ ≡ filled_a i) ⊎ (φ ≡ filled_b i))
              (After promise P' (st.queues s))
              (λ φ t. After-mono promise (st.queues s) P P' keeps φ (h.tails_hold s φ t))
              (λ φ t. After-start promise (st.queues s) P' φ (fill-gives i st φ t));
        runs = λ s. Runs-mono promise (st.queues s) P P' keeps (h.runs s);
        kept = λ a k g d φ p. keeps φ (h.kept a k g d φ p);
        fine = h.fine;
        collected = collected;
      }
  act-IsSound st (launch stream w) rest h checked collected r =
      let c : Command = work w in
      let p = enqueue-IsSound st h.tails stream c h.tails_hold h.runs checked.0 in
      record {
        known = h.known;
        tails = put stream (Both (h.tails stream) (Gives promise c)) h.tails;
        checked = checked.1;
        known_holds = h.known_holds;
        tails_hold = p.0;
        runs = p.1;
        kept = h.kept;
        fine = h.fine;
        collected = collected;
      }
  act-IsSound st (record_on stream array i) rest h checked collected r =
      let c : Command = record_event array i (suc (st.issued array i)) in
      let p = enqueue-IsSound st h.tails stream c h.tails_hold h.runs checked.0 in
      record {
        known = h.known;
        tails = put stream (Both (h.tails stream) (Gives promise c)) h.tails;
        checked = checked.1;
        known_holds = h.known_holds;
        tails_hold = p.0;
        runs = p.1;
        kept = h.kept;
        fine = h.fine;
        collected = collected;
      }
  act-IsSound st (wait_on stream array i) rest h checked collected r =
      let c : Command = await_event array i (st.issued array i) in
      let p = enqueue-IsSound st h.tails stream c h.tails_hold h.runs (λ φ. elim [ ]) in
      record {
        known = h.known;
        tails = put stream (Both (h.tails stream) (Gives promise c)) h.tails;
        checked = checked;
        known_holds = h.known_holds;
        tails_hold = p.0;
        runs = p.1;
        kept = h.kept;
        fine = h.fine;
        collected = collected;
      }
  act-IsSound st (synchronize array i) rest h checked collected r =
      let P : Knowledge = Holds j st.memory st.done in
      let learned : Knowledge =
        λ φ. promise array i (st.issued array i) φ ⊎ (φ ≡ stamped array i (st.issued array i)) in
      let holds : Within learned P =
        Both-Within (promise array i (st.issued array i))
          (λ φ. φ ≡ stamped array i (st.issued array i)) P (h.kept array i (st.issued array i) r)
          (λ φ e. subst P (sym e) r) in
      record {
        known = Both h.known learned;
        tails = λ s. Both (h.tails s) learned;
        checked = checked;
        known_holds = Both-Within h.known learned P h.known_holds holds;
        tails_hold = λ s.
            Both-Within (h.tails s) learned (After promise P (st.queues s)) (h.tails_hold s)
              (λ φ l. After-start promise (st.queues s) P φ (holds φ l));
        runs = h.runs;
        kept = h.kept;
        fine = h.fine;
        collected = collected;
      }
  act-IsSound st (collect i) rest h checked collected r =
      let right : st.memory.host_c i ≡ some (j.multiply i (j.input_a i) (j.input_b i)) =
        h.known_holds (copied i) checked.0 in
      record {
        known = h.known;
        tails = h.tails;
        checked = checked.1;
        known_holds = h.known_holds;
        tails_hold = h.tails_hold;
        runs = h.runs;
        kept = h.kept;
        fine = h.fine;
        collected =
            append_assoc st.results (st.memory.host_c i ∷ []) (expected j rest)
            ∙ ap (λ x. st.results ++ x ∷ expected j rest) right
            ∙ collected;
      }
  act-IsSound st (elapsed a i b k) rest h checked collected r =
      let first = h.known_holds (stamped a i (st.issued a i)) checked.0 in
      let second = h.known_holds (stamped b k (st.issued b k)) checked.1 in
      let old = h.fine in
      record {
        known = h.known;
        tails = h.tails;
        checked = checked.2;
        known_holds = h.known_holds;
        tails_hold = h.tails_hold;
        runs = h.runs;
        kept = h.kept;
        fine = ground arith;
        collected = collected;
      }

  step-IsSound :
      (st st' : State j)
      → IsSound promise goal j total st
      → Step j st st'
      → IsSound promise goal j total st'
  step-IsSound st st' h (host_acts a rest e r) =
      act-IsSound st a rest h (subst (Checks promise goal h.known h.tails st.issued) e h.checked)
        (subst (λ x. st.results ++ expected j x ≡ total) e h.collected) r
  step-IsSound st st' h (stream_runs stream c rest q r) =
      stream-IsSound promise goal j total st stream c rest h q r

  reach-IsSound :
      (st st' : State j)
      → IsSound promise goal j total st
      → Reach j st st'
      → IsSound promise goal j total st'
  reach-IsSound st st' h here = h
  reach-IsSound st st' h (next {x} r s) = step-IsSound x st' (reach-IsSound st x h r) s

-- The start, where only `given` is known.
start-IsSound :
    (promise : (array i generation : ℕ) → Knowledge) (given goal : Knowledge) (j : Jobs)
    (program : List Action) (m : Memory j)
    → ((array i : ℕ) (φ : Fact) → promise array i 0 φ → ⊥)
    → Within given (Holds j m (λ array i generation. generation == 0))
    → Checks promise goal given (λ s. given) (λ array i. 0) program
    → IsSound promise goal j (expected j program) (start_program j program m)
unfolding start_program
start-IsSound promise given goal j program m empty right checked = record {
  known = given;
  tails = λ s. given;
  checked = checked;
  known_holds = right;
  tails_hold = λ s. right;
  runs = λ s. tt;
  kept = λ array i g d φ p.
      elim (empty array i φ (subst (λ k. promise array i k φ) (==-same g 0 d) p)) [ ];
  fine = refl;
  collected = refl;
}

-- A host program that passes the check from what is `given`, and holds in the buffers at the start,
-- reads the right products, asks for no time of an event that has not run, and knows `goal` when it
-- ends.
pub checked-IsRight :
    (promise : (array i generation : ℕ) → Knowledge) (given goal : Knowledge) (j : Jobs)
    (program : List Action) (m : Memory j) (st : State j)
    → ((array i : ℕ) (φ : Fact) → promise array i 0 φ → ⊥)
    → Within given (Holds j m (λ array i generation. generation == 0))
    → Checks promise goal given (λ s. given) (λ array i. 0) program
    → Reach j (start_program j program m) st
    → st.program ≡ []
    → (st.results ≡ expected j program)
      × (st.failed ≡ false)
      × Within goal (Holds j st.memory st.done)
unfolding start_program
checked-IsRight promise given goal j program m st empty right checked r e =
    let P : Knowledge = Holds j st.memory st.done in
    let sound =
      reach-IsSound promise goal j (expected j program) (start_program j program m) st
        (start-IsSound promise given goal j program m empty right checked) r in
    let ended : Checks promise goal sound.known sound.tails st.issued [] =
      subst (Checks promise goal sound.known sound.tails st.issued) e sound.checked in
    (
      sym (append-nil st.results) ∙ sym (ap (λ p. st.results ++ expected j p) e) ∙ sound.collected,
      sound.fine,
      λ φ g. sound.known_holds φ (ended φ g),
    )

-- What such a program has read, at any time, is the beginning of what it is to read.
pub checked-ReadsFirst :
    (promise : (array i generation : ℕ) → Knowledge) (given goal : Knowledge) (j : Jobs)
    (program : List Action) (m : Memory j) (st : State j)
    → ((array i : ℕ) (φ : Fact) → promise array i 0 φ → ⊥)
    → Within given (Holds j m (λ array i generation. generation == 0))
    → Checks promise goal given (λ s. given) (λ array i. 0) program
    → Reach j (start_program j program m) st
    → (left : List (Option j.Matrix)) × (st.results ++ left ≡ expected j program)
checked-ReadsFirst promise given goal j program m st empty right checked r =
    let sound =
      reach-IsSound promise goal j (expected j program) (start_program j program m) st
        (start-IsSound promise given goal j program m empty right checked) r in
    (expected j st.program, sound.collected)
