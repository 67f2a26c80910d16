-- ===== src/Stream/Closing.antt =====
-- A host program that waits, at last, for the record that ends each of its streams leaves the streams
-- empty: a check of its text, and the two invariants behind it.
use gpu_batch_inference_sche.Common.{
  ℕ, suc, ◌≡◌, refl, sym, ap, subst, ◌∙◌, ◌⊎◌, inl, inr, List, [], ◌∷◌, ◌++◌, true, ◌==◌,
  if◌then◌else◌, Bool-cases,
}
use gpu_batch_inference_sche.Stream.{
  Jobs, Command, work, record_event, await_event, Action, fill, launch, record_on, wait_on,
  synchronize, collect, elapsed, put, Memory, State, act, enqueue, Step, host_acts, stream_runs,
  Reach, here, next, start_program,
}
use gpu_batch_inference_sche.Stream.Facts.{Fact, stamped, Knowledge, Within, Holds, Checks}
use gpu_batch_inference_sche.Stream.Order.{put-here, put-other, put-end}
use gpu_batch_inference_sche.Stream.Keeps.{==-same}
use gpu_batch_inference_sche.Stream.Once.{IsOnce, step-IsOnce, start-IsOnce, done-IsGone}
use gpu_batch_inference_sche.Stream.Sound.{checked-IsRight}

-- The last command that was given to a stream, as far as it matters.
pub data Tail : Type 0 where
  untouched busy : Tail
  closed : (array i generation : ℕ) → Tail

-- At the end of a program each stream was never used, or ends in a record that is known to have run.
abbrev pub Settled : Knowledge → Tail → Type 0
Settled goal untouched = Unit {0}
Settled goal busy = ⊥
Settled goal (closed array i generation) = goal (stamped array i generation)

abbrev pub Settles :
    (goal : Knowledge) (stream : ℕ) (tail : Tail) (issued : ℕ → ℕ → ℕ) → List Action → Type 0
Settles goal stream tail issued [] = Settled goal tail
Settles goal stream tail issued (launch s w ∷ rest) =
    Settles goal stream (if stream == s then busy else tail) issued rest
Settles goal stream tail issued (wait_on s array i ∷ rest) =
    Settles goal stream (if stream == s then busy else tail) issued rest
Settles goal stream tail issued (record_on s array i ∷ rest) =
    let generation : ℕ = suc (issued array i) in
    Settles goal stream (if stream == s then closed array i generation else tail)
      (put array (put i generation (issued array)) issued) rest
Settles goal stream tail issued (fill i ∷ rest) = Settles goal stream tail issued rest
Settles goal stream tail issued (synchronize array i ∷ rest) = Settles goal stream tail issued rest
Settles goal stream tail issued (collect i ∷ rest) = Settles goal stream tail issued rest
Settles goal stream tail issued (elapsed array i array' i' ∷ rest) =
    Settles goal stream tail issued rest

-- What the tail says of the commands that the stream has left.
abbrev Fits : Tail → List Command → Type 0
Fits untouched q = q ≡ []
Fits busy q = Unit {0}
Fits (closed array i generation) q =
    (q ≡ []) ⊎ ((front : List Command) × (q ≡ front ++ record_event array i generation ∷ []))

pop-ended :
    (front : List Command) (r c : Command) (rest : List Command)
    → c ∷ rest ≡ front ++ r ∷ []
    → (rest ≡ []) ⊎ ((front' : List Command) × (rest ≡ front' ++ r ∷ []))
pop-ended [] r c rest e = inl cc
pop-ended (b ∷ front) r c rest e = inr (front, cc)

Fits-pop : (tail : Tail) (c : Command) (rest : List Command) → Fits tail (c ∷ rest) → Fits tail rest
Fits-pop untouched c rest h = absurd cc
Fits-pop busy c rest h = tt
Fits-pop (closed array i g) c rest (inl e) = absurd cc
Fits-pop (closed array i g) c rest (inr (front, e)) =
    pop-ended front (record_event array i g) c rest e

module _ (j : Jobs) (goal : Knowledge) (stream : ℕ) where
  record IsClosing (st : State j) : Type 0 where
    tail : Tail
    settles : Settles goal stream tail st.issued st.program
    fits : Fits tail (st.queues stream)

  -- A command at the end of some stream.
  enqueue-Fits :
      (tail new : Tail) (s : ℕ) (c : Command) (queues : ℕ → List Command)
      → Fits tail (queues stream)
      → ((q : List Command) → Fits new (q ++ c ∷ []))
      → Fits (if stream == s then new else tail) (put s (queues s ++ c ∷ []) queues stream)
  enqueue-Fits tail new s c queues h n = elim (Bool-cases (stream == s)) [
    | inl e ↦ rw (put-end s (c ∷ []) queues stream) (rw e (n (queues stream)))
    | inr e ↦ rw (put-end s (c ∷ []) queues stream) (rw e h)
  ]

  act-IsClosing :
      (st : State j) (a : Action) (rest : List Action) (h : IsClosing st)
      → Settles goal stream h.tail st.issued (a ∷ rest)
      → IsClosing (act j a (record st { program = rest }))
  unfolding act enqueue
  act-IsClosing st (fill i) rest h e = record { tail = h.tail; settles = e; fits = h.fits }
  act-IsClosing st (launch s w) rest h e = record {
    tail = if stream == s then busy else h.tail;
    settles = e;
    fits = enqueue-Fits h.tail busy s (work w) st.queues h.fits (λ q. tt);
  }
  act-IsClosing st (wait_on s b k) rest h e = record {
    tail = if stream == s then busy else h.tail;
    settles = e;
    fits = enqueue-Fits h.tail busy s (await_event b k (st.issued b k)) st.queues h.fits (λ q. tt);
  }
  act-IsClosing st (record_on s b k) rest h e =
      let g : ℕ = suc (st.issued b k) in
      record {
        tail = if stream == s then closed b k g else h.tail;
        settles = e;
        fits =
            enqueue-Fits h.tail (closed b k g) s (record_event b k g) st.queues h.fits
              (λ q. inr (q, refl));
      }
  act-IsClosing st (synchronize b k) rest h e = record { tail = h.tail; settles = e; fits = h.fits }
  act-IsClosing st (collect i) rest h e = record { tail = h.tail; settles = e; fits = h.fits }
  act-IsClosing st (elapsed b k b' k') rest h e = record {
    tail = h.tail;
    settles = e;
    fits = h.fits;
  }

  step-IsClosing : (st st' : State j) → IsClosing st → Step j st st' → IsClosing st'
  step-IsClosing st st' h (host_acts a rest e r) =
      act-IsClosing st a rest h (subst (Settles goal stream h.tail st.issued) e h.settles)
  step-IsClosing st st' h (stream_runs s c rest q r) = record {
    tail = h.tail;
    settles = h.settles;
    fits = elim (Bool-cases (stream == s)) [
      | inl e ↦
          let same = ==-same stream s e in
          subst (λ t. Fits h.tail (put s rest st.queues t)) (sym same)
            (rw (put-here s rest st.queues)
              (Fits-pop h.tail c rest (subst (Fits h.tail) (ap st.queues same ∙ q) h.fits)))
      | inr e ↦ rw (put-other s rest st.queues stream e) h.fits
    ];
  }

  reach-IsClosing :
      (begin st : State j)
      → IsClosing begin × IsOnce j begin
      → Reach j begin st
      → IsClosing st × IsOnce j st
  reach-IsClosing begin st h here = h
  reach-IsClosing begin st h (next {x} r s) =
      let (closing, once) = reach-IsClosing begin x h r in
      (step-IsClosing x st closing s, step-IsOnce j x st once s)

  start-IsClosing :
      (program : List Action) (m : Memory j)
      → Settles goal stream untouched (λ array i. 0) program
      → IsClosing (start_program j program m)
  unfolding start_program
  start-IsClosing program m settles = record { tail = untouched; settles = settles; fits = refl }

  -- The stream is empty when its last record has run.
  Settled-IsEmpty :
      (st : State j) (tail : Tail)
      → Settled goal tail
      → Fits tail (st.queues stream)
      → IsOnce j st
      → ((a i g : ℕ) → goal (stamped a i g) → st.done a i g ≡ true)
      → st.queues stream ≡ []
  Settled-IsEmpty st untouched s f once known = f
  Settled-IsEmpty st busy s f once known = elim s [ ]
  Settled-IsEmpty st (closed a i g) s (inl e) once known = e
  Settled-IsEmpty st (closed a i g) s (inr (front, e)) once known =
      elim (done-IsGone j st stream a i g front once e (known a i g s)) [ ]

-- A host program that passes the check of `Stream.Facts`, and knows at its end that the record which
-- ends each of its streams has run, leaves every stream empty.
pub settled-IsDrained :
    (promise : (array i generation : ℕ) → Knowledge) (given goal : Knowledge) (j : Jobs)
    (program : List Action) (m : Memory j) (st : State j)
    → ((array i : ℕ) (φ : Fact) → promise array i 0 φ → ⊥)
    → Within given (Holds j m (λ array i generation. generation == 0))
    → Checks promise goal given (λ s. given) (λ array i. 0) program
    → ((s : ℕ) → Settles goal s untouched (λ array i. 0) program)
    → Reach j (start_program j program m) st
    → st.program ≡ []
    → (s : ℕ) → st.queues s ≡ []
settled-IsDrained promise given goal j program m st empty right checked settles r e s =
    let known = (checked-IsRight promise given goal j program m st empty right checked r e).2 in
    let (closing, once) =
      reach-IsClosing j goal s (start_program j program m) st
        (start-IsClosing j goal s program m (settles s), start-IsOnce j program m) r in
    Settled-IsEmpty j goal s st closing.tail
      (subst (Settles goal s closing.tail st.issued) e closing.settles) closing.fits once
      (λ a i g k. known (stamped a i g) k)
