-- ===== src/Stream/Order.antt =====
-- The commands that wait on all streams, in one order in which each can run when its turn comes.
use gpu_batch_inference_sche.Common.{
  ℕ, suc, ◌≡◌, refl, sym, subst, ap, ◌∙◌, inl, inr, List, [], ◌∷◌, ◌++◌, true, false, ◌==◌,
  if◌then◌else◌, arith, Bool-cases, length,
}
use gpu_batch_inference_sche.Stream.Keeps.{==-same}
use gpu_batch_inference_sche.Stream.{
  Command, work, record_event, await_event, put, Done, mark, ready,
}

-- The commands of one stream.
abbrev pub of_stream : ℕ → List (ℕ × Command) → List Command
of_stream s [] = []
of_stream s ((t, c) ∷ order) = if s == t then c ∷ of_stream s order else of_stream s order

-- The records that have run after all the commands, and that each can run in its turn.
abbrev pub mark_all : List (ℕ × Command) → Done → Done
mark_all [] done = done
mark_all ((t, c) ∷ order) done = mark_all order (mark c done)

abbrev pub Live : List (ℕ × Command) → Done → Type 0
Live [] done = Unit {0}
Live ((t, c) ∷ order) done = (ready c done ≡ true) × Live order (mark c done)

abbrev pub Below : Done → Done → Type 0
Below d d' = (a i g : ℕ) → d a i g ≡ true → d' a i g ≡ true

pub mark_mono : (c : Command) (d d' : Done) → Below d d' → Below (mark c d) (mark c d')
unfolding mark
mark_mono (record_event b k f) d d' h a i g e = let old = h a i g in ground arith
mark_mono (work _) d d' h a i g e = h a i g e
mark_mono (await_event _ _ _) d d' h a i g e = h a i g e

pub mark-grows : (c : Command) (d : Done) → Below d (mark c d)
unfolding mark
mark-grows (record_event b k f) d a i g e = ground arith
mark-grows (work _) d a i g e = e
mark-grows (await_event _ _ _) d a i g e = e

pub mark-swap : (c c' : Command) (d : Done) → Below (mark c (mark c' d)) (mark c' (mark c d))
unfolding mark
mark-swap (record_event b k f) (record_event b' k' f') d a i g e = ground arith
mark-swap c c' d a i g e = e

pub ready_mono : (c : Command) (d d' : Done) → Below d d' → ready c d ≡ true → ready c d' ≡ true
unfolding ready
ready_mono (await_event a i g) d d' h e = h a i g e
ready_mono (record_event _ _ _) d d' h e = e
ready_mono (work _) d d' h e = e

pub mark_all_mono :
    (order : List (ℕ × Command)) (d d' : Done)
    → Below d d'
    → Below (mark_all order d) (mark_all order d')
mark_all_mono [] d d' h = h
mark_all_mono ((t, c) ∷ order) d d' h = mark_all_mono order _ _ (mark_mono c d d' h)

pub Live-mono :
    (order : List (ℕ × Command)) (d d' : Done) → Below d d' → Live order d → Live order d'
Live-mono [] d d' h l = tt
Live-mono ((t, c) ∷ order) d d' h l =
    (ready_mono c d d' h l.0, Live-mono order _ _ (mark_mono c d d' h) l.1)

-- One more command at the end.
pub Live-snoc :
    (order : List (ℕ × Command)) (s : ℕ) (c : Command) (d : Done)
    → Live order d
    → ready c (mark_all order d) ≡ true
    → Live (order ++ (s, c) ∷ []) d
Live-snoc [] s c d l r = (r, tt)
Live-snoc ((t, b) ∷ order) s c d l r = (l.0, Live-snoc order s c (mark b d) l.1 r)

pub mark_all-snoc :
    (order : List (ℕ × Command)) (s : ℕ) (c : Command) (d : Done)
    → mark_all (order ++ (s, c) ∷ []) d ≡ mark c (mark_all order d)
mark_all-snoc [] s c d = refl
mark_all-snoc ((t, b) ∷ order) s c d = mark_all-snoc order s c (mark b d)

pub of_stream-snoc :
    (s : ℕ) (order : List (ℕ × Command)) (t : ℕ) (c : Command)
    → of_stream s (order ++ (t, c) ∷ [])
      ≡ (if s == t then of_stream s order ++ c ∷ [] else of_stream s order)
of_stream-snoc s [] t c = refl
of_stream-snoc s ((u, b) ∷ order) t c = let rec = of_stream-snoc s order t c in ground arith

-- Without the next command of a stream.
abbrev pub drop_first : ℕ → List (ℕ × Command) → List (ℕ × Command)
drop_first s [] = []
drop_first s ((t, c) ∷ order) = if s == t then order else (t, c) ∷ drop_first s order

pub of_stream-drop_first :
    (s : ℕ) (order : List (ℕ × Command)) (c : Command) (rest : List Command)
    → of_stream s order ≡ c ∷ rest
    → (of_stream s (drop_first s order) ≡ rest) × (length order ≡ suc (length (drop_first s order)))
of_stream-drop_first s [] c rest e = ground arith
of_stream-drop_first s ((t, b) ∷ order) c rest e =
    let rec = of_stream-drop_first s order c rest in
    elim (Bool-cases (s == t)) [ inl h ↦ ground arith | inr h ↦ ground arith ]

pub of_stream-other :
    (s t : ℕ) (order : List (ℕ × Command))
    → t == s ≡ false
    → of_stream t (drop_first s order) ≡ of_stream t order
of_stream-other s t [] h = refl
of_stream-other s t ((u, b) ∷ order) h = let rec = of_stream-other s t order h in ground arith

-- Where the next command stands.
pub of_stream-hit :
    (s t : ℕ) (b : Command) (order : List (ℕ × Command)) (c : Command) (rest : List Command)
    → s == t ≡ true
    → of_stream s ((t, b) ∷ order) ≡ c ∷ rest
    → (b ≡ c) × (drop_first s ((t, b) ∷ order) ≡ order)
of_stream-hit s t b order c rest h e = ground arith

pub of_stream-miss :
    (s t : ℕ) (b : Command) (order : List (ℕ × Command)) (c : Command) (rest : List Command)
    → s == t ≡ false
    → of_stream s ((t, b) ∷ order) ≡ c ∷ rest
    → (of_stream s order ≡ c ∷ rest) × (drop_first s ((t, b) ∷ order) ≡ (t, b) ∷ drop_first s order)
of_stream-miss s t b order c rest h e = ground arith

-- The next command of a stream may run before its turn.
pub Live-drop_first :
    (s : ℕ) (order : List (ℕ × Command)) (c : Command) (rest : List Command) (d : Done)
    → of_stream s order ≡ c ∷ rest
    → Live order d
    → Live (drop_first s order) (mark c d)
      × Below (mark_all order d) (mark_all (drop_first s order) (mark c d))
Live-drop_first s [] c rest d e l = ground arith
Live-drop_first s ((t, b) ∷ order) c rest d e l =
    let Goal : Command → List (ℕ × Command) → Type 0 =
      λ x o. Live o (mark x d) × Below (mark_all order (mark b d)) (mark_all o (mark x d)) in
    elim (Bool-cases (s == t)) [
      | inl h ↦
          let (same, left) = of_stream-hit s t b order c rest h e in
          subst (λ x. Goal x (drop_first s ((t, b) ∷ order))) same
            (subst (Goal b) (sym left) (l.1, λ a i g k. k))
      | inr h ↦
          let (more, left) = of_stream-miss s t b order c rest h e in
          let rec = Live-drop_first s order c rest (mark b d) more l.1 in
          let swap = mark-swap c b d in
          subst (Goal c) (sym left) (
            (
              ready_mono b d (mark c d) (mark-grows c d) l.0,
              Live-mono (drop_first s order) _ _ swap rec.0,
            ),
            λ a i g k. mark_all_mono (drop_first s order) _ _ swap a i g (rec.1 a i g k),
          )
    ]

pub of_stream-head :
    (t : ℕ) (c : Command) (order : List (ℕ × Command))
    → of_stream t ((t, c) ∷ order) ≡ c ∷ of_stream t order
of_stream-head t c order = ground arith

pub put-here : (s : ℕ) (v : List Command) (f : ℕ → List Command) → put s v f s ≡ v
put-here s v f = ground arith

pub put-other :
    (s : ℕ) (v : List Command) (f : ℕ → List Command) (t : ℕ) → t == s ≡ false → put s v f t ≡ f t
put-other s v f t h = ground arith

pub put-end :
    (s : ℕ) (v : List Command) (f : ℕ → List Command) (t : ℕ)
    → put s (f s ++ v) f t ≡ (if t == s then f t ++ v else f t)
put-end s v f t = ground arith

-- The queues of the streams, after one of them has run its next command.
pub queued-drop_first :
    (s : ℕ) (order : List (ℕ × Command)) (queues : ℕ → List Command) (c : Command)
    (rest : List Command)
    → ((t : ℕ) → queues t ≡ of_stream t order)
    → queues s ≡ c ∷ rest
    → (t : ℕ) → put s rest queues t ≡ of_stream t (drop_first s order)
queued-drop_first s order queues c rest queued q t =
    let dropped = of_stream-drop_first s order c rest (sym (queued s) ∙ q) in
    elim (Bool-cases (t == s)) [
      | inl k ↦
          subst (λ x. put s rest queues x ≡ of_stream x (drop_first s order)) (sym (==-same t s k))
            (put-here s rest queues ∙ sym dropped.0)
      | inr k ↦ put-other s rest queues t k ∙ queued t ∙ sym (of_stream-other s t order k)
    ]

-- And after the host has given one of them a command.
pub queued-snoc :
    (s : ℕ) (order : List (ℕ × Command)) (queues : ℕ → List Command) (c : Command)
    → ((t : ℕ) → queues t ≡ of_stream t order)
    → (t : ℕ) → put s (queues s ++ c ∷ []) queues t ≡ of_stream t (order ++ (s, c) ∷ [])
queued-snoc s order queues c queued t =
    put-end s (c ∷ []) queues t
    ∙ ap (λ q. if t == s then q ++ c ∷ [] else q) (queued t)
    ∙ sym (of_stream-snoc t order s c)
