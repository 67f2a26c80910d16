-- ===== src/Stream/Failing.antt =====
-- Calls of the CUDA runtime that fail: the host leaves its program, and the streams go on.
use gpu_batch_inference_sche.Common.{
  ℕ, suc, ◌≡◌, refl, sym, ap, ◌∙◌, List, [], ◌∷◌, ◌++◌, Option, true, arith, length, subst,
}
use gpu_batch_inference_sche.Stream.{
  Jobs, Command, Action, State, act, can_act, Step, host_acts, stream_runs, Runtime,
}
use gpu_batch_inference_sche.Stream.Order.{of_stream, of_stream-head, mark_all}
use gpu_batch_inference_sche.Stream.Progress.{IsLive, step-IsLive}

-- The next call of the host throws, before or after it has had its effect.
pub data Break {j : Jobs} (st : State j) : State j → Type 0 where
  before_effect :
      (a : Action) (rest : List Action)
      → st.program ≡ a ∷ rest
      → Break st (record st { program = [] })
  after_effect :
      (a : Action) (rest : List Action)
      → st.program ≡ a ∷ rest
      → can_act j a st ≡ true
      → Break st (record (act j a (record st { program = rest })) { program = [] })

-- Which calls fail on a machine, and how.
pub record Faults {j : Jobs} (cuda : Runtime j) : Type 1 where
  pub Breaks : cuda.Device → cuda.Device → Type 0
  pub break_documented : (d d' : cuda.Device) → Breaks d d' → Break (cuda.view d) (cuda.view d')

-- All streams are empty, and the latest record of each event has run.
abbrev pub IsQuiet : (j : Jobs) → State j → Type 0
IsQuiet j st = ((s : ℕ) → st.queues s ≡ []) × ((a i : ℕ) → st.done a i (st.issued a i) ≡ true)

module _ (j : Jobs) (limit : ℕ) where
  -- A host that leaves its program.
  leave-IsLive :
      (used : ℕ) (st : State j)
      → IsLive j limit used st
      → IsLive j limit used (record st { program = [] })
  leave-IsLive used st h = record {
    order = h.order;
    queued = h.queued;
    live = h.live;
    recorded = h.recorded;
    bound = omega (arith, h.bound);
  }

  pub Break-IsLive :
      (used : ℕ) (st st' : State j)
      → IsLive j limit used st
      → Break st st'
      → IsLive j limit (suc used) st'
  Break-IsLive used st st' h (before_effect a rest e) = record {
    order = h.order;
    queued = h.queued;
    live = h.live;
    recorded = h.recorded;
    bound = omega (arith, h.bound, ap length e);
  }
  Break-IsLive used st st' h (after_effect a rest e r) =
      leave-IsLive (suc used) _ (step-IsLive j limit used st _ h (host_acts a rest e r))

no_commands : (order : List (ℕ × Command)) → ((s : ℕ) → [] ≡ of_stream s order) → order ≡ []
no_commands [] h = refl
no_commands ((t, c) ∷ order) h =
    let e : [] ≡ c ∷ of_stream t order = h t ∙ of_stream-head t c order in absurd cc

-- Where no command waits, the streams are quiet.
pub IsLive-IsQuiet :
    (j : Jobs) (limit used : ℕ) (st : State j)
    → IsLive j limit used st
    → ((s : ℕ) → st.queues s ≡ [])
    → IsQuiet j st
IsLive-IsQuiet j limit used st h q =
    let none : h.order ≡ [] = no_commands h.order (λ s. sym (q s) ∙ h.queued s) in
    (q, λ a i. subst (λ o. mark_all o st.done a i (st.issued a i) ≡ true) none (h.recorded a i))

-- What the host has read is the beginning of what it was to read.
abbrev pub ReadsFirst {ℓ} : {A : Type ℓ} → (results total : List A) → Type ℓ
ReadsFirst {A = A} results total = (left : List A) × (results ++ left ≡ total)

module _ {j : Jobs} (total : List (Option j.Matrix)) where
  pub Break-ReadsFirst :
      (st st' : State j)
      → ((x : State j) → Step j st x → ReadsFirst x.results total)
      → ReadsFirst st.results total
      → Break st st'
      → ReadsFirst st'.results total × (st'.program ≡ [])
  Break-ReadsFirst st st' steps h (before_effect a rest e) = (h, refl)
  Break-ReadsFirst st st' steps h (after_effect a rest e r) = (steps _ (host_acts a rest e r), refl)

  -- A host that has left its program reads nothing more.
  pub drain-ReadsFirst :
      (st st' : State j)
      → ReadsFirst st.results total
      → st.program ≡ []
      → Step j st st'
      → ReadsFirst st'.results total × (st'.program ≡ [])
  drain-ReadsFirst st st' h e (host_acts a rest e' r) = absurd cc
  drain-ReadsFirst st st' h e (stream_runs s c rest q r) = (h, e)
