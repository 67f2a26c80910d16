-- ===== src/Bench/Timed.antt =====
-- The timed runs of bench/bench_gemm.cpp read events that have run, and give the product.
use gpu_batch_inference_sche.Common.{
  ℕ, zero, suc, ◌≡◌, refl, sym, ap, subst, ◌∙◌, ◌⊎◌, inl, inr, List, [], ◌∷◌, ◌++◌, some, Option,
  Bool, true, false, ◌==◌, if◌then◌else◌,
}
use gpu_batch_inference_sche.Stream.{Jobs, Action, Memory, Runtime, Execution, Reach, start_program}
use gpu_batch_inference_sche.Stream.Facts.{
  filled_a, filled_b, copied, stamped, Knowledge, Within, Holds, Checks,
}
use gpu_batch_inference_sche.Stream.Invariant.{expected}
use gpu_batch_inference_sche.Stream.Progress.{path_of}
use gpu_batch_inference_sche.Stream.Sound.{checked-IsRight}
use gpu_batch_inference_sche.Bench.{timed_run, timed_runs}

-- The inputs are on the host.
abbrev Given : Knowledge
Given φ = (φ ≡ filled_a 0) ⊎ (φ ≡ filled_b 0)

-- What `e_end` stands for in run `g`: the product is back, and the other events have run.
abbrev Timed : ℕ → Knowledge
Timed g φ =
    (φ ≡ copied 0)
    ⊎ ((φ ≡ stamped 0 0 g) ⊎ ((φ ≡ stamped 1 0 g) ⊎ ((φ ≡ stamped 2 0 g) ⊎ (φ ≡ stamped 3 0 g))))

abbrev promise : (array i generation : ℕ) → Knowledge
promise array i zero φ = ⊥
promise array i (suc g) φ = if array == 4 then Timed (suc g) φ else ⊥

abbrev Nothing : Knowledge
Nothing φ = ⊥

-- The five events have been recorded `g` times.
record Counts (g : ℕ) (issued : ℕ → ℕ → ℕ) : Type 0 where
  at_start : issued 0 0 ≡ g
  at_h2d : issued 1 0 ≡ g
  at_k0 : issued 2 0 ≡ g
  at_k1 : issued 3 0 ≡ g
  at_end : issued 4 0 ≡ g

abbrev Ok : Knowledge → (ℕ → Knowledge) → (ℕ → ℕ → ℕ) → List Action → Type 0
Ok known tails issued program = Checks promise Nothing known tails issued program

timed_run-Ok :
    (g : ℕ) (known : Knowledge) (tails : ℕ → Knowledge) (issued : ℕ → ℕ → ℕ) (rest : List Action)
    → Within Given (tails 0)
    → Counts g issued
    → ((known' : Knowledge) (tails' : ℕ → Knowledge) (issued' : ℕ → ℕ → ℕ)
        → known' (copied 0)
        → Within Given (tails' 0)
        → Counts (suc g) issued'
        → Ok known' tails' issued' rest)
    → Ok known tails issued (timed_run ++ rest)
timed_run-Ok g known tails issued rest w c k =
    let same : (a : ℕ)
        → issued a 0 ≡ g
        → stamped a 0 (suc (issued 4 0)) ≡ stamped a 0 (suc (issued a 0)) =
      λ a e. ap (λ x. stamped a 0 (suc x)) (c.at_end ∙ sym e) in
    (
      (λ φ. elim [ ]),
      (
        (λ φ e. inl (w φ (inl e))),
        (
          (λ φ e. inl (inl (w φ (inr e)))),
          (
            (λ φ. elim [ ]),
            (
              (λ φ. elim [ ]),
              (
                (λ φ. elim [ inl e ↦ inl (inl (inl (inr e))) | inr e ↦ inl (inl (inr e)) ]),
                (
                  (λ φ. elim [ ]),
                  (
                    (λ φ e. inl (inr e)),
                    (
                      (λ φ. elim [
                        | inl e ↦ inr e
                        | inr (inl e) ↦
                            inl (inl (inl (inl (inl (inl (inl (inr (e ∙ same 0 c.at_start))))))))
                        | inr (inr (inl e)) ↦ inl (inl (inl (inl (inr (e ∙ same 1 c.at_h2d)))))
                        | inr (inr (inr (inl e))) ↦ inl (inl (inl (inr (e ∙ same 2 c.at_k0))))
                        | inr (inr (inr (inr e))) ↦ inl (inr (e ∙ same 3 c.at_k1))
                      ]),
                      (
                        inr (inl (inr (inl (sym (same 0 c.at_start))))),
                        inr (inl (inr (inr (inl (sym (same 1 c.at_h2d)))))),
                        (
                          inr (inl (inr (inr (inr (inl (sym (same 2 c.at_k0))))))),
                          inr (inl (inr (inr (inr (inr (sym (same 3 c.at_k1))))))),
                          (
                            inr (inl (inr (inr (inr (inr (sym (same 3 c.at_k1))))))),
                            inr (inr refl),
                            (
                              inr (inl (inr (inl (sym (same 0 c.at_start))))),
                              inr (inr refl),
                              k _ _ _ (inr (inl (inl refl)))
                                  (λ φ h.
                                    inl
                                      (inl (inl (inl (inl (inl (inl (inl (inl (inl (w φ h)))))))))))
                                  record {
                                    at_start = ap suc c.at_start;
                                    at_h2d = ap suc c.at_h2d;
                                    at_k0 = ap suc c.at_k0;
                                    at_k1 = ap suc c.at_k1;
                                    at_end = ap suc c.at_end;
                                  },
                            ),
                          ),
                        ),
                      ),
                    ),
                  ),
                ),
              ),
            ),
          ),
        ),
      ),
    )

timed_runs-Ok :
    (skip_check : Bool) (k g : ℕ) (known : Knowledge) (tails : ℕ → Knowledge) (issued : ℕ → ℕ → ℕ)
    → known (copied 0)
    → Within Given (tails 0)
    → Counts g issued
    → Ok known tails issued (timed_runs skip_check k)
timed_runs-Ok false zero g known tails issued p w c = (p, λ φ. elim [ ])
timed_runs-Ok true zero g known tails issued p w c = λ φ. elim [ ]
timed_runs-Ok skip_check (suc k) g known tails issued p w c =
    timed_run-Ok g known tails issued (timed_runs skip_check k) w c
      (λ known' tails' issued'. timed_runs-Ok skip_check k (suc g) known' tails' issued')

-- At least one run.
first-Ok :
    (skip_check : Bool) (k : ℕ)
    → Ok Given (λ s. Given) (λ array i. 0) (timed_runs skip_check (suc k))
first-Ok skip_check k =
    timed_run-Ok 0 Given (λ s. Given) (λ array i. 0) (timed_runs skip_check k) (λ φ h. h)
      record { at_start = refl; at_h2d = refl; at_k0 = refl; at_k1 = refl; at_end = refl }
      (λ known' tails' issued'. timed_runs-Ok skip_check k 1 known' tails' issued')

-- What is read for the comparison.
abbrev pub compared : (j : Jobs) → Bool → List (Option j.Matrix)
compared j skip_check =
    if skip_check then [] else some (j.multiply 0 (j.input_a 0) (j.input_b 0)) ∷ []

expected-timed_runs :
    (j : Jobs) (skip_check : Bool) (k : ℕ)
    → expected j (timed_runs skip_check k) ≡ compared j skip_check
expected-timed_runs j false zero = refl
expected-timed_runs j true zero = refl
expected-timed_runs j skip_check (suc k) = expected-timed_runs j skip_check k

given_holds :
    (j : Jobs) (m : Memory j)
    → m.host_a 0 ≡ some (j.input_a 0)
    → m.host_b 0 ≡ some (j.input_b 0)
    → Within Given (Holds j m (λ array i generation. generation == 0))
given_holds j m a b φ (inl e) = subst (Holds j m (λ array i generation. generation == 0)) (sym e) a
given_holds j m a b φ (inr e) = subst (Holds j m (λ array i generation. generation == 0)) (sym e) b

-- On any machine that does what the documentation of CUDA allows, where the inputs stand in the host
-- vectors: after `k + 1` timed runs bench_gemm reads the product of the inputs for its comparison, and
-- nothing else, or with `--skip-check` nothing, and it has asked for no time of an event that had not
-- run.
pub timed_runs-IsRight :
    (skip_check : Bool) (k : ℕ) (j : Jobs) (cuda : Runtime j) (m : Memory j) (d d' : cuda.Device)
    → m.host_a 0 ≡ some (j.input_a 0)
    → m.host_b 0 ≡ some (j.input_b 0)
    → cuda.view d ≡ start_program j (timed_runs skip_check (suc k)) m
    → Execution cuda d d'
    → (cuda.view d').program ≡ []
    → ((cuda.view d').results ≡ compared j skip_check) × ((cuda.view d').failed ≡ false)
timed_runs-IsRight skip_check k j cuda m d d' a b e r ended =
    let path = subst (λ st. Reach j st (cuda.view d')) e (path_of j cuda d d' r) in
    let right =
      checked-IsRight promise Given Nothing j (timed_runs skip_check (suc k)) m (cuda.view d')
        (λ array i φ. elim [ ]) (given_holds j m a b) (first-Ok skip_check k) path ended in
    (right.0 ∙ expected-timed_runs j skip_check k, right.1)
