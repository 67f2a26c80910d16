-- ===== src/Config/Valid.antt =====
-- What src/main.cpp guarantees about a configuration that it accepts.
use gpu_batch_inference_sche.Common.{
  sym, subst, ◌∙◌, ◌≡◌, refl, Bool, true, false, ◌&&◌, ◌||◌, List, [], ◌∷◌, some, pos, ltb, ltb_ℤ,
  leb_ℤ, length, arith, Bool-cases, inl, inr, Option-cases, Option, none, ◌⊎◌, ◌==◌,
}
use gpu_batch_inference_sche.Scheduler.{Impl, tiled, cublas}
use gpu_batch_inference_sche.Config.{
  is_known, Argument, set_arrival_rate, Config, read_argument, gives_rate, apply_saturation,
  apply_stress, options_ok, ranges_ok, finish_args, parse_from, parse_args, default_config,
}

-- The ranges of the numbers, and the options that exclude each other.
pub record IsUsable (cfg : Config) : Type 0 where
  pub some_batch : ltb_ℤ (pos 0) cfg.max_batch ≡ true
  pub some_worker : ltb_ℤ (pos 0) cfg.workers ≡ true
  pub port : (leb_ℤ (pos 0) cfg.http_port && leb_ℤ cfg.http_port (pos 65_535)) ≡ true
  pub sizes : (ltb_ℤ (pos 0) cfg.min_size && leb_ℤ cfg.min_size cfg.max_size) ≡ true
  pub one_source : (ltb 0 cfg.jobs && ltb 0 (length cfg.replay_csv)) ≡ false
  pub no_delay : (cfg.saturation && ltb_ℤ (pos 0) cfg.arrival_rate) ≡ false
  pub backlog : ((cfg.saturation || cfg.stress) && (cfg.jobs == 0)) ≡ false
  pub one_mode : (cfg.saturation && cfg.stress) ≡ false
  pub rate : leb_ℤ (pos 0) cfg.arrival_rate ≡ true
  pub impl : (cfg.impl ≡ some tiled) ⊎ (cfg.impl ≡ some cublas)
  pub no_replay_mode : ((cfg.saturation || cfg.stress) && ltb 0 (length cfg.replay_csv)) ≡ false

known_impl :
    (impl : Option Impl) → is_known impl ≡ true → (impl ≡ some tiled) ⊎ (impl ≡ some cublas)
unfolding is_known
known_impl none e = absurd cc
known_impl (some tiled) e = inl refl
known_impl (some cublas) e = inr refl

-- The two modes change no implementation.
filled_impl : (cfg : Config) → (apply_stress (apply_saturation cfg)).impl ≡ cfg.impl
unfolding apply_stress apply_saturation
filled_impl cfg = ground arith

filled-IsUsable :
    (rate_given : Bool) (cfg : Config)
    → options_ok rate_given cfg ≡ true
    → ranges_ok (apply_saturation cfg) ≡ true
    → IsUsable (apply_stress (apply_saturation cfg))
unfolding options_ok ranges_ok apply_saturation apply_stress
filled-IsUsable rate_given cfg o r = record {
  some_batch = ground arith;
  some_worker = ground arith;
  port = ground arith;
  sizes = ground arith;
  one_source = ground arith;
  no_delay = ground arith;
  backlog = ground arith;
  one_mode = ground arith;
  rate = ground arith;
  impl =
      subst (λ i. (i ≡ some tiled) ⊎ (i ≡ some cublas)) (sym (filled_impl cfg))
        (known_impl cfg.impl (ground arith));
  no_replay_mode = ground arith;
}

some_injective : {a b : Config} → some a ≡ some b → a ≡ b
some_injective e = cc

finish_args-IsUsable :
    (rate_given : Bool) (cfg out : Config) → finish_args rate_given cfg ≡ some out → IsUsable out
unfolding finish_args
finish_args-IsUsable rate_given cfg out e = elim (Bool-cases (options_ok rate_given cfg)) [
  | inr o ↦ absurd (cc (e, o))
  | inl o ↦ elim (Bool-cases (ranges_ok (apply_saturation cfg))) [
    | inr r ↦ absurd (cc (e, o, r))
    | inl r ↦
        subst IsUsable (some_injective (sym (rw (o, r) refl) ∙ e))
          (filled-IsUsable rate_given cfg o r)
  ]
]

parse_from-IsUsable :
    (args : List Argument) (rate_given : Bool) (cfg out : Config)
    → parse_from args rate_given cfg ≡ some out
    → IsUsable out
unfolding parse_from
parse_from-IsUsable [] rate_given cfg out e = finish_args-IsUsable rate_given cfg out e
parse_from-IsUsable (arg ∷ args) rate_given cfg out e =
    elim (Option-cases (read_argument arg cfg)) [
      | inl q ↦ absurd (cc (e, q))
      | inr (next, q) ↦
          parse_from-IsUsable args (gives_rate arg || rate_given) next out
            (sym (rw (q, parse_from) refl) ∙ e)
    ]

-- `--arrival-rate` is among the arguments.
abbrev pub HasRate : List Argument → Type 0
HasRate [] = ⊥
HasRate (set_arrival_rate v ∷ args) = Unit
HasRate (_ ∷ args) = HasRate args

first_rate :
    (arg : Argument) (args : List Argument)
    → HasRate (arg ∷ args)
    → (gives_rate arg ≡ true) ⊎ HasRate args
unfolding gives_rate
first_rate (set_arrival_rate v) args h = inl refl
first_rate _ args h = inr h

filled_saturation :
    (cfg : Config) → (apply_stress (apply_saturation cfg)).saturation ≡ cfg.saturation
unfolding apply_stress apply_saturation
filled_saturation cfg = ground arith

rate_excludes : (cfg : Config) → options_ok true cfg ≡ true → cfg.saturation ≡ false
unfolding options_ok
rate_excludes cfg o = ground arith

finish_args-rate : (cfg out : Config) → finish_args true cfg ≡ some out → out.saturation ≡ false
unfolding finish_args
finish_args-rate cfg out e = elim (Bool-cases (options_ok true cfg)) [
  | inr o ↦ absurd (cc (e, o))
  | inl o ↦ elim (Bool-cases (ranges_ok (apply_saturation cfg))) [
    | inr r ↦ absurd (cc (e, o, r))
    | inl r ↦
        subst (λ c. c.saturation ≡ false) {x = apply_stress (apply_saturation cfg)}
          (some_injective (sym (rw (o, r) refl) ∙ e)) (filled_saturation cfg ∙ rate_excludes cfg o)
  ]
]

parse_from-rate :
    (args : List Argument) (rate_given : Bool) (cfg out : Config)
    → parse_from args rate_given cfg ≡ some out
    → (rate_given ≡ true) ⊎ HasRate args
    → out.saturation ≡ false
unfolding parse_from
parse_from-rate [] rate_given cfg out e (inl g) =
    finish_args-rate cfg out (subst (λ r. finish_args r cfg ≡ some out) g e)
parse_from-rate [] rate_given cfg out e (inr h) = absurd h
parse_from-rate (arg ∷ args) rate_given cfg out e h = elim (Option-cases (read_argument arg cfg)) [
  | inl q ↦ absurd (cc (e, q))
  | inr (next, q) ↦
      parse_from-rate args (gives_rate arg || rate_given) next out
        (sym (rw (q, parse_from) refl) ∙ e)
        (elim h [
          | inl g ↦ inl (ground arith)
          | inr r ↦ elim (first_rate arg args r) [ inl g ↦ inl (ground arith) | inr t ↦ inr t ]
        ])
]

pub parse_args-IsUsable :
    (args : List Argument) (out : Config)
    → parse_args args ≡ some out
    → IsUsable out × ((out.saturation ≡ false) ⊎ ¬ HasRate args)
unfolding parse_args
parse_args-IsUsable args out e = (
  parse_from-IsUsable args false default_config out e,
  elim (Bool-cases out.saturation) [
    | inr off ↦ inl off
    | inl on ↦ inr (λ h. absurd (cc (on, parse_from-rate args false default_config out e (inr h))))
  ],
)
