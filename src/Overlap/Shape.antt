-- ===== src/Overlap/Shape.antt =====
-- parse_shape and shape_label of bench/bench_overlap.cpp. `std::to_string` and `std::stoi` are
-- parameters; a text is the list of its bytes.
mod Tests
use gpu_batch_inference_sche.Common.{
  ℕ, ◌==◌, ◌≡◌, ◌≢◌, refl, sym, ap, ◌∙◌, subst, true, false, List, [], ◌∷◌, ◌++◌, Option, none,
  some, ℤ, if◌then◌else◌, All, append_assoc, append-nil, arith, Bool-cases, inl, inr,
}

pub record BenchShape : Type 0 where
  pub batch : ℤ
  pub m : ℤ
  pub n : ℤ
  pub k : ℤ

abbrev pub Label : Type 0
Label = List ℕ

-- 'x'
abbrev pub letter_x : ℕ
letter_x = 120

-- `std::stoi` of a text that it rejects is `none`: it throws. What a number is printed as is read back,
-- is not empty and has no `x`.
pub record Numbers : Type 0 where
  pub to_string : ℤ → Label
  pub stoi : Label → Option ℤ
  pub reads_back : (v : ℤ) → stoi (to_string v) ≡ some v
  pub not_empty : (v : ℤ) → to_string v ≢ []
  pub no_x : (v : ℤ) → All (λ c. c ≢ letter_x) (to_string v)

not_x : (c : ℕ) → c ≢ letter_x → c == letter_x ≡ false
not_x c h = ground arith

cons_not_nil : {c : ℕ} {text : Label} → (c ∷ text) ≢ []
cons_not_nil e = absurd cc

module _ (s : Numbers) where
  open s use {to_string, stoi}

  pub shape_label : BenchShape → Label
  shape_label x =
      to_string x.batch
      ++ (letter_x ∷ (to_string x.m ++ (letter_x ∷ (to_string x.n ++ (letter_x ∷ to_string x.k)))))

  push_front : Option ℤ → Option (List ℤ) → Option (List ℤ)
  push_front (some v) (some vs) = some (v ∷ vs)
  push_front _ _ = none

  -- The loop from the middle of a piece: the piece so far, and the text after it. A text that ends in
  -- `x` has no piece after that.
  pub read_ints : (piece : Label) → Label → Option (List ℤ)
  unfolding push_front
  read_ints piece [] = push_front (stoi piece) (some [])
  read_ints piece (c ∷ []) =
      if c == letter_x
      then push_front (stoi piece) (some [])
      else push_front (stoi (piece ++ c ∷ [])) (some [])
  read_ints piece (c ∷ d ∷ text) =
      let more : Option (List ℤ) = read_ints (piece ++ c ∷ []) (d ∷ text) in
      let others : Option (List ℤ) = read_ints [] (d ∷ text) in
      if c == letter_x then push_front (stoi piece) others else more

  -- Four numbers, or an exception.
  four : Option (List ℤ) → Option BenchShape
  four (some (b ∷ m ∷ n ∷ k ∷ [])) = some (record { batch = b; m = m; n = n; k = k })
  four _ = none

  pub parse_shape : Label → Option BenchShape
  unfolding four
  parse_shape [] = none
  parse_shape (c ∷ text) = four (read_ints [] (c ∷ text))

  -- A piece without an `x`, up to the end of the text, or up to an `x` with more after it.
  read_ints-piece :
      (piece t : Label)
      → t ≢ []
      → All (λ c. c ≢ letter_x) t
      → read_ints piece t ≡ push_front (stoi (piece ++ t)) (some [])
  unfolding read_ints
  read_ints-piece piece [] n h = absurd (n refl)
  read_ints-piece piece (c ∷ []) n h = rw (not_x c (h.0)) refl
  read_ints-piece piece (c ∷ d ∷ t) n h = rw (not_x c (h.0)) (
      read_ints-piece (piece ++ c ∷ []) (d ∷ t) cons_not_nil (h.1)
      ∙ ap (λ x. push_front (stoi x) (some [])) (append_assoc piece (c ∷ []) (d ∷ t)))

  read_ints-next :
      (piece t : Label) (d : ℕ) (rest : Label)
      → All (λ c. c ≢ letter_x) t
      → read_ints piece (t ++ (letter_x ∷ d ∷ rest))
        ≡ push_front (stoi (piece ++ t)) (read_ints [] (d ∷ rest))
  unfolding read_ints
  read_ints-next piece [] d rest h =
      ap (λ x. push_front (stoi x) (read_ints [] (d ∷ rest))) (sym (append-nil piece))
  read_ints-next piece (c ∷ []) d rest h = rw (not_x c (h.0)) refl
  read_ints-next piece (c ∷ e ∷ t) d rest h = rw (not_x c (h.0)) (
      read_ints-next (piece ++ c ∷ []) (e ∷ t) d rest (h.1)
      ∙ ap (λ x. push_front (stoi x) (read_ints [] (d ∷ rest)))
          (append_assoc piece (c ∷ []) (e ∷ t)))

  -- The same where the text after the `x` is only known not to be empty.
  read_ints_rest :
      (t rest : Label)
      → rest ≢ []
      → All (λ c. c ≢ letter_x) t
      → read_ints [] (t ++ (letter_x ∷ rest)) ≡ push_front (stoi t) (read_ints [] rest)
  read_ints_rest t [] n h = absurd (n refl)
  read_ints_rest t (d ∷ rest) n h = read_ints-next [] t d rest h

  parse_ints : (text : Label) → text ≢ [] → parse_shape text ≡ four (read_ints [] text)
  unfolding parse_shape
  parse_ints [] n = absurd (n refl)
  parse_ints (c ∷ text) n = refl

  joined : (t rest : Label) → t ≢ [] → t ++ rest ≢ []
  joined [] rest n = absurd (n refl)
  joined (c ∷ t) rest n = cons_not_nil

  -- The label of a shape is read back as that shape.
  pub parse_shape-shape_label : (x : BenchShape) → parse_shape (shape_label x) ≡ some x
  unfolding shape_label four push_front
  parse_shape-shape_label x =
      let k : Label = to_string x.k in
      let n : Label = to_string x.n ++ (letter_x ∷ k) in
      let m : Label = to_string x.m ++ (letter_x ∷ n) in
      let n_full = joined (to_string x.n) (letter_x ∷ k) (s.not_empty x.n) in
      let m_full = joined (to_string x.m) (letter_x ∷ n) (s.not_empty x.m) in
      let read : read_ints [] (to_string x.batch ++ (letter_x ∷ m))
          ≡ some (x.batch ∷ x.m ∷ x.n ∷ x.k ∷ []) =
        (read_ints_rest (to_string x.batch) m m_full (s.no_x x.batch)
          ∙ rw
              (
                s.reads_back x.batch,
                read_ints_rest (to_string x.m) n n_full (s.no_x x.m),
                s.reads_back x.m,
                read_ints_rest (to_string x.n) k (s.not_empty x.k) (s.no_x x.n),
                s.reads_back x.n,
                read_ints-piece [] k (s.not_empty x.k) (s.no_x x.k),
                s.reads_back x.k,
              )
              refl) in
      parse_ints _ (joined (to_string x.batch) (letter_x ∷ m) (s.not_empty x.batch)) ∙ ap four read
