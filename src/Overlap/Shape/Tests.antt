-- ===== src/Overlap/Shape/Tests.antt =====
-- A label, with numbers in unary.
use gpu_batch_inference_sche.Common.{
  ℕ, zero, suc, ◌==◌, ◌≡◌, ◌≢◌, refl, ap, [], ◌∷◌, Option, none, some, ℤ, pos, negsuc, length,
  if◌then◌else◌, All, arith,
}
use gpu_batch_inference_sche.Overlap.Shape.{
  Label, Numbers, letter_x, shape_label, parse_shape, parse_shape-shape_label,
}

abbrev ones : ℕ → Label
ones zero = []
ones (suc n) = 49 ∷ ones n

length-ones : (n : ℕ) → length (ones n) ≡ n
length-ones zero = refl
length-ones (suc n) = ap suc (length-ones n)

ones-All : (n : ℕ) → All (λ c. c ≢ letter_x) (ones n)
ones-All zero = tt
ones-All (suc n) = ((λ e. absurd (omega (arith, e))), ones-All n)

abbrev print : ℤ → Label
print (pos n) = 43 ∷ ones n
print (negsuc n) = 45 ∷ ones n

abbrev read : Label → Option ℤ
read [] = none
read (c ∷ text) = some (if c == 45 then negsuc (length text) else pos (length text))

read-print : (v : ℤ) → read (print v) ≡ some v
read-print (pos n) = ap (λ l. some (pos l)) (length-ones n)
read-print (negsuc n) = ap (λ l. some (negsuc l)) (length-ones n)

print_full : (v : ℤ) → print v ≢ []
print_full (pos n) e = absurd cc
print_full (negsuc n) e = absurd cc

print-All : (v : ℤ) → All (λ c. c ≢ letter_x) (print v)
print-All (pos n) = ((λ e. absurd (omega (arith, e))), ones-All n)
print-All (negsuc n) = ((λ e. absurd (omega (arith, e))), ones-All n)

abbrev unary : Numbers
unary = record {
  to_string = print;
  stoi = read;
  reads_back = read-print;
  not_empty = print_full;
  no_x = print-All;
}

parse_shape-shape_label_example :
    parse_shape unary
      (shape_label unary (record { batch = pos 8; m = pos 512; n = pos 512; k = pos 512 }))
    ≡ some (record { batch = pos 8; m = pos 512; n = pos 512; k = pos 512 })
parse_shape-shape_label_example =
    parse_shape-shape_label unary (record { batch = pos 8; m = pos 512; n = pos 512; k = pos 512 })
