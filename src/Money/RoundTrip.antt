-- ===== src/Money/RoundTrip.antt =====
-- Printing cents and reading them back: `centsToDecimal` and `decimalToCents`.
use geek_interview.Base.{
  ℕ, zero, suc, ◌+◌, ◌/◌, ◌%◌, ◌<◌, ◌≡◌, ◌≢◌, refl, ◌∙◌, ap, true, false, Option, some, List, [],
  ◌∷◌, ◌++◌, arith, All, ltb, inl, inr, Bool-cases,
}
use geek_interview.Money.{
  is_space, trim_start, trim_end, trim, split_dot, some_digits, fraction_cents, pad_two,
  cents_to_decimal, decimal_to_cents,
}
use geek_interview.Money.Digits.{
  is_digit, all_digits, digits_value, print_onto, print_digits, digits_value-print_onto,
  all_digits-print_onto,
}

-- Text that `trim` leaves alone.
abbrev IsSolid : List ℕ → Type 0
IsSolid = All (λ c. is_space c ≡ false)

trim_end-IsSolid : (cs : List ℕ) → IsSolid cs → trim_end cs ≡ cs
unfolding trim_end
trim_end-IsSolid [] h = refl
trim_end-IsSolid (c ∷ []) h = rw h.0
trim_end-IsSolid (c ∷ d ∷ ds) h = rw (trim_end-IsSolid (d ∷ ds) h.1)

trim_start-IsSolid : (cs : List ℕ) → IsSolid cs → trim_start cs ≡ cs
unfolding trim_start
trim_start-IsSolid [] h = refl
trim_start-IsSolid (c ∷ cs) h = rw h.0

pub trim-IsSolid : (cs : List ℕ) → IsSolid cs → trim cs ≡ cs
unfolding trim
trim-IsSolid cs h = rw (trim_start-IsSolid cs h) (trim_end-IsSolid cs h)

digit_solid : (c : ℕ) → is_digit c ≡ true → is_space c ≡ false
unfolding is_digit
digit_solid c h = ground arith

digits-IsSolid : (cs rest : List ℕ) → all_digits cs ≡ true → IsSolid rest → IsSolid (cs ++ rest)
unfolding all_digits
digits-IsSolid [] rest h r = r
digits-IsSolid (c ∷ cs) rest h r =
    (digit_solid c (ground arith), digits-IsSolid cs rest (ground arith) r)

split_dot-digits :
    (cs rest : List ℕ) → all_digits cs ≡ true → split_dot (cs ++ b'.' ∷ rest) ≡ (cs, some rest)
unfolding split_dot all_digits
split_dot-digits [] rest h = refl
split_dot-digits (c ∷ cs) rest h = ground (arith, split_dot-digits cs rest)

digit_of : (d : ℕ) → d < 10 → is_digit (b'0' + d) ≡ true
unfolding is_digit
digit_of d h = ground arith

fraction-pad_two : (n : ℕ) → n < 100 → fraction_cents (some (pad_two n)) ≡ some n
unfolding digits_value
fraction-pad_two n h =
    rw (digit_of (n / 10) (omega arith), digit_of (n % 10) (omega arith))
      (ap {B = Option ℕ} some (omega arith))

pad_two-IsSolid : (n : ℕ) → n < 100 → IsSolid (b'.' ∷ pad_two n)
pad_two-IsSolid n h = (
  refl,
  (
    digit_solid _ (digit_of (n / 10) (omega arith)),
    (digit_solid _ (digit_of (n % 10) (omega arith)), tt),
  ),
)

some_digits_lem :
    (cs : List ℕ) → cs ≢ [] → all_digits cs ≡ true → some_digits cs ≡ some (digits_value 0 cs)
some_digits_lem [] ne h = absurd (ne refl)
some_digits_lem (c ∷ cs) ne h = rw h

print_onto-ne-nil : (f n c : ℕ) (cs : List ℕ) → print_onto f n (c ∷ cs) ≢ []
unfolding print_onto
print_onto-ne-nil zero n c cs = λ e. cc
print_onto-ne-nil (suc f) n c cs = elim (Bool-cases (ltb n 10)) [
  | inl small ↦ rw small (λ e. cc)
  | inr large ↦ rw large (print_onto-ne-nil f (n / 10) _ (c ∷ cs))
]

print_digits-ne-nil : (n : ℕ) → print_digits n ≢ []
unfolding print_digits print_onto
print_digits-ne-nil n = elim (Bool-cases (ltb n 10)) [
  | inl small ↦ rw small (λ e. cc)
  | inr large ↦ rw large (print_onto-ne-nil n (n / 10) _ [])
]

pub some_digits-print : (n : ℕ) → some_digits (print_digits n) ≡ some n
unfolding print_digits digits_value all_digits
some_digits-print n =
    some_digits_lem (print_digits n) (print_digits-ne-nil n)
      (all_digits-print_onto (suc n) n [] refl)
    ∙ ap {B = Option ℕ} some (digits_value-print_onto (suc n) n [] (omega arith))

-- Every amount of cents that is printed is read back as the same amount.
pub decimal_to_cents-cents_to_decimal :
    (cents : ℕ) → decimal_to_cents (cents_to_decimal cents) ≡ some cents
unfolding decimal_to_cents cents_to_decimal
decimal_to_cents-cents_to_decimal cents =
    let whole = print_digits (cents / 100) in
    let digits : all_digits whole ≡ true =
      all_digits-print_onto (suc (cents / 100)) (cents / 100) [] refl in
    rw
      (
        trim-IsSolid (whole ++ b'.' ∷ pad_two (cents % 100))
            (digits-IsSolid whole _ digits (pad_two-IsSolid (cents % 100) (omega arith))),
        split_dot-digits whole (pad_two (cents % 100)) digits,
        some_digits-print (cents / 100),
        fraction-pad_two (cents % 100) (omega arith),
      )
      (ap {B = Option ℕ} some (omega arith))

-- Two amounts that print alike are equal: a stored price determines its cents.
pub cents_to_decimal-injective : (a b : ℕ) → cents_to_decimal a ≡ cents_to_decimal b → a ≡ b
cents_to_decimal-injective a b e = cc (
  decimal_to_cents-cents_to_decimal a,
  decimal_to_cents-cents_to_decimal b,
  ap decimal_to_cents e,
)
