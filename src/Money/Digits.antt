-- ===== src/Money/Digits.antt =====
-- Decimal digits: `BigInt(text)` and a number's `toString()`.
use geek_interview.Base.{
  ℕ, zero, suc, ◌+◌, ◌-◌, ◌*◌, ◌/◌, ◌%◌, ◌<◌, ◌≡◌, refl, ◌∙◌, ap, Bool, true, ◌&&◌, Option, none,
  some, List, [], ◌∷◌, ◌++◌, arith, ltb, leb, if◌then◌else◌, inl, inr, Bool-cases,
}

infixr 6 ◌⟫◌
abbrev pub ◌⟫◌ {ℓ κ} : {A : Type ℓ} {B : Type κ} → Option A → (A → Option B) → Option B
none ⟫ f = none
some a ⟫ f = f a

unfoldable pub is_digit : ℕ → Bool
is_digit c = leb b'0' c && leb c b'9'

unfoldable pub all_digits : List ℕ → Bool
unfolding is_digit
all_digits [] = true
all_digits (c ∷ cs) = is_digit c && all_digits cs

-- `BigInt` of a text of digits
unfoldable pub digits_value : ℕ → List ℕ → ℕ
digits_value acc [] = acc
digits_value acc (c ∷ cs) = digits_value (acc * 10 + (c - b'0')) cs

-- The digits of `n` in front of `out`; the fuel bounds the number of digits.
unfoldable pub print_onto : ℕ → ℕ → List ℕ → List ℕ
print_onto zero n out = out
print_onto (suc f) n out =
    let more = print_onto f (n / 10) ((b'0' + n % 10) ∷ out) in
    if ltb n 10 then (b'0' + n) ∷ out else more

unfoldable pub print_digits : ℕ → List ℕ
unfolding print_onto
print_digits n = print_onto (suc n) n []

pub digits_value-append :
    (acc : ℕ) (xs ys : List ℕ) → digits_value acc (xs ++ ys) ≡ digits_value (digits_value acc xs) ys
unfolding digits_value
digits_value-append acc [] ys = refl
digits_value-append acc (x ∷ xs) ys = digits_value-append (acc * 10 + (x - b'0')) xs ys

-- What is printed in front of a text of digits reads as the number, then that text.
pub digits_value-print_onto :
    (f n : ℕ) (out : List ℕ) → n < f → digits_value 0 (print_onto f n out) ≡ digits_value n out
unfolding digits_value print_onto
digits_value-print_onto zero n out h = elim h [ ]
digits_value-print_onto (suc f) n out h = elim (Bool-cases (ltb n 10)) [
  | inl small ↦ rw small (ap (λ (k : ℕ). digits_value k out) (omega arith))
  | inr large ↦ rw large (
      digits_value-print_onto f (n / 10) ((b'0' + n % 10) ∷ out) (ground arith)
      ∙ ap (λ (k : ℕ). digits_value k out) (omega arith))
]

pub all_digits-print_onto :
    (f n : ℕ) (out : List ℕ) → all_digits out ≡ true → all_digits (print_onto f n out) ≡ true
unfolding all_digits is_digit print_onto
all_digits-print_onto zero n out h = h
all_digits-print_onto (suc f) n out h = elim (Bool-cases (ltb n 10)) [
  | inl small ↦ rw small (ground arith)
  | inr large ↦ rw large (all_digits-print_onto f (n / 10) _ (ground arith))
]
