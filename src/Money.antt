-- ===== src/Money.antt =====
-- src/shared/money/money.ts. A text is the list of its UTF-16 code units, a `bigint` that is never
-- negative is a natural number; `none` is the thrown `Error`.
pub mod Digits
pub mod RoundTrip
pub mod Rounding
use geek_interview.Base.{
  ℕ, zero, suc, ◌+◌, ◌-◌, ◌*◌, ◌/◌, ◌%◌, Bool, true, false, ◌&&◌, ◌||◌, Option, none, some, List,
  [], ◌∷◌, ◌++◌, ltb, leb, ◌==◌, if◌then◌else◌,
}
use Digits.{is_digit, digits_value, print_digits, all_digits, ◌⟫◌}

-- JavaScript's white space and line terminators, which `trim` removes.
abbrev pub is_space : ℕ → Bool
is_space c =
    (leb 9 c && leb c 13)
    || (c == 32)
    || (c == 160)
    || (c == 5760)
    || (leb 8192 c && leb c 8202)
    || (c == 8232)
    || (c == 8233)
    || (c == 8239)
    || (c == 8287)
    || (c == 12288)
    || (c == 65279)

unfoldable pub trim_start : List ℕ → List ℕ
trim_start [] = []
trim_start (c ∷ cs) = if is_space c then trim_start cs else c ∷ cs

-- A unit goes in front of a trimmed rest, and is dropped if it is space before nothing.
abbrev pub cons_trim_end : ℕ → List ℕ → List ℕ
cons_trim_end c [] = if is_space c then [] else c ∷ []
cons_trim_end c (d ∷ ds) = c ∷ d ∷ ds

unfoldable pub trim_end : List ℕ → List ℕ
trim_end [] = []
trim_end (c ∷ cs) = cons_trim_end c (trim_end cs)

unfoldable pub trim : List ℕ → List ℕ
unfolding trim_start trim_end
trim cs = trim_end (trim_start cs)

-- The text before the first `.`, and what follows it.
unfoldable pub split_dot : List ℕ → List ℕ × Option (List ℕ)
split_dot [] = ([], none)
split_dot (c ∷ cs) =
    let (whole, rest) = split_dot cs in if c == b'.' then ([], some cs) else (c ∷ whole, rest)

-- `\d+`
abbrev pub some_digits : List ℕ → Option ℕ
some_digits [] = none
some_digits (c ∷ cs) = if all_digits (c ∷ cs) then some (digits_value 0 (c ∷ cs)) else none

-- `(?:\.(\d{1,2}))?`, read in cents: a missing digit is padded with 0.
abbrev pub fraction_cents : Option (List ℕ) → Option ℕ
fraction_cents none = some 0
fraction_cents (some []) = none
fraction_cents (some (c ∷ [])) = if is_digit c then some (digits_value 0 (c ∷ b'0' ∷ [])) else none
fraction_cents (some (c ∷ d ∷ [])) =
    if is_digit c && is_digit d then some (digits_value 0 (c ∷ d ∷ [])) else none
fraction_cents (some (_ ∷ _ ∷ _ ∷ _)) = none

unfoldable pub decimal_to_cents : List ℕ → Option ℕ
unfolding trim split_dot digits_value all_digits is_digit
decimal_to_cents value =
    let (whole, rest) = split_dot (trim value) in
    some_digits whole ⟫ λ w. fraction_cents rest ⟫ λ f. some (w * 100 + f)

-- `toString().padStart(2, '0')` of a number below 100
abbrev pub pad_two : ℕ → List ℕ
pad_two n = (b'0' + n / 10) ∷ (b'0' + n % 10) ∷ []

unfoldable pub cents_to_decimal : ℕ → List ℕ
unfolding print_digits
cents_to_decimal cents = print_digits (cents / 100) ++ b'.' ∷ pad_two (cents % 100)

-- A half is rounded up.
unfoldable pub percentage_discount_cents : ℕ → List ℕ → Option ℕ
unfolding decimal_to_cents
percentage_discount_cents subtotal percent =
    decimal_to_cents percent ⟫ λ percent_cents. some ((subtotal * percent_cents + 5000) / 10000)
