-- ===== src/Metrics/Exposition/Reading.antt =====
-- What a scraper reads from the text of the counters.
use geek_interview.Base.{
  ℕ, ◌≡◌, refl, ap, Bool, true, false, Option, none, some, List, [], ◌∷◌, ◌++◌, arith, ◌==◌,
  if◌then◌else◌, ◌⊎◌, inl, inr, Bool-cases,
}
use geek_interview.Metrics.Exposition.{line_feed, backslash, quote, replace_all, escape_prometheus}

-- The units of the exposition format for one unit of a value.
abbrev escape_unit : ℕ → List ℕ
escape_unit c =
    if c == backslash
    then backslash ∷ backslash ∷ []
    else if c == quote
    then backslash ∷ quote ∷ []
    else if c == line_feed
    then backslash ∷ b'n' ∷ []
    else c ∷ []

unfoldable pub escape_each : List ℕ → List ℕ
escape_each [] = []
escape_each (c ∷ cs) = escape_unit c ++ escape_each cs

-- A unit is one of the three that are escaped, or none of them.
pub unit_cases :
    (c : ℕ)
    → (c ≡ backslash)
      ⊎ ((c ≡ quote)
          ⊎ ((c ≡ line_feed)
              ⊎ (((c == backslash) ≡ false) × ((c == quote) ≡ false) × ((c == line_feed) ≡ false))))
unit_cases c = ground arith

-- The three replacements, one after the other, are one pass.
pub escape_prometheus-escape_each : (cs : List ℕ) → escape_prometheus cs ≡ escape_each cs
unfolding escape_prometheus replace_all escape_each
escape_prometheus-escape_each [] = refl
escape_prometheus-escape_each (c ∷ cs) = elim (Bool-cases (c == backslash)) [
  | inl is ↦ rw is (ap (λ t. backslash ∷ backslash ∷ t) (escape_prometheus-escape_each cs))
  | inr slash ↦ elim (Bool-cases (c == quote)) [
    | inl is ↦ rw (slash, is) (ap (λ t. backslash ∷ quote ∷ t) (escape_prometheus-escape_each cs))
    | inr quoted ↦ elim (Bool-cases (c == line_feed)) [
      | inl is ↦
          rw (slash, quoted, is) (ap (λ t. backslash ∷ b'n' ∷ t) (escape_prometheus-escape_each cs))
      | inr plain ↦ rw (slash, quoted, plain) (ap (λ t. c ∷ t) (escape_prometheus-escape_each cs))
    ]
  ]
]

-- A quoted value as the exposition format defines it, up to its closing quote, and what follows it.
-- The flag says that a backslash came just before.
abbrev unescaped : ℕ → ℕ
unescaped c = if c == b'n' then line_feed else c

abbrev pub push : ℕ → Option (List ℕ × List ℕ) → Option (List ℕ × List ℕ)
push c none = none
push c (some (value, rest)) = some (c ∷ value, rest)

unfoldable pub read_quoted : Bool → List ℕ → Option (List ℕ × List ℕ)
read_quoted escaped [] = none
read_quoted true (c ∷ cs) = push (unescaped c) (read_quoted false cs)
read_quoted false (c ∷ cs) =
    let after_backslash = read_quoted true cs in
    let rest = read_quoted false cs in
    if c == quote then some ([], cs) else if c == backslash then after_backslash else push c rest

read_quoted-escape_each :
    (value rest : List ℕ)
    → read_quoted false (escape_each value ++ quote ∷ rest) ≡ some (value, rest)
unfolding read_quoted escape_each
read_quoted-escape_each [] rest = refl
read_quoted-escape_each (c ∷ cs) rest = elim (unit_cases c) [
  | inl is ↦ rw (is, read_quoted-escape_each cs rest)
  | inr (inl is) ↦ rw (is, read_quoted-escape_each cs rest)
  | inr (inr (inl is)) ↦ rw (is, read_quoted-escape_each cs rest)
  | inr (inr (inr (slash, quoted, plain))) ↦
      rw (slash, quoted, plain, quoted, slash, read_quoted-escape_each cs rest)
]

-- Whatever a label's value is and whatever follows it, a reader of the exposition format gets the
-- value back and goes on after its closing quote.
pub read_quoted-escape_prometheus :
    (value rest : List ℕ)
    → read_quoted false (escape_prometheus value ++ quote ∷ rest) ≡ some (value, rest)
read_quoted-escape_prometheus value rest =
    rw (escape_prometheus-escape_each value) (read_quoted-escape_each value rest)
