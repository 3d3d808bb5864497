-- ===== src/Metrics/Exposition/Lines.antt =====
-- The lines of the text of the counters.
use geek_interview.Base.{
  ℕ, zero, suc, ◌+◌, ◌/◌, ◌%◌, ◌≡◌, refl, ◌∙◌, ap, false, List, [], ◌∷◌, ◌++◌, map, arith, ◌==◌,
  if◌then◌else◌, inl, inr, Bool-cases, All, ltb,
}
use geek_interview.Money.Digits.{print_digits, print_onto}
use geek_interview.Metrics.Exposition.{
  line_feed, escape_prometheus, Label, NamedCounter, join, label_entry, label_list, counter_line,
  to_prometheus,
}
use geek_interview.Metrics.Exposition.Reading.{
  escape_each, escape_prometheus-escape_each, unit_cases,
}

-- Text without a line feed.
abbrev pub IsOneLine : List ℕ → Type 0
IsOneLine = All (λ c. (c == line_feed) ≡ false)

abbrev cons_first : ℕ → List (List ℕ) → List (List ℕ)
cons_first c [] = (c ∷ []) ∷ []
cons_first c (l ∷ ls) = (c ∷ l) ∷ ls

-- The lines of a text, each ended by a line feed but perhaps the last.
unfoldable pub lines_of : List ℕ → List (List ℕ)
lines_of [] = []
lines_of (c ∷ cs) =
    let rest = lines_of cs in if c == line_feed then [] ∷ rest else cons_first c rest

lines_of-IsOneLine :
    (t rest : List ℕ) → IsOneLine t → lines_of (t ++ line_feed ∷ rest) ≡ t ∷ lines_of rest
unfolding lines_of
lines_of-IsOneLine [] rest h = refl
lines_of-IsOneLine (c ∷ cs) rest h = rw (h.0, lines_of-IsOneLine cs rest h.1) refl

IsOneLine-append : (s t : List ℕ) → IsOneLine s → IsOneLine t → IsOneLine (s ++ t)
IsOneLine-append [] t hs ht = ht
IsOneLine-append (c ∷ cs) t hs ht = (hs.0, IsOneLine-append cs t hs.1 ht)

escape_each-IsOneLine : (cs : List ℕ) → IsOneLine (escape_each cs)
unfolding escape_each
escape_each-IsOneLine [] = tt
escape_each-IsOneLine (c ∷ cs) = elim (unit_cases c) [
  | inl is ↦ rw is (refl, (refl, escape_each-IsOneLine cs))
  | inr (inl is) ↦ rw is (refl, (refl, escape_each-IsOneLine cs))
  | inr (inr (inl is)) ↦ rw is (refl, (refl, escape_each-IsOneLine cs))
  | inr (inr (inr (slash, quoted, plain))) ↦
      rw (slash, quoted, plain) (plain, escape_each-IsOneLine cs)
]

digit_IsOneLine : (d : ℕ) → ((b'0' + d) == line_feed) ≡ false
digit_IsOneLine d = ground arith

print_onto-IsOneLine : (f n : ℕ) (out : List ℕ) → IsOneLine out → IsOneLine (print_onto f n out)
unfolding print_onto
print_onto-IsOneLine zero n out h = h
print_onto-IsOneLine (suc f) n out h = elim (Bool-cases (ltb n 10)) [
  | inl small ↦ rw small (digit_IsOneLine n, h)
  | inr large ↦ rw large (print_onto-IsOneLine f (n / 10) _ (digit_IsOneLine (n % 10), h))
]

-- A counter whose name, and whose labels' keys, have no line feed; the values are any texts.
abbrev pub IsNamed : NamedCounter → Type 0
IsNamed c = IsOneLine c.name × All (λ l. IsOneLine l.key) c.labels

label_entry-IsOneLine : (l : Label) → IsOneLine l.key → IsOneLine (label_entry l)
label_entry-IsOneLine l h = IsOneLine-append l.key _ h (
  refl,
  (
    refl,
    IsOneLine-append (escape_prometheus l.value) _
        (rw (escape_prometheus-escape_each l.value) (escape_each-IsOneLine l.value)) (refl, tt),
  ),
)

join-IsOneLine :
    (ls : List Label) → All (λ l. IsOneLine l.key) ls → IsOneLine (join b',' (map label_entry ls))
unfolding join
join-IsOneLine [] h = tt
join-IsOneLine (l ∷ []) h = label_entry-IsOneLine l h.0
join-IsOneLine (l ∷ m ∷ ls) h =
    IsOneLine-append (label_entry l) _ (label_entry-IsOneLine l h.0)
      (refl, join-IsOneLine (m ∷ ls) h.1)

label_list-IsOneLine : (ls : List Label) → All (λ l. IsOneLine l.key) ls → IsOneLine (label_list ls)
label_list-IsOneLine [] h = tt
label_list-IsOneLine (l ∷ ls) h = (
  refl,
  IsOneLine-append (join b',' (map label_entry (l ∷ ls))) _ (join-IsOneLine (l ∷ ls) h) (refl, tt),
)

counter_line-IsOneLine : (c : NamedCounter) → IsNamed c → IsOneLine (counter_line c)
unfolding print_digits
counter_line-IsOneLine c h = IsOneLine-append c.name _ h.0 (
    IsOneLine-append (label_list c.labels) _ (label_list-IsOneLine c.labels h.1)
      (refl, print_onto-IsOneLine (suc c.value) c.value [] tt))

pub append_assoc : (r s t : List ℕ) → (r ++ s) ++ t ≡ r ++ (s ++ t)
append_assoc [] s t = refl
append_assoc (c ∷ cs) s t = ap (λ u. c ∷ u) (append_assoc cs s t)

-- If the names of the counters and the keys of their labels have no line feed, the text has one line
-- for every counter, in their order, whatever the values of the labels are.
pub to_prometheus-lines_of :
    (cs : List NamedCounter) → All IsNamed cs → lines_of (to_prometheus cs) ≡ map counter_line cs
unfolding to_prometheus join lines_of
to_prometheus-lines_of [] h = refl
to_prometheus-lines_of (c ∷ []) h =
    lines_of-IsOneLine (counter_line c) [] (counter_line-IsOneLine c h.0)
to_prometheus-lines_of (c ∷ d ∷ ds) h =
    ap lines_of (
      append_assoc (counter_line c) (line_feed ∷ join line_feed (map counter_line (d ∷ ds)))
        (line_feed ∷ []))
    ∙ lines_of-IsOneLine (counter_line c) (to_prometheus (d ∷ ds)) (counter_line-IsOneLine c h.0)
    ∙ ap (λ ls. counter_line c ∷ ls) (to_prometheus-lines_of (d ∷ ds) h.1)
