-- ===== src/Metrics/Exposition.antt =====
-- src/shared/observability/observability.service.ts: the text form of the counters. A text is the
-- list of its UTF-16 code units.
pub mod Reading
pub mod Lines
pub mod Scraping
use geek_interview.Base.{
  ℕ, Bool, true, false, List, [], ◌∷◌, ◌++◌, map, take, length, length-take-le, All, ◌≤◌, ◌==◌,
  if◌then◌else◌,
}
use geek_interview.Money.Digits.{print_digits}
use geek_interview.Tables.{sort_by}

abbrev pub line_feed : ℕ
line_feed = 10

abbrev pub backslash : ℕ
backslash = 92

abbrev pub quote : ℕ
quote = 34

-- `replaceAll` of a unit by a text
unfoldable pub replace_all : ℕ → List ℕ → List ℕ → List ℕ
replace_all unit by [] = []
replace_all unit by (c ∷ cs) =
    let rest = replace_all unit by cs in if c == unit then by ++ rest else c ∷ rest

unfoldable pub escape_prometheus : List ℕ → List ℕ
unfolding replace_all
escape_prometheus value = replace_all line_feed (backslash ∷ b'n' ∷ []) (
    replace_all quote (backslash ∷ quote ∷ [])
      (replace_all backslash (backslash ∷ backslash ∷ []) value))

pub record Label : Type 0 where
  pub key : List ℕ
  pub value : List ℕ

-- A counter with its texts, as `Counter` of Metrics has it without them.
pub record NamedCounter : Type 0 where
  pub name : List ℕ
  pub labels : List Label
  pub value : ℕ

-- `join`
unfoldable pub join : ℕ → List (List ℕ) → List ℕ
join separator [] = []
join separator (t ∷ []) = t
join separator (t ∷ u ∷ us) = t ++ separator ∷ join separator (u ∷ us)

abbrev pub label_entry : Label → List ℕ
label_entry l = l.key ++ b'=' ∷ quote ∷ (escape_prometheus l.value ++ quote ∷ [])

abbrev pub label_list : List Label → List ℕ
label_list [] = []
label_list (l ∷ ls) = b'{' ∷ (join b',' (map label_entry (l ∷ ls)) ++ b'}' ∷ [])

abbrev pub counter_line : NamedCounter → List ℕ
counter_line c = c.name ++ (label_list c.labels ++ 32 ∷ print_digits c.value)

abbrev pub last_break : List NamedCounter → List ℕ
last_break [] = []
last_break (_ ∷ _) = line_feed ∷ []

unfoldable pub to_prometheus : List NamedCounter → List ℕ
unfolding join
to_prometheus counters = join line_feed (map counter_line counters) ++ last_break counters

abbrev pub max_label_length : ℕ
max_label_length = 64

-- `normalizeLabels`, with `localeCompare` on the keys as an argument
unfoldable pub normalize_labels : (List ℕ → List ℕ → Bool) → List Label → List Label
normalize_labels comes_first labels =
    map (λ l. record { key = l.key; value = take max_label_length l.value })
      (sort_by (λ (l m : Label). comes_first l.key m.key) labels)

-- The values of normalised labels have at most 64 units.
pub normalize_labels-short :
    (comes_first : List ℕ → List ℕ → Bool) (labels : List Label)
    → All (λ (l : Label). length l.value ≤ max_label_length) (normalize_labels comes_first labels)
unfolding normalize_labels
normalize_labels-short comes_first labels = each (sort_by _ labels)
  where
    each :
        (ls : List Label)
        → All
            (λ (l : Label). length l.value ≤ max_label_length)
            (map (λ (l : Label). record { key = l.key; value = take max_label_length l.value }) ls)
    each [] = tt
    each (l ∷ ls) = (length-take-le max_label_length l.value, each ls)
