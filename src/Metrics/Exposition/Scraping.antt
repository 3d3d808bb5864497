-- ===== src/Metrics/Exposition/Scraping.antt =====
-- A reader of the whole text of the counters.
use geek_interview.Base.{
  ℕ, zero, suc, ◌≤◌, ◌≡◌, refl, Bool, true, false, ◌||◌, Option, none, some, List, [], ◌∷◌, ◌++◌,
  map, arith, ◌==◌, if◌then◌else◌, All, length, length-append, All-mono,
}
use geek_interview.Money.{some_digits}
use geek_interview.Money.Digits.{◌⟫◌, print_digits}
use geek_interview.Money.RoundTrip.{some_digits-print}
use geek_interview.Metrics.Exposition.{
  quote, escape_prometheus, Label, NamedCounter, join, label_entry, label_list, counter_line,
  to_prometheus,
}
use geek_interview.Metrics.Exposition.Reading.{read_quoted, read_quoted-escape_prometheus}
use geek_interview.Metrics.Exposition.Lines.{
  IsNamed, lines_of, append_assoc, to_prometheus-lines_of,
}

-- The text before the first unit that stops it, and the text from there on.
unfoldable pub split_before : (ℕ → Bool) → List ℕ → List ℕ × List ℕ
split_before stops [] = ([], [])
split_before stops (c ∷ cs) =
    let (before, rest) = split_before stops cs in
    if stops c then ([], c ∷ cs) else (c ∷ before, rest)

split_before-append :
    (stops : ℕ → Bool) (t : List ℕ) (c : ℕ) (rest : List ℕ)
    → All (λ d. stops d ≡ false) t
    → stops c ≡ true
    → split_before stops (t ++ c ∷ rest) ≡ (t, c ∷ rest)
unfolding split_before
split_before-append stops [] c rest h stop = rw stop refl
split_before-append stops (d ∷ ds) c rest h stop =
    rw (h.0, split_before-append stops ds c rest h.1 stop) refl

-- A text that starts with a given unit
abbrev pub drop_unit : ℕ → List ℕ → Option (List ℕ)
drop_unit unit [] = none
drop_unit unit (c ∷ cs) = if c == unit then some cs else none

abbrev pub ends_key : ℕ → Bool
ends_key c = c == b'='

-- A name ends at its labels or at the space before the value.
abbrev pub ends_name : ℕ → Bool
ends_name c = (c == b'{') || (c == 32)

unfoldable pub read_label : List ℕ → Option (Label × List ℕ)
unfolding split_before read_quoted
read_label t =
    let (key, rest) = split_before ends_key t in
    drop_unit b'=' rest ⟫ λ r. drop_unit quote r ⟫ λ s.
    read_quoted false s ⟫ λ (v : List ℕ × List ℕ). some (record { key = key; value = v.0 }, v.1)

abbrev pub add_label : Label → Option (List Label × List ℕ) → Option (List Label × List ℕ)
add_label l none = none
add_label l (some (ls, rest)) = some (l ∷ ls, rest)

-- The labels up to the closing brace; the fuel bounds their number.
unfoldable pub read_labels : ℕ → List ℕ → Option (List Label × List ℕ)
read_labels zero t = none
read_labels (suc f) t = read_label t ⟫ λ (l : Label × List ℕ). elim l.1 [
  | [] ↦ none
  | c ∷ rest ↦
      let more = add_label l.0 (read_labels f rest) in
      if c == b'}' then some (l.0 ∷ [], rest) else if c == b',' then more else none
]

abbrev pub read_value : List ℕ → List Label → List ℕ → Option NamedCounter
read_value name labels rest = drop_unit 32 rest ⟫ λ digits.
    some_digits digits ⟫ λ n. some (record { name = name; labels = labels; value = n })

abbrev pub read_braces : List ℕ → List ℕ → Option NamedCounter
read_braces name [] = none
read_braces name (c ∷ rest) =
    if c == b'{'
    then (read_labels (length rest) rest ⟫ λ (ls : List Label × List ℕ). read_value name ls.0 ls.1)
    else read_value name [] (c ∷ rest)

unfoldable pub read_line : List ℕ → Option NamedCounter
unfolding split_before read_labels
read_line t = let (name, rest) = split_before ends_name t in read_braces name rest

unfoldable pub read_all : List (List ℕ) → Option (List NamedCounter)
unfolding read_line
read_all [] = some []
read_all (t ∷ ts) = read_line t ⟫ λ c. read_all ts ⟫ λ cs. some (c ∷ cs)

-- Keys without the sign that ends them
abbrev pub IsKey : Label → Type 0
IsKey l = All (λ d. ends_key d ≡ false) l.key

read_label-label_entry :
    (l : Label) (rest : List ℕ) → IsKey l → read_label (label_entry l ++ rest) ≡ some (l, rest)
unfolding read_label
read_label-label_entry l rest h =
    rw
      (
        append_assoc l.key (b'=' ∷ quote ∷ (escape_prometheus l.value ++ quote ∷ [])) rest,
        split_before-append ends_key l.key b'='
            (quote ∷ ((escape_prometheus l.value ++ quote ∷ []) ++ rest)) h refl,
        append_assoc (escape_prometheus l.value) (quote ∷ []) rest,
        read_quoted-escape_prometheus l.value rest,
      )
      refl

read_labels-join :
    (f : ℕ) (ls : List Label) (l : Label) (rest : List ℕ)
    → All IsKey (l ∷ ls)
    → length (l ∷ ls) ≤ f
    → read_labels f (join b',' (map label_entry (l ∷ ls)) ++ b'}' ∷ rest) ≡ some (l ∷ ls, rest)
unfolding read_labels join
read_labels-join zero ls l rest h e = absurd (omega (arith, e))
read_labels-join (suc f) [] l rest h e = rw (read_label-label_entry l (b'}' ∷ rest) h.0) refl
read_labels-join (suc f) (m ∷ ms) l rest h e =
    rw
      (
        append_assoc (label_entry l) (b',' ∷ join b',' (map label_entry (m ∷ ms))) (b'}' ∷ rest),
        read_label-label_entry l (b',' ∷ (join b',' (map label_entry (m ∷ ms)) ++ b'}' ∷ rest)) h.0,
        read_labels-join f ms m rest h.1 (omega (arith, e)),
      )
      refl

label_entry-long : (l : Label) → 1 ≤ length (label_entry l)
label_entry-long l =
    let h = length-append l.key (b'=' ∷ quote ∷ (escape_prometheus l.value ++ quote ∷ [])) in
    omega (arith, h)

-- There are no more labels than units of their text.
join-long : (ls : List Label) → length ls ≤ length (join b',' (map label_entry ls))
unfolding join
join-long [] = omega arith
join-long (l ∷ []) = label_entry-long l
join-long (l ∷ m ∷ ms) =
    let h = length-append (label_entry l) (b',' ∷ join b',' (map label_entry (m ∷ ms))) in
    omega (arith, h, join-long (m ∷ ms))

read_braces-label_list :
    (name : List ℕ) (ls : List Label) (n : ℕ)
    → All IsKey ls
    → read_braces name (label_list ls ++ 32 ∷ print_digits n)
      ≡ some (record { name = name; labels = ls; value = n })
read_braces-label_list name [] n h = rw (some_digits-print n) refl
read_braces-label_list name (l ∷ ls) n h =
    let entries = join b',' (map label_entry (l ∷ ls)) in
    let end = b'}' ∷ 32 ∷ print_digits n in
    let size = length-append entries end in
    rw
      (
        append_assoc entries (b'}' ∷ []) (32 ∷ print_digits n),
        read_labels-join (length (entries ++ end)) ls l (32 ∷ print_digits n) h
            (omega (arith, size, join-long (l ∷ ls))),
        some_digits-print n,
      )
      refl

-- Names and keys without a unit that the format gives a meaning there; the values are any texts.
abbrev pub IsReadable : NamedCounter → Type 0
IsReadable c = IsNamed c × All (λ d. ends_name d ≡ false) c.name × All IsKey c.labels

label_list-starts :
    (ls : List Label) (rest : List ℕ)
    → (c : ℕ) × (t : List ℕ) × (label_list ls ++ 32 ∷ rest ≡ c ∷ t) × (ends_name c ≡ true)
label_list-starts [] rest = (32, rest, refl, refl)
label_list-starts (l ∷ ls) rest = (b'{', _, refl, refl)

read_line-counter_line : (c : NamedCounter) → IsReadable c → read_line (counter_line c) ≡ some c
unfolding read_line
read_line-counter_line c (_, name, keys) =
    let (d, t, starts, stop) = label_list-starts c.labels (print_digits c.value) in
    let split : split_before ends_name (counter_line c)
        ≡ (c.name, label_list c.labels ++ 32 ∷ print_digits c.value) =
      rw starts (split_before-append ends_name c.name d t name stop) in
    rw split (read_braces-label_list c.name c.labels c.value keys)

read_all-map :
    (cs : List NamedCounter) → All IsReadable cs → read_all (map counter_line cs) ≡ some cs
unfolding read_all
read_all-map [] h = refl
read_all-map (c ∷ cs) h = rw (read_line-counter_line c h.0, read_all-map cs h.1) refl

-- A reader of the exposition format, that splits the text in lines and a line in its name, labels and
-- value, gets back the counters that were printed, whatever the values of their labels are, if names
-- and keys have no line feed, names no space and no opening brace, and keys no equals sign.
pub read_all-to_prometheus :
    (cs : List NamedCounter) → All IsReadable cs → read_all (lines_of (to_prometheus cs)) ≡ some cs
read_all-to_prometheus cs h =
    rw (to_prometheus-lines_of cs (All-mono (λ c r. r.0) cs h)) (read_all-map cs h)
