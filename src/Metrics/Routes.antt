-- ===== src/Metrics/Routes.antt =====
-- `normalizeRoute` of src/shared/observability/observability.service.ts: the route under which a
-- request is counted. A text is the list of its UTF-16 code units.
pub mod Stable
use geek_interview.Base.{
  ℕ, Bool, true, false, ◌&&◌, ◌||◌, List, [], ◌∷◌, ◌++◌, map, ◌==◌, if◌then◌else◌,
}
use geek_interview.Http.{between, is_hex, is_dash, four_hex, matches}
use geek_interview.Metrics.Exposition.{join}

abbrev pub slash : ℕ
slash = b'/'

abbrev pub question_mark : ℕ
question_mark = 63

-- `split('?')[0]`
unfoldable pub before_query : List ℕ → List ℕ
before_query [] = []
before_query (c ∷ cs) = let rest = before_query cs in if c == question_mark then [] else c ∷ rest

abbrev pub cons_first : ℕ → List (List ℕ) → List (List ℕ)
cons_first c [] = (c ∷ []) ∷ []
cons_first c (s ∷ ss) = (c ∷ s) ∷ ss

-- The text before the first slash, and the segments that follow one each. Both patterns match a slash
-- and the whole of its segment.
unfoldable pub segments : List ℕ → List (List ℕ)
segments [] = [] ∷ []
segments (c ∷ cs) = let rest = segments cs in if c == slash then [] ∷ rest else cons_first c rest

abbrev pub is_hex_or_dash : ℕ → Bool
is_hex_or_dash c = is_hex c || is_dash c

abbrev pub nine : List (ℕ → Bool)
nine =
    is_hex_or_dash ∷ is_hex_or_dash ∷ is_hex_or_dash ∷ is_hex_or_dash ∷ is_hex_or_dash
    ∷ is_hex_or_dash ∷ is_hex_or_dash ∷ is_hex_or_dash ∷ is_hex_or_dash ∷ []

-- `[0-9a-f]{8}-[0-9a-f-]{27}`
abbrev pub id_pattern : List (ℕ → Bool)
id_pattern = four_hex ++ four_hex ++ is_dash ∷ nine ++ nine ++ nine

-- `[A-Z0-9-]` without regard to case
abbrev pub is_code_unit : ℕ → Bool
is_code_unit c = between b'A' b'Z' c || (between b'a' b'z' c || (between b'0' b'9' c || is_dash c))

unfoldable pub all_code_units : List ℕ → Bool
all_code_units [] = true
all_code_units (c ∷ cs) = is_code_unit c && all_code_units cs

-- `BK-[A-Z0-9-]+` without regard to case
abbrev pub is_booking_code : List ℕ → Bool
is_booking_code (b ∷ k ∷ d ∷ c ∷ cs) =
    ((b == b'B') || (b == b'b'))
    && (((k == b'K') || (k == b'k')) && (is_dash d && all_code_units (c ∷ cs)))
is_booking_code _ = false

-- `:id`
abbrev pub placeholder : List ℕ
placeholder = b':' ∷ b'i' ∷ b'd' ∷ []

abbrev pub replace_id : List ℕ → List ℕ
replace_id segment = if matches id_pattern segment then placeholder else segment

abbrev pub replace_code : List ℕ → List ℕ
replace_code segment = if is_booking_code segment then placeholder else segment

unfoldable pub replace_segment : List ℕ → List ℕ
replace_segment segment = replace_code (replace_id segment)

abbrev pub replace_segments : List (List ℕ) → List (List ℕ)
replace_segments [] = []
replace_segments (first ∷ rest) = first ∷ map replace_segment rest

-- `normalized || '/'`
abbrev pub or_slash : List ℕ → List ℕ
or_slash [] = slash ∷ []
or_slash (c ∷ cs) = c ∷ cs

unfoldable pub normalize_route : List ℕ → List ℕ
unfolding before_query segments replace_segment
normalize_route route = or_slash (join slash (replace_segments (segments (before_query route))))
