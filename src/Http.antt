-- ===== src/Http.antt =====
-- src/shared/http/idempotency-key.ts and src/shared/http/customer-user.ts: the checks of headers. A
-- text is the list of its UTF-16 code units.
pub mod Headers
pub mod RequestIds
use geek_interview.Base.{
  ℕ, Bool, true, false, not, ◌&&◌, ◌||◌, Option, none, some, List, [], ◌∷◌, ◌++◌, length, ltb, leb,
  ◌==◌, if◌then◌else◌,
}
use geek_interview.Errors.{
  Result, ok, err, business, http, idempotency_key_required, idempotency_key_invalid, bad_request,
  unauthorized, no_details,
}
use geek_interview.Money.{trim}

abbrev pub max_idempotency_key_length : ℕ
max_idempotency_key_length = 255

abbrev pub is_control : ℕ → Bool
is_control code = ltb code 32 || (code == 127)

-- A surrogate is no control character, so code units do for code points.
unfoldable pub has_control : List ℕ → Bool
has_control [] = false
has_control (c ∷ cs) = is_control c || has_control cs

abbrev pub checked_key : List ℕ → Result (List ℕ)
checked_key [] = err (business idempotency_key_required bad_request no_details)
checked_key (c ∷ cs) =
    if ltb max_idempotency_key_length (length (c ∷ cs)) || has_control (c ∷ cs)
    then err (business idempotency_key_invalid bad_request no_details)
    else ok (c ∷ cs)

unfoldable pub require_idempotency_key : Option (List ℕ) → Result (List ℕ)
require_idempotency_key none = err (business idempotency_key_required bad_request no_details)
require_idempotency_key (some header) = checked_key (trim header)

abbrev pub between : ℕ → ℕ → ℕ → Bool
between low high c = leb low c && leb c high

-- `[0-9a-f]` without regard to case
abbrev pub is_hex : ℕ → Bool
is_hex c = between b'0' b'9' c || (between b'a' b'f' c || between b'A' b'F' c)

abbrev pub is_version : ℕ → Bool
is_version c = between b'1' b'5' c

-- `[89ab]` without regard to case
abbrev pub is_variant : ℕ → Bool
is_variant c = between b'8' b'9' c || (between b'a' b'b' c || between b'A' b'B' c)

abbrev pub is_dash : ℕ → Bool
is_dash c = c == b'-'

abbrev pub two_hex : List (ℕ → Bool)
two_hex = is_hex ∷ is_hex ∷ []

abbrev pub four_hex : List (ℕ → Bool)
four_hex = two_hex ++ two_hex

abbrev pub uuid_pattern : List (ℕ → Bool)
uuid_pattern =
    four_hex
    ++ four_hex
    ++ is_dash ∷ four_hex
    ++ is_dash ∷ is_version ∷ is_hex ∷ two_hex
    ++ is_dash ∷ is_variant ∷ is_hex ∷ two_hex
    ++ is_dash ∷ four_hex
    ++ four_hex
    ++ four_hex

-- Whether a text is one character of each class.
unfoldable pub matches : List (ℕ → Bool) → List ℕ → Bool
matches [] [] = true
matches [] (c ∷ cs) = false
matches (p ∷ ps) [] = false
matches (p ∷ ps) (c ∷ cs) = p c && matches ps cs

unfoldable pub require_authenticated_user_id : Option (List ℕ) → Result (List ℕ)
require_authenticated_user_id none = err (http unauthorized)
require_authenticated_user_id (some header) =
    let user_id = trim header in
    if matches uuid_pattern user_id then ok user_id else err (http unauthorized)
