-- ===== src/Http/RequestIds.antt =====
-- src/shared/observability/request-id.middleware.ts: the id under which a request is answered and
-- logged. A text is the list of its UTF-16 code units; `drawn` is what randomUUID() draws.
use geek_interview.Base.{
  ℕ, ◌≡◌, refl, Bool, true, false, ◌&&◌, ◌||◌, Option, none, some, List, [], ◌∷◌, head?, length,
  leb, ◌==◌, if◌then◌else◌, inl, inr, Bool-cases,
}
use geek_interview.Http.{between}

abbrev pub max_request_id_length : ℕ
max_request_id_length = 128

-- `[A-Za-z0-9._:-]`
abbrev pub is_safe_unit : ℕ → Bool
is_safe_unit c =
    between b'A' b'Z' c
    || (between b'a' b'z' c
        || (between b'0' b'9' c || ((c == b'.') || ((c == b'_') || ((c == b':') || (c == b'-'))))))

unfoldable pub all_safe : List ℕ → Bool
all_safe [] = true
all_safe (c ∷ cs) = is_safe_unit c && all_safe cs

-- A header that came once, or several times.
pub data HeaderValue : Type 0 where
  one : List ℕ → HeaderValue
  many : List (List ℕ) → HeaderValue

abbrev pub candidate_of : Option HeaderValue → Option (List ℕ)
candidate_of none = none
candidate_of (some (one text)) = some text
candidate_of (some (many texts)) = head? texts

abbrev pub is_acceptable : List ℕ → Bool
is_acceptable [] = false
is_acceptable (c ∷ cs) = leb (length (c ∷ cs)) max_request_id_length && all_safe (c ∷ cs)

abbrev pub candidate_or : Option (List ℕ) → List ℕ → List ℕ
candidate_or none drawn = drawn
candidate_or (some text) drawn = if is_acceptable text then text else drawn

unfoldable pub resolve_request_id : Option HeaderValue → List ℕ → List ℕ
resolve_request_id header drawn = candidate_or (candidate_of header) drawn

-- The request gets its id, and the response carries it in its header.
pub record Traced : Type 0 where
  pub request_id : List ℕ
  pub response_header : List ℕ

unfoldable pub request_id_middleware : Option HeaderValue → List ℕ → Traced
request_id_middleware header drawn =
    let request_id = resolve_request_id header drawn in
    record { request_id = request_id; response_header = request_id }

candidate_or-acceptable :
    (candidate : Option (List ℕ)) (drawn : List ℕ)
    → is_acceptable drawn ≡ true
    → is_acceptable (candidate_or candidate drawn) ≡ true
candidate_or-acceptable none drawn h = h
candidate_or-acceptable (some text) drawn h = elim (Bool-cases (is_acceptable text)) [
  | inl good ↦ rw good good
  | inr bad ↦ rw bad h
]

-- If what is drawn is acceptable, then whatever the header is, the id of the request is acceptable,
-- the response carries it, and a service that is called with it as its header keeps it.
pub request_id_middleware-acceptable :
    (header : Option HeaderValue) (drawn later : List ℕ)
    → is_acceptable drawn ≡ true
    → (is_acceptable (request_id_middleware header drawn).request_id ≡ true)
      × ((request_id_middleware header drawn).response_header
          ≡ (request_id_middleware header drawn).request_id)
      × (resolve_request_id (some (one (request_id_middleware header drawn).request_id)) later
          ≡ (request_id_middleware header drawn).request_id)
unfolding request_id_middleware resolve_request_id
request_id_middleware-acceptable header drawn later h =
    let good = candidate_or-acceptable (candidate_of header) drawn h in (good, refl, rw good refl)
