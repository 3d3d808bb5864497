-- ===== src/Http/Headers.antt =====
-- What the checks of headers let through.
use geek_interview.Base.{
  ℕ, ◌≤◌, ◌≡◌, ◌≢◌, refl, ap, ◌∙◌, Bool, true, false, some, List, [], ◌∷◌, length, arith, All,
}
use geek_interview.Errors.{ok}
use geek_interview.Money.{trim}
use geek_interview.Http.{
  has_control, checked_key, require_idempotency_key, matches, uuid_pattern,
  require_authenticated_user_id,
}

has_control-All : (cs : List ℕ) → has_control cs ≡ false → All (λ c. (32 ≤ c) × (c ≢ 127)) cs
unfolding has_control
has_control-All [] h = tt
has_control-All (c ∷ cs) h = ((ground arith, λ e. ground arith), has_control-All cs (ground arith))

checked_key-eq-ok :
    (text : List ℕ) {key : List ℕ}
    → checked_key text ≡ ok key
    → (key ≡ text) × (1 ≤ length key) × (length key ≤ 255) × All (λ c. (32 ≤ c) × (c ≢ 127)) key
checked_key-eq-ok [] h = cc
checked_key-eq-ok (c ∷ cs) {key} h =
    let same : key ≡ c ∷ cs = ground arith in
    let clean : has_control (c ∷ cs) ≡ false = ground arith in
    (same, rw same (omega arith), rw same (ground arith), rw same (has_control-All (c ∷ cs) clean))

-- A key that is accepted is the trimmed header, has from 1 to 255 code units, and holds no control
-- character.
pub require_idempotency_key-eq-ok :
    (header key : List ℕ)
    → require_idempotency_key (some header) ≡ ok key
    → (key ≡ trim header)
      × (1 ≤ length key)
      × (length key ≤ 255)
      × All (λ c. (32 ≤ c) × (c ≢ 127)) key
unfolding require_idempotency_key
require_idempotency_key-eq-ok header key h = checked_key-eq-ok (trim header) h

matches-length : (ps : List (ℕ → Bool)) (cs : List ℕ) → matches ps cs ≡ true → length cs ≡ length ps
unfolding matches
matches-length [] [] h = refl
matches-length [] (c ∷ cs) h = cc
matches-length (p ∷ ps) [] h = cc
matches-length (p ∷ ps) (c ∷ cs) h = ground (arith, matches-length ps cs)

-- A user id that is accepted is the trimmed header, has 36 code units and the form of a UUID.
pub require_authenticated_user_id-eq-ok :
    (header user_id : List ℕ)
    → require_authenticated_user_id (some header) ≡ ok user_id
    → (user_id ≡ trim header) × (length user_id ≡ 36) × (matches uuid_pattern user_id ≡ true)
unfolding require_authenticated_user_id
require_authenticated_user_id-eq-ok header user_id h =
    let same : user_id ≡ trim header = ground arith in
    let fits : matches uuid_pattern (trim header) ≡ true = ground arith in
    (same, ap length same ∙ matches-length uuid_pattern (trim header) fits, rw same fits)
