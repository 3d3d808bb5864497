-- ===== src/RateLimit.antt =====
-- src/shared/http/booking-rate-limit.guard.ts: the limiter of booking attempts. Times are milliseconds.
pub mod Windows
pub mod Refining
use geek_interview.Base.{
  ℕ, ◌+◌, ◌-◌, ◌/◌, Bool, true, false, not, ◌||◌, Option, none, some, List, [], ◌∷◌, ltb, leb, ◌==◌,
  if◌then◌else◌,
}
use geek_interview.Errors.{Result, ok, err, business, rate_limited, retry_after, too_many_requests}
use geek_interview.Tables.{select, find_by, update_where}
use geek_interview.Booking.Request.{Number, whole, other, Texts}

-- The parts of `HttpRequestLike` that the guard reads.
pub record HttpRequest : Type 0 where
  pub method : ℕ
  pub url : ℕ
  pub original_url : Option ℕ
  pub user_id : Option ℕ
  pub ip : Option ℕ
  pub remote_address : Option ℕ

-- What the runtime does with texts here: `split('?')[0]`, `replace(/\/$/, '')`, the texts `POST`,
-- `/api/bookings`, `/bookings` and `unknown`, and the prefixes `user:` and `ip:`.
pub record UrlTexts : Type 0 where
  pub before_query : ℕ → ℕ
  pub drop_slash : ℕ → ℕ
  pub post : ℕ
  pub api_bookings : ℕ
  pub bookings : ℕ
  pub unknown : ℕ
  pub user_key : ℕ → ℕ
  pub ip_key : ℕ → ℕ

-- An entry of the map of buckets, with its key.
pub record Bucket : Type 0 where
  pub key : ℕ
  pub count : ℕ
  pub reset_at : ℕ

abbrev pub key_of : Bucket → ℕ
key_of b = b.key

abbrev pub or_default : Option ℕ → ℕ → ℕ
or_default none d = d
or_default (some x) d = x

abbrev pub is_booking_creation : Texts → UrlTexts → HttpRequest → Bool
is_booking_creation t u r =
    let path = u.drop_slash (u.before_query (or_default r.original_url r.url)) in
    if not (t.upper r.method == u.post)
    then false
    else (path == u.api_bookings) || (path == u.bookings)

-- `x || d`: a missing or empty text is passed over.
abbrev pub or_text : Texts → Option ℕ → ℕ → ℕ
or_text t none d = d
or_text t (some x) d = if t.is_empty x then d else x

abbrev pub ip_key_for : Texts → UrlTexts → HttpRequest → ℕ
ip_key_for t u r = u.ip_key (or_text t r.ip (or_text t r.remote_address u.unknown))

abbrev pub user_key_for : Texts → UrlTexts → HttpRequest → Option ℕ → ℕ
user_key_for t u r none = ip_key_for t u r
user_key_for t u r (some id) =
    if t.is_empty (t.trim id) then ip_key_for t u r else u.user_key (t.trim id)

abbrev pub key_for : Texts → UrlTexts → HttpRequest → ℕ
key_for t u r = user_key_for t u r r.user_id

unfoldable pub prune : ℕ → List Bucket → List Bucket
prune now = select λ b. not (leb b.reset_at now)

abbrev pub fresh_bucket : ℕ → ℕ → ℕ → Bucket
fresh_bucket window_ms key now = record { key = key; count = 1; reset_at = now + window_ms }

abbrev pub count_up : Bucket → Bucket
count_up b = record b { count = b.count + 1 }

-- `Math.max(1, Math.ceil((resetAt - now) / 1000))`, before the reset
abbrev pub retry_seconds : ℕ → ℕ → ℕ
retry_seconds reset_at now = let s = (reset_at - now + 999) / 1000 in if leb 1 s then s else 1

abbrev pub admit_at : ℕ → ℕ → ℕ → ℕ → List Bucket → Option Bucket → Result Bool × List Bucket
admit_at max window_ms key now buckets none = (ok true, fresh_bucket window_ms key now ∷ buckets)
admit_at max window_ms key now buckets (some b) =
    if leb b.reset_at now
    then (ok true, update_where (λ x. x.key == key) (λ _. fresh_bucket window_ms key now) buckets)
    else if ltb b.count max
    then (ok true, update_where (λ x. x.key == key) count_up buckets)
    else (
      err (business rate_limited too_many_requests (retry_after (retry_seconds b.reset_at now))),
      buckets,
    )

-- One attempt under a key: the answer, and the buckets that it leaves.
unfoldable pub admit : ℕ → ℕ → ℕ → ℕ → List Bucket → Result Bool × List Bucket
admit max window_ms key now buckets =
    let live = prune now buckets in admit_at max window_ms key now live (find_by key_of key live)

-- `canActivate`, at the time `now`
unfoldable pub can_activate :
    Texts → UrlTexts → ℕ → ℕ → HttpRequest → ℕ → List Bucket → Result Bool × List Bucket
can_activate t u max window_ms request now buckets =
    if not (is_booking_creation t u request)
    then (ok true, buckets)
    else admit max window_ms (key_for t u request) now buckets

-- `readPositiveInteger` of the number that a setting is read as
unfoldable pub read_positive_integer : Number → ℕ → ℕ
read_positive_integer (whole n) fallback = if ltb 0 n then n else fallback
read_positive_integer other fallback = fallback

abbrev pub default_max_attempts : ℕ
default_max_attempts = 60

abbrev pub default_window_ms : ℕ
default_window_ms = 60000
