-- ===== src/Endpoints/Causes.antt =====
-- Why a booking request is refused, and how the filter shows an error.
use geek_interview.Base.{
  ℕ, ◌≡◌, ◌≢◌, refl, Bool, true, Option, none, some, List, ◌⊎◌, inl, inr, Bool-cases, ◌==◌,
}
use geek_interview.Errors.{
  Exn, BusinessErrorCode, DriverError, Result, ok, err, business, http, voucher_policy, database,
  plain, rate_limited, retry_after, no_details, idempotency_key_required, idempotency_key_invalid,
}
use geek_interview.Store.{Db, UserRole}
use geek_interview.Http.{require_idempotency_key, require_authenticated_user_id}
use geek_interview.Filter.{
  ErrorAnswer, thrown, answer_error, business_code, internal_error, of_exception, unexpected_error,
  of_business, nothing, to_payload,
}
use geek_interview.Booking.Request.{CreateBookingDto, Texts}
use geek_interview.Booking.Read.{find_role}
use geek_interview.Booking.Create.{Draw, execute}
use geek_interview.Endpoints.{Names}

-- What a client is shown of an error: a business error with its status, code and details, an error of
-- the framework with its status and without details, every other one as an unexpected error with 500;
-- always with the id of the request.
abbrev pub ShowsError : ℕ → Exn → ErrorAnswer → Type 0
ShowsError request_id (business code status details) answer = answer ≡ record {
  status = status;
  request_id_header = request_id;
  payload = record {
    code = business_code code;
    message = of_exception;
    details = of_business details;
    trace_id = request_id;
  };
}
ShowsError request_id (http status) answer =
    (answer.status ≡ status)
    × (answer.request_id_header ≡ request_id)
    × (answer.payload.details ≡ nothing)
    × (answer.payload.trace_id ≡ request_id)
ShowsError request_id _ answer = answer ≡ record {
  status = 500;
  request_id_header = request_id;
  payload = record {
    code = internal_error;
    message = unexpected_error;
    details = nothing;
    trace_id = request_id;
  };
}

pub answer_error-ShowsError :
    (request_id : ℕ) (e : Exn)
    → ShowsError request_id e (answer_error (some request_id) request_id (thrown e))
unfolding answer_error to_payload
answer_error-ShowsError request_id (business code status d) = refl
answer_error-ShowsError request_id (http status) = elim (Bool-cases (status == 400)) [
  | inl is400 ↦ rw is400 (refl, refl, refl, refl)
  | inr other ↦ rw other (refl, refl, refl, refl)
]
answer_error-ShowsError request_id (voucher_policy code) = refl
answer_error-ShowsError request_id (database e) = refl
answer_error-ShowsError request_id (plain m) = refl

-- Where a booking request was stopped, and the error that was thrown there: by the limiter; for a
-- header that names no user; for a user who is not there, or no customer; for a key that is missing or
-- invalid; by the service.
pub data Stopped (t : Texts) (n : Names) (faults : ℕ → Option DriverError) (draws : ℕ → Draw)
    (request : CreateBookingDto) (user_header key_header : Option (List ℕ)) (limiter : Result Bool)
    (db : Db) : Exn → Type 0 where
  limited :
      (seconds : ℕ)
      → limiter ≡ err (business rate_limited 429 (retry_after seconds))
      → Stopped t n faults draws request user_header key_header limiter db
          (business rate_limited 429 (retry_after seconds))
  unnamed :
      limiter ≡ ok true
      → require_authenticated_user_id user_header ≡ err (http 401)
      → Stopped t n faults draws request user_header key_header limiter db (http 401)
  unknown :
      (user : List ℕ)
      → limiter ≡ ok true
      → require_authenticated_user_id user_header ≡ ok user
      → find_role (n.user_of user) db ≡ none
      → Stopped t n faults draws request user_header key_header limiter db (http 401)
  no_customer :
      (user : List ℕ) (role : UserRole)
      → limiter ≡ ok true
      → require_authenticated_user_id user_header ≡ ok user
      → find_role (n.user_of user) db ≡ some role
      → role ≢ UserRole.customer
      → Stopped t n faults draws request user_header key_header limiter db (http 403)
  unkeyed :
      (user : List ℕ) (code : BusinessErrorCode)
      → limiter ≡ ok true
      → require_authenticated_user_id user_header ≡ ok user
      → find_role (n.user_of user) db ≡ some UserRole.customer
      → require_idempotency_key key_header ≡ err (business code 400 no_details)
      → (code ≡ idempotency_key_required) ⊎ (code ≡ idempotency_key_invalid)
      → Stopped t n faults draws request user_header key_header limiter db
          (business code 400 no_details)
  in_service :
      (user key : List ℕ) (e : Exn)
      → limiter ≡ ok true
      → require_authenticated_user_id user_header ≡ ok user
      → find_role (n.user_of user) db ≡ some UserRole.customer
      → require_idempotency_key key_header ≡ ok key
      → (execute t faults draws (n.user_of user) request (n.key_of key) db).0 ≡ err e
      → Stopped t n faults draws request user_header key_header limiter db e
