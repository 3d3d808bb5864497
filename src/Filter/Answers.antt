-- ===== src/Filter/Answers.antt =====
-- What clients learn from an error.
use geek_interview.Base.{
  ℕ, ◌≤◌, ◌<◌, ◌≡◌, ◌↔◌, refl, Option, none, arith, inl, inr, ◌==◌, Bool-cases,
}
use geek_interview.Errors.{business, http, voucher_policy, database, plain}
use geek_interview.Filter.{
  Thrown, service_unavailable, thrown, invalid_request, not_ready, http_exception, internal_error,
  default_code, to_payload, answer_error, nothing,
}

-- Business errors are the client's: their status is below 500.
abbrev pub IsClientError : Thrown → Type 0
IsClientError (thrown (business code status d)) = status < 500
IsClientError _ = Unit

default_code-internal_error : (status : ℕ) → (default_code status ≡ internal_error) ↔ (500 ≤ status)
unfolding default_code
default_code-internal_error status = ground arith

-- The code of an answer is INTERNAL_ERROR exactly if its status is 500 or more, as long as business
-- errors have statuses below 500.
pub answer_error-internal_error :
    (request_id : Option ℕ) (drawn : ℕ) (x : Thrown)
    → IsClientError x
    → ((answer_error request_id drawn x).payload.code ≡ internal_error)
      ↔ (500 ≤ (answer_error request_id drawn x).status)
unfolding answer_error to_payload
answer_error-internal_error request_id drawn (thrown (business code status d)) h = ground arith
answer_error-internal_error request_id drawn (thrown (http status)) h =
    elim (Bool-cases (status == 400)) [
      | inl is400 ↦ rw is400 (default_code-internal_error status)
      | inr other ↦ rw other (default_code-internal_error status)
    ]
answer_error-internal_error request_id drawn (thrown (voucher_policy code)) h = ground arith
answer_error-internal_error request_id drawn (thrown (database e)) h = ground arith
answer_error-internal_error request_id drawn (thrown (plain m)) h = ground arith
answer_error-internal_error request_id drawn (invalid_request ms) h = ground arith
answer_error-internal_error request_id drawn not_ready h =
    default_code-internal_error service_unavailable

-- Whatever is thrown that is no HTTP exception, an error of the database or of the program, gets one
-- and the same answer, with status 500 and without details.
pub answer_error_hides :
    (request_id : Option ℕ) (drawn : ℕ) (x y : Thrown)
    → http_exception x ≡ none
    → http_exception y ≡ none
    → (answer_error request_id drawn x ≡ answer_error request_id drawn y)
      × ((answer_error request_id drawn x).status ≡ 500)
      × ((answer_error request_id drawn x).payload.details ≡ nothing)
unfolding answer_error to_payload
answer_error_hides request_id drawn x y hx hy =
    (rw (answer_error, hx, hy) refl, rw (answer_error, hx) refl, rw (answer_error, hx) refl)
