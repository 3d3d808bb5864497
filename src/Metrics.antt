-- ===== src/Metrics.antt =====
-- src/shared/observability/observability.service.ts: the counters, without their log entries and
-- their text form, and how `execute` of
-- src/modules/booking/application/create-booking.service.ts records its calls.
pub mod Counting
pub mod Exposition
pub mod Routes
pub mod Interceptor
use geek_interview.Base.{
  ℕ, ◌+◌, Bool, true, false, ◌&&◌, Option, none, some, List, [], ◌∷◌, ltb, ◌==◌, if◌then◌else◌,
}
use geek_interview.Errors.{
  Exn, BusinessErrorCode, business, DriverError, insufficient_ticket_inventory, voucher_exhausted,
  idempotency_key_required, idempotency_key_invalid, idempotency_key_reused,
  idempotency_request_in_progress, idempotency_result_unavailable, Result, ok, err,
}
use geek_interview.Store.{Db}
use geek_interview.Booking.Request.{CreateBookingDto, NormalizedItem, Texts, normalize_items}
use geek_interview.Booking.Create.{CreateBookingResult, Draw, execute_items}

pub data MetricName : Type 0 where
  http_requests_total booking_attempts_total booking_success_total booking_replayed_total
        booking_failure_total booking_sold_out_total inventory_conflicts_total
        voucher_exhausted_total idempotency_conflicts_total booking_expired_total :
      MetricName

-- The names and the labels are told apart by numbers.
abbrev pub name_number : MetricName → ℕ
name_number http_requests_total = 0
name_number booking_attempts_total = 1
name_number booking_success_total = 2
name_number booking_replayed_total = 3
name_number booking_failure_total = 4
name_number booking_sold_out_total = 5
name_number inventory_conflicts_total = 6
name_number voucher_exhausted_total = 7
name_number idempotency_conflicts_total = 8
name_number booking_expired_total = 9

-- `name|JSON` of the labels: what `code_number` says of a `code` label, 0 without labels.
pub record Counter : Type 0 where
  pub name : MetricName
  pub labels : ℕ
  pub value : ℕ

abbrev pub is_counter : MetricName → ℕ → Counter → Bool
is_counter name labels c = (name_number c.name == name_number name) && (c.labels == labels)

-- A `Map` keeps the order in which its keys came.
unfoldable pub increment : MetricName → ℕ → ℕ → List Counter → List Counter
increment name labels amount [] = record { name = name; labels = labels; value = amount } ∷ []
increment name labels amount (c ∷ cs) =
    if is_counter name labels c
    then record c { value = c.value + amount } ∷ cs
    else c ∷ increment name labels amount cs

pub data Outcome : Type 0 where
  success replayed failure : Outcome

abbrev pub outcome_name : Outcome → MetricName
outcome_name success = booking_success_total
outcome_name replayed = booking_replayed_total
outcome_name failure = booking_failure_total

-- `errorCode`: the code of a business error, else `UNEXPECTED_ERROR`, which is none here.
abbrev pub error_code : Exn → Option BusinessErrorCode
error_code (business code _ _) = some code
error_code _ = none

-- `code.startsWith('IDEMPOTENCY_')`
abbrev pub is_idempotency_code : BusinessErrorCode → Bool
is_idempotency_code idempotency_key_required = true
is_idempotency_code idempotency_key_invalid = true
is_idempotency_code idempotency_key_reused = true
is_idempotency_code idempotency_request_in_progress = true
is_idempotency_code idempotency_result_unavailable = true
is_idempotency_code _ = false

abbrev pub is_sold_out : BusinessErrorCode → Bool
is_sold_out insufficient_ticket_inventory = true
is_sold_out _ = false

abbrev pub is_exhausted : BusinessErrorCode → Bool
is_exhausted voucher_exhausted = true
is_exhausted _ = false

abbrev pub increment_if : Bool → MetricName → ℕ → List Counter → List Counter
increment_if test name labels cs = if test then increment name labels 1 cs else cs

-- The counters beside that of the outcome; `labels` is the label of the code.
abbrev pub count_reason : BusinessErrorCode → ℕ → List Counter → List Counter
count_reason code labels cs =
    increment_if (is_idempotency_code code) idempotency_conflicts_total labels (
      increment_if (is_exhausted code) voucher_exhausted_total 0 (
        increment_if (is_sold_out code) inventory_conflicts_total 0
          (increment_if (is_sold_out code) booking_sold_out_total 0 cs)))

abbrev pub count_failure : Option BusinessErrorCode → ℕ → List Counter → List Counter
count_failure none labels cs = cs
count_failure (some code) labels cs = count_reason code labels cs

unfoldable pub record_booking_attempt : List Counter → List Counter
record_booking_attempt = increment booking_attempts_total 0 1

-- `recordBookingOutcome` of a success, and of a failure with its code.
unfoldable pub record_booking_success : Bool → List Counter → List Counter
record_booking_success was_replayed =
    increment (outcome_name (if was_replayed then replayed else success)) 0 1

unfoldable pub record_booking_failure :
    (Option BusinessErrorCode → ℕ) → Option BusinessErrorCode → List Counter → List Counter
record_booking_failure code_number code cs =
    count_failure code (code_number code) (increment (outcome_name failure) (code_number code) 1 cs)

unfoldable pub record_expiry : ℕ → List Counter → List Counter
record_expiry count cs = if ltb 0 count then increment booking_expired_total 0 count cs else cs

abbrev pub record_result :
    (Option BusinessErrorCode → ℕ) → Result CreateBookingResult → List Counter → List Counter
record_result code_number (ok r) = record_booking_success r.replayed
record_result code_number (err e) = record_booking_failure code_number (error_code e)

-- `execute` with its records: a request whose items are refused is not counted as an attempt.
abbrev pub observed_items :
    Texts
    → (Option BusinessErrorCode → ℕ)
    → (ℕ → Option DriverError)
    → (ℕ → Draw)
    → ℕ
    → CreateBookingDto
    → ℕ
    → Result (List NormalizedItem)
    → Db
    → List Counter
    → (Result CreateBookingResult × Db) × List Counter
observed_items t code_number faults draws user_id request key (err e) db cs = ((err e, db), cs)
observed_items t code_number faults draws user_id request key (ok items) db cs =
    let r = execute_items t faults draws user_id request key (ok items) db in
    (r, record_result code_number r.0 (record_booking_attempt cs))

unfoldable pub execute_observed :
    Texts
    → (Option BusinessErrorCode → ℕ)
    → (ℕ → Option DriverError)
    → (ℕ → Draw)
    → ℕ
    → CreateBookingDto
    → ℕ
    → Db
    → List Counter
    → (Result CreateBookingResult × Db) × List Counter
execute_observed t code_number faults draws user_id request key =
    observed_items t code_number faults draws user_id request key (normalize_items t request.items)

-- `recordRequest`; `labels` stands for the method, the normalised route and the status.
unfoldable pub record_request : ℕ → List Counter → List Counter
record_request labels = increment http_requests_total labels 1
