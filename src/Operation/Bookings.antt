-- ===== src/Operation/Bookings.antt =====
-- What operators see and change of bookings: listBookings, getBooking and updateBookingStatus of
-- src/modules/operation/application/operation.service.ts, findBookings and findBookingDetail of
-- src/modules/operation/infrastructure/operation.repository.ts. The rows of the history, of
-- redemptions and of idempotency records have the columns of Store: the ids of history entries and
-- the times that they and those rows were written are left out, and the entries, of which a
-- transaction writes at most one for a booking, stand in the order in which they were written.
use mathlib.Core.Option
use geek_interview.Base.{
  ℕ, Bool, true, false, ◌&&◌, ◌||◌, Option, none, some, List, [], ◌∷◌, ◌++◌, head?, ltb, leb, ◌==◌,
  if◌then◌else◌,
}
use geek_interview.Domain.{BookingStatus, reserved, confirmed, expired, cancelled}
use geek_interview.Errors.{
  business, http, bad_request, not_found, invalid_operation_filter, no_details, Result, ok, err,
}
use geek_interview.Money.{cents_to_decimal}
use geek_interview.Tables.{select, find, find_by, sort_by}
use geek_interview.Store.{
  Db, Booking, Concert, ConcertSummary, BookingItemResponse, Voucher, Redemption, RedemptionStatus,
  ReleaseReason, StatusChange, ChangeSource, ChangeReason, IdempotencyRecord, IdempotencyStatus,
  BookingResponse, matches_identifier,
}
use geek_interview.Booking.Request.{Texts}
use geek_interview.Booking.Transitions.{OperationBookingTarget}
use geek_interview.Booking.Lifecycle.{World, transition_booking_by_operation}
use geek_interview.Booking.Read.{Page, item_responses, newest_first, paginate}
use geek_interview.Operation.{as_operator}

pub record OperationBookingQuery : Type 0 where
  pub page : ℕ
  pub limit : ℕ
  pub status : Option BookingStatus
  pub concert_id : Option ℕ
  pub user_id : Option ℕ
  pub from : Option ℕ
  pub to : Option ℕ

pub record OperationBookingSummary : Type 0 where
  pub id : ℕ
  pub booking_code : ℕ
  pub user_id : ℕ
  pub concert : ConcertSummary
  pub status : BookingStatus
  pub subtotal : List ℕ
  pub discount_amount : List ℕ
  pub final_amount : List ℕ
  pub expires_at : ℕ
  pub created_at : ℕ
  pub updated_at : ℕ

abbrev pub summary_of : Booking → Concert → OperationBookingSummary
summary_of b c = record {
  id = b.id;
  booking_code = b.booking_code;
  user_id = b.user_id;
  concert = record { id = b.concert_id; slug = c.slug; name = c.name };
  status = b.status;
  subtotal = cents_to_decimal b.subtotal;
  discount_amount = cents_to_decimal b.discount_amount;
  final_amount = cents_to_decimal b.final_amount;
  expires_at = b.expires_at;
  created_at = b.created_at;
  updated_at = b.updated_at;
}

abbrev pub is_status : BookingStatus → BookingStatus → Bool
is_status reserved reserved = true
is_status confirmed confirmed = true
is_status expired expired = true
is_status cancelled cancelled = true
is_status _ _ = false

-- `if (filter.x) predicates.push(…)`
abbrev pub if_given {ℓ} : {A : Type ℓ} → Option A → (A → Bool) → Bool
if_given none p = true
if_given (some a) p = p a

abbrev pub non_empty_text : Texts → Option ℕ → Option ℕ
non_empty_text t none = none
non_empty_text t (some text) = if t.is_empty text then none else some text

-- The conjunction of the predicates.
abbrev pub passes : Texts → OperationBookingQuery → Booking → Concert → Bool
passes t query b c =
    if_given query.status (is_status b.status)
    && (if_given (non_empty_text t (Option.map t.trim query.concert_id))
          (λ id. (b.concert_id == id) || (c.slug == id))
        && (if_given query.user_id (λ id. b.user_id == id)
            && (if_given query.from (λ from. leb from b.created_at)
                && if_given query.to (λ to. ltb b.created_at to))))

-- `FROM bookings b JOIN concerts c ON c.id = b.concert_id WHERE …`
abbrev pub summary_rows :
    Texts → OperationBookingQuery → List Concert → List Booking → List OperationBookingSummary
summary_rows t query concerts [] = []
summary_rows t query concerts (b ∷ bs) =
    elim (find_by (λ c. c.id) b.concert_id concerts) [
      | none ↦ []
      | some c ↦ if passes t query b c then summary_of b c ∷ [] else []
    ]
    ++ summary_rows t query concerts bs

unfoldable pub find_bookings : Texts → OperationBookingQuery → Db → Page OperationBookingSummary
find_bookings t query db =
    paginate query.page query.limit
      (summary_rows t query db.concerts (sort_by newest_first db.bookings))

-- `query.from && query.to && from >= to`
abbrev pub is_empty_range : Option ℕ → Option ℕ → Bool
is_empty_range (some from) (some to) = leb to from
is_empty_range _ _ = false

unfoldable pub list_bookings :
    Texts → ℕ → OperationBookingQuery → Db → Result (Page OperationBookingSummary) × Db
list_bookings t actor_id query = as_operator actor_id λ db.
    if is_empty_range query.from query.to
    then (err (business invalid_operation_filter bad_request no_details), db)
    else (ok (find_bookings t query db), db)

pub record StatusHistoryEntry : Type 0 where
  pub from_status : Option BookingStatus
  pub to_status : BookingStatus
  pub changed_by : Option ℕ
  pub change_source : ChangeSource
  pub reason : ChangeReason

pub record VoucherUse : Type 0 where
  pub code : ℕ
  pub status : RedemptionStatus
  pub released_at : Option ℕ
  pub released_reason : Option ReleaseReason

pub record IdempotencySummary : Type 0 where
  pub status : IdempotencyStatus
  pub response_status : Option ℕ

pub record OperationBookingDetail : Type 0 where
  pub summary : OperationBookingSummary
  pub items : List BookingItemResponse
  pub status_history : List StatusHistoryEntry
  pub voucher : Option VoucherUse
  pub idempotency : Option IdempotencySummary

abbrev pub history_entry : StatusChange → StatusHistoryEntry
history_entry h = record {
  from_status = h.from_status;
  to_status = h.to_status;
  changed_by = h.changed_by;
  change_source = h.change_source;
  reason = h.reason;
}

-- The table holds the newest entry first.
abbrev pub oldest_first : List StatusChange → List StatusHistoryEntry
oldest_first [] = []
oldest_first (h ∷ hs) = oldest_first hs ++ (history_entry h ∷ [])

abbrev pub voucher_use : Option Voucher → Redemption → Option VoucherUse
voucher_use none r = none
voucher_use (some v) r = some (record {
  code = v.code;
  status = r.status;
  released_at = r.released_at;
  released_reason = r.released_reason;
})

-- A booking has at most one redemption, which `booking_id UNIQUE` says.
abbrev pub voucher_of : Db → Option Redemption → Option VoucherUse
voucher_of db none = none
voucher_of db (some r) = voucher_use (find_by (λ v. v.id) r.voucher_id db.vouchers) r

-- `ir.response_body->>'id' = booking.id`
abbrev pub answers_booking : ℕ → Option BookingResponse → Bool
answers_booking id none = false
answers_booking id (some body) = body.id == id

abbrev pub idempotency_summary : IdempotencyRecord → IdempotencySummary
idempotency_summary r = record { status = r.status; response_status = r.response_status }

abbrev pub detail_of : Db → Booking → Concert → OperationBookingDetail
detail_of db b c = record {
  summary = summary_of b c;
  items =
      item_responses db.ticket_categories
        (sort_by (λ x y. leb x.id y.id) (select (λ i. i.booking_id == b.id) db.booking_items));
  status_history = oldest_first (select (λ h. h.booking_id == b.id) db.history);
  voucher = voucher_of db (find (λ r. r.booking_id == b.id) db.redemptions);
  idempotency = Option.map idempotency_summary (
      find (λ r. (r.user_id == b.user_id) && answers_booking b.id r.response_body)
        db.idempotency_records);
}

abbrev pub detail_rows : Db → List Booking → List OperationBookingDetail
detail_rows db [] = []
detail_rows db (b ∷ bs) =
    elim (find_by (λ c. c.id) b.concert_id db.concerts) [
      | none ↦ []
      | some c ↦ detail_of db b c ∷ []
    ]
    ++ detail_rows db bs

unfoldable pub find_booking_detail : ℕ → Db → Option OperationBookingDetail
find_booking_detail identifier db =
    head? (detail_rows db (select (matches_identifier identifier) db.bookings))

abbrev pub detail_or_not_found : Option OperationBookingDetail → Result OperationBookingDetail
detail_or_not_found none = err (http not_found)
detail_or_not_found (some detail) = ok detail

unfoldable pub get_booking : ℕ → ℕ → Db → Result OperationBookingDetail × Db
get_booking actor_id identifier =
    as_operator actor_id λ db. (detail_or_not_found (find_booking_detail identifier db), db)

abbrev pub updated_detail : ℕ → Result ℕ × Db → Result OperationBookingDetail × Db
updated_detail identifier (ok booking_id, db) =
    (detail_or_not_found (find_booking_detail identifier db), db)
updated_detail identifier (err e, db) = (err e, db)

unfoldable pub update_booking_status :
    Texts → World → ℕ → ℕ → OperationBookingTarget → ℕ → Db → Result OperationBookingDetail × Db
update_booking_status t w actor_id identifier status reason = as_operator actor_id λ db.
    if t.is_empty (t.trim reason)
    then (err (business invalid_operation_filter bad_request no_details), db)
    else updated_detail identifier
        (transition_booking_by_operation w actor_id identifier status (t.trim reason) db)
