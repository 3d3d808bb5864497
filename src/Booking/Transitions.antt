-- ===== src/Booking/Transitions.antt =====
-- src/modules/booking/infrastructure/booking-lifecycle.repository.ts. `now` is the transaction's
-- `NOW()`, which PostgreSQL fixes when the transaction starts.
use geek_interview.Base.{
  ℕ, Bool, true, ◌&&◌, ◌||◌, Option, none, some, List, ◌∷◌, take, ltb, leb, ◌==◌, not,
}
use geek_interview.Domain.{BookingStatus, confirmed, expired, cancelled, is_reserved}
use geek_interview.Errors.{ok}
use geek_interview.Tables.{find, select, update_where, count_where, sort_by}
use geek_interview.Store.{
  Booking, StatusChange, ChangeSource, ChangeReason, matches_identifier, Tx, gets, modify,
}

-- `OperationBookingTarget`
pub data OperationBookingTarget : Type 0 where
  to_confirmed to_expired to_cancelled : OperationBookingTarget

abbrev pub target_status : OperationBookingTarget → BookingStatus
target_status to_confirmed = confirmed
target_status to_expired = expired
target_status to_cancelled = cancelled

abbrev pub is_owned_by : ℕ → Booking → Bool
is_owned_by user_id b = b.user_id == user_id

abbrev pub set_status : BookingStatus → ℕ → Booking → Booking
set_status status now b = record b { status = status; updated_at = now }

unfoldable pub find_owned_status : ℕ → ℕ → Tx (Option Booking)
find_owned_status user_id identifier =
    gets λ db. find (λ b. is_owned_by user_id b && matches_identifier identifier b) db.bookings

unfoldable pub find_status : ℕ → Tx (Option Booking)
find_status identifier = gets λ db. find (matches_identifier identifier) db.bookings

abbrev pub updated_row : BookingStatus → ℕ → Option Booking → Option Booking
updated_row status now none = none
updated_row status now (some b) = some (set_status status now b)

-- `UPDATE bookings SET status = … WHERE p RETURNING …`, of which `rows[0]` is read.
unfoldable pub transition_where : (Booking → Bool) → BookingStatus → ℕ → Tx (Option Booking)
transition_where p status now db = ok (
  updated_row status now (find p db.bookings),
  record db { bookings = update_where p (set_status status now) db.bookings },
)

abbrev pub is_open_owned : ℕ → ℕ → ℕ → Booking → Bool
is_open_owned now user_id identifier b =
    is_owned_by user_id b
    && (matches_identifier identifier b && (is_reserved b.status && ltb now b.expires_at))

unfoldable pub confirm_owned : ℕ → ℕ → ℕ → Tx (Option Booking)
confirm_owned now user_id identifier =
    transition_where (is_open_owned now user_id identifier) confirmed now

unfoldable pub cancel_owned : ℕ → ℕ → ℕ → Tx (Option Booking)
cancel_owned now user_id identifier =
    transition_where (is_open_owned now user_id identifier) cancelled now

-- The guard that `transitionByOperation` adds for a target.
abbrev pub operation_guard : ℕ → OperationBookingTarget → Booking → Bool
operation_guard now to_confirmed b = ltb now b.expires_at
operation_guard now to_expired b = leb b.expires_at now
operation_guard now to_cancelled b = true

abbrev pub is_operable : ℕ → ℕ → OperationBookingTarget → Booking → Bool
is_operable now identifier target b =
    matches_identifier identifier b && (is_reserved b.status && operation_guard now target b)

unfoldable pub transition_by_operation : ℕ → ℕ → OperationBookingTarget → Tx (Option Booking)
transition_by_operation now identifier target =
    transition_where (is_operable now identifier target) (target_status target) now

abbrev pub is_overdue : ℕ → Booking → Bool
is_overdue now b = is_reserved b.status && leb b.expires_at now

-- `ORDER BY expires_at ASC, id ASC`
abbrev pub deadline_order : Booking → Booking → Bool
deadline_order a b =
    ltb a.expires_at b.expires_at || ((a.expires_at == b.expires_at) && leb a.id b.id)

-- `locked` holds of the rows that other transactions have locked, which SKIP LOCKED passes over.
abbrev pub claimable : (ℕ → Bool) → ℕ → List Booking → List Booking
claimable locked now bookings =
    select (λ b. not (locked b.id)) (sort_by deadline_order (select (is_overdue now) bookings))

unfoldable pub claim_expired : (ℕ → Bool) → ℕ → ℕ → Tx (List Booking)
claim_expired locked now limit = gets λ db. take limit (claimable locked now db.bookings)

abbrev pub is_claimed_overdue : ℕ → ℕ → Booking → Bool
is_claimed_overdue now booking_id b = (b.id == booking_id) && is_overdue now b

-- `now` is the worker's reading of the clock, `db_now` the transaction's. The UPDATE reports whether
-- it changed exactly one row.
unfoldable pub expire_claimed : ℕ → ℕ → ℕ → Tx Bool
expire_claimed db_now booking_id now db = ok (
  count_where (is_claimed_overdue now booking_id) db.bookings == 1,
  record db {
    bookings =
        update_where (is_claimed_overdue now booking_id) (set_status expired db_now) db.bookings;
  },
)

abbrev pub transition_entry :
    ℕ → BookingStatus → BookingStatus → Option ℕ → ChangeSource → ChangeReason → StatusChange
transition_entry booking_id from_status to_status changed_by source reason = record {
  booking_id = booking_id;
  from_status = some from_status;
  to_status = to_status;
  changed_by = changed_by;
  change_source = source;
  reason = reason;
}

unfoldable pub insert_transition_history :
    ℕ → BookingStatus → BookingStatus → Option ℕ → ChangeSource → ChangeReason → Tx (Unit {0})
insert_transition_history booking_id from_status to_status changed_by source reason = modify λ db.
    record db {
      history =
          transition_entry booking_id from_status to_status changed_by source reason ∷ db.history;
    }
