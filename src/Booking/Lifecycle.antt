-- ===== src/Booking/Lifecycle.antt =====
-- src/modules/booking/application/booking-lifecycle.service.ts
use geek_interview.Base.{
  ℕ, ◌+◌, Bool, true, false, Option, none, some, List, [], ◌∷◌, leb, if◌then◌else◌,
}
use geek_interview.Domain.{
  BookingTransition, reserved, confirmed, expired, cancelled, confirm, cancel,
}
use geek_interview.Errors.{
  Exn, DriverError, business, http, not_found, conflict, booking_not_confirmable,
  booking_not_cancellable, booking_not_transitionable, booking_deadline, booking_state,
  booking_target, Result, ok, err,
}
use geek_interview.Store.{
  Db, Booking, BookingResponse, ReleaseReason, reservation_expired, booking_cancelled,
  operation_cancelled, operation_expired, customer_api, operation_api, reservation_expiry_worker,
  booking_was_confirmed, booking_was_cancelled, ttl_elapsed, operator_reason, Tx, pure, throw,
  ◌>>=◌, ◌>>◌,
}
use geek_interview.Inventory
use geek_interview.Voucher.Reservation
use geek_interview.Transaction.{with_transaction}
use geek_interview.Booking.Transitions.{
  OperationBookingTarget, to_confirmed, to_expired, to_cancelled, target_status, find_owned_status,
  find_status, confirm_owned, cancel_owned, transition_by_operation, claim_expired, expire_claimed,
  insert_transition_history,
}
use geek_interview.Booking.Read.{get_owned}

-- The clocks of an attempt: the transaction's `NOW()` and the process's `new Date()`.
pub record Clock : Type 0 where
  pub db_now : ℕ
  pub date_now : ℕ

-- `throwTransitionError`, at a row or at its absence
abbrev pub transition_error : Option Booking → BookingTransition → ℕ → Exn
transition_error none transition now = http not_found
transition_error (some b) confirm now =
    business booking_not_confirmable conflict (booking_deadline b.status b.expires_at now)
transition_error (some b) _ now = business booking_not_cancellable conflict (booking_state b.status)

unfoldable pub throw_transition_error : {A : Type 0} → ℕ → ℕ → BookingTransition → ℕ → Tx A
throw_transition_error user_id identifier transition now = do
  existing ← find_owned_status user_id identifier
  throw (transition_error existing transition now)

unfoldable pub release_resources : ℕ → ℕ → ReleaseReason → Tx (Unit {0})
release_resources now booking_id reason = do
  _ ← Inventory.release_for_booking booking_id
  _ ← Reservation.release_for_booking now booking_id reason
  pure tt

abbrev pub confirmed_after : ℕ → Booking → Tx ℕ
confirmed_after user_id b = do
  insert_transition_history b.id reserved confirmed (some user_id) customer_api
      booking_was_confirmed
  _ ← Reservation.consume_for_booking b.id
  pure b.id

abbrev pub confirm_result : Clock → ℕ → ℕ → Option Booking → Tx ℕ
confirm_result clock user_id identifier none =
    throw_transition_error user_id identifier confirm clock.date_now
confirm_result clock user_id identifier (some b) = confirmed_after user_id b

unfoldable pub confirm_work : Clock → ℕ → ℕ → Tx ℕ
confirm_work clock user_id identifier = do
  booking ← confirm_owned clock.db_now user_id identifier
  confirm_result clock user_id identifier booking

abbrev pub cancelled_after : ℕ → ℕ → Booking → Tx ℕ
cancelled_after now user_id b = do
  release_resources now b.id booking_cancelled
  insert_transition_history b.id reserved cancelled (some user_id) customer_api
      booking_was_cancelled
  pure b.id

abbrev pub cancel_result : Clock → ℕ → ℕ → Option Booking → Tx ℕ
cancel_result clock user_id identifier none =
    throw_transition_error user_id identifier cancel clock.date_now
cancel_result clock user_id identifier (some b) = cancelled_after clock.db_now user_id b

unfoldable pub cancel_work : Clock → ℕ → ℕ → Tx ℕ
cancel_work clock user_id identifier = do
  booking ← cancel_owned clock.db_now user_id identifier
  cancel_result clock user_id identifier booking

-- `existing` is none for a booking that is not there.
abbrev pub operation_error : Option Booking → OperationBookingTarget → Exn
operation_error none target = http not_found
operation_error (some b) target =
    business booking_not_transitionable conflict (booking_target b.status (target_status target))

abbrev pub settle : ℕ → OperationBookingTarget → ℕ → Tx (Unit {0})
settle now to_confirmed booking_id = do _ ← Reservation.consume_for_booking booking_id; pure tt
settle now to_cancelled booking_id = release_resources now booking_id operation_cancelled
settle now to_expired booking_id = release_resources now booking_id operation_expired

abbrev pub operated_after : ℕ → ℕ → OperationBookingTarget → ℕ → Booking → Tx ℕ
operated_after now actor_id target reason b = do
  settle now target b.id
  insert_transition_history b.id reserved (target_status target) (some actor_id) operation_api
      (operator_reason reason)
  pure b.id

abbrev pub operation_result : Clock → ℕ → ℕ → OperationBookingTarget → ℕ → Option Booking → Tx ℕ
operation_result clock actor_id identifier target reason none = do
  existing ← find_status identifier
  throw (operation_error existing target)
operation_result clock actor_id identifier target reason (some b) =
    operated_after clock.db_now actor_id target reason b

unfoldable pub operation_work : Clock → ℕ → ℕ → OperationBookingTarget → ℕ → Tx ℕ
operation_work clock actor_id identifier target reason = do
  booking ← transition_by_operation clock.db_now identifier target
  operation_result clock actor_id identifier target reason booking

abbrev pub expired_after : ℕ → ℕ → Tx (Unit {0})
expired_after now booking_id = do
  release_resources now booking_id reservation_expired
  insert_transition_history booking_id reserved expired none reservation_expiry_worker ttl_elapsed

abbrev pub expire_result : ℕ → ℕ → Bool → Tx Bool
expire_result now booking_id false = pure false
expire_result now booking_id true = expired_after now booking_id >> pure true

-- One round of the loop over the claimed rows: whether the row was still there to expire.
unfoldable pub expire_one : ℕ → ℕ → ℕ → Tx Bool
expire_one db_now now booking_id = do
  transitioned ← expire_claimed db_now booking_id now
  expire_result db_now booking_id transitioned

unfoldable pub expire_all : ℕ → ℕ → List Booking → ℕ → Tx ℕ
expire_all db_now now [] processed = pure processed
expire_all db_now now (b ∷ bs) processed = do
  done ← expire_one db_now now b.id
  expire_all db_now now bs (if done then processed + 1 else processed)

-- `Math.max(1, Math.min(500, Math.trunc(limit)))` of a whole number
abbrev pub safe_limit : ℕ → ℕ
safe_limit limit = if leb limit 500 then (if leb 1 limit then limit else 1) else 500

unfoldable pub expire_work : (ℕ → Bool) → ℕ → ℕ → ℕ → Tx ℕ
expire_work locked limit now db_now = do
  claimed ← claim_expired locked now (safe_limit limit)
  expire_all db_now now claimed 0

-- What the world does to a call: which attempts the database aborts, and each attempt's clocks.
pub record World : Type 0 where
  pub faults : ℕ → Option DriverError
  pub clock : ℕ → Clock

-- The response is read after the commit.
abbrev pub then_read : ℕ → Result ℕ × Db → Result BookingResponse × Db
then_read user_id (ok booking_id, db) = (get_owned user_id booking_id db, db)
then_read user_id (err e, db) = (err e, db)

unfoldable pub confirm_booking : World → ℕ → ℕ → Db → Result BookingResponse × Db
confirm_booking w user_id identifier db =
    then_read user_id
      (with_transaction w.faults (λ n. confirm_work (w.clock n) user_id identifier) (some 3) db)

unfoldable pub cancel_booking : World → ℕ → ℕ → Db → Result BookingResponse × Db
cancel_booking w user_id identifier db =
    then_read user_id
      (with_transaction w.faults (λ n. cancel_work (w.clock n) user_id identifier) (some 3) db)

unfoldable pub transition_booking_by_operation :
    World → ℕ → ℕ → OperationBookingTarget → ℕ → Db → Result ℕ × Db
transition_booking_by_operation w actor_id identifier target reason =
    with_transaction w.faults (λ n. operation_work (w.clock n) actor_id identifier target reason)
      (some 3)

-- `now` is an argument of the batch; each attempt has its own `NOW()` and its own locked rows.
unfoldable pub expire_batch : World → (ℕ → ℕ → Bool) → ℕ → ℕ → Db → Result ℕ × Db
expire_batch w locked limit now =
    with_transaction w.faults (λ n. expire_work (locked n) limit now (w.clock n).db_now) (some 3)
