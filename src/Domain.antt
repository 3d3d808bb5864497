-- ===== src/Domain.antt =====
-- src/modules/booking/domain/booking-lifecycle.ts: the states of a booking and its transitions.
-- Times are milliseconds since the epoch.
pub mod Lifecycle
use geek_interview.Base.{ℕ, Bool, true, false, not, ◌&&◌, Option, none, some, leb, if◌then◌else◌}

pub data BookingStatus : Type 0 where
  reserved confirmed expired cancelled : BookingStatus

-- The status of a concert, from database/migrations.
pub data ConcertStatus : Type 0 where
  draft published archived : ConcertStatus

pub data BookingTransition : Type 0 where
  confirm expire cancel : BookingTransition

pub data BookingTransitionFailure : Type 0 where
  booking_not_confirmable booking_not_expired booking_not_cancellable : BookingTransitionFailure

-- `status === 'RESERVED'`
abbrev pub is_reserved : BookingStatus → Bool
is_reserved reserved = true
is_reserved _ = false

abbrev pub is_confirm : BookingTransition → Bool
is_confirm confirm = true
is_confirm _ = false

abbrev pub is_expire : BookingTransition → Bool
is_expire expire = true
is_expire _ = false

abbrev pub is_cancel : BookingTransition → Bool
is_cancel cancel = true
is_cancel _ = false

unfoldable pub transition_failure :
    BookingStatus → BookingTransition → ℕ → ℕ → Option BookingTransitionFailure
transition_failure status transition expires_at now =
    let is_expired = leb expires_at now in
    if not (is_reserved status)
    then if is_confirm transition
      then some booking_not_confirmable
      else if is_expire transition
      then some booking_not_expired
      else some booking_not_cancellable
    else if is_confirm transition && is_expired
    then some booking_not_confirmable
    else if is_cancel transition && is_expired
    then some booking_not_cancellable
    else if is_expire transition && not is_expired
    then some booking_not_expired
    else none

unfoldable pub is_terminal_booking_status : BookingStatus → Bool
is_terminal_booking_status status = not (is_reserved status)
