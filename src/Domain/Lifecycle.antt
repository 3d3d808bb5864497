-- ===== src/Domain/Lifecycle.antt =====
-- When a transition of a booking is allowed.
use geek_interview.Base.{ℕ, ◌≤◌, ◌<◌, ◌≡◌, ◌≢◌, ◌↔◌, true, none, arith}
use geek_interview.Domain.{
  BookingStatus, BookingTransition, reserved, confirm, expire, cancel, transition_failure,
  is_terminal_booking_status,
}

-- No transition leaves a terminal status, at any time.
pub terminal_is_final :
    (status : BookingStatus) (t : BookingTransition) (expires_at now : ℕ)
    → is_terminal_booking_status status ≡ true
    → transition_failure status t expires_at now ≢ none
unfolding transition_failure is_terminal_booking_status
terminal_is_final status t expires_at now h e = ground arith

-- A reserved booking can be confirmed, and cancelled, exactly before its deadline, and can expire
-- exactly from its deadline on.
pub reserved_transitions :
    (expires_at now : ℕ)
    → ((transition_failure reserved confirm expires_at now ≡ none) ↔ (now < expires_at))
      × ((transition_failure reserved cancel expires_at now ≡ none) ↔ (now < expires_at))
      × ((transition_failure reserved expire expires_at now ≡ none) ↔ (expires_at ≤ now))
unfolding transition_failure
reserved_transitions expires_at now = ground arith
