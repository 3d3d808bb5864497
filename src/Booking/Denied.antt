-- ===== src/Booking/Denied.antt =====
-- What a customer is told whose booking cannot be confirmed or cancelled.
use geek_interview.Base.{
  ℕ, ◌≤◌, ◌≡◌, ◌≢◌, refl, ap, ◌∙◌, Bool, true, false, ◌&&◌, All, All-mono, Any, arith, ◌⊎◌, inl,
  inr, Bool-cases, Option-cases,
}
use geek_interview.Domain.{
  BookingStatus, BookingTransition, reserved, confirmed, expired, cancelled, is_reserved, confirm,
  cancel,
}
use geek_interview.Errors.{
  err, business, http, booking_not_confirmable, booking_not_cancellable, booking_deadline,
  booking_state,
}
use geek_interview.Tables.{find}
use geek_interview.Tables.Members.{
  find-none-All, All-find-none, find-some-Any, find-some-passes, Any-mono,
}
use geek_interview.Store.{Db, Booking, matches_identifier}
use geek_interview.Booking.Transitions.{is_owned_by, is_open_owned}
use geek_interview.Booking.Lifecycle.{Clock, transition_error, confirm_work, cancel_work}
use geek_interview.Booking.Refusals.{confirm_cancel_refused}

-- A booking of the user that goes by an identifier
abbrev pub IsTheirs : ℕ → ℕ → Booking → Type 0
IsTheirs user_id identifier b =
    (b.user_id ≡ user_id) × ((b.id ≡ identifier) ⊎ (b.booking_code ≡ identifier))

-- No longer RESERVED, or at its deadline or past it
abbrev pub IsClosed : ℕ → Booking → Type 0
IsClosed now b = (b.status ≢ reserved) ⊎ (b.expires_at ≤ now)

is_reserved-reserved : (s : BookingStatus) → is_reserved s ≡ true → s ≡ reserved
is_reserved-reserved reserved h = refl
is_reserved-reserved confirmed h = cc
is_reserved-reserved expired h = cc
is_reserved-reserved cancelled h = cc

their : ℕ → ℕ → Booking → Bool
their user_id identifier b = is_owned_by user_id b && matches_identifier identifier b

their-IsTheirs :
    (user_id identifier : ℕ) (b : Booking)
    → their user_id identifier b ≡ true
    → IsTheirs user_id identifier b
unfolding their
their-IsTheirs user_id identifier b h = (ground arith, ground arith)

their-not :
    (user_id identifier : ℕ) (b : Booking)
    → their user_id identifier b ≡ false
    → ¬ IsTheirs user_id identifier b
unfolding their
their-not user_id identifier b h (user, inl e) = ground arith
their-not user_id identifier b h (user, inr e) = ground arith

closed_is_not_open :
    (now user_id identifier : ℕ) (b : Booking)
    → (IsTheirs user_id identifier b → IsClosed now b)
    → is_open_owned now user_id identifier b ≡ false
closed_is_not_open now user_id identifier b closed =
    elim (Bool-cases (is_open_owned now user_id identifier b)) [
      | inr out ↦ out
      | inl in_time ↦
          let theirs : IsTheirs user_id identifier b = (ground arith, ground arith) in
          let held : b.status ≡ reserved = is_reserved-reserved b.status (ground arith) in
          elim (closed theirs) [
            | inl not_held ↦ absurd (not_held held)
            | inr late ↦ absurd (ground arith)
          ]
    ]

-- If every booking of the user that goes by an identifier is no longer RESERVED or is at its deadline
-- or past it, confirming and cancelling are refused: both with 404 if the user has no such booking;
-- else with 409, confirming with BOOKING_NOT_CONFIRMABLE, the status, the deadline and the time, and
-- cancelling with BOOKING_NOT_CANCELLABLE and the status, of one such booking.
pub confirm_cancel_denied :
    (clock : Clock) (user_id identifier : ℕ) (db : Db)
    → All (λ b. IsTheirs user_id identifier b → IsClosed clock.db_now b) db.bookings
    → (All (λ b. ¬ IsTheirs user_id identifier b) db.bookings
        × (confirm_work clock user_id identifier db ≡ err (http 404))
        × (cancel_work clock user_id identifier db ≡ err (http 404)))
      ⊎ ((b : Booking) × Any (λ x. x ≡ b) db.bookings
          × IsTheirs user_id identifier b
          × (confirm_work clock user_id identifier db
              ≡ err (
                  business booking_not_confirmable 409
                    (booking_deadline b.status b.expires_at clock.date_now)))
          × (cancel_work clock user_id identifier db
              ≡ err (business booking_not_cancellable 409 (booking_state b.status))))
unfolding their
confirm_cancel_denied clock user_id identifier db closed =
    let refused = confirm_cancel_refused clock user_id identifier db (
      All-find-none (is_open_owned clock.db_now user_id identifier) db.bookings (
        All-mono (λ b. closed_is_not_open clock.db_now user_id identifier b) db.bookings closed)) in
    elim (Option-cases (find (their user_id identifier) db.bookings)) [
      | inl none_theirs ↦
          let why = λ (transition : BookingTransition).
            ap (λ o. transition_error o transition clock.date_now) none_theirs in
          inl (
            All-mono (λ b. their-not user_id identifier b) db.bookings
                (find-none-All (their user_id identifier) db.bookings none_theirs),
            refused.0 ∙ ap err (why confirm),
            refused.1 ∙ ap err (why cancel),
          )
      | inr (b, found) ↦
          let why = λ (transition : BookingTransition).
            ap (λ o. transition_error o transition clock.date_now) found in
          inr (
            b,
            Any-mono (λ x h. h.0) db.bookings
                (find-some-Any (their user_id identifier) db.bookings found),
            their-IsTheirs user_id identifier b
                (find-some-passes (their user_id identifier) db.bookings found),
            refused.0 ∙ ap err (why confirm),
            refused.1 ∙ ap err (why cancel),
          )
    ]
