-- ===== src/Booking/Refusals.antt =====
-- The lifecycle's refusals, its guards beside the domain's, and the invariant over its API.
use mathlib.Core.Path.{subst}
use geek_interview.Base.{
  ℕ, ◌≡◌, refl, sym, ap, ◌∙◌, Bool, true, false, ◌&&◌, Option, none, some, List, arith, inl, inr,
  Option-cases,
}
use geek_interview.Domain.{
  BookingStatus, confirmed, cancelled, confirm, expire, cancel, transition_failure,
}
use geek_interview.Errors.{Exn, Result, ok, err}
use geek_interview.Tables.{find, update_where, update_where-none}
use geek_interview.Store.{Db, Booking, matches_identifier}
use geek_interview.Transaction.Retries.{with_transaction_keeps}
use geek_interview.Booking.Transitions.{
  OperationBookingTarget, target_status, set_status, is_owned_by, is_open_owned, is_operable,
  is_overdue, confirm_owned, cancel_owned, transition_by_operation, transition_where,
  find_owned_status, find_status,
}
use geek_interview.Booking.Lifecycle.{
  Clock, World, transition_error, operation_error, throw_transition_error, confirm_work,
  cancel_work, operation_work, expire_work, confirm_booking, cancel_booking,
  transition_booking_by_operation, expire_batch, then_read,
}
use geek_interview.Booking.Invariant.{
  Inv, Moved, confirm_work_total, cancel_work_total, operation_work_total,
}
use geek_interview.Booking.Expiry.{expire_work_total}

abbrev pub is_none {ℓ} : {A : Type ℓ} → Option A → Bool
is_none none = true
is_none (some a) = false

-- The UPDATE's guard of a customer is ownership, the identifier, and the domain's permission to
-- confirm at that time; its permission to cancel is the same one.
pub is_open_owned-transition_failure :
    (now user_id identifier : ℕ) (b : Booking)
    → (is_open_owned now user_id identifier b ≡ (
        is_owned_by user_id b
        && (matches_identifier identifier b
            && is_none (transition_failure b.status confirm b.expires_at now))))
      × (is_none (transition_failure b.status confirm b.expires_at now)
          ≡ is_none (transition_failure b.status cancel b.expires_at now))
unfolding transition_failure
is_open_owned-transition_failure now user_id identifier b = (ground arith, ground arith)

-- The worker's guard is the domain's permission to expire.
pub is_overdue-transition_failure :
    (now : ℕ) (b : Booking)
    → is_overdue now b ≡ is_none (transition_failure b.status expire b.expires_at now)
unfolding transition_failure
is_overdue-transition_failure now b = ground arith

module _ (clock : Clock) (user_id identifier : ℕ) (db : Db)
    (miss : find (is_open_owned clock.db_now user_id identifier) db.bookings ≡ none) where
  kept_rows :
      (status : BookingStatus)
      → update_where
          (is_open_owned clock.db_now user_id identifier)
          (set_status status clock.db_now)
          db.bookings
        ≡ db.bookings
  kept_rows status =
      update_where-none (is_open_owned clock.db_now user_id identifier)
        (set_status status clock.db_now) db.bookings miss

  -- If no booking of that name is the user's, RESERVED and before its deadline, confirming and
  -- cancelling are refused: with 404 if the user has no such booking, else with the conflict of the
  -- transition.
  pub confirm_cancel_refused :
      (confirm_work clock user_id identifier db
        ≡ err (
            transition_error
              (find (λ b. is_owned_by user_id b && matches_identifier identifier b) db.bookings)
              confirm
              clock.date_now))
      × (cancel_work clock user_id identifier db
          ≡ err (
              transition_error
                (find (λ b. is_owned_by user_id b && matches_identifier identifier b) db.bookings)
                cancel
                clock.date_now))
  unfolding confirm_work cancel_work confirm_owned cancel_owned transition_where
      throw_transition_error find_owned_status
  confirm_cancel_refused =
      (rw (miss, kept_rows confirmed) refl, rw (miss, kept_rows cancelled) refl)

-- If no booking passes the target's guard, an operator's transition is refused: with 404 if there is
-- no such booking, else with BOOKING_NOT_TRANSITIONABLE.
pub operation_refused :
    (clock : Clock) (actor_id identifier : ℕ) (target : OperationBookingTarget) (reason : ℕ)
    (db : Db)
    → find (is_operable clock.db_now identifier target) db.bookings ≡ none
    → operation_work clock actor_id identifier target reason db
      ≡ err (operation_error (find (matches_identifier identifier) db.bookings) target)
unfolding operation_work transition_by_operation transition_where find_status
operation_refused clock actor_id identifier target reason db miss =
    rw
      (
        miss,
        update_where-none (is_operable clock.db_now identifier target)
            (set_status (target_status target) clock.db_now) db.bookings miss,
      )
      refl

pub ok_err : {A : Type 0} {a : A} {e : Exn} → ok a ≡ err e → ⊥
ok_err h = cc

pub ok_inj : {A : Type 0} {a b : A} → ok a ≡ ok b → a ≡ b
ok_inj h = cc

Moved-Inv :
    {A : Type 0} {db db' : Db} {work : Result (A × Db)} {a b : A} {rows : List Booking}
    → Moved db work a rows
    → work ≡ ok (b, db')
    → Inv db'
Moved-Inv m h = subst Inv (ap (λ r. r.1) (ok_inj (sym m.runs ∙ h))) m.inv

then_read-state : (user_id : ℕ) (r : Result ℕ × Db) → (then_read user_id r).1 ≡ r.1
then_read-state user_id (ok a, db) = refl
then_read-state user_id (err e, db) = refl

-- Whatever the database aborts, and whether or not the call succeeds, the invariant is kept.
module _ (w : World) (db : Db) (inv : Inv db) where
  confirm_work-Inv :
      (clock : Clock) (user_id identifier a : ℕ) (db' : Db)
      → confirm_work clock user_id identifier db ≡ ok (a, db')
      → Inv db'
  confirm_work-Inv clock user_id identifier a db' h =
      elim (Option-cases (find (is_open_owned clock.db_now user_id identifier) db.bookings)) [
        | inl miss ↦
            absurd (ok_err (sym h ∙ (confirm_cancel_refused clock user_id identifier db miss).0))
        | inr (b, hit) ↦ Moved-Inv (confirm_work_total clock user_id identifier db inv hit) h
      ]

  cancel_work-Inv :
      (clock : Clock) (user_id identifier a : ℕ) (db' : Db)
      → cancel_work clock user_id identifier db ≡ ok (a, db')
      → Inv db'
  cancel_work-Inv clock user_id identifier a db' h =
      elim (Option-cases (find (is_open_owned clock.db_now user_id identifier) db.bookings)) [
        | inl miss ↦
            absurd (ok_err (sym h ∙ (confirm_cancel_refused clock user_id identifier db miss).1))
        | inr (b, hit) ↦ Moved-Inv (cancel_work_total clock user_id identifier db inv hit) h
      ]

  operation_work-Inv :
      (clock : Clock) (actor_id identifier : ℕ) (target : OperationBookingTarget) (reason a : ℕ)
      (db' : Db)
      → operation_work clock actor_id identifier target reason db ≡ ok (a, db')
      → Inv db'
  operation_work-Inv clock actor_id identifier target reason a db' h =
      elim (Option-cases (find (is_operable clock.db_now identifier target) db.bookings)) [
        | inl miss ↦
            absurd
              (ok_err (sym h ∙ operation_refused clock actor_id identifier target reason db miss))
        | inr (b, hit) ↦
            Moved-Inv (operation_work_total clock actor_id identifier reason db inv target hit) h
      ]

  expire_work-Inv :
      (locked : ℕ → Bool) (limit now db_now a : ℕ) (db' : Db)
      → expire_work locked limit now db_now db ≡ ok (a, db')
      → Inv db'
  expire_work-Inv locked limit now db_now a db' h =
      let (n, s, runs, i, few, most) = expire_work_total locked limit now db_now db inv in
      subst Inv (ap (λ (r : ℕ × Db). r.1) (ok_inj (sym runs ∙ h))) i

  pub confirm_booking-Inv :
      (user_id identifier : ℕ) → Inv (confirm_booking w user_id identifier db).1
  unfolding confirm_booking
  confirm_booking-Inv user_id identifier = rw (then_read-state user_id _) (
      with_transaction_keeps Inv w.faults (λ n. confirm_work (w.clock n) user_id identifier)
        (some 3) db inv (λ n a db' h. confirm_work-Inv (w.clock n) user_id identifier a db' h))

  pub cancel_booking-Inv : (user_id identifier : ℕ) → Inv (cancel_booking w user_id identifier db).1
  unfolding cancel_booking
  cancel_booking-Inv user_id identifier = rw (then_read-state user_id _) (
      with_transaction_keeps Inv w.faults (λ n. cancel_work (w.clock n) user_id identifier) (some 3)
        db inv (λ n a db' h. cancel_work-Inv (w.clock n) user_id identifier a db' h))

  pub transition_booking_by_operation-Inv :
      (actor_id identifier : ℕ) (target : OperationBookingTarget) (reason : ℕ)
      → Inv (transition_booking_by_operation w actor_id identifier target reason db).1
  unfolding transition_booking_by_operation
  transition_booking_by_operation-Inv actor_id identifier target reason =
      with_transaction_keeps Inv w.faults
        (λ n. operation_work (w.clock n) actor_id identifier target reason) (some 3) db inv
        (λ n a db' h. operation_work-Inv (w.clock n) actor_id identifier target reason a db' h)

  pub expire_batch-Inv :
      (locked : ℕ → ℕ → Bool) (limit now : ℕ) → Inv (expire_batch w locked limit now db).1
  unfolding expire_batch
  expire_batch-Inv locked limit now =
      with_transaction_keeps Inv w.faults (λ n. expire_work (locked n) limit now (w.clock n).db_now)
        (some 3) db inv
        (λ n a db' h. expire_work-Inv (locked n) limit now (w.clock n).db_now a db' h)
