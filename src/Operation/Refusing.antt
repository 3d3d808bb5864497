-- ===== src/Operation/Refusing.antt =====
-- Who may not call, and what cannot be changed.
use geek_interview.Base.{
  ℕ, ◌≡◌, ap, ◌∙◌, Option, none, some, if◌then◌else◌, inl, inr, arith, Option-cases, Bool-cases,
}
use geek_interview.Errors.{
  Exn, DriverError, http, business, not_found, conflict, concert_not_editable, no_details, err,
}
use geek_interview.Store.{Db, Concert}
use geek_interview.Booking.Read.{find_role}
use geek_interview.Booking.Request.{Texts}
use geek_interview.Booking.Transitions.{OperationBookingTarget}
use geek_interview.Booking.Lifecycle.{World}
use geek_interview.Operation.Running.{role_status, as_operator_refused, as_operator_admitted}
use geek_interview.Operation.Concerts.{
  CreateConcertDto, CreateTicketCategoryDto, create_concert, create_ticket_category, find_concert,
  insert_category_with_stock, is_draft, publish_concert,
}
use geek_interview.Operation.Vouchers.{CreateVoucherDto, create_voucher}
use geek_interview.Operation.Bookings.{
  OperationBookingQuery, list_bookings, get_booking, update_booking_status,
}

module _ (t : Texts) (w : World) (fault : Option DriverError) (now id actor_id identifier : ℕ)
    (db : Db) {status : ℕ} (refused : role_status (find_role actor_id db) ≡ some status) where
  -- Every call of someone who is no operator or admin is refused, with 401 for an unknown user and
  -- 403 for a customer, and changes nothing.
  pub operator_calls_refused :
      (concert : CreateConcertDto) (category : CreateTicketCategoryDto) (voucher : CreateVoucherDto)
      (query : OperationBookingQuery) (target : OperationBookingTarget) (reason : ℕ)
      → (create_concert t fault now id actor_id concert db ≡ (err (http status), db))
        × (create_ticket_category t fault id actor_id identifier category db
            ≡ (err (http status), db))
        × (publish_concert t fault now actor_id identifier db ≡ (err (http status), db))
        × (create_voucher t fault now id actor_id voucher db ≡ (err (http status), db))
        × (update_booking_status t w actor_id identifier target reason db ≡ (err (http status), db))
        × (list_bookings t actor_id query db ≡ (err (http status), db))
        × (get_booking actor_id identifier db ≡ (err (http status), db))
  unfolding create_concert create_ticket_category publish_concert create_voucher
      update_booking_status list_bookings get_booking
  operator_calls_refused concert category voucher query target reason = (
    as_operator_refused actor_id _ db refused,
    as_operator_refused actor_id _ db refused,
    as_operator_refused actor_id _ db refused,
    as_operator_refused actor_id _ db refused,
    as_operator_refused actor_id _ db refused,
    as_operator_refused actor_id _ db refused,
    as_operator_refused actor_id _ db refused,
  )

-- Why a concert takes no new category.
abbrev pub edit_refusal : Option Concert → Option Exn
edit_refusal none = some (http not_found)
edit_refusal (some c) =
    if is_draft c.status then none else some (business concert_not_editable conflict no_details)

-- A category for a concert that does not exist is refused with 404, one for a concert that is not
-- DRAFT any more with CONCERT_NOT_EDITABLE, and nothing changes.
pub create_ticket_category_refused :
    (t : Texts) (id actor_id identifier : ℕ) (request : CreateTicketCategoryDto) (db : Db) (e : Exn)
    → role_status (find_role actor_id db) ≡ none
    → edit_refusal (find_concert (t.trim identifier) db) ≡ some e
    → create_ticket_category t none id actor_id identifier request db ≡ (err e, db)
unfolding create_ticket_category insert_category_with_stock
create_ticket_category_refused t id actor_id identifier request db e may h =
    as_operator_admitted actor_id _ db may
    ∙ elim (Option-cases (find_concert (t.trim identifier) db)) [
      | inl gone ↦
          let same : http not_found ≡ e = ground arith in rw gone (ap (λ x. (err x, db)) same)
      | inr (c, there) ↦ elim (Bool-cases (is_draft c.status)) [
        | inl draft_still ↦ absurd (ground arith)
        | inr no_draft ↦
            let same : business concert_not_editable conflict no_details ≡ e = ground arith in
            rw (there, no_draft) (ap (λ x. (err x, db)) same)
      ]
    ]
