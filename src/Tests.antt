-- ===== src/Tests.antt =====
-- Runs of the model on the sample database.
pub mod Parts
pub mod Edges
pub mod Operations
pub mod Serving
pub mod Batches
pub mod Exposing
use geek_interview.Base.{
  All, Any, ◌⊎◌, inr, ℕ, ◌+◌, ◌*◌, ◌≤◌, ◌<◌, ◌≡◌, ◌≢◌, refl, Bool, true, false, Option, none, some,
  List, [], ◌∷◌, arith, leb, ap, ◌&&◌,
}
use geek_interview.Domain.{
  BookingStatus, reserved, confirmed, cancelled, confirm, expire, cancel, transition_failure,
  is_terminal_booking_status,
}
use geek_interview.Errors.{
  booking_not_confirmable, booking_not_cancellable, booking_deadline, booking_state, Result, ok,
  err, http, not_found, business, conflict, idempotency_key_reused, no_details,
}
use geek_interview.Store.{Db, Booking}
use geek_interview.Samples.{
  held_booking, stock_row, ten_percent, sample, sample-Inv, texts, two_tickets, three_tickets, draw,
  no_faults, clock_at, world_at, new_response, booked, answered,
}
use geek_interview.Booking.Create.{
  execute, create_work, book, find_bookable_concert, find_by_identifier, find_categories,
  apply_voucher, replay, reserve_item, reserve_items, reserve_voucher, voucher_error, write_booking,
}
use geek_interview.Booking.Request.{normalize_items, find_duplicate, canonicalize_booking_intent}
use geek_interview.Tables.{find, sort_by, select, find_by, count_where, insert_by, update_where}
use geek_interview.Transaction.{with_transaction, attempts, is_transient_database_error}
use geek_interview.Booking.Write.{
  customer_exists, cast_numeric, insert_booking, insert_item, insert_items, insert_status_history,
}
use geek_interview.Idempotency.{claim, insert_claim, close_record, complete}
use geek_interview.Inventory.{find_categories_for_concert}
use geek_interview.Inventory
use geek_interview.Money.Digits.{all_digits, digits_value, is_digit, print_digits, print_onto}
use geek_interview.Money.{
  cents_to_decimal, decimal_to_cents, percentage_discount_cents, split_dot, trim, trim_end,
  trim_start,
}
use geek_interview.Voucher.Discount.{calculate_voucher_discount_cents}
use geek_interview.Voucher.Eligibility.{voucher_eligibility_failure}
use geek_interview.Voucher.Reservation.{count_use, insert_redemption}
use geek_interview.Voucher.Reservation
use mathlib.Core.Path.{subst}
use geek_interview.System.{Steps, done, then, creates, no_oversell, no_overuse}
use geek_interview.Store.{matches_identifier}
use geek_interview.Inventory.Stock.{held}
use geek_interview.Voucher.Quota.{uses}
use geek_interview.Voucher.Reservation.{holds_voucher}
use geek_interview.Booking.Stock.{live_in}
use geek_interview.Booking.Create.{CreateBookingResult, request_hash_of}
use geek_interview.Booking.Creating.{IsFresh}
use geek_interview.Booking.Selling.{Booked, book-Booked}
use geek_interview.Booking.Transitions.{
  is_open_owned, is_operable, is_owned_by, to_confirmed, to_cancelled, set_status,
}
use geek_interview.Booking.Lifecycle.{
  confirm_work, cancel_work, operation_work, expire_work, safe_limit, transition_error,
  operation_error,
}
use geek_interview.Booking.Invariant.{
  Inv, Moved, confirm_work_total, cancel_work_total, operation_work_total,
}
use geek_interview.Booking.Expiry.{expire_work_total}
use geek_interview.Booking.Denied.{IsTheirs, confirm_cancel_denied}
use geek_interview.Booking.Refusals.{confirm_cancel_refused, operation_refused}
use geek_interview.Booking.Once.{execute-Inv, execute_again, execute_reused}

-- A request for two tickets is answered.
two_tickets_booked :
    execute texts no_faults (λ _. draw) 1 two_tickets 9 sample
    ≡ (ok (record { booking = new_response; replayed = false }), answered)
unfolding execute normalize_items find find_duplicate with_transaction attempts create_work
    customer_exists claim insert_claim book find_bookable_concert find_by_identifier find_categories
    find_categories_for_concert sort_by select find_by apply_voucher replay reserve_item
    reserve_items reserve_voucher voucher_error write_booking canonicalize_booking_intent
    cast_numeric insert_booking insert_item insert_items insert_status_history close_record complete
    Inventory.reserve all_digits digits_value is_digit print_digits print_onto cents_to_decimal
    decimal_to_cents percentage_discount_cents split_dot trim trim_end trim_start count_where
    insert_by update_where is_transient_database_error calculate_voucher_discount_cents
    voucher_eligibility_failure count_use insert_redemption Reservation.reserve
two_tickets_booked = refl

-- Its work after the claim of its key.
two_tickets_written :
    book draw 1 11 (record { ticket_category_id = 20; quantity = 2 } ∷ []) (some 31) sample
    ≡ ok (new_response, booked)
unfolding find book find_bookable_concert find_by_identifier find_categories
    find_categories_for_concert sort_by select find_by apply_voucher reserve_item reserve_items
    reserve_voucher voucher_error write_booking cast_numeric insert_booking insert_item insert_items
    insert_status_history Inventory.reserve all_digits digits_value is_digit print_digits print_onto
    cents_to_decimal decimal_to_cents percentage_discount_cents split_dot trim trim_end trim_start
    count_where insert_by update_where calculate_voucher_discount_cents voucher_eligibility_failure
    count_use insert_redemption Reservation.reserve
two_tickets_written = refl

sample_ids-IsFresh : IsFresh 60 61 sample.bookings
unfolding find
sample_ids-IsFresh = refl

two_tickets_checked :
    normalize_items texts two_tickets.items
    ≡ ok (record { ticket_category_id = 20; quantity = 2 } ∷ [])
unfolding normalize_items find find_duplicate sort_by
two_tickets_checked = refl

three_tickets_checked :
    normalize_items texts three_tickets.items
    ≡ ok (record { ticket_category_id = 20; quantity = 3 } ∷ [])
unfolding normalize_items find find_duplicate sort_by
three_tickets_checked = refl

booking_made : Steps sample answered
booking_made =
    subst (Steps sample) (ap (λ (r : Result CreateBookingResult × Db). r.1) two_tickets_booked)
      (then done (creates texts no_faults (λ _. draw) 1 9 two_tickets (λ _. sample_ids-IsFresh)))

no_oversell_example : 5 + held (live_in answered.bookings) 20 answered.booking_items ≡ 10
unfolding find_by
no_oversell_example =
    no_oversell {db = sample} {db' = answered} 20 (record stock_row { available_quantity = 5 })
      sample-Inv booking_made refl

no_overuse_example :
    (2 ≡ uses 30 answered.redemptions)
    × (uses 30 answered.redemptions ≤ 5)
    × (count_where (holds_voucher 30 1) answered.redemptions ≤ 1)
unfolding find_by
no_overuse_example =
    no_overuse {db = sample} {db' = answered} 30 1 (record ten_percent { used_count = 2 })
      sample-Inv booking_made refl

execute_again_example :
    execute texts no_faults (λ _. draw) 1 two_tickets 9 answered
    ≡ (ok (record { booking = new_response; replayed = true }), answered)
execute_again_example =
    execute_again texts 1 9 sample sample-Inv no_faults no_faults (λ _. draw) (λ _. draw)
      two_tickets (record { ticket_category_id = 20; quantity = 2 } ∷ []) answered
      (λ _. sample_ids-IsFresh) two_tickets_checked two_tickets_booked refl

hashes_differ :
    request_hash_of texts 1 three_tickets (record { ticket_category_id = 20; quantity = 3 } ∷ [])
    ≢ request_hash_of texts 1 two_tickets (record { ticket_category_id = 20; quantity = 2 } ∷ [])
unfolding canonicalize_booking_intent sort_by
hashes_differ e = omega (arith, e)

execute_reused_example :
    execute texts no_faults (λ _. draw) 1 three_tickets 9 answered
    ≡ (err (business idempotency_key_reused conflict no_details), answered)
execute_reused_example =
    execute_reused texts 1 9 sample sample-Inv no_faults no_faults (λ _. draw) (λ _. draw)
      two_tickets three_tickets (record { ticket_category_id = 20; quantity = 2 } ∷ [])
      (record { ticket_category_id = 20; quantity = 3 } ∷ []) answered (λ _. sample_ids-IsFresh)
      two_tickets_checked two_tickets_booked three_tickets_checked hashes_differ refl

book-Booked_example :
    Booked draw 1 11
      (record { ticket_category_id = 20; quantity = 2 } ∷ [])
      sample
      new_response
      booked
book-Booked_example =
    book-Booked draw 1 sample sample-Inv sample_ids-IsFresh 11
      (record { ticket_category_id = 20; quantity = 2 } ∷ []) (some 31) booked two_tickets_written

still_open : find (is_open_owned 500 2 51) sample.bookings ≡ some held_booking
unfolding find
still_open = refl

confirm_work_total_example :
    Moved sample
      (confirm_work (clock_at 500) 2 51 sample)
      50
      (update_where (is_open_owned 500 2 51) (set_status confirmed 500) sample.bookings)
confirm_work_total_example = confirm_work_total (clock_at 500) 2 51 sample sample-Inv still_open

cancel_work_total_example :
    Moved sample
      (cancel_work (clock_at 500) 2 51 sample)
      50
      (update_where (is_open_owned 500 2 51) (set_status cancelled 500) sample.bookings)
cancel_work_total_example = cancel_work_total (clock_at 500) 2 51 sample sample-Inv still_open

operable : find (is_operable 2000 51 to_cancelled) sample.bookings ≡ some held_booking
unfolding find
operable = refl

operation_work_total_example :
    Moved sample
      (operation_work (clock_at 2000) 3 51 to_cancelled 4 sample)
      50
      (update_where (is_operable 2000 51 to_cancelled) (set_status cancelled 2000) sample.bookings)
operation_work_total_example =
    operation_work_total (clock_at 2000) 3 51 4 sample sample-Inv to_cancelled operable

-- At its deadline, the booking of user 2 is closed.
confirm_cancel_denied_example :
    (All (λ b. ¬ IsTheirs 2 51 b) sample.bookings
      × (confirm_work (clock_at 1000) 2 51 sample ≡ err (http 404))
      × (cancel_work (clock_at 1000) 2 51 sample ≡ err (http 404)))
    ⊎ ((b : Booking) × Any (λ x. x ≡ b) sample.bookings
        × IsTheirs 2 51 b
        × (confirm_work (clock_at 1000) 2 51 sample
            ≡ err (
                business booking_not_confirmable 409 (booking_deadline b.status b.expires_at 1000)))
        × (cancel_work (clock_at 1000) 2 51 sample
            ≡ err (business booking_not_cancellable 409 (booking_state b.status))))
confirm_cancel_denied_example =
    confirm_cancel_denied (clock_at 1000) 2 51 sample ((λ theirs. inr (omega arith)), tt)
