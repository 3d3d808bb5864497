-- ===== src/Tests/Operations.antt =====
-- Runs of the operators' calls.
use geek_interview.Transaction.{with_transaction, attempts, is_transient_database_error}
use geek_interview.Inventory
use geek_interview.Inventory.{release_lines, release_line, items_of}
use geek_interview.Voucher.Reservation
use geek_interview.Voucher.Reservation.{mark_released, uncount_use}
use geek_interview.Booking.Lifecycle.{
  operation_work, release_resources, transition_booking_by_operation,
}
use geek_interview.Booking.Transitions.{insert_transition_history}
use geek_interview.Operation.Bookings.{OperationBookingQuery, detail_of, find_booking_detail}
use geek_interview.Operation.Overseeing.{update_booking_status-shown}
use geek_interview.Base.{arith, map, ◌⊎◌, ◌≡◌, refl, none, some, [], ◌∷◌, if◌then◌else◌, false}
use geek_interview.Errors.{
  ok, err, http, forbidden, business, concert_not_publishable, concert_state,
}
use geek_interview.Catalog.{is_named}
use geek_interview.Money.{cents_to_decimal}
use geek_interview.Money.Digits.{print_digits, print_onto, all_digits, digits_value, is_digit}
use geek_interview.Money.{decimal_to_cents, split_dot, trim, trim_end, trim_start}
use geek_interview.Tables.{select, find, find_by, update_where, sort_by, insert_by, count_where}
use geek_interview.Store
use geek_interview.Store.{Db, Booking, Concert, Voucher, published}
use geek_interview.Domain.{reserved, cancelled}
use geek_interview.Booking.Write.{cast_numeric}
use geek_interview.Booking.Read.{find_role}
use geek_interview.Booking.Create.{find_bookable_concert}
use geek_interview.Booking.Transitions.{to_cancelled, transition_where, transition_by_operation}
use geek_interview.Operation.{require_operator}
use geek_interview.Operation.Running.{role_status}
use geek_interview.Operation.Concerts.{
  TicketCategoryOperationRow, create_concert, create_ticket_category, insert_category_with_stock,
  insert_category, insert_inventory, find_category_row, find_concert, publish_concert, publish,
  set_published,
}
use geek_interview.Operation.Vouchers.{
  VoucherOperationRow, create_voucher, insert_scoped_voucher, insert_voucher, check_concert_scope,
  check_category_scope, new_voucher, voucher_input, voucher_row,
}
use geek_interview.Operation.Bookings.{list_bookings, get_booking, update_booking_status}
use geek_interview.Operation.Opening.{NewCategory, create_ticket_category-NewCategory}
use geek_interview.Operation.Publishing.{publish_concert-bookable}
use geek_interview.Operation.Releasing.{IsReady, goes_by, publish_concert-exactly}
use geek_interview.Operation.Issuing.{NewVoucher, create_voucher-NewVoucher}
use geek_interview.Operation.Listing.{walk, is_wanted, walk_complete}
use geek_interview.Booking.Read.{newest_first}
use geek_interview.Operation.Redeeming.{create_voucher-reserve}
use geek_interview.Operation.Refusing.{operator_calls_refused}
use geek_interview.Samples.{
  held_booking, stock_row, ten_percent, texts, world_at, draft_concert, staffed, staffed-Inv,
  opened, hundred_tickets, released_concert, five_percent,
}

abbrev new_row : TicketCategoryOperationRow
new_row = record {
  id = 90;
  concert_id = 40;
  code = 91;
  name = 92;
  price = cents_to_decimal 5000;
  total_quantity = 100;
  available_quantity = 100;
}

category_opened :
    create_ticket_category texts none 90 3 41 hundred_tickets staffed ≡ (ok new_row, opened)
unfolding create_ticket_category require_operator find_role insert_category_with_stock
    insert_category insert_inventory find_category_row find_concert find find_by cast_numeric
    decimal_to_cents cents_to_decimal split_dot trim trim_end trim_start print_digits print_onto
    all_digits digits_value is_digit
category_opened = refl

create_ticket_category-NewCategory_example :
    NewCategory texts 90 3 41 hundred_tickets staffed new_row opened
create_ticket_category-NewCategory_example =
    create_ticket_category-NewCategory texts none 90 3 41 hundred_tickets staffed opened new_row
      category_opened

operates_here : role_status (find_role 3 opened) ≡ none
unfolding find_role find
operates_here = refl

one_draft : select (is_named 41) opened.concerts ≡ draft_concert ∷ []
unfolding select
one_draft = refl

publish_concert-exactly_example :
    (IsReady 500 opened draft_concert
      × (publish_concert texts none 500 3 41 opened ≡ (
        ok (record draft_concert { status = published }),
        record opened {
          concerts =
              map
                (λ x. if goes_by 41 x then record x { status = published } else x)
                opened.concerts;
        },
      )))
    ⊎ ((¬ IsReady 500 opened draft_concert)
        × (publish_concert texts none 500 3 41 opened ≡ (
          err (business concert_not_publishable 409 (concert_state draft_concert.status)),
          opened,
        )))
publish_concert-exactly_example =
    publish_concert-exactly texts 500 3 41 opened draft_concert operates_here one_draft

concert_released :
    publish_concert texts none 500 3 41 opened
    ≡ (ok (set_published draft_concert), released_concert)
unfolding publish_concert require_operator find_role publish find find_by update_where
concert_released = refl

publish_concert-bookable_example :
    find_bookable_concert 500 41 released_concert
    ≡ ok (record draft_concert { status = published }, released_concert)
publish_concert-bookable_example =
    publish_concert-bookable texts 500 3 41 opened draft_concert operates_here one_draft
      (set_published draft_concert) released_concert concert_released

abbrev with_voucher : Db
with_voucher = record staffed {
  vouchers = new_voucher 97 (voucher_input texts five_percent) 500 ∷ staffed.vouchers;
}

abbrev voucher_answer : VoucherOperationRow
voucher_answer = voucher_row (new_voucher 97 (voucher_input texts five_percent) 500)

voucher_created :
    create_voucher texts none 200 97 3 five_percent staffed ≡ (ok voucher_answer, with_voucher)
unfolding create_voucher require_operator find_role insert_scoped_voucher insert_voucher
    check_concert_scope check_category_scope find find_by cast_numeric decimal_to_cents
    cents_to_decimal split_dot trim trim_end trim_start print_digits print_onto all_digits
    digits_value is_digit
voucher_created = refl

create_voucher-NewVoucher_example :
    NewVoucher texts 200 97 3 five_percent staffed voucher_answer with_voucher
create_voucher-NewVoucher_example =
    create_voucher-NewVoucher texts none 200 97 3 five_percent staffed with_voucher voucher_answer
      voucher_created

create_voucher-reserve_example :
    (v : Voucher) × (with_voucher.vouchers ≡ v ∷ staffed.vouchers)
    × (Reservation.reserve 200 200 200 95 1 40 [] with_voucher
        ≡ ok (
          Reservation.reserved_row v,
          record with_voucher { vouchers = Reservation.use_voucher v ∷ staffed.vouchers },
        ))
    × (v.used_count ≡ 0)
create_voucher-reserve_example =
    create_voucher-reserve texts none 200 97 3 five_percent staffed with_voucher voucher_answer 200
      1 40 [] staffed-Inv voucher_created (omega arith) (omega arith) refl refl

no_operator : role_status (find_role 1 staffed) ≡ some forbidden
unfolding find_role find
no_operator = refl

abbrev all_bookings : OperationBookingQuery
all_bookings = record {
  page = 1;
  limit = 20;
  status = none;
  concert_id = none;
  user_id = none;
  from = none;
  to = none;
}

operator_calls_refused_example :
    (create_concert texts none 0 96 1 (record { slug = 5; name = 6; starts_at = 7000 }) staffed
      ≡ (err (http forbidden), staffed))
    × (create_ticket_category texts none 96 1 41 hundred_tickets staffed
        ≡ (err (http forbidden), staffed))
    × (publish_concert texts none 0 1 41 staffed ≡ (err (http forbidden), staffed))
    × (create_voucher texts none 0 96 1 five_percent staffed ≡ (err (http forbidden), staffed))
    × (update_booking_status texts (world_at 0) 1 41 to_cancelled 4 staffed
        ≡ (err (http forbidden), staffed))
    × (list_bookings texts 1 all_bookings staffed ≡ (err (http forbidden), staffed))
    × (get_booking 1 41 staffed ≡ (err (http forbidden), staffed))
operator_calls_refused_example =
    operator_calls_refused texts (world_at 0) none 0 96 1 41 staffed no_operator
      (record { slug = 5; name = 6; starts_at = 7000 }) hundred_tickets five_percent all_bookings
      to_cancelled 4

walk_complete_example :
    map (λ r. r.id) (walk texts 3 all_bookings 1 opened)
    ≡ map
        (λ b. b.id)
        (select
          (is_wanted texts all_bookings opened.concerts)
          (sort_by newest_first opened.bookings))
walk_complete_example = walk_complete texts 3 all_bookings opened operates_here refl 1 (omega arith)

abbrev cancelled_booking : Booking
cancelled_booking = record held_booking { status = cancelled; updated_at = 2000 }

abbrev after_cancel : Db
after_cancel = record staffed {
  inventories = record stock_row { available_quantity = 10 } ∷ [];
  vouchers = record ten_percent { used_count = 0 } ∷ [];
  bookings = cancelled_booking ∷ [];
  redemptions =
      record {
        voucher_id = 30;
        user_id = 2;
        booking_id = 50;
        status = Store.released;
        released_at = some 2000;
        released_reason = some Store.operation_cancelled;
      }
      ∷ [];
  history =
      record {
        booking_id = 50;
        from_status = some reserved;
        to_status = cancelled;
        changed_by = some 3;
        change_source = Store.operation_api;
        reason = Store.operator_reason 4;
      }
      ∷ [];
}

abbrev summer : Concert
summer = record { id = 10; slug = 11; name = 12; status = published; starts_at = 1000000 }

booking_cancelled :
    update_booking_status texts (world_at 2000) 3 51 to_cancelled 4 staffed
    ≡ (ok (detail_of after_cancel cancelled_booking summer), after_cancel)
unfolding update_booking_status require_operator find_role transition_booking_by_operation
    with_transaction attempts is_transient_database_error operation_work transition_by_operation
    transition_where insert_transition_history release_resources Inventory.release_for_booking
    release_lines release_line items_of Reservation.release_for_booking mark_released uncount_use
    find_booking_detail find find_by select sort_by insert_by update_where count_where
booking_cancelled = refl

update_booking_status-shown_example : (cancelled ≡ cancelled) × (false ≡ false)
update_booking_status-shown_example =
    update_booking_status-shown texts (world_at 2000) 3 51 to_cancelled 4 staffed after_cancel
      (detail_of after_cancel cancelled_booking summer) staffed-Inv booking_cancelled
