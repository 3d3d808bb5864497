-- ===== src/Tests/Serving.antt =====
-- Runs of the limiter, of requests through the controllers and the filter, of the counters and of the
-- worker.
use mathlib.Core.List.{Permᴰ}
use geek_interview.Base.{
  ℕ, ◌+◌, ◌≤◌, ◌≡◌, ◌↔◌, refl, true, false, Option, none, some, List, [], ◌∷◌, arith, leb,
}
use geek_interview.Errors.{ok, http, unauthorized, BusinessErrorCode}
use geek_interview.Tables.{select, find, find_by, sort_by, insert_by, count_where, update_where}
use geek_interview.Money.{cents_to_decimal, decimal_to_cents}
use geek_interview.Http.RequestIds.{
  one, is_acceptable, all_safe, resolve_request_id, request_id_middleware,
  request_id_middleware-acceptable,
}
use geek_interview.RateLimit.{HttpRequest, UrlTexts}
use geek_interview.RateLimit.Refining.{
  guard_answers, client_answers, Shows, guard_answers-client_answers,
}
use geek_interview.Booking.Request.{
  RequestItem, CreateBookingDto, whole, normalize_items, find_duplicate,
}
use geek_interview.Inventory
use geek_interview.Inventory.{find_categories_for_concert}
use geek_interview.Voucher.Reservation
use geek_interview.Voucher.Reservation.{count_use, insert_redemption}
use geek_interview.Voucher.Discount.{calculate_voucher_discount_cents}
use geek_interview.Voucher.Eligibility.{voucher_eligibility_failure}
use geek_interview.Idempotency.{claim, insert_claim, close_record, complete}
use geek_interview.Money.Digits.{all_digits, digits_value, is_digit, print_digits, print_onto}
use geek_interview.Money.{percentage_discount_cents, split_dot, trim, trim_end, trim_start}
use geek_interview.Transaction.{with_transaction, attempts, is_transient_database_error}
use geek_interview.Http.{
  require_authenticated_user_id, matches, require_idempotency_key, has_control,
}
use geek_interview.RateLimit.{Bucket, can_activate, admit, prune}
use geek_interview.Booking.Read.{require_customer, find_role}
use geek_interview.Booking.Write.{
  customer_exists, cast_numeric, insert_booking, insert_item, insert_items, insert_status_history,
}
use geek_interview.Booking.Request.{canonicalize_booking_intent}
use geek_interview.Endpoints.{Names, failed, post_booking, serve_booking}
use geek_interview.Endpoints.Customers.{Refused, serve_booking-Refused, Served, post_booking-Served}
use geek_interview.Booking.Create.{
  execute, create_work, book, find_bookable_concert, find_by_identifier, find_categories,
  apply_voucher, replay, reserve_item, reserve_items, reserve_voucher, voucher_error, write_booking,
}
use geek_interview.Booking.Reordering.{execute_reordered}
use geek_interview.Tables.Sorting.{IsTotalOrder}
use geek_interview.Metrics.{execute_observed}
use geek_interview.Metrics.Counting.{attempts_made, outcomes, execute_observed-counts}
use geek_interview.Filter.{ErrorAnswer, thrown, answer_error, internal_error}
use geek_interview.Filter.Answers.{answer_error-internal_error}
use geek_interview.Worker.{
  Process, idle, start_tick, after_batch, ticks, ends, rests, goes_on, ProcessInv,
  ProcessSteps-ProcessInv,
}
use geek_interview.Samples.{
  sample, sample-Inv, texts, two_tickets, draw, no_faults, world_at, new_response, answered,
}

-- Two clients, two attempts each allowed in 1000 ms.
abbrev arrivals : List (ℕ × ℕ)
arrivals = (4, 100) ∷ (5, 150) ∷ (4, 160) ∷ (4, 170) ∷ (4, 1200) ∷ []

nobody_yet : Shows 0 [] (λ _. none)
unfolding find_by
nobody_yet = record { unique = tt; same = λ key later h. refl }

guard_answers-client_answers_example :
    guard_answers 2 1000 arrivals [] ≡ client_answers 2 1000 arrivals (λ _. none)
guard_answers-client_answers_example =
    guard_answers-client_answers 2 1000 0 arrivals [] (λ _. none) nobody_yet
      (omega arith, (omega arith, (omega arith, (omega arith, (omega arith, tt)))))

leb-IsTotalOrder : IsTotalOrder leb
leb-IsTotalOrder = record {
  total = λ a b h. ground arith;
  transitive = λ a b c h k. ground arith;
  antisymmetric = λ a b h k. ground arith;
}

abbrev first_item : RequestItem
first_item = record { ticket_category_id = 20; quantity = whole 2 }

abbrev second_item : RequestItem
second_item = record { ticket_category_id = 21; quantity = whole 1 }

abbrev both_items : CreateBookingDto
both_items = record { concert_id = 11; items = second_item ∷ first_item ∷ []; voucher_code = none }

both_checked :
    normalize_items texts both_items.items
    ≡ ok (
        record { ticket_category_id = 20; quantity = 2 }
        ∷ record { ticket_category_id = 21; quantity = 1 }
        ∷ [])
unfolding normalize_items find find_duplicate sort_by insert_by
both_checked = refl

execute_reordered_example :
    execute texts no_faults
      (λ _. draw)
      1
      (record both_items { items = first_item ∷ second_item ∷ [] })
      9
      sample
    ≡ execute texts no_faults (λ _. draw) 1 both_items 9 sample
execute_reordered_example =
    execute_reordered texts no_faults (λ _. draw) 1 9 both_items (first_item ∷ second_item ∷ [])
      (record { ticket_category_id = 20; quantity = 2 }
        ∷ record { ticket_category_id = 21; quantity = 1 }
        ∷ [])
      sample leb-IsTotalOrder (Permᴰ.swap refl refl) both_checked

abbrev no_label : Option BusinessErrorCode → ℕ
no_label code = 0

execute_observed-counts_example :
    ((execute_observed texts no_label no_faults (λ _. draw) 1 two_tickets 9 sample []).0
      ≡ execute texts no_faults (λ _. draw) 1 two_tickets 9 sample)
    × (attempts_made []
          + outcomes
              (execute_observed texts no_label no_faults (λ _. draw) 1 two_tickets 9 sample []).1
        ≡ outcomes []
          + attempts_made
              (execute_observed texts no_label no_faults (λ _. draw) 1 two_tickets 9 sample []).1)
execute_observed-counts_example =
    execute_observed-counts texts no_label no_faults (λ _. draw) 1 two_tickets 9 sample []

answer_error-internal_error_example :
    ((answer_error (some 7) 8 (thrown (http unauthorized))).payload.code ≡ internal_error)
    ↔ (500 ≤ (answer_error (some 7) 8 (thrown (http unauthorized))).status)
answer_error-internal_error_example =
    answer_error-internal_error (some 7) 8 (thrown (http unauthorized)) tt

-- `a/b`, and what is drawn instead: `x1`.
abbrev odd_id : List ℕ
odd_id = b'a' ∷ b'/' ∷ b'b' ∷ []

abbrev drawn_id : List ℕ
drawn_id = b'x' ∷ b'1' ∷ []

drawn_acceptable : is_acceptable drawn_id ≡ true
unfolding all_safe
drawn_acceptable = refl

request_id_middleware-acceptable_example :
    (is_acceptable (request_id_middleware (some (one odd_id)) drawn_id).request_id ≡ true)
    × ((request_id_middleware (some (one odd_id)) drawn_id).response_header
        ≡ (request_id_middleware (some (one odd_id)) drawn_id).request_id)
    × (resolve_request_id
          (some (one (request_id_middleware (some (one odd_id)) drawn_id).request_id))
          []
        ≡ (request_id_middleware (some (one odd_id)) drawn_id).request_id)
request_id_middleware-acceptable_example =
    request_id_middleware-acceptable (some (one odd_id)) drawn_id [] drawn_acceptable

abbrev at_rest : Process
at_rest = record { worker = idle; db = sample; counters = [] }

abbrev under_way : Process
under_way = record at_rest { worker = start_tick idle }

one_under_way : 1 ≤ under_way.worker.in_flight
unfolding start_tick
one_under_way = omega arith

abbrev rested : Process
rested = after_batch (world_at 2000) (λ _ _. false) 2000 under_way

ProcessSteps-ProcessInv_example : ProcessInv rested
ProcessSteps-ProcessInv_example =
    ProcessSteps-ProcessInv {p = at_rest} {q = rested} refl sample-Inv
      (goes_on (goes_on rests ticks) (ends (world_at 2000) (λ _ _. false) 2000 one_under_way))

abbrev url_texts : UrlTexts
url_texts = record {
  before_query = λ n. n;
  drop_slash = λ n. n;
  post = 1;
  api_bookings = 2;
  bookings = 3;
  unknown = 4;
  user_key = λ n. 10 + n;
  ip_key = λ n. 100 + n;
}

abbrev booking_post : HttpRequest
booking_post = record {
  method = 1;
  url = 2;
  original_url = none;
  user_id = none;
  ip = none;
  remote_address = none;
}

abbrev names : Names
names = record { user_of = λ _. 1; key_of = λ _. 9 }

abbrev unknown_answer : ErrorAnswer
unknown_answer = answer_error (some 7) 7 (thrown (http unauthorized))

abbrev first_bucket : List Bucket
first_bucket = record { key = 104; count = 1; reset_at = 1500 } ∷ []

not_known :
    serve_booking texts url_texts names 2 1000 booking_post 500 7 no_faults
      (λ _. draw)
      two_tickets
      none
      none
      []
      sample
    ≡ ((failed unknown_answer, sample), first_bucket)
unfolding serve_booking post_booking require_authenticated_user_id can_activate admit prune select
    find_by
not_known = refl

serve_booking-Refused_example :
    Refused texts names no_faults
      (λ _. draw)
      two_tickets
      none
      none
      (can_activate texts url_texts 2 1000 booking_post 500 [])
      7
      sample
      unknown_answer
      sample
      first_bucket
serve_booking-Refused_example =
    serve_booking-Refused texts url_texts names 2 1000 booking_post 500 7 no_faults (λ _. draw)
      two_tickets none none [] sample unknown_answer sample first_bucket not_known

-- `00000000-0000-1000-8000-000000000000`, and the key `a-1`
abbrev user_header : Option (List ℕ)
user_header = some (
    48 ∷ 48 ∷ 48 ∷ 48 ∷ 48 ∷ 48 ∷ 48 ∷ 48 ∷ 45 ∷ 48 ∷ 48 ∷ 48 ∷ 48 ∷ 45 ∷ 49 ∷ 48 ∷ 48 ∷ 48 ∷ 45
    ∷ 56 ∷ 48 ∷ 48 ∷ 48 ∷ 45 ∷ 48 ∷ 48 ∷ 48 ∷ 48 ∷ 48 ∷ 48 ∷ 48 ∷ 48 ∷ 48 ∷ 48 ∷ 48 ∷ 48 ∷ [])

abbrev key_header : Option (List ℕ)
key_header = some (b'a' ∷ b'-' ∷ b'1' ∷ [])

posted :
    post_booking texts names no_faults (λ _. draw) two_tickets user_header key_header sample
    ≡ (ok new_response, answered)
unfolding post_booking require_authenticated_user_id matches require_idempotency_key has_control
    require_customer find_role execute normalize_items find find_duplicate with_transaction attempts
    create_work customer_exists claim insert_claim book find_bookable_concert find_by_identifier
    find_categories find_categories_for_concert sort_by select find_by apply_voucher replay
    reserve_item reserve_items reserve_voucher voucher_error write_booking
    canonicalize_booking_intent cast_numeric insert_booking insert_item insert_items
    insert_status_history close_record complete Inventory.reserve all_digits digits_value is_digit
    print_digits print_onto cents_to_decimal decimal_to_cents percentage_discount_cents split_dot
    trim trim_end trim_start count_where insert_by update_where is_transient_database_error
    calculate_voucher_discount_cents voucher_eligibility_failure count_use insert_redemption
    Reservation.reserve
posted = refl

post_booking-Served_example :
    Served texts names no_faults
      (λ _. draw)
      two_tickets
      user_header
      key_header
      sample
      new_response
      answered
post_booking-Served_example =
    post_booking-Served texts names no_faults (λ _. draw) two_tickets user_header key_header sample
      answered new_response posted
