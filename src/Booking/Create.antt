-- ===== src/Booking/Create.antt =====
-- src/modules/booking/application/create-booking.service.ts, without the optional observability
-- service, and `findByIdentifier` of
-- src/modules/concert/infrastructure/concert-booking.repository.ts
use geek_interview.Base.{
  ℕ, ◌+◌, ◌-◌, ◌*◌, Bool, true, false, not, ◌||◌, Option, none, some, List, [], ◌∷◌, map, length,
  ltb, leb, ◌==◌, if◌then◌else◌,
}
use geek_interview.Errors.{
  Exn, DriverError, not_applicable, not_started, expired, exhausted, already_redeemed, business,
  voucher_policy, plain, bad_request, unauthorized, conflict, customer_not_found, invalid_item,
  concert_not_bookable, insufficient_ticket_inventory, voucher_not_applicable, voucher_not_started,
  voucher_expired, voucher_exhausted, voucher_already_redeemed, idempotency_key_reused,
  idempotency_request_in_progress, idempotency_result_unavailable, invalid_money, negative_money,
  no_details, ticket_category, ticket_categories, Result, ok, err,
}
use geek_interview.Money.{decimal_to_cents, cents_to_decimal}
use geek_interview.Tables.{select, find, find_by}
use geek_interview.Store.{
  Db, Concert, ConcertStatus, published, IdempotencyRecord, IdempotencyStatus, completed,
  processing, BookingResponse, BookingItemResponse, Tx, pure, throw_if, or_throw, gets, ◌>>=◌, ◌>>◌,
}
use geek_interview.Inventory
use geek_interview.Inventory.{TicketPricingRow, includes, find_categories_for_concert}
use geek_interview.Voucher.Reservation
use geek_interview.Voucher.Reservation.{ReservedVoucherRow, insert_redemption}
use geek_interview.Voucher.Discount.{calculate_voucher_discount_cents}
use geek_interview.Idempotency.{IdempotencyClaim, claimed, existing, claim, complete}
use geek_interview.Transaction.{with_transaction}
use geek_interview.Booking.Write.{
  CreatedBookingRow, InsertBookingInput, CreateBookingItemInput, customer_exists, insert_booking,
  insert_items, insert_status_history,
}
use geek_interview.Booking.Request.{
  CreateBookingDto, NormalizedItem, Texts, normalize_items, clean_code, non_empty,
  canonicalize_booking_intent, fingerprint_booking_intent,
}

-- Ten minutes.
abbrev pub reservation_ttl_ms : ℕ
reservation_ttl_ms = 600000

pub record CreateBookingResult : Type 0 where
  pub booking : BookingResponse
  pub replayed : Bool

-- What an attempt draws from its environment: the clocks (`NOW()`, and `new Date()` for the concert
-- and twice for the voucher) and the random identifiers.
pub record Draw : Type 0 where
  pub db_now : ℕ
  pub date_now : ℕ
  pub voucher_date : ℕ
  pub voucher_later : ℕ
  pub claim_id : ℕ
  pub booking_id : ℕ
  pub booking_code : ℕ
  pub item_id : ℕ → ℕ

abbrev pub replay_status : IdempotencyStatus → Option BookingResponse → Result CreateBookingResult
replay_status completed (some body) = ok (record { booking = body; replayed = true })
replay_status processing _ = err (business idempotency_request_in_progress conflict no_details)
replay_status _ _ = err (business idempotency_result_unavailable conflict no_details)

-- The answer to a key that was used before.
unfoldable pub replay : IdempotencyRecord → ℕ → Result CreateBookingResult
replay r request_hash =
    if not (r.request_hash == request_hash)
    then err (business idempotency_key_reused conflict no_details)
    else replay_status r.status r.response_body

-- `ConcertBookingRepository.findByIdentifier`: of several rows, which `LIMIT 1` without an order may
-- choose among, the first of the table.
unfoldable pub find_by_identifier : ℕ → Tx (Option Concert)
find_by_identifier identifier =
    gets λ db. find (λ c. (c.slug == identifier) || (c.id == identifier)) db.concerts

abbrev pub is_published : ConcertStatus → Bool
is_published published = true
is_published _ = false

unfoldable pub find_bookable_concert : ℕ → ℕ → Tx Concert
find_bookable_concert now identifier = do
  row ← find_by_identifier identifier
  concert ← or_throw row (business concert_not_bookable conflict no_details)
  throw_if (not (is_published concert.status) || leb concert.starts_at now)
      (business concert_not_bookable conflict no_details)
  pure concert

abbrev pub category_ids : List NormalizedItem → List ℕ
category_ids = map λ i. i.ticket_category_id

-- The requested categories, all of the concert, or an error that names those that are not.
unfoldable pub find_categories : ℕ → List ℕ → Tx (List TicketPricingRow)
find_categories concert_id ids = do
  categories ← find_categories_for_concert concert_id ids
  throw_if (not (length categories == length ids)) (
      business invalid_item bad_request
        (ticket_categories (select (λ id. not (includes (map (λ c. c.id) categories) id)) ids)))
  pure categories

pub record BookedLine : Type 0 where
  pub item_id : ℕ
  pub category : TicketPricingRow
  pub quantity : ℕ
  pub unit_price : List ℕ
  pub line_total : List ℕ

abbrev pub booked_line : ℕ → TicketPricingRow → ℕ → ℕ → BookedLine
booked_line item_id category quantity unit_cents = record {
  item_id = item_id;
  category = category;
  quantity = quantity;
  unit_price = cents_to_decimal unit_cents;
  line_total = cents_to_decimal (unit_cents * quantity);
}

-- One round of the loop: reserve the stock of an item and price it.
unfoldable pub reserve_item : List TicketPricingRow → NormalizedItem → Tx (TicketPricingRow × ℕ)
reserve_item categories item = do
  category ←
      or_throw (find_by (λ c. c.id) item.ticket_category_id categories)
        (business invalid_item bad_request no_details)
  reservation ← Inventory.reserve item.ticket_category_id item.quantity
  _ ←
      or_throw reservation
        (business insufficient_ticket_inventory conflict (ticket_category item.ticket_category_id))
  cents ← or_throw (decimal_to_cents category.price) (plain invalid_money)
  pure (category, cents)

-- The subtotal in cents and the lines of the booking; `n` counts the items done.
unfoldable pub reserve_items :
    (ℕ → ℕ) → List TicketPricingRow → List NormalizedItem → ℕ → ℕ → Tx (ℕ × List BookedLine)
reserve_items item_id categories [] n subtotal = pure (subtotal, [])
reserve_items item_id categories (item ∷ items) n subtotal = do
  priced ← reserve_item categories item
  rest ← reserve_items item_id categories items (n + 1) (subtotal + priced.1 * item.quantity)
  pure (rest.0, booked_line (item_id n) priced.0 item.quantity priced.1 ∷ rest.1)

-- The `catch` round `voucherRepository.reserve`.
unfoldable pub voucher_error : Exn → Exn
voucher_error (voucher_policy already_redeemed) =
    business voucher_already_redeemed conflict no_details
voucher_error (voucher_policy exhausted) = business voucher_exhausted conflict no_details
voucher_error (voucher_policy expired) = business voucher_expired conflict no_details
voucher_error (voucher_policy not_started) = business voucher_not_started conflict no_details
voucher_error (voucher_policy not_applicable) = business voucher_not_applicable conflict no_details
voucher_error e = e

abbrev pub rethrow : {A : Type 0} → Result (A × Db) → Result (A × Db)
rethrow (ok r) = ok r
rethrow (err e) = err (voucher_error e)

unfoldable pub reserve_voucher : Draw → ℕ → ℕ → ℕ → List ℕ → Tx ReservedVoucherRow
reserve_voucher d code user_id concert_id ids db =
    rethrow
      (Reservation.reserve d.db_now d.voucher_date d.voucher_later code user_id concert_id ids db)

-- The discount in cents, and the voucher that was reserved for it.
unfoldable pub apply_voucher :
    Draw → Option ℕ → ℕ → ℕ → List ℕ → ℕ → Tx (ℕ × Option ReservedVoucherRow)
apply_voucher d none user_id concert_id ids subtotal = pure (0, none)
apply_voucher d (some code) user_id concert_id ids subtotal = do
  v ← reserve_voucher d code user_id concert_id ids
  discount ←
      or_throw
        (calculate_voucher_discount_cents subtotal
          (record { discount_type = v.discount_type; discount_value = v.discount_value }))
        (plain invalid_money)
  pure (discount, some v)

abbrev pub line_input : ℕ → BookedLine → CreateBookingItemInput
line_input booking_id l = record {
  id = l.item_id;
  booking_id = booking_id;
  category_id = l.category.id;
  quantity = l.quantity;
  unit_price = l.unit_price;
  line_total = l.line_total;
}

abbrev pub line_response : BookedLine → BookingItemResponse
line_response l = record {
  id = l.item_id;
  ticket_category_id = l.category.id;
  category_code = l.category.code;
  category_name = l.category.name;
  quantity = l.quantity;
  unit_price = l.unit_price;
  line_total = l.line_total;
}

abbrev pub redeem : ℕ → ℕ → Option ReservedVoucherRow → Tx (Unit {0})
redeem user_id booking_id none = pure tt
redeem user_id booking_id (some v) = insert_redemption v.id user_id booking_id

abbrev pub response_of : Concert → CreatedBookingRow → List BookedLine → BookingResponse
response_of concert row lines = record {
  id = row.id;
  booking_code = row.booking_code;
  concert = record { id = concert.id; slug = concert.slug; name = concert.name };
  status = row.status;
  subtotal = row.subtotal;
  discount_amount = row.discount_amount;
  final_amount = row.final_amount;
  expires_at = row.expires_at;
  created_at = row.created_at;
  updated_at = row.updated_at;
  items = map line_response lines;
}

-- The items, the history and the redemption of a booking that is inserted, and the response.
abbrev pub write_details :
    Draw
    → ℕ
    → Concert
    → List BookedLine
    → Option ReservedVoucherRow
    → CreatedBookingRow
    → Tx BookingResponse
write_details d user_id concert lines voucher row = do
  insert_items (map (line_input d.booking_id) lines)
  insert_status_history d.booking_id user_id
  redeem user_id d.booking_id voucher
  pure (response_of concert row lines)

abbrev pub booking_input : Draw → ℕ → Concert → ℕ → ℕ → InsertBookingInput
booking_input d user_id concert subtotal discount = record {
  id = d.booking_id;
  booking_code = d.booking_code;
  user_id = user_id;
  concert_id = concert.id;
  subtotal = cents_to_decimal subtotal;
  discount_amount = cents_to_decimal discount;
  final_amount = cents_to_decimal (subtotal - discount);
  expires_at = d.date_now + reservation_ttl_ms;
}

-- The rows of the booking; `centsToDecimal` throws on a negative amount.
unfoldable pub write_booking :
    Draw → ℕ → Concert → ℕ → List BookedLine → ℕ → Option ReservedVoucherRow → Tx BookingResponse
write_booking d user_id concert subtotal lines discount voucher = do
  throw_if (ltb subtotal discount) (plain negative_money)
  row ← insert_booking d.db_now (booking_input d user_id concert subtotal discount)
  write_details d user_id concert lines voucher row

-- Reserve the stock and the voucher, then write the booking.
unfoldable pub book : Draw → ℕ → ℕ → List NormalizedItem → Option ℕ → Tx BookingResponse
book d user_id concert_identifier items voucher_code = do
  concert ← find_bookable_concert d.date_now concert_identifier
  categories ← find_categories concert.id (category_ids items)
  reserved ← reserve_items d.item_id categories items 0 0
  discount ← apply_voucher d voucher_code user_id concert.id (category_ids items) reserved.0
  write_booking d user_id concert reserved.0 reserved.1 discount.0 discount.1

abbrev pub lift : {A : Type 0} → Result A → Tx A
lift (ok a) db = ok (a, db)
lift (err e) db = err e

abbrev pub claim_answer :
    Draw → ℕ → ℕ → List NormalizedItem → Option ℕ → ℕ → IdempotencyClaim → Tx CreateBookingResult
claim_answer d user_id concert_identifier items voucher_code request_hash (existing r) =
    lift (replay r request_hash)
claim_answer d user_id concert_identifier items voucher_code request_hash (claimed r) = do
  response ← book d user_id concert_identifier items voucher_code
  complete r.id 201 response
  pure (record { booking = response; replayed = false })

unfoldable pub create_work :
    Draw → ℕ → ℕ → List NormalizedItem → Option ℕ → ℕ → ℕ → Tx CreateBookingResult
create_work d user_id concert_identifier items voucher_code request_hash key = do
  known ← customer_exists user_id
  throw_if (not known) (business customer_not_found unauthorized no_details)
  c ← claim d.claim_id user_id key request_hash
  claim_answer d user_id concert_identifier items voucher_code request_hash c

abbrev pub request_hash_of : Texts → ℕ → CreateBookingDto → List NormalizedItem → ℕ
request_hash_of t user_id request items = fingerprint_booking_intent t (
    canonicalize_booking_intent t user_id (t.trim request.concert_id) items
      (clean_code t request.voucher_code))

abbrev pub execute_items :
    Texts
    → (ℕ → Option DriverError)
    → (ℕ → Draw)
    → ℕ
    → CreateBookingDto
    → ℕ
    → Result (List NormalizedItem)
    → Db
    → Result CreateBookingResult × Db
execute_items t faults draws user_id request key (err e) db = (err e, db)
execute_items t faults draws user_id request key (ok items) db =
    with_transaction faults
      (λ n.
        create_work (draws n) user_id (t.trim request.concert_id) items
          (non_empty t (clean_code t request.voucher_code))
          (request_hash_of t user_id request items) key)
      (some 3) db

unfoldable pub execute :
    Texts
    → (ℕ → Option DriverError)
    → (ℕ → Draw)
    → ℕ
    → CreateBookingDto
    → ℕ
    → Db
    → Result CreateBookingResult × Db
execute t faults draws user_id request key =
    execute_items t faults draws user_id request key (normalize_items t request.items)
