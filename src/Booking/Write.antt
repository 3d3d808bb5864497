-- ===== src/Booking/Write.antt =====
-- src/modules/booking/infrastructure/booking-write.repository.ts, with the constraints of the tables
-- that it writes (database/migrations).
use geek_interview.Base.{
  ℕ, ◌+◌, ◌*◌, Bool, true, false, not, ◌&&◌, ◌||◌, none, some, List, [], ◌∷◌, leb, ◌==◌,
}
use geek_interview.Domain.{BookingStatus, reserved}
use geek_interview.Errors.{plain, raw_failure, s23505, s23514, s22003, invalid_money}
use geek_interview.Money.{decimal_to_cents, cents_to_decimal}
use geek_interview.Tables.{find}
use geek_interview.Inventory.{is_some}
use geek_interview.Store.{
  UserRole, customer, Booking, BookingItem, StatusChange, customer_api, booking_created, Tx, pure,
  throw_if, or_throw, gets, modify, ◌>>=◌, ◌>>◌,
}

-- `CreatedBookingRow`
pub record CreatedBookingRow : Type 0 where
  pub id : ℕ
  pub booking_code : ℕ
  pub status : BookingStatus
  pub subtotal : List ℕ
  pub discount_amount : List ℕ
  pub final_amount : List ℕ
  pub expires_at : ℕ
  pub created_at : ℕ
  pub updated_at : ℕ

pub record InsertBookingInput : Type 0 where
  pub id : ℕ
  pub booking_code : ℕ
  pub user_id : ℕ
  pub concert_id : ℕ
  pub subtotal : List ℕ
  pub discount_amount : List ℕ
  pub final_amount : List ℕ
  pub expires_at : ℕ

pub record CreateBookingItemInput : Type 0 where
  pub id : ℕ
  pub booking_id : ℕ
  pub category_id : ℕ
  pub quantity : ℕ
  pub unit_price : List ℕ
  pub line_total : List ℕ

abbrev pub is_customer : UserRole → Bool
is_customer customer = true
is_customer _ = false

unfoldable pub customer_exists : ℕ → Tx Bool
customer_exists user_id =
    gets λ db. is_some (find (λ u. (u.id == user_id) && is_customer u.role) db.users)

-- `NUMERIC(12, 2)` holds less than this many cents.
abbrev pub numeric_limit : ℕ
numeric_limit = 1000000000000

-- `CAST(text AS numeric)` into a column `NUMERIC(12, 2)`
unfoldable pub cast_numeric : List ℕ → Tx ℕ
cast_numeric text = do
  cents ← or_throw (decimal_to_cents text) (plain invalid_money)
  throw_if (leb numeric_limit cents) (raw_failure s22003)
  pure cents

-- The key of a row that a new booking would clash with.
abbrev pub is_same_booking : ℕ → ℕ → Booking → Bool
is_same_booking id booking_code b = (b.id == id) || (b.booking_code == booking_code)

abbrev pub booking_row : InsertBookingInput → ℕ → ℕ → ℕ → ℕ → Booking
booking_row input now subtotal discount final = record {
  id = input.id;
  booking_code = input.booking_code;
  user_id = input.user_id;
  concert_id = input.concert_id;
  status = reserved;
  subtotal = subtotal;
  discount_amount = discount;
  final_amount = final;
  expires_at = input.expires_at;
  created_at = now;
  updated_at = now;
}

-- `subtotal::text` and its like print two decimals.
abbrev pub created_row : Booking → CreatedBookingRow
created_row b = record {
  id = b.id;
  booking_code = b.booking_code;
  status = b.status;
  subtotal = cents_to_decimal b.subtotal;
  discount_amount = cents_to_decimal b.discount_amount;
  final_amount = cents_to_decimal b.final_amount;
  expires_at = b.expires_at;
  created_at = b.created_at;
  updated_at = b.updated_at;
}

unfoldable pub insert_booking : ℕ → InsertBookingInput → Tx CreatedBookingRow
insert_booking now input = do
  subtotal ← cast_numeric input.subtotal
  discount ← cast_numeric input.discount_amount
  final ← cast_numeric input.final_amount
  throw_if (not (leb discount subtotal && (final + discount == subtotal))) (raw_failure s23514)
  clash ← gets (λ db. find (is_same_booking input.id input.booking_code) db.bookings)
  throw_if (is_some clash) (raw_failure s23505)
  modify
      (λ db. record db { bookings = booking_row input now subtotal discount final ∷ db.bookings })
  pure (created_row (booking_row input now subtotal discount final))

abbrev pub item_row : CreateBookingItemInput → ℕ → ℕ → BookingItem
item_row input unit_price line_total = record {
  id = input.id;
  booking_id = input.booking_id;
  ticket_category_id = input.category_id;
  quantity = input.quantity;
  unit_price = unit_price;
  line_total = line_total;
}

-- The unique keys of `booking_items`: its id, and the category within the booking.
abbrev pub is_same_item : CreateBookingItemInput → BookingItem → Bool
is_same_item input i =
    (i.id == input.id)
    || ((i.booking_id == input.booking_id) && (i.ticket_category_id == input.category_id))

unfoldable pub insert_item : CreateBookingItemInput → Tx (Unit {0})
insert_item input = do
  unit_price ← cast_numeric input.unit_price
  line_total ← cast_numeric input.line_total
  throw_if (not (leb 1 input.quantity && (line_total == unit_price * input.quantity)))
      (raw_failure s23514)
  clash ← gets (λ db. find (is_same_item input) db.booking_items)
  throw_if (is_some clash) (raw_failure s23505)
  modify λ db. record db { booking_items = item_row input unit_price line_total ∷ db.booking_items }

unfoldable pub insert_items : List CreateBookingItemInput → Tx (Unit {0})
insert_items [] = pure tt
insert_items (input ∷ inputs) = insert_item input >> insert_items inputs

abbrev pub created_entry : ℕ → ℕ → StatusChange
created_entry booking_id user_id = record {
  booking_id = booking_id;
  from_status = none;
  to_status = reserved;
  changed_by = some user_id;
  change_source = customer_api;
  reason = booking_created;
}

unfoldable pub insert_status_history : ℕ → ℕ → Tx (Unit {0})
insert_status_history booking_id user_id =
    modify λ db. record db { history = created_entry booking_id user_id ∷ db.history }
