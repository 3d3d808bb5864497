-- ===== src/Booking/Read.antt =====
-- src/modules/booking/infrastructure/booking-read.repository.ts and
-- src/modules/booking/application/booking-read.service.ts
use mathlib.Core.Option
use geek_interview.Base.{
  ℕ, ◌+◌, ◌-◌, ◌*◌, ◌/◌, Bool, ◌&&◌, ◌||◌, Option, none, some, List, [], ◌∷◌, ◌++◌, map, length,
  take, drop, ltb, leb, ◌==◌, if◌then◌else◌,
}
use geek_interview.Domain.{BookingStatus}
use geek_interview.Errors.{http, not_found, unauthorized, forbidden, Result, ok, err}
use geek_interview.Money.{cents_to_decimal}
use geek_interview.Tables.{select, find, find_by, sort_by}
use geek_interview.Store.{
  Db, UserRole, Booking, BookingItem, Concert, BookingResponse, BookingItemResponse, TicketCategory,
  matches_identifier,
}

-- `BookingReadRow`
pub record BookingReadRow : Type 0 where
  pub id : ℕ
  pub booking_code : ℕ
  pub concert_id : ℕ
  pub concert_slug : ℕ
  pub concert_name : ℕ
  pub status : BookingStatus
  pub subtotal : List ℕ
  pub discount_amount : List ℕ
  pub final_amount : List ℕ
  pub expires_at : ℕ
  pub created_at : ℕ
  pub updated_at : ℕ
  pub items : List BookingItemResponse

pub record Pagination : Type 0 where
  pub page : ℕ
  pub limit : ℕ
  pub total : ℕ
  pub total_pages : ℕ

pub record Page (A : Type 0) : Type 0 where
  pub rows : List A
  pub pagination : Pagination

unfoldable pub find_role : ℕ → Db → Option UserRole
find_role user_id db = Option.map (λ u. u.role) (find (λ u. u.id == user_id) db.users)

-- The foreign key of an item makes the join with its category find one row.
abbrev pub item_responses : List TicketCategory → List BookingItem → List BookingItemResponse
item_responses categories [] = []
item_responses categories (i ∷ items) =
    elim (find_by (λ tc. tc.id) i.ticket_category_id categories) [
      | none ↦ []
      | some tc ↦
          record {
            id = i.id;
            ticket_category_id = i.ticket_category_id;
            category_code = tc.code;
            category_name = tc.name;
            quantity = i.quantity;
            unit_price = cents_to_decimal i.unit_price;
            line_total = cents_to_decimal i.line_total;
          }
          ∷ []
    ]
    ++ item_responses categories items

-- The joined row of a booking and its concert, its items in the order of their ids.
abbrev pub read_row : Db → Booking → Concert → BookingReadRow
read_row db b c = record {
  id = b.id;
  booking_code = b.booking_code;
  concert_id = b.concert_id;
  concert_slug = c.slug;
  concert_name = c.name;
  status = b.status;
  subtotal = cents_to_decimal b.subtotal;
  discount_amount = cents_to_decimal b.discount_amount;
  final_amount = cents_to_decimal b.final_amount;
  expires_at = b.expires_at;
  created_at = b.created_at;
  updated_at = b.updated_at;
  items =
      item_responses db.ticket_categories
        (sort_by (λ x y. leb x.id y.id) (select (λ i. i.booking_id == b.id) db.booking_items));
}

-- `JOIN concerts c ON c.id = b.concert_id`: a booking without its concert has no row.
abbrev pub join_rows : Db → List Booking → List BookingReadRow
join_rows db [] = []
join_rows db (b ∷ bs) =
    elim (find_by (λ c. c.id) b.concert_id db.concerts) [
      | none ↦ []
      | some c ↦ read_row db b c ∷ []
    ]
    ++ join_rows db bs

-- `ORDER BY b.created_at DESC, b.id DESC`
abbrev pub newest_first : Booking → Booking → Bool
newest_first a b =
    ltb b.created_at a.created_at || ((a.created_at == b.created_at) && leb b.id a.id)

-- `LIMIT limit OFFSET (page - 1) * limit`; `COUNT(*) OVER()` rides on the rows, so the total is read
-- from the first one: `rows[0]?.totalCount ?? 0`.
abbrev pub page_of {ℓ} : {A : Type ℓ} → ℕ → ℕ → List A → List A
page_of page limit rows = take limit (drop ((page - 1) * limit) rows)

abbrev pub total_of {ℓ} : {A : Type ℓ} → List A → ℕ → ℕ
total_of [] count = 0
total_of (_ ∷ _) count = count

-- `total === 0 ? 0 : Math.ceil(total / limit)`
abbrev pub total_pages : ℕ → ℕ → ℕ
total_pages total limit = if total == 0 then 0 else (total + limit - 1) / limit

unfoldable pub paginate : {A : Type 0} → ℕ → ℕ → List A → Page A
paginate page limit rows =
    let shown = page_of page limit rows in
    let total = total_of shown (length rows) in
    record {
      rows = shown;
      pagination = record {
        page = page;
        limit = limit;
        total = total;
        total_pages = total_pages total limit;
      };
    }

abbrev pub to_response : BookingReadRow → BookingResponse
to_response row = record {
  id = row.id;
  booking_code = row.booking_code;
  concert = record { id = row.concert_id; slug = row.concert_slug; name = row.concert_name };
  status = row.status;
  subtotal = row.subtotal;
  discount_amount = row.discount_amount;
  final_amount = row.final_amount;
  expires_at = row.expires_at;
  created_at = row.created_at;
  updated_at = row.updated_at;
  items = row.items;
}

unfoldable pub require_customer : ℕ → Db → Result (Unit {0})
require_customer user_id db = elim (find_role user_id db) [
  | none ↦ err (http unauthorized)
  | some UserRole.customer ↦ ok tt
  | some _ ↦ err (http forbidden)
]

unfoldable pub list_for_user : ℕ → ℕ → ℕ → Db → Page BookingResponse
list_for_user user_id page limit db = paginate page limit (
    map to_response
      (join_rows db (sort_by newest_first (select (λ b. b.user_id == user_id) db.bookings))))

unfoldable pub find_owned_by_identifier : ℕ → ℕ → Db → Option BookingReadRow
find_owned_by_identifier user_id identifier db =
    elim (join_rows db
      (select (λ b. (b.user_id == user_id) && matches_identifier identifier b) db.bookings)) [
        | [] ↦ none
        | row ∷ _ ↦ some row
      ]

unfoldable pub get_owned : ℕ → ℕ → Db → Result BookingResponse
get_owned user_id identifier db = elim (find_owned_by_identifier user_id identifier db) [
  | none ↦ err (http not_found)
  | some row ↦ ok (to_response row)
]
