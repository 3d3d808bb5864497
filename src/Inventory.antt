-- ===== src/Inventory.antt =====
-- src/modules/inventory/infrastructure/inventory-reservation.repository.ts
pub mod Stock
pub mod Reserving
pub mod Releasing
use geek_interview.Base.{
  ℕ, ◌+◌, ◌-◌, Bool, true, false, ◌&&◌, Option, none, some, List, [], ◌∷◌, map, leb, ◌==◌,
  if◌then◌else◌,
}
use geek_interview.Errors.{plain, inventory_release_violated, ok}
use geek_interview.Money.{cents_to_decimal}
use geek_interview.Tables.{select, find, find_by, update_where, count_where, sort_by}
use geek_interview.Store.{
  Db, TicketCategory, Inventory, BookingItem, Tx, pure, throw, gets, ◌>>=◌, ◌>>◌,
}

-- `TicketPricingRow`: `price::text` prints two decimals.
pub record TicketPricingRow : Type 0 where
  pub id : ℕ
  pub code : ℕ
  pub name : ℕ
  pub price : List ℕ

-- `x = ANY(list)`, `list.includes(x)`
abbrev pub includes : List ℕ → ℕ → Bool
includes [] k = false
includes (x ∷ xs) k = if x == k then true else includes xs k

abbrev pub is_some {ℓ} : {A : Type ℓ} → Option A → Bool
is_some none = false
is_some (some _) = true

abbrev pub pricing_row : TicketCategory → TicketPricingRow
pricing_row tc = record {
  id = tc.id;
  code = tc.code;
  name = tc.name;
  price = cents_to_decimal tc.price;
}

-- The list of ids is not empty: `Prisma.join` throws on an empty one, which the validation of the
-- request (ArrayMinSize) keeps out.
unfoldable pub find_categories_for_concert : ℕ → List ℕ → Tx (List TicketPricingRow)
find_categories_for_concert concert_id category_ids = gets λ db. map pricing_row (
    sort_by (λ a b. leb a.id b.id)
      (select
        (λ tc.
          (tc.concert_id == concert_id)
          && includes category_ids tc.id
          && is_some (find_by (λ i. i.ticket_category_id) tc.id db.inventories))
        db.ticket_categories))

abbrev pub take_from : ℕ → Inventory → Inventory
take_from quantity i = record i { available_quantity = i.available_quantity - quantity }

abbrev pub put_back : ℕ → Inventory → Inventory
put_back quantity i = record i { available_quantity = i.available_quantity + quantity }

-- `WHERE ticket_category_id = … AND available_quantity >= …`
abbrev pub is_reservable : ℕ → ℕ → Inventory → Bool
is_reservable category_id quantity i =
    (i.ticket_category_id == category_id) && leb quantity i.available_quantity

-- `WHERE ticket_category_id = … AND available_quantity + … <= total_quantity`
abbrev pub is_releasable : ℕ → ℕ → Inventory → Bool
is_releasable category_id quantity i =
    (i.ticket_category_id == category_id) && leb (i.available_quantity + quantity) i.total_quantity

-- The updated row, or nothing if no row passes the guard.
unfoldable pub reserve : ℕ → ℕ → Tx (Option Inventory)
reserve category_id quantity db = ok (
  elim (find (is_reservable category_id quantity) db.inventories) [
    | none ↦ none
    | some i ↦ some (take_from quantity i)
  ],
  record db {
    inventories =
        update_where (is_reservable category_id quantity) (take_from quantity) db.inventories;
  },
)

-- The UPDATE of one line, with the number of rows that it returns.
unfoldable pub release_line : ℕ → ℕ → Tx ℕ
release_line category_id quantity db = ok (
  count_where (is_releasable category_id quantity) db.inventories,
  record db {
    inventories =
        update_where (is_releasable category_id quantity) (put_back quantity) db.inventories;
  },
)

unfoldable pub release_lines : List BookingItem → ℕ → Tx ℕ
release_lines [] released = pure released
release_lines (item ∷ items) released = do
  count ← release_line item.ticket_category_id item.quantity
  if count == 1
      then release_lines items (released + item.quantity)
      else throw (plain inventory_release_violated)

abbrev pub category_order : BookingItem → BookingItem → Bool
category_order a b = leb a.ticket_category_id b.ticket_category_id

-- The lines of a booking, in the order of their categories.
unfoldable pub items_of : ℕ → List BookingItem → List BookingItem
items_of booking_id items = sort_by category_order (select (λ i. i.booking_id == booking_id) items)

unfoldable pub release_for_booking : ℕ → Tx ℕ
release_for_booking booking_id = do
  items ← gets (λ db. items_of booking_id db.booking_items)
  release_lines items 0
