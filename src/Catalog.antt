-- ===== src/Catalog.antt =====
-- The reads of concerts and of their stock: concert-read.service.ts and concert-read.repository.ts of
-- src/modules/concert, inventory-read.service.ts and inventory-read.repository.ts of
-- src/modules/inventory.
pub mod Published
use geek_interview.Base.{
  ℕ, Bool, true, false, ◌&&◌, ◌||◌, Option, none, some, List, [], ◌∷◌, map, ltb, leb, ◌==◌,
  if◌then◌else◌,
}
use geek_interview.Errors.{Result, ok, err, http, not_found}
use geek_interview.Money.{cents_to_decimal}
use geek_interview.Tables.{select, find, find_by, sort_by}
use geek_interview.Store.{Db, Concert, ConcertStatus, published, TicketCategory, Inventory}
use geek_interview.Booking.Create.{is_published}
use geek_interview.Booking.Read.{Page, paginate}

pub record ConcertResponse : Type 0 where
  pub id : ℕ
  pub slug : ℕ
  pub name : ℕ
  pub status : ConcertStatus
  pub starts_at : ℕ
  pub bookable : Bool

abbrev pub concert_response : Concert → ConcertResponse
concert_response c = record {
  id = c.id;
  slug = c.slug;
  name = c.name;
  status = c.status;
  starts_at = c.starts_at;
  bookable = true;
}

abbrev pub is_named : ℕ → Concert → Bool
is_named identifier c = (c.slug == identifier) || (c.id == identifier)

-- `ORDER BY c.starts_at ASC, c.id ASC`
abbrev pub starts_order : Concert → Concert → Bool
starts_order a b = ltb a.starts_at b.starts_at || ((a.starts_at == b.starts_at) && leb a.id b.id)

unfoldable pub list_published : ℕ → ℕ → Db → Page ConcertResponse
list_published page limit db =
    paginate page limit (
      map concert_response (sort_by starts_order (select (λ c. is_published c.status) db.concerts)))

unfoldable pub find_published_by_identifier : ℕ → Db → Option Concert
find_published_by_identifier identifier db =
    find (λ c. is_published c.status && is_named identifier c) db.concerts

unfoldable pub get_published : ℕ → Db → Result ConcertResponse
get_published identifier db = elim (find_published_by_identifier identifier db) [
  | none ↦ err (http not_found)
  | some c ↦ ok (concert_response c)
]

pub record TicketCategoryAvailability : Type 0 where
  pub id : ℕ
  pub code : ℕ
  pub name : ℕ
  pub price : List ℕ
  pub total_quantity : ℕ
  pub available_quantity : ℕ

-- A category without stock shows 0 of 0.
abbrev pub availability_of : TicketCategory → Option Inventory → TicketCategoryAvailability
availability_of tc none = record {
  id = tc.id;
  code = tc.code;
  name = tc.name;
  price = cents_to_decimal tc.price;
  total_quantity = 0;
  available_quantity = 0;
}
availability_of tc (some i) = record {
  id = tc.id;
  code = tc.code;
  name = tc.name;
  price = cents_to_decimal tc.price;
  total_quantity = i.total_quantity;
  available_quantity = i.available_quantity;
}

abbrev pub is_shown : ℕ → Option Concert → Bool
is_shown identifier none = false
is_shown identifier (some c) = is_published c.status && is_named identifier c

-- `ORDER BY tc.code ASC, tc.id ASC`
abbrev pub code_order : TicketCategory → TicketCategory → Bool
code_order a b = ltb a.code b.code || ((a.code == b.code) && leb a.id b.id)

unfoldable pub find_for_published_concert : ℕ → Db → List TicketCategoryAvailability
find_for_published_concert identifier db =
    map (λ tc. availability_of tc (find_by (λ i. i.ticket_category_id) tc.id db.inventories))
      (sort_by code_order (
        select (λ tc. is_shown identifier (find_by (λ c. c.id) tc.concert_id db.concerts))
          db.ticket_categories))

abbrev pub or_not_found {ℓ} : {A : Type ℓ} → List A → Result (List A)
or_not_found [] = err (http not_found)
or_not_found (x ∷ xs) = ok (x ∷ xs)

unfoldable pub list_for_concert : ℕ → Db → Result (List TicketCategoryAvailability)
list_for_concert identifier db = or_not_found (find_for_published_concert identifier db)

unfoldable pub get_published_with_categories :
    ℕ → Db → Result (ConcertResponse × List TicketCategoryAvailability)
get_published_with_categories identifier db = elim (get_published identifier db) [
  | err e ↦ err e
  | ok concert ↦ elim (list_for_concert identifier db) [
    | err e ↦ err e
    | ok categories ↦ ok (concert, categories)
  ]
]
