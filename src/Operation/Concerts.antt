-- ===== src/Operation/Concerts.antt =====
-- Concerts and their ticket categories: createConcert, createTicketCategory and publishConcert of
-- src/modules/operation/application/operation.service.ts and of
-- src/modules/operation/infrastructure/operation.repository.ts. `id` is what gen_random_uuid() draws.
use mathlib.Core.Option
use geek_interview.Base.{
  ℕ, Bool, true, false, not, ◌&&◌, ◌||◌, Option, none, some, List, ◌∷◌, ltb, leb, ◌==◌,
  if◌then◌else◌,
}
use geek_interview.Errors.{
  Exn, DriverError, business, http, plain, raw_failure, bad_request, not_found, conflict, s22003,
  s23505, concert_slug_conflict, concert_not_publishable, concert_not_editable,
  ticket_category_conflict, missing_concert, concert_not_draft, undefined_row, no_details,
  concert_state, Result, ok, err,
}
use geek_interview.Money.{cents_to_decimal}
use geek_interview.Tables.{find, find_by, update_where}
use geek_interview.Store.{
  Db, Concert, ConcertStatus, draft, published, TicketCategory, Inventory, Tx, pure, throw_if,
  or_throw, gets, modify, ◌>>=◌, ◌>>◌,
}
use geek_interview.Inventory.{is_some}
use geek_interview.Catalog.{is_named}
use geek_interview.Booking.Request.{Texts}
use geek_interview.Booking.Write.{cast_numeric}
use geek_interview.Operation.{as_operator, run_once, or_rethrow, is_database_constraint}

pub record CreateConcertDto : Type 0 where
  pub slug : ℕ
  pub name : ℕ
  pub starts_at : ℕ

-- The price is the number with two decimals that the DTO admits, in cents.
pub record CreateTicketCategoryDto : Type 0 where
  pub code : ℕ
  pub name : ℕ
  pub price : ℕ
  pub total_quantity : ℕ

-- What the repository is given: `price` is a text.
pub record TicketCategoryInput : Type 0 where
  pub code : ℕ
  pub name : ℕ
  pub price : List ℕ
  pub total_quantity : ℕ

pub record TicketCategoryOperationRow : Type 0 where
  pub id : ℕ
  pub concert_id : ℕ
  pub code : ℕ
  pub name : ℕ
  pub price : List ℕ
  pub total_quantity : ℕ
  pub available_quantity : ℕ

abbrev pub is_draft : ConcertStatus → Bool
is_draft draft = true
is_draft _ = false

abbrev pub new_concert : ℕ → CreateConcertDto → Concert
new_concert id input = record {
  id = id;
  slug = input.slug;
  name = input.name;
  status = draft;
  starts_at = input.starts_at;
}

-- The keys of `concerts`: the id and the slug.
abbrev pub is_same_concert : ℕ → ℕ → Concert → Bool
is_same_concert id slug c = (c.id == id) || (c.slug == slug)

unfoldable pub insert_concert : ℕ → CreateConcertDto → Tx Concert
insert_concert id input = do
  clash ← gets (λ db. find (is_same_concert id input.slug) db.concerts)
  throw_if (is_some clash) (raw_failure s23505)
  modify (λ db. record db { concerts = new_concert id input ∷ db.concerts })
  pure (new_concert id input)

abbrev pub cleaned_concert : Texts → CreateConcertDto → CreateConcertDto
cleaned_concert t request = record {
  slug = t.lower request.slug;
  name = t.trim request.name;
  starts_at = request.starts_at;
}

abbrev pub concert_error : Exn → Exn
concert_error e =
    if is_database_constraint e then business concert_slug_conflict conflict no_details else e

unfoldable pub create_concert :
    Texts → Option DriverError → ℕ → ℕ → ℕ → CreateConcertDto → Db → Result Concert × Db
create_concert t fault now id actor_id request = as_operator actor_id λ db.
    if leb request.starts_at now
    then (err (business concert_not_publishable bad_request no_details), db)
    else or_rethrow concert_error
        (run_once fault (insert_concert id (cleaned_concert t request)) db)

-- `INTEGER` holds less than this.
abbrev pub integer_limit : ℕ
integer_limit = 2147483648

abbrev pub new_category : ℕ → ℕ → TicketCategoryInput → ℕ → TicketCategory
new_category id concert_id input price = record {
  id = id;
  concert_id = concert_id;
  code = input.code;
  name = input.name;
  price = price;
}

-- The keys of `ticket_categories`: the id, and the code within the concert.
abbrev pub is_same_category : ℕ → ℕ → ℕ → TicketCategory → Bool
is_same_category id concert_id code tc =
    (tc.id == id) || ((tc.concert_id == concert_id) && (tc.code == code))

unfoldable pub insert_category : ℕ → ℕ → TicketCategoryInput → Tx (Unit {0})
insert_category id concert_id input = do
  price ← cast_numeric input.price
  clash ← gets (λ db. find (is_same_category id concert_id input.code) db.ticket_categories)
  throw_if (is_some clash) (raw_failure s23505)
  modify λ db. record db {
    ticket_categories = new_category id concert_id input price ∷ db.ticket_categories;
  }

abbrev pub full_stock : ℕ → ℕ → Inventory
full_stock id total = record {
  ticket_category_id = id;
  total_quantity = total;
  available_quantity = total;
}

unfoldable pub insert_inventory : ℕ → ℕ → Tx (Unit {0})
insert_inventory id total = do
  throw_if (leb integer_limit total) (raw_failure s22003)
  clash ← gets (λ db. find_by (λ i. i.ticket_category_id) id db.inventories)
  throw_if (is_some clash) (raw_failure s23505)
  modify λ db. record db { inventories = full_stock id total ∷ db.inventories }

abbrev pub operation_row : TicketCategory → Inventory → TicketCategoryOperationRow
operation_row tc i = record {
  id = tc.id;
  concert_id = tc.concert_id;
  code = tc.code;
  name = tc.name;
  price = cents_to_decimal tc.price;
  total_quantity = i.total_quantity;
  available_quantity = i.available_quantity;
}

abbrev pub joined_row : Option TicketCategory → Option Inventory → Option TicketCategoryOperationRow
joined_row (some tc) (some i) = some (operation_row tc i)
joined_row _ _ = none

-- The SELECT of a category that is joined with its stock.
unfoldable pub find_category_row : ℕ → Tx (Option TicketCategoryOperationRow)
find_category_row id = gets λ db.
    joined_row (find_by (λ tc. tc.id) id db.ticket_categories)
      (find_by (λ i. i.ticket_category_id) id db.inventories)

unfoldable pub find_concert : ℕ → Db → Option Concert
find_concert identifier db = find (is_named identifier) db.concerts

unfoldable pub insert_category_with_stock :
    ℕ → ℕ → TicketCategoryInput → Tx (Option TicketCategoryOperationRow)
insert_category_with_stock id identifier input = do
  row ← gets (find_concert identifier)
  concert ← or_throw row (plain missing_concert)
  throw_if (not (is_draft concert.status)) (plain concert_not_draft)
  insert_category id concert.id input
  insert_inventory id input.total_quantity
  find_category_row id

-- The conversion of a row that is not there throws a TypeError.
abbrev pub row_or_throw : {A : Type 0} → Result (Option A) × Db → Result A × Db
row_or_throw (ok (some a), db) = (ok a, db)
row_or_throw (ok none, db) = (err (plain undefined_row), db)
row_or_throw (err e, db) = (err e, db)

-- `price.toFixed(2)`
abbrev pub category_input : Texts → CreateTicketCategoryDto → TicketCategoryInput
category_input t request = record {
  code = request.code;
  name = t.trim request.name;
  price = cents_to_decimal request.price;
  total_quantity = request.total_quantity;
}

abbrev pub category_error : Exn → Exn
category_error (plain missing_concert) = http not_found
category_error (plain concert_not_draft) = business concert_not_editable conflict no_details
category_error e =
    if is_database_constraint e then business ticket_category_conflict conflict no_details else e

unfoldable pub create_ticket_category :
    Texts
    → Option DriverError
    → ℕ
    → ℕ
    → ℕ
    → CreateTicketCategoryDto
    → Db
    → Result TicketCategoryOperationRow × Db
create_ticket_category t fault id actor_id identifier request = as_operator actor_id λ db.
    or_rethrow category_error (
      row_or_throw (
        run_once fault
          (insert_category_with_stock id (t.trim identifier) (category_input t request)) db))

abbrev pub has_stock_row : Db → ℕ → TicketCategory → Bool
has_stock_row db concert_id tc =
    (tc.concert_id == concert_id)
    && is_some (find_by (λ i. i.ticket_category_id) tc.id db.inventories)

-- `EXISTS (SELECT 1 FROM ticket_categories tc JOIN ticket_inventories ti …)`
abbrev pub has_inventory : Db → ℕ → Bool
has_inventory db concert_id = is_some (find (has_stock_row db concert_id) db.ticket_categories)

abbrev pub is_ready : ℕ → Db → Concert → Bool
is_ready now db c = is_draft c.status && (ltb now c.starts_at && has_inventory db c.id)

abbrev pub is_publishable : ℕ → ℕ → Db → Concert → Bool
is_publishable now identifier db c = is_ready now db c && is_named identifier c

abbrev pub set_published : Concert → Concert
set_published c = record c { status = published }

unfoldable pub publish : ℕ → ℕ → Tx (Option Concert)
publish now identifier db = ok (
  Option.map set_published (find (is_publishable now identifier db) db.concerts),
  record db {
    concerts = update_where (is_publishable now identifier db) set_published db.concerts;
  },
)

-- Why nothing was published.
abbrev pub publish_error : Option Concert → Exn
publish_error none = http not_found
publish_error (some c) = business concert_not_publishable conflict (concert_state c.status)

abbrev pub published_or_error : ℕ → Result (Option Concert) × Db → Result Concert × Db
published_or_error identifier (ok (some c), db) = (ok c, db)
published_or_error identifier (ok none, db) = (err (publish_error (find_concert identifier db)), db)
published_or_error identifier (err e, db) = (err e, db)

unfoldable pub publish_concert : Texts → Option DriverError → ℕ → ℕ → ℕ → Db → Result Concert × Db
publish_concert t fault now actor_id identifier = as_operator actor_id λ db.
    published_or_error (t.trim identifier) (run_once fault (publish now (t.trim identifier)) db)
