-- ===== src/Booking/Reserving.antt =====
-- The loop that reserves the stock of a booking's items and prices them.
use geek_interview.Base.{
  ℕ, ◌+◌, ◌*◌, ◌≡◌, ◌≢◌, refl, sym, ◌∙◌, Option, none, some, List, [], ◌∷◌, All, arith, inl, inr,
  Option-cases,
}
use mathlib.Core.Path.{subst}
use geek_interview.Errors.{Result, ok, err}
use geek_interview.Money.{decimal_to_cents}
use geek_interview.Tables.{find_by, IsUnique, find_by_key}
use geek_interview.Store.{Db, Inventory, ◌>>=◌, >>=-eq-ok, pure}
use geek_interview.Inventory
use geek_interview.Inventory.{TicketPricingRow}
use geek_interview.Inventory.Stock.{category_of, Stocked, at_category}
use geek_interview.Inventory.Reserving.{reserve_success}
use geek_interview.Booking.Request.{NormalizedItem}
use geek_interview.Booking.Create.{BookedLine, booked_line, reserve_item, reserve_items}

-- What one round that succeeds has done.
pub record ItemReserved (categories : List TicketPricingRow) (item : NormalizedItem) (need : ℕ → ℕ)
    (db : Db) (priced : TicketPricingRow × ℕ) (db' : Db) : Type 0 where
  pub rows : List Inventory
  pub state : db' ≡ record db { inventories = rows }
  pub found : find_by (λ c. c.id) item.ticket_category_id categories ≡ some priced.0
  pub price : decimal_to_cents priced.0.price ≡ some priced.1
  pub unique : IsUnique category_of rows
  pub stocked : Stocked rows (λ d. at_category item.ticket_category_id item.quantity d + need d)
  pub kept :
      (d : ℕ) → find_by category_of d db.inventories ≢ none → find_by category_of d rows ≢ none
  pub known : find_by category_of item.ticket_category_id db.inventories ≢ none

pub reserve_item-ItemReserved :
    (categories : List TicketPricingRow) (item : NormalizedItem) (need : ℕ → ℕ) (db db' : Db)
    {priced : TicketPricingRow × ℕ}
    → IsUnique category_of db.inventories
    → Stocked db.inventories need
    → reserve_item categories item db ≡ ok (priced, db')
    → ItemReserved categories item need db priced db'
unfolding reserve_item
reserve_item-ItemReserved categories item need db db' {priced} u s h =
    elim (Option-cases (find_by (λ c. c.id) item.ticket_category_id categories)) [
      | inl missing ↦ absurd (ground arith)
      | inr (category, e) ↦
          go category e (Inventory.reserve item.ticket_category_id item.quantity db) refl
    ]
  where
    go :
        (category : TicketPricingRow)
        → find_by (λ c. c.id) item.ticket_category_id categories ≡ some category
        → (r : Result (Option Inventory × Db))
        → Inventory.reserve item.ticket_category_id item.quantity db ≡ r
        → ItemReserved categories item need db priced db'
    go category e (err x) f = absurd (ground arith)
    go category e (ok (none, s')) f = absurd (ground arith)
    go category e (ok (some i, s')) f = elim (Option-cases (decimal_to_cents category.price)) [
      | inl bad ↦ absurd (ground arith)
      | inr (cents, g) ↦
          let (rows, st, unique, stocked, kept, known) =
            reserve_success item.ticket_category_id item.quantity need db s' u s f in
          record {
            rows = rows;
            state = ground arith;
            found = ground arith;
            price = ground arith;
            unique = unique;
            stocked = stocked;
            kept = kept;
            known = known;
          }
    ]

abbrev pub lines_quantity : ℕ → List BookedLine → ℕ
lines_quantity c [] = 0
lines_quantity c (l ∷ lines) = at_category l.category.id l.quantity c + lines_quantity c lines

-- What the loop that succeeds has done: the stock needed grows by the lines' quantities.
pub record ItemsReserved (need : ℕ → ℕ) (db : Db) (r : ℕ × List BookedLine) (db' : Db)
    : Type 0 where
  pub rows : List Inventory
  pub state : db' ≡ record db { inventories = rows }
  pub unique : IsUnique category_of rows
  pub stocked : Stocked rows (λ d. lines_quantity d r.1 + need d)
  pub kept :
      (d : ℕ) → find_by category_of d db.inventories ≢ none → find_by category_of d rows ≢ none
  pub known : All (λ l. find_by category_of l.category.id rows ≢ none) r.1

pub reserve_items-ItemsReserved :
    (item_id : ℕ → ℕ) (categories : List TicketPricingRow) (items : List NormalizedItem)
    (n subtotal : ℕ) (need : ℕ → ℕ) (db db' : Db) (r : ℕ × List BookedLine)
    → IsUnique category_of db.inventories
    → Stocked db.inventories need
    → reserve_items item_id categories items n subtotal db ≡ ok (r, db')
    → ItemsReserved need db r db'
unfolding reserve_items
reserve_items-ItemsReserved item_id categories [] n subtotal need db db' r u s h =
    let er : (subtotal, []) ≡ r = ground arith in
    subst (λ (x : ℕ × List BookedLine). ItemsReserved need db x db') er
      (record {
        rows = db.inventories;
        state = ground arith;
        unique = u;
        stocked = λ d i e. ground (arith, s d i e);
        kept = λ d k. k;
        known = tt;
      })
reserve_items-ItemsReserved item_id categories (item ∷ items) n subtotal need db db' r u s h =
    let (priced, s', first, later) =
      >>=-eq-ok (reserve_item categories item)
        (λ (priced : TicketPricingRow × ℕ).
          reserve_items item_id categories items (n + 1) (subtotal + priced.1 * item.quantity)
          >>= λ rest.
              pure (rest.0, booked_line (item_id n) priced.0 item.quantity priced.1 ∷ rest.1))
        db h in
    let (rest, s'', second, last) =
      >>=-eq-ok
        (reserve_items item_id categories items (n + 1) (subtotal + priced.1 * item.quantity))
        (λ (rest : ℕ × List BookedLine).
          pure (rest.0, booked_line (item_id n) priced.0 item.quantity priced.1 ∷ rest.1))
        s' later in
    let one = reserve_item-ItemReserved categories item need db s' u s first in
    let key : priced.0.id ≡ item.ticket_category_id =
      find_by_key (λ c. c.id) item.ticket_category_id categories one.found in
    let mid = record db { inventories = one.rows } in
    let many =
      reserve_items-ItemsReserved item_id categories items (n + 1)
        (subtotal + priced.1 * item.quantity)
        (λ d. at_category item.ticket_category_id item.quantity d + need d) mid s'' rest one.unique
        one.stocked (rw (← one.state) second) in
    let line = booked_line (item_id n) priced.0 item.quantity priced.1 in
    let er : (rest.0, line ∷ rest.1) ≡ r = ground arith in
    let es : s'' ≡ db' = ground arith in
    subst (λ (x : ℕ × List BookedLine). ItemsReserved need db x db') er
      (record {
        rows = many.rows;
        state = sym es ∙ many.state;
        unique = many.unique;
        stocked = λ d i e. rw key (omega (arith, many.stocked d i e));
        kept = λ d k. many.kept d (one.kept d k);
        known = (
          rw key (many.kept item.ticket_category_id (one.kept item.ticket_category_id one.known)),
          many.known,
        );
      })
