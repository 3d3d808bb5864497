-- ===== src/Operation/Opening.antt =====
-- A new ticket category and its stock.
use mathlib.Core.Path.{subst}
use geek_interview.Base.{
  ℕ, ◌+◌, ◌≡◌, ◌≢◌, refl, sym, ◌∙◌, Bool, true, Option, none, some, List, [], ◌∷◌, All, All-mono,
  arith, ◌==◌, ==→eq, inl, inr, Bool-cases, Option-cases,
}
use geek_interview.Errors.{DriverError, ok}
use geek_interview.Money.{decimal_to_cents, cents_to_decimal}
use geek_interview.Tables.{find, find_by}
use geek_interview.Store.{Db, Concert, Inventory, TicketCategory, BookingItem}
use geek_interview.Inventory.Stock.{category_of, Stocked, held}
use geek_interview.Booking.Stock.{StockInv, live_in}
use geek_interview.Booking.Write.{cast_numeric}
use geek_interview.Booking.Invariant.{Inv}
use geek_interview.Money.RoundTrip.{decimal_to_cents-cents_to_decimal}
use geek_interview.Booking.Request.{Texts}
use geek_interview.Booking.Read.{find_role}
use geek_interview.Operation.Running.{
  role_status, as_operator_keeps, as_operator-eq-ok, run_once_keeps, run_once-eq-ok,
  or_rethrow-state, or_rethrow-eq-ok, row_or_throw-state, row_or_throw-eq-ok,
}
use geek_interview.Operation.Concerts.{
  CreateTicketCategoryDto, category_input, category_error, create_ticket_category,
  TicketCategoryInput, TicketCategoryOperationRow, is_draft, new_category, is_same_category,
  full_stock, operation_row, insert_category, insert_inventory, find_category_row, find_concert,
  insert_category_with_stock,
}

some_inj : {A : Type 0} {a b : A} → some a ≡ some b → a ≡ b
some_inj h = cc

-- What the transaction of a new category has done.
pub record Opened (id identifier : ℕ) (input : TicketCategoryInput) (db : Db)
    (row : Option TicketCategoryOperationRow) (db' : Db) : Type 0 where
  pub concert : Concert
  pub price : ℕ
  pub named : find_concert identifier db ≡ some concert
  pub editable : is_draft concert.status ≡ true
  pub priced : decimal_to_cents input.price ≡ some price
  pub new_code : find (is_same_category id concert.id input.code) db.ticket_categories ≡ none
  pub new_stock : find_by category_of id db.inventories ≡ none
  pub state : db' ≡ record db {
    ticket_categories = new_category id concert.id input price ∷ db.ticket_categories;
    inventories = full_stock id input.total_quantity ∷ db.inventories;
  }
  pub answer :
      row
      ≡ some (
          operation_row
            (new_category id concert.id input price)
            (full_stock id input.total_quantity))

pub insert_category_with_stock-Opened :
    (id identifier : ℕ) (input : TicketCategoryInput) (db db' : Db)
    {row : Option TicketCategoryOperationRow}
    → insert_category_with_stock id identifier input db ≡ ok (row, db')
    → Opened id identifier input db row db'
unfolding insert_category_with_stock insert_category insert_inventory find_category_row cast_numeric
    find_by
insert_category_with_stock-Opened id identifier input db db' {row} h =
    elim (Option-cases (find_concert identifier db)) [
      | inl gone ↦ absurd (ground arith)
      | inr (c, e) ↦ elim (Option-cases (decimal_to_cents input.price)) [
        | inl bad ↦ absurd (ground arith)
        | inr (price, p) ↦
            elim (Option-cases (find (is_same_category id c.id input.code) db.ticket_categories)) [
              | inr (clash, k) ↦ absurd (ground arith)
              | inl new_code ↦ elim (Option-cases (find_by category_of id db.inventories)) [
                | inr (clash, k) ↦ absurd (ground arith)
                | inl new_stock ↦ record {
                  concert = c;
                  price = price;
                  named = e;
                  editable = ground arith;
                  priced = p;
                  new_code = new_code;
                  new_stock = new_stock;
                  state = ground arith;
                  answer = ground arith;
                }
              ]
            ]
      ]
    ]

-- A category without stock is on no line.
held-absent :
    (live : ℕ → Bool) (c : ℕ) (invs : List Inventory) (items : List BookingItem)
    → find_by category_of c invs ≡ none
    → All (λ i. find_by category_of i.ticket_category_id invs ≢ none) items
    → held live c items ≡ 0
held-absent live c invs [] gone known = refl
held-absent live c invs (i ∷ items) gone known = elim (Bool-cases (i.ticket_category_id == c)) [
  | inl same ↦ absurd (known.0 (rw (==→eq _ _ same) gone))
  | inr other ↦ rw other (ground (arith, held-absent live c invs items gone known.1))
]

held-found :
    (c id total : ℕ) (invs : List Inventory) (need : ℕ → ℕ) (i : Inventory)
    → Stocked invs need
    → need id ≡ 0
    → find_by category_of c (full_stock id total ∷ invs) ≡ some i
    → i.available_quantity + need c ≡ i.total_quantity
unfolding find_by
held-found c id total invs need i stocked none_held e = elim (Bool-cases (id == c)) [
  | inl same ↦
      let key : id ≡ c = ground arith in
      let here : full_stock id total ≡ i = ground arith in
      let nothing : need c ≡ 0 = rw (← key) none_held in rw (← here, nothing) (omega arith)
  | inr other ↦ stocked c i (ground arith)
]

still_found :
    (id total : ℕ) (invs : List Inventory) (c : ℕ)
    → find_by category_of c invs ≢ none
    → find_by category_of c (full_stock id total ∷ invs) ≢ none
unfolding find_by
still_found id total invs c h e = ground (arith, h)

-- Stock for a category that is new belongs to no booking, all of it is available.
StockInv-opened :
    (id total : ℕ) (db : Db) (tcs : List TicketCategory)
    → StockInv db
    → find_by category_of id db.inventories ≡ none
    → StockInv
        (record db { ticket_categories = tcs; inventories = full_stock id total ∷ db.inventories })
StockInv-opened id total db tcs inv new_stock = record {
  identified = inv.identified;
  unique = (new_stock, inv.unique);
  known =
      All-mono (λ i h. still_found id total db.inventories i.ticket_category_id h) db.booking_items
        inv.known;
  owned = inv.owned;
  stocked = λ c i e.
      held-found c id total db.inventories (λ c. held (live_in db.bookings) c db.booking_items) i
        inv.stocked
        (held-absent (live_in db.bookings) id db.inventories db.booking_items new_stock inv.known)
        e;
}

Opened-Inv :
    {id identifier : ℕ} {input : TicketCategoryInput} {db db' : Db}
    {row : Option TicketCategoryOperationRow}
    → Inv db
    → Opened id identifier input db row db'
    → Inv db'
Opened-Inv {id} {input = input} {db} inv o = subst Inv (sym o.state) (record {
  stock = StockInv-opened id input.total_quantity db _ inv.stock o.new_stock;
  quota = inv.quota;
})

pub create_ticket_category-Inv :
    (t : Texts) (fault : Option DriverError) (id actor_id identifier : ℕ)
    (request : CreateTicketCategoryDto) (db : Db)
    → Inv db
    → Inv (create_ticket_category t fault id actor_id identifier request db).1
unfolding create_ticket_category
create_ticket_category-Inv t fault id actor_id identifier request db inv =
    as_operator_keeps Inv actor_id _ db inv (
      rw (or_rethrow-state category_error _, row_or_throw-state _)
        (run_once_keeps Inv fault
          (insert_category_with_stock id (t.trim identifier) (category_input t request)) db inv
          (λ row db' h. Opened-Inv inv (
            insert_category_with_stock-Opened id (t.trim identifier) (category_input t request) db
              db' h))))

-- What the creation of a category has done.
pub record NewCategory (t : Texts) (id actor_id identifier : ℕ) (request : CreateTicketCategoryDto)
    (db : Db) (row : TicketCategoryOperationRow) (db' : Db) : Type 0 where
  pub may : role_status (find_role actor_id db) ≡ none
  pub concert : Concert
  pub named : find_concert (t.trim identifier) db ≡ some concert
  pub editable : is_draft concert.status ≡ true
  pub new_code : find (is_same_category id concert.id request.code) db.ticket_categories ≡ none
  pub answer : row ≡ record {
    id = id;
    concert_id = concert.id;
    code = request.code;
    name = t.trim request.name;
    price = cents_to_decimal request.price;
    total_quantity = request.total_quantity;
    available_quantity = request.total_quantity;
  }
  pub state : db' ≡ record db {
    ticket_categories =
        record {
          id = id;
          concert_id = concert.id;
          code = request.code;
          name = t.trim request.name;
          price = request.price;
        }
        ∷ db.ticket_categories;
    inventories = full_stock id request.total_quantity ∷ db.inventories;
  }

-- A category that is created belongs to the concert of that name, which is DRAFT; its code is new
-- there; the actor is an operator or admin; the category with its price and its whole stock available is all
-- that is added, and what is answered.
pub create_ticket_category-NewCategory :
    (t : Texts) (fault : Option DriverError) (id actor_id identifier : ℕ)
    (request : CreateTicketCategoryDto) (db db' : Db) (row : TicketCategoryOperationRow)
    → create_ticket_category t fault id actor_id identifier request db ≡ (ok row, db')
    → NewCategory t id actor_id identifier request db row db'
unfolding create_ticket_category
create_ticket_category-NewCategory t fault id actor_id identifier request db db' row h =
    let (may, called) = as_operator-eq-ok actor_id _ db db' h in
    let ran = row_or_throw-eq-ok _ (or_rethrow-eq-ok category_error _ called) in
    let o =
      insert_category_with_stock-Opened id (t.trim identifier) (category_input t request) db db'
        (run_once-eq-ok fault _ db db' ran) in
    let price : o.price ≡ request.price =
      some_inj (sym o.priced ∙ decimal_to_cents-cents_to_decimal request.price) in
    record {
      may = may;
      concert = o.concert;
      named = o.named;
      editable = o.editable;
      new_code = o.new_code;
      answer = some_inj (o.answer ∙ rw price refl);
      state = o.state ∙ rw price refl;
    }
