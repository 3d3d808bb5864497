-- ===== src/Booking/Sold.antt =====
-- What a booking sells: its items priced by the stored prices, as they are answered and written.
use mathlib.Core.Path.{subst}
use geek_interview.Base.{
  ℕ, ◌+◌, ◌*◌, ◌≡◌, refl, sym, ap, ◌∙◌, ◌&&◌, Option, none, some, List, [], ◌∷◌, map, All, All-mono,
  Any, arith, ◌==◌, leb, inl, inr, Option-cases,
}
use geek_interview.Errors.{Result, ok, err}
use geek_interview.Money.{decimal_to_cents, cents_to_decimal}
use geek_interview.Money.RoundTrip.{decimal_to_cents-cents_to_decimal}
use geek_interview.Tables.{select, find_by, find_by_key, sort_by, All-sort_by}
use geek_interview.Tables.Rows.{All-hit}
use geek_interview.Tables.Members.{Any-mono, All-found, All-self}
use geek_interview.Store.{
  Db, TicketCategory, Inventory, BookingItem, BookingItemResponse, ◌>>=◌, >>=-eq-ok, pure,
}
use geek_interview.Inventory
use geek_interview.Inventory.{
  TicketPricingRow, pricing_row, includes, is_some, find_categories_for_concert,
}
use geek_interview.Booking.Request.{NormalizedItem}
use geek_interview.Booking.Write.{item_row}
use geek_interview.Booking.Writing.{ItemsStored}
use geek_interview.Booking.Create.{
  BookedLine, booked_line, line_input, line_response, reserve_item, reserve_items, find_categories,
}

-- The items of a request that are sold for a sum of cents: each is answered with its category and
-- quantity, at the price that a category of the concert has in the table, the totals make up the sum,
-- and the same is written in a row of the booking, in front of the rows before.
abbrev pub ItemsSold :
    (booking_id concert_id : ℕ)
    → List TicketCategory
    → List NormalizedItem
    → List BookingItemResponse
    → ℕ
    → List BookingItem
    → List BookingItem
    → Type 0
ItemsSold booking_id concert_id categories [] [] sum before after = (sum ≡ 0) × (after ≡ before)
ItemsSold booking_id concert_id categories (q ∷ qs) (i ∷ is) sum before after =
    (price : ℕ) × (others : ℕ) × Any
      (λ tc. (tc.id ≡ q.ticket_category_id) × (tc.concert_id ≡ concert_id) × (tc.price ≡ price))
      categories
    × (i.ticket_category_id ≡ q.ticket_category_id)
    × (i.quantity ≡ q.quantity)
    × (decimal_to_cents i.unit_price ≡ some price)
    × (decimal_to_cents i.line_total ≡ some (price * q.quantity))
    × (sum ≡ price * q.quantity + others)
    × ItemsSold booking_id concert_id categories qs is others
        (record {
          id = i.id;
          booking_id = booking_id;
          ticket_category_id = q.ticket_category_id;
          quantity = q.quantity;
          unit_price = price;
          line_total = price * q.quantity;
        }
          ∷ before)
        after
ItemsSold booking_id concert_id categories _ _ sum before after = ⊥

-- The rows that are priced are categories of the concert.
abbrev pub IsOf : ℕ → List TicketCategory → TicketPricingRow → Type 0
IsOf concert_id categories row =
    Any (λ tc. (tc.concert_id ≡ concert_id) × (row ≡ pricing_row tc)) categories

map-IsOf :
    (concert_id : ℕ) (categories tcs : List TicketCategory)
    → All (λ tc. IsOf concert_id categories (pricing_row tc)) tcs
    → All (IsOf concert_id categories) (map pricing_row tcs)
map-IsOf concert_id categories [] h = tt
map-IsOf concert_id categories (tc ∷ tcs) h = (h.0, map-IsOf concert_id categories tcs h.1)

pub find_categories-IsOf :
    (concert_id : ℕ) (ids : List ℕ) (db db' : Db) {cs : List TicketPricingRow}
    → find_categories concert_id ids db ≡ ok (cs, db')
    → All (IsOf concert_id db.ticket_categories) cs
unfolding find_categories find_categories_for_concert
find_categories-IsOf concert_id ids db db' {cs} h =
    let wanted = λ (tc : TicketCategory).
      (tc.concert_id == concert_id)
      && includes ids tc.id
      && is_some (find_by (λ (i : Inventory). i.ticket_category_id) tc.id db.inventories) in
    let is : map pricing_row
          (sort_by (λ (a b : TicketCategory). leb a.id b.id) (select wanted db.ticket_categories))
        ≡ cs =
      ground arith in
    subst (All (IsOf concert_id db.ticket_categories)) is (
      map-IsOf concert_id db.ticket_categories _ (
        All-sort_by _ (λ (a b : TicketCategory). leb a.id b.id) _
          (All-hit _ wanted db.ticket_categories (
            All-mono
              (λ tc there hit.
                Any-mono (λ x same. rw same (ground arith, refl)) db.ticket_categories there)
              db.ticket_categories (All-self db.ticket_categories)))))

-- The lines of the loop, with their sum.
abbrev pub LinesPriced : List TicketPricingRow → List NormalizedItem → List BookedLine → ℕ → Type 0
LinesPriced categories [] [] sum = sum ≡ 0
LinesPriced categories (q ∷ qs) (l ∷ ls) sum =
    (price : ℕ) × (others : ℕ) × (find_by (λ c. c.id) q.ticket_category_id categories
      ≡ some l.category)
    × (decimal_to_cents l.category.price ≡ some price)
    × (l.quantity ≡ q.quantity)
    × (l.unit_price ≡ cents_to_decimal price)
    × (l.line_total ≡ cents_to_decimal (price * q.quantity))
    × (sum ≡ price * q.quantity + others)
    × LinesPriced categories qs ls others
LinesPriced categories _ _ sum = ⊥

some_inj : {a b : ℕ} → some a ≡ some b → a ≡ b
some_inj h = cc

reserve_item-priced :
    (categories : List TicketPricingRow) (item : NormalizedItem) (db db' : Db)
    {priced : TicketPricingRow × ℕ}
    → reserve_item categories item db ≡ ok (priced, db')
    → (find_by (λ c. c.id) item.ticket_category_id categories ≡ some priced.0)
      × (decimal_to_cents priced.0.price ≡ some priced.1)
unfolding reserve_item
reserve_item-priced categories item db db' {priced} h =
    elim (Option-cases (find_by (λ c. c.id) item.ticket_category_id categories)) [
      | inl missing ↦ absurd (ground arith)
      | inr (category, e) ↦
          go category e (Inventory.reserve item.ticket_category_id item.quantity db) refl
    ]
  where
    go :
        (category : TicketPricingRow)
        → find_by (λ c. c.id) item.ticket_category_id categories ≡ some category
        → (r : Result (Option Inventory × Db))
        → Inventory.reserve item.ticket_category_id item.quantity db ≡ r
        → (find_by (λ c. c.id) item.ticket_category_id categories ≡ some priced.0)
          × (decimal_to_cents priced.0.price ≡ some priced.1)
    go category e (err x) f = absurd (ground arith)
    go category e (ok (none, s)) f = absurd (ground arith)
    go category e (ok (some i, s)) f = elim (Option-cases (decimal_to_cents category.price)) [
      | inl bad ↦ absurd (ground arith)
      | inr (cents, g) ↦ (ground arith, ground arith)
    ]

reserve_items_on-LinesPriced :
    (item_id : ℕ → ℕ) (categories : List TicketPricingRow) (items : List NormalizedItem)
    (n subtotal : ℕ) (db db' : Db) (r : ℕ × List BookedLine)
    → reserve_items item_id categories items n subtotal db ≡ ok (r, db')
    → (sum : ℕ) × LinesPriced categories items r.1 sum × (r.0 ≡ subtotal + sum)
unfolding reserve_items
reserve_items_on-LinesPriced item_id categories [] n subtotal db db' r h =
    let er : (subtotal, []) ≡ r = ground arith in
    subst
      (λ (x : ℕ × List BookedLine).
        (sum : ℕ) × LinesPriced categories [] x.1 sum × (x.0 ≡ subtotal + sum))
      er (0, refl, omega arith)
reserve_items_on-LinesPriced item_id categories (item ∷ items) n subtotal db db' r h =
    let (priced, s, first, later) =
      >>=-eq-ok (reserve_item categories item)
        (λ (priced : TicketPricingRow × ℕ).
          reserve_items item_id categories items (n + 1) (subtotal + priced.1 * item.quantity)
          >>= λ rest.
              pure (rest.0, booked_line (item_id n) priced.0 item.quantity priced.1 ∷ rest.1))
        db h in
    let (rest, s', second, last) =
      >>=-eq-ok
        (reserve_items item_id categories items (n + 1) (subtotal + priced.1 * item.quantity))
        (λ (rest : ℕ × List BookedLine).
          pure (rest.0, booked_line (item_id n) priced.0 item.quantity priced.1 ∷ rest.1))
        s later in
    let (found, price) = reserve_item-priced categories item db s first in
    let (others, lines, total) =
      reserve_items_on-LinesPriced item_id categories items (n + 1)
        (subtotal + priced.1 * item.quantity) s s' rest second in
    let line = booked_line (item_id n) priced.0 item.quantity priced.1 in
    let er : (rest.0, line ∷ rest.1) ≡ r = ground arith in
    subst
      (λ (x : ℕ × List BookedLine).
        (sum : ℕ) × LinesPriced categories (item ∷ items) x.1 sum × (x.0 ≡ subtotal + sum))
      er
      (
        priced.1 * item.quantity + others,
        (priced.1, others, found, price, refl, refl, refl, refl, lines),
        omega (arith, total),
      )

-- The loop from its start: the subtotal is the sum.
pub reserve_items-LinesPriced :
    (item_id : ℕ → ℕ) (categories : List TicketPricingRow) (items : List NormalizedItem)
    (db db' : Db) (r : ℕ × List BookedLine)
    → reserve_items item_id categories items 0 0 db ≡ ok (r, db')
    → LinesPriced categories items r.1 r.0
reserve_items-LinesPriced item_id categories items db db' r h =
    let (sum, priced, total) =
      reserve_items_on-LinesPriced item_id categories items 0 0 db db' r h in
    let same : sum ≡ r.0 = omega (arith, total) in
    subst (LinesPriced categories items r.1) same priced

module _ (booking_id concert_id : ℕ) (stored : List TicketCategory)
    (categories : List TicketPricingRow) (known : All (IsOf concert_id stored) categories) where
  stored_price :
      (k : ℕ) (row : TicketPricingRow) (price : ℕ)
      → find_by (λ c. c.id) k categories ≡ some row
      → decimal_to_cents row.price ≡ some price
      → Any (λ tc. (tc.id ≡ k) × (tc.concert_id ≡ concert_id) × (tc.price ≡ price)) stored
  stored_price k row price found says =
      let key = find_by_key (λ (c : TicketPricingRow). c.id) k categories found in
      Any-mono
        (λ tc is.
          let id : row.id ≡ tc.id = ap (λ (x : TicketPricingRow). x.id) is.1 in
          let text : row.price ≡ cents_to_decimal tc.price =
            ap (λ (x : TicketPricingRow). x.price) is.1 in
          let cents : some tc.price ≡ some price =
            sym (decimal_to_cents-cents_to_decimal tc.price)
            ∙ ap decimal_to_cents (sym text)
            ∙ says in
          (sym id ∙ key, is.0, some_inj cents))
        stored (All-found (IsOf concert_id stored) (λ c. c.id) k categories known found)

  pub LinesPriced-ItemsSold :
      (items : List NormalizedItem) (lines : List BookedLine) (sum : ℕ)
      (before after : List BookingItem)
      → LinesPriced categories items lines sum
      → ItemsStored (map (line_input booking_id) lines) before after
      → ItemsSold booking_id concert_id stored items (map line_response lines) sum before after
  LinesPriced-ItemsSold [] [] sum before after p s = (p, s)
  LinesPriced-ItemsSold [] (l ∷ lines) sum before after p s = absurd p
  LinesPriced-ItemsSold (q ∷ items) [] sum before after p s = absurd p
  LinesPriced-ItemsSold (q ∷ items) (l ∷ lines) sum before after p s =
      let (price, others, found, says, quantity, unit, line, adds, rest) = p in
      let (u, v, text, times, later) = s in
      let key : l.category.id ≡ q.ticket_category_id =
        find_by_key (λ (c : TicketPricingRow). c.id) q.ticket_category_id categories found in
      let unit_says = ap decimal_to_cents unit ∙ decimal_to_cents-cents_to_decimal price in
      let is_price : u ≡ price = some_inj (sym text ∙ unit_says) in
      let is_total : v ≡ price * q.quantity =
        times ∙ ap (λ x. x * l.quantity) is_price ∙ ap (λ x. price * x) quantity in
      (
        price,
        others,
        stored_price q.ticket_category_id l.category price found says,
        key,
        quantity,
        unit_says,
        ap decimal_to_cents line ∙ decimal_to_cents-cents_to_decimal (price * q.quantity),
        adds,
        LinesPriced-ItemsSold items lines others _ after rest (
            subst
              (λ (row : BookingItem).
                ItemsStored (map (line_input booking_id) lines) (row ∷ before) after)
              (row_is l q price u v key quantity is_price is_total) later),
      )
    where
      row_is :
          (l : BookedLine) (q : NormalizedItem) (price u v : ℕ)
          → l.category.id ≡ q.ticket_category_id
          → l.quantity ≡ q.quantity
          → u ≡ price
          → v ≡ price * q.quantity
          → item_row (line_input booking_id l) u v ≡ record {
            id = l.item_id;
            booking_id = booking_id;
            ticket_category_id = q.ticket_category_id;
            quantity = q.quantity;
            unit_price = price;
            line_total = price * q.quantity;
          }
      row_is l q price u v key quantity is_price is_total =
          rw (key, quantity, is_price, is_total) refl
