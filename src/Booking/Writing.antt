-- ===== src/Booking/Writing.antt =====
-- What the INSERTs of a booking do to the tables.
use geek_interview.Base.{
  ℕ, ◌+◌, ◌*◌, ◌<◌, ◌≡◌, refl, Bool, true, none, some, List, [], ◌∷◌, All, arith, inl, inr,
  Option-cases,
}
use geek_interview.Errors.{ok}
use geek_interview.Money.{decimal_to_cents}
use geek_interview.Tables.{find}
use geek_interview.Store.{Db, BookingItem, >>=-eq-ok}
use geek_interview.Inventory.Stock.{at_category, held}
use geek_interview.Booking.Write.{
  CreatedBookingRow, InsertBookingInput, CreateBookingItemInput, cast_numeric, booking_row,
  created_row, is_same_booking, item_row, insert_booking, insert_item, insert_items, numeric_limit,
}

-- An amount that the column takes is the amount that the text says.
pub cast_numeric-eq-ok :
    (text : List ℕ) (db db' : Db) {n : ℕ}
    → cast_numeric text db ≡ ok (n, db')
    → (db' ≡ db) × (decimal_to_cents text ≡ some n) × (n < numeric_limit)
unfolding cast_numeric
cast_numeric-eq-ok text db db' {n} h = elim (Option-cases (decimal_to_cents text)) [
  | inl e ↦ absurd (ground arith)
  | inr (m, e) ↦ (ground arith, ground arith, ground arith)
]

-- A booking that is inserted: its amounts add up, and no other booking has its id or its code.
pub record Inserted (now : ℕ) (input : InsertBookingInput) (db : Db) (row : CreatedBookingRow)
    (db' : Db) : Type 0 where
  pub subtotal : ℕ
  pub discount : ℕ
  pub final : ℕ
  pub says_subtotal : decimal_to_cents input.subtotal ≡ some subtotal
  pub says_discount : decimal_to_cents input.discount_amount ≡ some discount
  pub says_final : decimal_to_cents input.final_amount ≡ some final
  pub adds_up : final + discount ≡ subtotal
  pub no_clash : find (is_same_booking input.id input.booking_code) db.bookings ≡ none
  pub answer : row ≡ created_row (booking_row input now subtotal discount final)
  pub state :
      db' ≡ record db { bookings = booking_row input now subtotal discount final ∷ db.bookings }

pub insert_booking-Inserted :
    (now : ℕ) (input : InsertBookingInput) (db db' : Db) {row : CreatedBookingRow}
    → insert_booking now input db ≡ ok (row, db')
    → Inserted now input db row db'
unfolding insert_booking cast_numeric
insert_booking-Inserted now input db db' {row} h =
    elim (Option-cases (decimal_to_cents input.subtotal)) [
      | inl e ↦ absurd (ground arith)
      | inr (s, es) ↦ elim (Option-cases (decimal_to_cents input.discount_amount)) [
        | inl e ↦ absurd (ground arith)
        | inr (d, ed) ↦ elim (Option-cases (decimal_to_cents input.final_amount)) [
          | inl e ↦ absurd (ground arith)
          | inr (f, ef) ↦ record {
            subtotal = s;
            discount = d;
            final = f;
            says_subtotal = es;
            says_discount = ed;
            says_final = ef;
            adds_up = ground arith;
            no_clash = ground arith;
            answer = ground arith;
            state = ground arith;
          }
        ]
      ]
    ]

-- An item that is inserted.
pub insert_item-eq-ok :
    (input : CreateBookingItemInput) (db db' : Db)
    → insert_item input db ≡ ok (tt, db')
    → (unit : ℕ) × (total : ℕ) × (db'
        ≡ record db { booking_items = item_row input unit total ∷ db.booking_items })
      × (decimal_to_cents input.unit_price ≡ some unit)
      × (total ≡ unit * input.quantity)
unfolding insert_item cast_numeric
insert_item-eq-ok input db db' h = elim (Option-cases (decimal_to_cents input.unit_price)) [
  | inl e ↦ absurd (ground arith)
  | inr (u, eu) ↦ elim (Option-cases (decimal_to_cents input.line_total)) [
    | inl e ↦ absurd (ground arith)
    | inr (t, et) ↦ (u, t, ground arith, eu, ground arith)
  ]
]

-- The quantity of a category on the lines that are written.
abbrev pub inputs_total : ℕ → List CreateBookingItemInput → ℕ
inputs_total c [] = 0
inputs_total c (i ∷ inputs) = at_category i.category_id i.quantity c + inputs_total c inputs

-- What the INSERTs of items leave: the row of each input in front of the rows before, with the unit
-- price that its text says and the total of that price and its quantity.
abbrev pub ItemsStored : List CreateBookingItemInput → List BookingItem → List BookingItem → Type 0
ItemsStored [] before after = after ≡ before
ItemsStored (i ∷ inputs) before after =
    (u : ℕ) × (t : ℕ) × (decimal_to_cents i.unit_price ≡ some u)
    × (t ≡ u * i.quantity)
    × ItemsStored inputs (item_row i u t ∷ before) after

-- Whatever holds of the old items and of each new row holds of all items after the INSERTs, and live
-- bookings hold the quantities written more than before.
pub record ItemsInserted (P : BookingItem → Type 0) (live : ℕ → Bool)
    (inputs : List CreateBookingItemInput) (db db' : Db) : Type 0 where
  pub items : List BookingItem
  pub state : db' ≡ record db { booking_items = items }
  pub every : All P items
  pub stored : ItemsStored inputs db.booking_items items
  pub holds : (c : ℕ) → held live c items ≡ inputs_total c inputs + held live c db.booking_items

pub insert_items-ItemsInserted :
    (P : BookingItem → Type 0) (live : ℕ → Bool) (inputs : List CreateBookingItemInput)
    (db db' : Db)
    → All P db.booking_items
    → All (λ i. (live i.booking_id ≡ true) × ((u t : ℕ) → P (item_row i u t))) inputs
    → insert_items inputs db ≡ ok (tt, db')
    → ItemsInserted P live inputs db db'
unfolding insert_items
insert_items-ItemsInserted P live [] db db' old new h = record {
  items = db.booking_items;
  state = ground arith;
  every = old;
  stored = refl;
  holds = λ c. omega arith;
}
insert_items-ItemsInserted P live (i ∷ inputs) db db' old new h =
    let (_, s, first, rest) = >>=-eq-ok (insert_item i) (λ _. insert_items inputs) db h in
    let (u, t, e, says, line) = insert_item-eq-ok i db s first in
    let s' = record db { booking_items = item_row i u t ∷ db.booking_items } in
    let r =
      insert_items-ItemsInserted P live inputs s' db' (new.0.1 u t, old) new.1 (rw (← e) rest) in
    record {
      items = r.items;
      state = r.state;
      every = r.every;
      stored = (u, t, says, line, r.stored);
      holds = λ c. rw (r.holds c, new.0.0) (omega arith);
    }
