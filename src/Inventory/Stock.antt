-- ===== src/Inventory/Stock.antt =====
-- How much of each category is taken: the stock's invariant, on the rows of `ticket_inventories`.
use geek_interview.Base.{
  ℕ, ◌+◌, ◌≡◌, refl, Bool, true, false, some, List, [], ◌∷◌, All, arith, ◌==◌, if◌then◌else◌, inl,
  inr, Bool-cases,
}
use geek_interview.Tables.{select, find_by, insert_by, sort_by, All-select, All-sort_by}
use geek_interview.Store.{Inventory, BookingItem}
use geek_interview.Inventory.{category_order, items_of}

abbrev pub category_of : Inventory → ℕ
category_of i = i.ticket_category_id

-- In every row the available quantity and what is needed elsewhere make up the total.
abbrev pub Stocked : List Inventory → (ℕ → ℕ) → Type 0
Stocked invs need =
    (c : ℕ) (i : Inventory)
    → find_by category_of c invs ≡ some i
    → i.available_quantity + need c ≡ i.total_quantity

-- `quantity` if the categories agree.
abbrev pub at_category : ℕ → ℕ → ℕ → ℕ
at_category category_id quantity c = if category_id == c then quantity else 0

-- The quantity of a category on a list of lines.
abbrev pub lines_total : ℕ → List BookingItem → ℕ
lines_total c [] = 0
lines_total c (i ∷ items) = at_category i.ticket_category_id i.quantity c + lines_total c items

-- The quantity of a category on the lines of the bookings that are live.
abbrev pub held : (ℕ → Bool) → ℕ → List BookingItem → ℕ
held live c [] = 0
held live c (i ∷ items) =
    (if live i.booking_id then at_category i.ticket_category_id i.quantity c else 0)
    + held live c items

lines_total-insert_by :
    (c : ℕ) (i : BookingItem) (items : List BookingItem)
    → lines_total c (insert_by category_order i items)
      ≡ at_category i.ticket_category_id i.quantity c + lines_total c items
unfolding insert_by
lines_total-insert_by c i [] = refl
lines_total-insert_by c i (x ∷ items) = elim (Bool-cases (category_order i x)) [
  | inl before ↦ rw before
  | inr after ↦ rw after (omega (arith, lines_total-insert_by c i items))
]

lines_total-sort_by :
    (c : ℕ) (items : List BookingItem)
    → lines_total c (sort_by category_order items) ≡ lines_total c items
unfolding sort_by
lines_total-sort_by c [] = refl
lines_total-sort_by c (i ∷ items) =
    omega
      (arith, lines_total-insert_by c i (sort_by category_order items), lines_total-sort_by c items)

abbrev lines_of : ℕ → List BookingItem → List BookingItem
lines_of booking_id = select λ i. i.booking_id == booking_id

held-drop_lines :
    (live live' : ℕ → Bool) (booking_id c : ℕ) (items : List BookingItem)
    → live booking_id ≡ true
    → ((j : ℕ) → live' j ≡ (if j == booking_id then false else live j))
    → held live c items ≡ held live' c items + lines_total c (lines_of booking_id items)
unfolding select
held-drop_lines live live' booking_id c [] on off = refl
held-drop_lines live live' booking_id c (i ∷ items) on off =
    elim (Bool-cases (i.booking_id == booking_id)) [
      | inl same ↦
          let e : i.booking_id ≡ booking_id = ground arith in
          let h : live i.booking_id ≡ true = rw e on in
          rw (same, h, off i.booking_id, same)
            (omega (arith, held-drop_lines live live' booking_id c items on off))
      | inr other ↦
          rw (other, off i.booking_id, other)
            (omega (arith, held-drop_lines live live' booking_id c items on off))
    ]

-- A live booking that ends sets its lines free, and no other.
pub held-drop :
    (live live' : ℕ → Bool) (booking_id c : ℕ) (items : List BookingItem)
    → live booking_id ≡ true
    → ((j : ℕ) → live' j ≡ (if j == booking_id then false else live j))
    → held live c items ≡ held live' c items + lines_total c (items_of booking_id items)
unfolding items_of
held-drop live live' booking_id c items on off =
    rw (lines_total-sort_by c (lines_of booking_id items))
      (held-drop_lines live live' booking_id c items on off)

pub All-items_of {κ} :
    (P : BookingItem → Type κ) (booking_id : ℕ) (items : List BookingItem)
    → All P items
    → All P (items_of booking_id items)
unfolding items_of
All-items_of P booking_id items h =
    All-sort_by P category_order (lines_of booking_id items)
      (All-select P (λ i. i.booking_id == booking_id) items h)

-- Bookings that differ on no item's booking hold the same.
pub held-ext :
    (live live' : ℕ → Bool) (c : ℕ) (items : List BookingItem)
    → ((j : ℕ) → live' j ≡ live j)
    → held live' c items ≡ held live c items
held-ext live live' c [] same = refl
held-ext live live' c (i ∷ items) same =
    rw (same i.booking_id) (omega (arith, held-ext live live' c items same))
