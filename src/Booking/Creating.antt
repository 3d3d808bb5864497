-- ===== src/Booking/Creating.antt =====
-- The creation of a booking keeps the invariant.
use geek_interview.Base.{
  ℕ, ◌+◌, ◌≡◌, ◌≢◌, refl, sym, ap, ◌∙◌, Bool, true, ◌||◌, Option, none, some, List, [], ◌∷◌, All,
  All-mono, arith, ◌==◌, ==→eq, if◌then◌else◌, inl, inr, Bool-cases, Option-cases, map,
}
use geek_interview.Errors.{ok}
use geek_interview.Tables.{find, find_by, IsUnique, find_by_key, find-none}
use geek_interview.Store.{Db, Booking, BookingItem, Voucher, Redemption, matches_identifier}
use geek_interview.Inventory.Stock.{category_of, Stocked, held}
use geek_interview.Voucher.Reservation.{ReservedVoucherRow}
use geek_interview.Voucher.Quota.{QuotaInv, voucher_key, one_if}
use geek_interview.Voucher.Granting.{insert_redemption-QuotaInv}
use geek_interview.Booking.Write.{is_same_booking}
use geek_interview.Booking.Writing.{inputs_total}
use geek_interview.Booking.Stock.{Identified, id_of, is_live, live_in}
use geek_interview.Booking.Reserving.{lines_quantity}
use geek_interview.Booking.Create.{BookedLine, line_input, redeem}

-- A new id is no stored booking code and a new code no stored id: codes begin with `BK-`, ids are UUIDs.
abbrev pub is_crossed : ℕ → ℕ → Booking → Bool
is_crossed id booking_code b = (b.booking_code == id) || (b.id == booking_code)

abbrev pub IsFresh : ℕ → ℕ → List Booking → Type 0
IsFresh id booking_code bs = find (is_crossed id booking_code) bs ≡ none

module _ (bs : List Booking) (ids : Identified bs) (row : Booking)
    (no_clash : find (is_same_booking row.id row.booking_code) bs ≡ none)
    (fresh : IsFresh row.id row.booking_code bs) where
  -- The other bookings have other ids and codes.
  unlike :
      (i k : ℕ) (y : Booking)
      → find_by id_of k bs ≡ some y
      → matches_identifier i row ≡ true
      → matches_identifier i y ≡ true
      → ⊥
  unlike i k y e mr my =
      let a = find-none (is_same_booking row.id row.booking_code) id_of k bs no_clash e in
      let b = find-none (is_crossed row.id row.booking_code) id_of k bs fresh e in ground arith

  new_id : find_by id_of row.id bs ≡ none
  new_id = elim (Option-cases (find_by id_of row.id bs)) [
    | inl e ↦ e
    | inr (y, e) ↦
        let key : y.id ≡ row.id = find_by_key id_of row.id bs e in
        absurd (unlike row.id row.id y e (ground arith) (ground arith))
  ]

  pub Identified-cons : Identified (row ∷ bs)
  unfolding find_by
  Identified-cons = record {
    unique = (new_id, ids.unique);
    one = λ i j k x y ex ey mx my. elim (Bool-cases (row.id == j)) [
      | inl hx ↦ elim (Bool-cases (row.id == k)) [
        | inl hy ↦
            let rx : row ≡ x = ground arith in
            let ry : row ≡ y = ground arith in ap id_of (sym rx ∙ ry)
        | inr ny ↦
            let rx : row ≡ x = ground arith in
            absurd (unlike i k y (ground arith) (ap (matches_identifier i) rx ∙ mx) my)
      ]
      | inr nx ↦ elim (Bool-cases (row.id == k)) [
        | inl hy ↦
            let ry : row ≡ y = ground arith in
            absurd (unlike i j x (ground arith) (ap (matches_identifier i) ry ∙ my) mx)
        | inr ny ↦ ids.one i j k x y (ground arith) (ground arith) mx my
      ]
    ];
  }

  pub live_in-cons :
      (j : ℕ) → live_in (row ∷ bs) j ≡ (if row.id == j then is_live row.status else live_in bs j)
  unfolding find_by
  live_in-cons j = ground arith

  -- The items of the other bookings are held as before.
  pub held-cons :
      (c : ℕ) (items : List BookingItem)
      → All (λ i. find_by id_of i.booking_id bs ≢ none) items
      → held (live_in (row ∷ bs)) c items ≡ held (live_in bs) c items
  held-cons c [] h = refl
  held-cons c (i ∷ items) h = elim (Bool-cases (row.id == i.booking_id)) [
    | inl same ↦ absurd (h.0 (rw (← ==→eq _ _ same) new_id))
    | inr other ↦ rw (live_in-cons i.booking_id, other) (omega (arith, held-cons c items h.1))
  ]

  pub owned-cons :
      (items : List BookingItem)
      → All (λ i. find_by id_of i.booking_id bs ≢ none) items
      → All (λ i. find_by id_of i.booking_id (row ∷ bs) ≢ none) items
  unfolding find_by
  owned-cons items =
      All-mono
        (λ i h. elim (Bool-cases (row.id == i.booking_id)) [
          | inl same ↦ rw same (λ e. cc)
          | inr other ↦ rw other h
        ])
        items

-- The uses that wait for their redemption.
abbrev pub pending_of : Option ReservedVoucherRow → ℕ → ℕ
pending_of none k = 0
pending_of (some v) k = one_if v.id k

abbrev pub IsKnownVoucher : List Voucher → Option ReservedVoucherRow → Type 0
IsKnownVoucher vs none = Unit
IsKnownVoucher vs (some v) = find_by voucher_key v.id vs ≢ none

-- Before the booking is written: its lines are taken from the stock, and its voucher is counted.
pub record Ready (lines : List BookedLine) (voucher : Option ReservedVoucherRow) (db : Db)
    : Type 0 where
  pub identified : Identified db.bookings
  pub unique : IsUnique category_of db.inventories
  pub known :
      All (λ i. find_by category_of i.ticket_category_id db.inventories ≢ none) db.booking_items
  pub owned : All (λ i. find_by id_of i.booking_id db.bookings ≢ none) db.booking_items
  pub stocked :
      Stocked db.inventories
        (λ c. lines_quantity c lines + held (live_in db.bookings) c db.booking_items)
  pub lines_known : All (λ l. find_by category_of l.category.id db.inventories ≢ none) lines
  pub quota : QuotaInv db.vouchers db.redemptions (pending_of voucher)
  pub voucher_known : IsKnownVoucher db.vouchers voucher

pub inputs_total-lines :
    (c booking_id : ℕ) (lines : List BookedLine)
    → inputs_total c (map (line_input booking_id) lines) ≡ lines_quantity c lines
inputs_total-lines c booking_id [] = refl
inputs_total-lines c booking_id (l ∷ lines) = omega (arith, inputs_total-lines c booking_id lines)

pub redeem-QuotaInv :
    (user_id booking_id : ℕ) (voucher : Option ReservedVoucherRow) (db db' : Db)
    → QuotaInv db.vouchers db.redemptions (pending_of voucher)
    → IsKnownVoucher db.vouchers voucher
    → redeem user_id booking_id voucher db ≡ ok (tt, db')
    → (rs : List Redemption) × (db' ≡ record db { redemptions = rs })
      × QuotaInv db.vouchers rs (λ _. 0)
redeem-QuotaInv user_id booking_id none db db' q k h = (db.redemptions, ground arith, q)
redeem-QuotaInv user_id booking_id (some v) db db' q k h =
    insert_redemption-QuotaInv v.id user_id booking_id db db' q k h
