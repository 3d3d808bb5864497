-- ===== src/Booking/Selling.antt =====
-- A booking from its concert to its rows: the whole of the work that follows the claim of the key.
use mathlib.Core.Path.{subst}
use geek_interview.Base.{
  ℕ, ◌≤◌, ◌≡◌, refl, sym, ap, ◌∙◌, true, false, ◌||◌, Option, none, some, List, arith, leb, ◌==◌,
  inl, inr, Option-cases, All, All-mono, Any, ◌⊎◌, ◌<◌,
}
use geek_interview.Errors.{Result, ok, err, plain, invalid_money}
use geek_interview.Tables.{find, update_where}
use geek_interview.Tables.Members.{Any-mono, find-some-Any}
use geek_interview.Domain.{ConcertStatus, draft, published, archived}
use geek_interview.Store.{Db, BookingResponse, Concert, Voucher, ◌>>=◌, >>=-eq-ok, pure, or_throw}
use geek_interview.Inventory.{TicketPricingRow, find_categories_for_concert}
use geek_interview.Inventory.Stock.{held}
use geek_interview.Voucher.Reservation.{ReservedVoucherRow, is_usable, use_voucher}
use geek_interview.Voucher.Discount.{
  VoucherDiscountInput, calculate_voucher_discount_cents, calculate_voucher_discount_cents-le,
}
use geek_interview.Voucher.Quota.{QuotaInv}
use geek_interview.Voucher.Granting.{reserve-Granted, granted_QuotaInv, granted_known}
use geek_interview.Booking.Request.{NormalizedItem}
use geek_interview.Booking.Stock.{live_in}
use geek_interview.Booking.Invariant.{Inv}
use geek_interview.Booking.Reserving.{ItemsReserved, reserve_items-ItemsReserved}
use geek_interview.Booking.Sold.{
  ItemsSold, IsOf, LinesPriced, find_categories-IsOf, reserve_items-LinesPriced,
  LinesPriced-ItemsSold,
}
use geek_interview.Booking.Create.{
  BookedLine, Draw, rethrow, is_published, find_bookable_concert, find_categories,
  find_by_identifier, reserve_voucher, apply_voucher, category_ids, reserve_items, write_booking,
  book,
}
use geek_interview.Booking.Creating.{IsFresh, pending_of, IsKnownVoucher}
use geek_interview.Booking.Booked.{KeepsKeys, Written, write_booking-Written}

-- The look-ups change nothing, and the concert that is found is PUBLISHED and lies ahead.
pub find_bookable_concert-eq-ok :
    (now identifier : ℕ) (db db' : Db) {c : Concert}
    → find_bookable_concert now identifier db ≡ ok (c, db')
    → (db' ≡ db) × (is_published c.status ≡ true) × (leb c.starts_at now ≡ false)
unfolding find_bookable_concert find_by_identifier
find_bookable_concert-eq-ok now identifier db db' {c} h =
    elim (Option-cases (find (λ c. (c.slug == identifier) || (c.id == identifier)) db.concerts)) [
      | inl e ↦ absurd (ground arith)
      | inr (x, e) ↦ (ground arith, ground arith, ground arith)
    ]

find_categories-eq-ok :
    (concert_id : ℕ) (ids : List ℕ) (db db' : Db) {cs : List TicketPricingRow}
    → find_categories concert_id ids db ≡ ok (cs, db')
    → db' ≡ db
unfolding find_categories find_categories_for_concert
find_categories-eq-ok concert_id ids db db' {cs} h = ground arith

rethrow-eq-ok : {A : Type 0} (r : Result (A × Db)) {a : A × Db} → rethrow r ≡ ok a → r ≡ ok a
rethrow-eq-ok (ok r) h = h
rethrow-eq-ok (err e) h = cc

abbrev input_of : ReservedVoucherRow → VoucherDiscountInput
input_of v = record { discount_type = v.discount_type; discount_value = v.discount_value }

-- What the voucher's part of the transaction has done.
record VoucherApplied (subtotal : ℕ) (db : Db) (r : ℕ × Option ReservedVoucherRow) (db' : Db)
    : Type 0 where
  vouchers : List Voucher
  state : db' ≡ record db { vouchers = vouchers }
  quota : QuotaInv vouchers db.redemptions (pending_of r.1)
  known : IsKnownVoucher vouchers r.1
  within : r.0 ≤ subtotal

apply_voucher-VoucherApplied :
    (d : Draw) (code : Option ℕ) (user_id concert_id : ℕ) (ids : List ℕ) (subtotal : ℕ)
    (db db' : Db) {r : ℕ × Option ReservedVoucherRow}
    → QuotaInv db.vouchers db.redemptions (λ _. 0)
    → apply_voucher d code user_id concert_id ids subtotal db ≡ ok (r, db')
    → VoucherApplied subtotal db r db'
unfolding apply_voucher reserve_voucher
apply_voucher-VoucherApplied d none user_id concert_id ids subtotal db db' {r} q h =
    let er : (0, none) ≡ r = ground arith in
    subst (λ (x : ℕ × Option ReservedVoucherRow). VoucherApplied subtotal db x db') er
      (record {
        vouchers = db.vouchers;
        state = ground arith;
        quota = q;
        known = tt;
        within = omega arith;
      })
apply_voucher-VoucherApplied d (some code) user_id concert_id ids subtotal db db' {r} q h =
    let (v, s, e, rest) =
      >>=-eq-ok (reserve_voucher d code user_id concert_id ids)
        (λ v.
          or_throw
            (calculate_voucher_discount_cents subtotal
              (record { discount_type = v.discount_type; discount_value = v.discount_value }))
            (plain invalid_money)
          >>= λ discount. pure (discount, some v))
        db h in
    let g =
      reserve-Granted d.db_now d.voucher_date d.voucher_later code user_id concert_id ids db s
        (rethrow-eq-ok _ e) in
    elim (Option-cases (calculate_voucher_discount_cents subtotal (input_of v))) [
      | inl bad ↦ absurd (ground arith)
      | inr (n, f) ↦
          let er : (n, some v) ≡ r = ground arith in
          let same : s ≡ db' = ground arith in
          let rows = update_where (is_usable g.id d.db_now) use_voucher db.vouchers in
          let quota : QuotaInv rows db.redemptions (pending_of (some v)) =
            subst (λ (x : ReservedVoucherRow). QuotaInv rows db.redemptions (pending_of (some x)))
              (sym g.row) (granted_QuotaInv db.vouchers db.redemptions q g.id d.db_now g.usable) in
          let known : IsKnownVoucher rows (some v) =
            subst (λ (x : ReservedVoucherRow). IsKnownVoucher rows (some x)) (sym g.row)
              (granted_known db.vouchers db.redemptions q g.id d.db_now g.usable) in
          subst (λ (x : ℕ × Option ReservedVoucherRow). VoucherApplied subtotal db x db') er
            (record {
              vouchers = rows;
              state = sym same ∙ g.state;
              quota = quota;
              known = known;
              within = calculate_voucher_discount_cents-le subtotal (input_of v) f;
            })
    ]

-- A concert with an id that goes by an identifier, is PUBLISHED and starts in the future
abbrev pub IsOnSale : ℕ → ℕ → ℕ → Concert → Type 0
IsOnSale now identifier id c =
    (c.id ≡ id)
    × ((c.slug ≡ identifier) ⊎ (c.id ≡ identifier))
    × (c.status ≡ published)
    × (now < c.starts_at)

is_published-published : (s : ConcertStatus) → is_published s ≡ true → s ≡ published
is_published-published draft h = cc
is_published-published published h = refl
is_published-published archived h = cc

find_bookable_concert-IsOnSale :
    (now identifier : ℕ) (db db' : Db) {c : Concert}
    → find_bookable_concert now identifier db ≡ ok (c, db')
    → Any (IsOnSale now identifier c.id) db.concerts
unfolding find_bookable_concert find_by_identifier
find_bookable_concert-IsOnSale now identifier db db' {c} h =
    elim (Option-cases (find (λ c. (c.slug == identifier) || (c.id == identifier)) db.concerts)) [
      | inl e ↦ absurd (ground arith)
      | inr (x, e) ↦
          let same : x ≡ c = ground arith in
          let on : is_published x.status ≡ true = ground arith in
          let ahead : leb x.starts_at now ≡ false = ground arith in
          let starts : now < x.starts_at = ground arith in
          Any-mono
            (λ y is. (
              rw (is.0, same) refl,
              named identifier y is.1,
              rw is.0 (is_published-published x.status on),
              rw is.0 starts,
            ))
            db.concerts (find-some-Any _ db.concerts e)
    ]
  where
    named :
        (identifier : ℕ) (y : Concert)
        → ((y.slug == identifier) || (y.id == identifier)) ≡ true
        → (y.slug ≡ identifier) ⊎ (y.id ≡ identifier)
    named identifier y h = ground arith

-- What a booking of items that goes through has done: its concert is on sale, the items are sold at the stored prices, and the
-- rows are written with the subtotal that they sum to.
pub record Booked (d : Draw) (user_id concert_identifier : ℕ) (items : List NormalizedItem)
    (db : Db) (response : BookingResponse) (db' : Db) : Type 0 where
  pub on_sale : Any (IsOnSale d.date_now concert_identifier response.concert.id) db.concerts
  pub subtotal : ℕ
  pub discount : ℕ
  pub mid : Db
  pub sold :
      ItemsSold d.booking_id response.concert.id db.ticket_categories items response.items subtotal
        db.booking_items db'.booking_items
  pub within : discount ≤ subtotal
  pub before : mid.bookings ≡ db.bookings
  pub keys : KeepsKeys db mid
  pub written : Written d user_id subtotal discount mid response db'

module _ (d : Draw) (user_id : ℕ) (db : Db) (inv : Inv db)
    (fresh : IsFresh d.booking_id d.booking_code db.bookings) where
  -- From the reserved items on.
  price-Booked :
      (concert_identifier : ℕ) (concert : Concert) (items_wanted : List NormalizedItem)
      (categories : List TicketPricingRow) (code : Option ℕ) (r : ℕ × List BookedLine) (s db' : Db)
      {response : BookingResponse}
      → Any (IsOnSale d.date_now concert_identifier concert.id) db.concerts
      → All (IsOf concert.id db.ticket_categories) categories
      → LinesPriced categories items_wanted r.1 r.0
      → ItemsReserved (λ c. held (live_in db.bookings) c db.booking_items) db r s
      → (apply_voucher d code user_id concert.id (category_ids items_wanted) r.0 >>= λ discount.
            write_booking d user_id concert r.0 r.1 discount.0 discount.1)
          s
        ≡ ok (response, db')
      → Booked d user_id concert_identifier items_wanted db response db'
  price-Booked concert_identifier concert items_wanted categories code r s db' {response} sale
        origin priced items h =
      let ids = category_ids items_wanted in
      let start = record db { inventories = items.rows } in
      let (v, s', e, rest) =
        >>=-eq-ok (apply_voucher d code user_id concert.id ids r.0)
          (λ (discount : ℕ × Option ReservedVoucherRow).
            write_booking d user_id concert r.0 r.1 discount.0 discount.1)
          start
          (ap
              (apply_voucher d code user_id concert.id ids r.0 >>= λ discount.
                write_booking d user_id concert r.0 r.1 discount.0 discount.1)
              (sym items.state)
            ∙ h) in
      let a = apply_voucher-VoucherApplied d code user_id concert.id ids r.0 start s' inv.quota e in
      let mid = record start { vouchers = a.vouchers } in
      let (written, details) =
        write_booking-Written d user_id concert r.0 r.1 v.0 v.1 mid db'
          (record {
            identified = inv.stock.identified;
            unique = items.unique;
            known =
                All-mono (λ i k. items.kept i.ticket_category_id k) db.booking_items
                  inv.stock.known;
            owned = inv.stock.owned;
            stocked = items.stocked;
            lines_known = items.known;
            quota = a.quota;
            voucher_known = a.known;
          })
          fresh (ap (write_booking d user_id concert r.0 r.1 v.0 v.1) (sym a.state) ∙ rest) in
      record {
        subtotal = r.0;
        discount = v.0;
        mid = mid;
        on_sale = rw details.at_concert sale;
        sold =
            rw (details.shown, details.at_concert)
              (LinesPriced-ItemsSold d.booking_id concert.id db.ticket_categories categories origin
                items_wanted r.1 r.0 db.booking_items db'.booking_items priced details.stored);
        within = a.within;
        before = refl;
        keys = (refl, refl);
        written = written;
      }

  -- In a database with the invariant, with fresh identifiers, a booking that goes through keeps the
  -- invariant; its concert goes by the identifier, is PUBLISHED and starts in the future; it sells the
  -- items of the request, each answered and written with its category and
  -- quantity at the price that a category of the concert has in the table; its subtotal is the sum of
  -- price times quantity over them, its discount is at most the subtotal, and its response tells the
  -- amounts of the RESERVED row that is new, which add up.
  pub book-Booked :
      (concert_identifier : ℕ) (items : List NormalizedItem) (code : Option ℕ) (db' : Db)
      {response : BookingResponse}
      → book d user_id concert_identifier items code db ≡ ok (response, db')
      → Booked d user_id concert_identifier items db response db'
  unfolding book
  book-Booked concert_identifier items code db' {response} h =
      let (concert, s1, e1, h1) =
        >>=-eq-ok (find_bookable_concert d.date_now concert_identifier) _ db h in
      let same1 = (find_bookable_concert-eq-ok d.date_now concert_identifier db s1 e1).0 in
      let (categories, s2, e2, h2) =
        >>=-eq-ok (find_categories concert.id (category_ids items)) _ s1 h1 in
      let same2 = find_categories-eq-ok concert.id (category_ids items) s1 s2 e2 ∙ same1 in
      let (r, s3, e3, h3) = >>=-eq-ok (reserve_items d.item_id categories items 0 0) _ s2 h2 in
      let r_run = ap (reserve_items d.item_id categories items 0 0) (sym same2) ∙ e3 in
      price-Booked concert_identifier concert items categories code r s3 db'
        (find_bookable_concert-IsOnSale d.date_now concert_identifier db s1 e1)
        (find_categories-IsOf concert.id (category_ids items) db s2
          (ap (find_categories concert.id (category_ids items)) (sym same1) ∙ e2))
        (reserve_items-LinesPriced d.item_id categories items db s3 r r_run)
        (reserve_items-ItemsReserved d.item_id categories items 0 0
          (λ c. held (live_in db.bookings) c db.booking_items) db s3 r inv.stock.unique
          inv.stock.stocked r_run)
        h3
