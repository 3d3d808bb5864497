-- ===== src/Booking/Booked.antt =====
-- The transaction of a new booking keeps the invariant.
use mathlib.Core.Path.{subst}
use geek_interview.Voucher.Quota.{QuotaInv}
use geek_interview.Money.{decimal_to_cents}
use geek_interview.Money.RoundTrip.{decimal_to_cents-cents_to_decimal}
use geek_interview.Base.{
  ℕ, ◌+◌, ◌≡◌, ◌≢◌, refl, sym, ap, ◌∙◌, Bool, true, false, Option, none, some, List, [], ◌∷◌, All,
  All-mono, All-both, arith, ltb, map,
}
use geek_interview.Domain.{reserved}
use geek_interview.Errors.{ok, Exn, plain, negative_money}
use geek_interview.Tables.{find, find_by}
use geek_interview.Store.{
  Db, Redemption, StatusChange, Booking, BookingItem, BookingResponse, Concert, ◌>>=◌, ◌>>◌,
  >>=-eq-ok, pure, throw_if, Tx,
}
use geek_interview.Inventory.Stock.{category_of}
use geek_interview.Voucher.Reservation.{ReservedVoucherRow}
use geek_interview.Booking.Write.{
  CreatedBookingRow, is_same_booking, created_entry, booking_row, item_row, insert_booking,
  insert_items, insert_status_history,
}
use geek_interview.Booking.Writing.{
  insert_booking-Inserted, ItemsInserted, ItemsStored, insert_items-ItemsInserted,
}
use geek_interview.Booking.Stock.{id_of, live_in}
use geek_interview.Booking.Invariant.{Inv}
use geek_interview.Booking.Create.{
  BookedLine, Draw, line_input, line_response, redeem, response_of, write_details, booking_input,
  write_booking, reservation_ttl_ms,
}
use geek_interview.Booking.Creating.{
  IsFresh, Ready, Identified-cons, live_in-cons, held-cons, owned-cons, redeem-QuotaInv,
  inputs_total-lines,
}

pub throw_if-eq-ok :
    {A : Type 0} (c : Bool) (e : Exn) (m : Tx A) (db : Db) {r : A × Db}
    → (throw_if c e >> m) db ≡ ok r
    → (c ≡ false) × (m db ≡ ok r)
throw_if-eq-ok true e m db h = cc
throw_if-eq-ok false e m db h = (refl, h)

-- The users and the idempotency keys are as they were.
abbrev pub KeepsKeys : Db → Db → Type 0
KeepsKeys db db' = (db'.users ≡ db.users) × (db'.idempotency_records ≡ db.idempotency_records)

-- The INSERT of the booking is done; `row` is its row.
module _ (d : Draw) (user_id : ℕ) (concert : Concert) (lines : List BookedLine)
    (voucher : Option ReservedVoucherRow) (db : Db) (ready : Ready lines voucher db) (row : Booking)
    (ids : row.id ≡ d.booking_id) (is_new : row.status ≡ reserved)
    (no_clash : find (is_same_booking row.id row.booking_code) db.bookings ≡ none)
    (fresh : IsFresh row.id row.booking_code db.bookings) where
  abbrev with_row : Db
  with_row = record db { bookings = row ∷ db.bookings }

  row_live : live_in (row ∷ db.bookings) d.booking_id ≡ true
  row_live =
      live_in-cons db.bookings ready.identified row no_clash fresh d.booking_id
      ∙ rw (ids, is_new) (ground arith)

  IsPlaced : BookingItem → Type 0
  IsPlaced i =
      (find_by category_of i.ticket_category_id db.inventories ≢ none)
      × (find_by id_of i.booking_id (row ∷ db.bookings) ≢ none)

  row_found : find_by id_of d.booking_id (row ∷ db.bookings) ≢ none
  unfolding find_by
  row_found e = ground arith

  line_inputs :
      (ls : List BookedLine)
      → All (λ l. find_by category_of l.category.id db.inventories ≢ none) ls
      → All
          (λ i.
            (live_in (row ∷ db.bookings) i.booking_id ≡ true)
            × ((u t : ℕ) → IsPlaced (item_row i u t)))
          (map (line_input d.booking_id) ls)
  unfolding IsPlaced
  line_inputs [] h = tt
  line_inputs (l ∷ ls) h = ((row_live, λ u t. (h.0, row_found)), line_inputs ls h.1)

  items-IsPlaced :
      (s : Db)
      → insert_items (map (line_input d.booking_id) lines) with_row ≡ ok (tt, s)
      → ItemsInserted IsPlaced
          (live_in (row ∷ db.bookings))
          (map (line_input d.booking_id) lines)
          with_row
          s
  unfolding IsPlaced
  items-IsPlaced s h =
      insert_items-ItemsInserted IsPlaced (live_in (row ∷ db.bookings))
        (map (line_input d.booking_id) lines) with_row s
        (All-both _ _ db.booking_items ready.known
          (owned-cons db.bookings ready.identified row no_clash fresh db.booking_items ready.owned))
        (line_inputs lines ready.lines_known) h

  placed_Inv :
      {s : Db} (h : List StatusChange) (rs : List Redemption)
      → QuotaInv db.vouchers rs (λ _. 0)
      → (i : ItemsInserted IsPlaced
          (live_in (row ∷ db.bookings))
          (map (line_input d.booking_id) lines)
          with_row
          s)
      → Inv (record with_row { booking_items = i.items; history = h; redemptions = rs })
  unfolding IsPlaced
  placed_Inv h rs q i = record {
    stock = record {
      identified = Identified-cons db.bookings ready.identified row no_clash fresh;
      unique = ready.unique;
      known = All-mono (λ x p. p.0) i.items i.every;
      owned = All-mono (λ x p. p.1) i.items i.every;
      stocked = λ c v e. omega (
        arith,
        i.holds c,
        inputs_total-lines c d.booking_id lines,
        held-cons db.bookings ready.identified row no_clash fresh c db.booking_items ready.owned,
        ready.stocked c v e,
      );
    };
    quota = q;
  }

  -- What the rest of the transaction leaves.
  pub write_details-Inv :
      (crow : CreatedBookingRow) (db' : Db) {response : BookingResponse}
      → write_details d user_id concert lines voucher crow with_row ≡ ok (response, db')
      → Inv db'
        × (response ≡ response_of concert crow lines)
        × (db'.bookings ≡ row ∷ db.bookings)
        × KeepsKeys db db'
        × ItemsStored (map (line_input d.booking_id) lines) db.booking_items db'.booking_items
  unfolding IsPlaced insert_status_history
  write_details-Inv crow db' {response} h =
      let (_, s1, e1, h1) =
        >>=-eq-ok (insert_items (map (line_input d.booking_id) lines))
          (λ _.
            insert_status_history d.booking_id user_id
            >> (redeem user_id d.booking_id voucher >> pure (response_of concert crow lines)))
          with_row h in
      let i = items-IsPlaced s1 e1 in
      let mid = record with_row {
        booking_items = i.items;
        history = created_entry d.booking_id user_id ∷ db.history;
      } in
      let h1' : (redeem user_id d.booking_id voucher >> pure (response_of concert crow lines)) mid
          ≡ ok (response, db') =
        ap
          (λ (s : Db).
            (redeem user_id d.booking_id voucher >> pure (response_of concert crow lines))
              (record s { history = created_entry d.booking_id user_id ∷ s.history }))
          (sym i.state)
        ∙ h1 in
      let (_, s2, e2, h2) =
        >>=-eq-ok (redeem user_id d.booking_id voucher) (λ _. pure (response_of concert crow lines))
          mid h1' in
      let (rs, er, q) =
        redeem-QuotaInv user_id d.booking_id voucher mid s2 ready.quota ready.voucher_known e2 in
      let same : s2 ≡ db' = ground arith in
      let final : record mid { redemptions = rs } ≡ db' = sym er ∙ same in
      (
        subst Inv final (placed_Inv mid.history rs q i),
        ground arith,
        ap (λ (s : Db). s.bookings) (sym final),
        (ap (λ (s : Db). s.users) (sym final), ap (λ (s : Db). s.idempotency_records) (sym final)),
        subst
            (λ (s : Db).
              ItemsStored (map (line_input d.booking_id) lines) db.booking_items s.booking_items)
            final i.stored,
      )

-- A booking that is written: the invariant holds, the amounts of the response add up, and the one row
-- that is new is RESERVED.
pub record Written (d : Draw) (user_id subtotal discount : ℕ) (db : Db) (response : BookingResponse)
    (db' : Db) : Type 0 where
  pub inv : Inv db'
  pub row : Booking
  pub rows : db'.bookings ≡ row ∷ db.bookings
  pub keys : KeepsKeys db db'
  pub named : (row.id ≡ d.booking_id) × (row.user_id ≡ user_id) × (row.status ≡ reserved)
  pub deadline : row.expires_at ≡ d.date_now + reservation_ttl_ms
  pub amounts :
      (row.subtotal ≡ subtotal)
      × (row.discount_amount ≡ discount)
      × (row.final_amount + discount ≡ subtotal)
  pub says_subtotal : decimal_to_cents response.subtotal ≡ some row.subtotal
  pub says_discount : decimal_to_cents response.discount_amount ≡ some row.discount_amount
  pub says_final : decimal_to_cents response.final_amount ≡ some row.final_amount

-- The items that are written, and those that are answered
pub record Detailed (d : Draw) (concert : Concert) (lines : List BookedLine) (db : Db)
    (response : BookingResponse) (db' : Db) : Type 0 where
  pub shown : response.items ≡ map line_response lines
  pub at_concert : response.concert.id ≡ concert.id
  pub stored : ItemsStored (map (line_input d.booking_id) lines) db.booking_items db'.booking_items

pub write_booking-Written :
    (d : Draw) (user_id : ℕ) (concert : Concert) (subtotal : ℕ) (lines : List BookedLine)
    (discount : ℕ) (voucher : Option ReservedVoucherRow) (db db' : Db) {response : BookingResponse}
    → Ready lines voucher db
    → IsFresh d.booking_id d.booking_code db.bookings
    → write_booking d user_id concert subtotal lines discount voucher db ≡ ok (response, db')
    → Written d user_id subtotal discount db response db' × Detailed d concert lines db response db'
unfolding write_booking
write_booking-Written d user_id concert subtotal lines discount voucher db db' {response} ready
      fresh h =
    let input = booking_input d user_id concert subtotal discount in
    let (enough, h1) =
      throw_if-eq-ok (ltb subtotal discount) (plain negative_money)
        (insert_booking d.db_now input >>= write_details d user_id concert lines voucher) db h in
    let (crow, s1, e1, h2) =
      >>=-eq-ok (insert_booking d.db_now input) (write_details d user_id concert lines voucher) db
        h1 in
    let b = insert_booking-Inserted d.db_now input db s1 e1 in
    let row = booking_row input d.db_now b.subtotal b.discount b.final in
    let (inv, says, rows, keys, stored) =
      write_details-Inv d user_id concert lines voucher db ready row refl refl b.no_clash fresh crow
        db' (ap (write_details d user_id concert lines voucher crow) (sym b.state) ∙ h2) in
    let is_subtotal : some b.subtotal ≡ some subtotal =
      sym b.says_subtotal ∙ decimal_to_cents-cents_to_decimal subtotal in
    let is_discount : some b.discount ≡ some discount =
      sym b.says_discount ∙ decimal_to_cents-cents_to_decimal discount in
    let adds = b.adds_up in
    (
      record {
        inv = inv;
        row = row;
        rows = rows;
        keys = keys;
        named = (refl, refl, refl);
        deadline = refl;
        amounts = (ground arith, ground arith, ground arith);
        says_subtotal = rw (says, b.answer) (decimal_to_cents-cents_to_decimal b.subtotal);
        says_discount = rw (says, b.answer) (decimal_to_cents-cents_to_decimal b.discount);
        says_final = rw (says, b.answer) (decimal_to_cents-cents_to_decimal b.final);
      },
      record {
        shown = ap (λ (r : BookingResponse). r.items) says;
        at_concert = ap (λ (r : BookingResponse). r.concert.id) says;
        stored = stored;
      },
    )
