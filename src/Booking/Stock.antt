-- ===== src/Booking/Stock.antt =====
-- The invariant that ties the stock to the bookings, and its parts under a change of status.
use geek_interview.Base.{
  ℕ, ◌+◌, ◌≡◌, ◌≢◌, refl, sym, ap, ◌∙◌, Bool, true, false, Option, none, some, List, All, All-mono,
  arith, ◌==◌, ==→eq, if◌then◌else◌, inl, inr, Bool-cases, Option-cases,
}
use geek_interview.Domain.{BookingStatus, reserved, confirmed}
use geek_interview.Errors.{ok}
use geek_interview.Tables.{
  find, find_by, update_where, IsUnique, find_holds, find_by-find, find_by_key,
  find_by-update_where, find_by-update_where-some, find_by-update_where_ne_none,
  update_where-IsUnique,
}
use geek_interview.Store.{Db, Booking, Inventory, matches_identifier}
use geek_interview.Inventory.{items_of, release_for_booking}
use geek_interview.Inventory.Stock.{
  category_of, Stocked, lines_total, held, held-drop, held-ext, All-items_of,
}
use geek_interview.Inventory.Releasing.{release_for_booking_total}
use geek_interview.Booking.Transitions.{set_status}

abbrev pub id_of : Booking → ℕ
id_of b = b.id

-- A live booking holds its tickets.
abbrev pub is_live : BookingStatus → Bool
is_live reserved = true
is_live confirmed = true
is_live _ = false

abbrev pub is_live_row : Option Booking → Bool
is_live_row none = false
is_live_row (some b) = is_live b.status

abbrev pub live_in : List Booking → ℕ → Bool
live_in bs j = is_live_row (find_by id_of j bs)

-- Ids are unique, and an identifier names one booking, by its id or by its code.
pub record Identified (bs : List Booking) : Type 0 where
  pub unique : IsUnique id_of bs
  pub one :
      (identifier j k : ℕ) (x y : Booking)
      → find_by id_of j bs ≡ some x
      → find_by id_of k bs ≡ some y
      → matches_identifier identifier x ≡ true
      → matches_identifier identifier y ≡ true
      → x.id ≡ y.id

-- The tickets of a category that are available and those that live bookings hold make up its total.
pub record StockInv (db : Db) : Type 0 where
  pub identified : Identified db.bookings
  pub unique : IsUnique category_of db.inventories
  pub known :
      All (λ i. find_by category_of i.ticket_category_id db.inventories ≢ none) db.booking_items
  pub owned : All (λ i. find_by id_of i.booking_id db.bookings ≢ none) db.booking_items
  pub stocked : Stocked db.inventories (λ c. held (live_in db.bookings) c db.booking_items)

module _ (bs : List Booking) (ids : Identified bs) (identifier : ℕ) (p : Booking → Bool)
    (named : (b : Booking) → p b ≡ true → matches_identifier identifier b ≡ true)
    (status : BookingStatus) (now : ℕ) {b : Booking} (hit : find p bs ≡ some b) where
  abbrev after_rows : List Booking
  after_rows = update_where p (set_status status now) bs

  same_id : (x : Booking) → id_of (set_status status now x) ≡ id_of x
  same_id x = refl

  -- The row that the UPDATE finds stands under its id.
  pub found_row : find_by id_of b.id bs ≡ some b
  found_row = find_by-find id_of p bs ids.unique hit

  only_row : (j : ℕ) (x : Booking) → find_by id_of j bs ≡ some x → p x ≡ true → j ≡ b.id
  only_row j x e h =
      sym (find_by_key id_of j bs e)
      ∙ ids.one identifier j b.id x b e found_row (named x h) (named b (find_holds p bs hit))

  -- Only the booking that is named changes its status.
  pub live_in-update :
      (j : ℕ) → live_in after_rows j ≡ (if j == b.id then is_live status else live_in bs j)
  live_in-update j =
      rw (find_by-update_where id_of p (set_status status now) same_id j bs)
        (elim (Bool-cases (j == b.id)) [
          | inl same ↦
              let e : find_by id_of j bs ≡ some b = rw (==→eq _ _ same) found_row in
              rw (e, find_holds p bs hit, same)
          | inr other ↦ rw other (elim (Option-cases (find_by id_of j bs)) [
            | inl gone ↦ rw gone
            | inr (x, e) ↦ elim (Bool-cases (p x)) [
              | inl h ↦ let only = only_row j x e h in absurd (ground arith)
              | inr miss ↦ rw (e, miss)
            ]
          ])
        ])

  -- A row's id and code stay as they were.
  origin :
      (k : ℕ) (x : Booking)
      → find_by id_of k after_rows ≡ some x
      → (a : Booking) × (find_by id_of k bs ≡ some a)
        × (x.id ≡ a.id)
        × ((i : ℕ) → matches_identifier i x ≡ true → matches_identifier i a ≡ true)
  origin k x e =
      let (a, found, becomes) =
        find_by-update_where-some id_of p (set_status status now) same_id k bs e in
      elim (Bool-cases (p a)) [
        | inl h ↦
            let e' : x ≡ set_status status now a = becomes ∙ rw h in
            (a, found, ap id_of e', λ i m. (ap (matches_identifier i) (sym e') ∙ m))
        | inr h ↦
            let e' : x ≡ a = becomes ∙ rw h in
            (a, found, ap id_of e', λ i m. (ap (matches_identifier i) (sym e') ∙ m))
      ]

  pub Identified-update : Identified after_rows
  Identified-update = record {
    unique = update_where-IsUnique id_of p (set_status status now) same_id bs ids.unique;
    one = λ i j k x y ex ey mx my.
        let (a, ea, ia, ma) = origin j x ex in
        let (c, ec, ic, mc) = origin k y ey in
        ia ∙ ids.one i j k a c ea ec (ma i mx) (mc i my) ∙ sym ic;
  }

-- The stock's invariant after a booking that is named and live has got another status, `rows` being
-- what the inventory then is: an update to a live status leaves it alone.
module _ (db : Db) (inv : StockInv db) (identifier : ℕ) (p : Booking → Bool)
    (named : (b : Booking) → p b ≡ true → matches_identifier identifier b ≡ true)
    (status : BookingStatus) (now : ℕ) {b : Booking} (hit : find p db.bookings ≡ some b)
    (was_live : is_live b.status ≡ true) where
  abbrev pub changed : Db
  changed = record db { bookings = update_where p (set_status status now) db.bookings }

  owned_after : All (λ i. find_by id_of i.booking_id changed.bookings ≢ none) db.booking_items
  owned_after =
      All-mono
        (λ i.
          find_by-update_where_ne_none id_of p (set_status status now) (λ x. refl) i.booking_id
            db.bookings)
        db.booking_items inv.owned

  live_before : live_in db.bookings b.id ≡ true
  live_before = rw (found_row db.bookings inv.identified identifier p named status now hit) was_live

  pub StockInv-live : is_live status ≡ true → StockInv changed
  StockInv-live l = record {
    identified = Identified-update db.bookings inv.identified identifier p named status now hit;
    unique = inv.unique;
    known = inv.known;
    owned = owned_after;
    stocked = λ c i e.
        rw
          (held-ext (live_in db.bookings) (live_in changed.bookings) c db.booking_items (λ j.
            live_in-update db.bookings inv.identified identifier p named status now hit j
            ∙ elim (Bool-cases (j == b.id)) [
              | inl same ↦ rw (same, l, ==→eq _ _ same) (sym live_before)
              | inr other ↦ rw other
            ]))
          (inv.stocked c i e);
  }

  pending :
      is_live status ≡ false
      → Stocked changed.inventories (λ c.
        lines_total c (items_of b.id db.booking_items)
        + held (live_in changed.bookings) c db.booking_items)
  pending l c i e = omega (
    arith,
    inv.stocked c i e,
    held-drop (live_in db.bookings) (live_in changed.bookings) b.id c db.booking_items live_before
        (λ j. live_in-update db.bookings inv.identified identifier p named status now hit j ∙ rw l),
  )

  -- The lines of a booking that ends are free again, and can all be put back.
  pub StockInv-dead :
      is_live status ≡ false
      → (rows : List Inventory) × (n : ℕ) × (release_for_booking b.id changed
          ≡ ok (n, record changed { inventories = rows }))
        × StockInv (record changed { inventories = rows })
  StockInv-dead l =
      let (r, runs) =
        release_for_booking_total b.id (λ c. held (live_in changed.bookings) c db.booking_items)
          changed inv.unique (All-items_of _ b.id db.booking_items inv.known) (pending l) in
      (
        r.rows,
        r.count,
        runs,
        record {
          identified =
              Identified-update db.bookings inv.identified identifier p named status now hit;
          unique = r.unique;
          known = All-mono (λ i h. r.kept i.ticket_category_id h) db.booking_items inv.known;
          owned = owned_after;
          stocked = r.stocked;
        },
      )
