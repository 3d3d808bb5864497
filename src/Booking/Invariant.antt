-- ===== src/Booking/Invariant.antt =====
-- The invariant of the database, and the lifecycle's transactions: each runs to its end on a booking
-- that its UPDATE finds, and keeps the invariant.
use geek_interview.Base.{ℕ, ◌≡◌, refl, Bool, true, false, some, List, ◌∷◌, arith}
use geek_interview.Domain.{BookingStatus, reserved, confirmed, expired, cancelled, is_reserved}
use geek_interview.Errors.{Result, ok, err}
use geek_interview.Tables.{find, update_where, find_holds}
use geek_interview.Store.{
  Db, Booking, StatusChange, customer_api, operation_api, booking_was_confirmed,
  booking_was_cancelled, operator_reason, ReleaseReason, matches_identifier, ◌>>=◌,
  booking_cancelled, operation_cancelled, operation_expired,
}
use geek_interview.Voucher.Reservation.{is_pending_for, consume, consume_for_booking}
use geek_interview.Voucher.Quota.{QuotaInv, consume-QuotaInv, release_for_booking_quota}
use geek_interview.Booking.Stock.{StockInv, StockInv-live, StockInv-dead, is_live}
use geek_interview.Booking.Transitions.{
  OperationBookingTarget, to_confirmed, to_expired, to_cancelled, target_status, set_status,
  is_open_owned, is_operable, transition_where, confirm_owned, cancel_owned,
  transition_by_operation, insert_transition_history, transition_entry,
}
use geek_interview.Booking.Lifecycle.{
  Clock, release_resources, confirm_work, cancel_work, operation_work,
}

pub record Inv (db : Db) : Type 0 where
  pub stock : StockInv db
  pub quota : QuotaInv db.vouchers db.redemptions (λ _. 0)

-- What a transaction that succeeds has done to the bookings.
pub record Moved {A : Type 0} (db : Db) (work : Result (A × Db)) (a : A) (bookings : List Booking)
    : Type 0 where
  pub state : Db
  pub runs : work ≡ ok (a, state)
  pub inv : Inv state
  pub rows : state.bookings ≡ bookings

module _ (db : Db) (inv : Inv db) (identifier : ℕ) (p : Booking → Bool)
    (named : (b : Booking) → p b ≡ true → matches_identifier identifier b ≡ true)
    (status : BookingStatus) (now : ℕ) {b : Booking} (hit : find p db.bookings ≡ some b)
    (was_live : is_live b.status ≡ true) where
  abbrev moved_rows : List Booking
  moved_rows = update_where p (set_status status now) db.bookings

  -- The resources of a booking that ends are released, without an error.
  pub release_ended :
      (reason : ReleaseReason)
      → is_live status ≡ false
      → Moved db
          (release_resources now b.id reason (record db { bookings = moved_rows }))
          tt
          moved_rows
  unfolding release_resources
  release_ended reason dead =
      let (rows, n, runs, stock) =
        StockInv-dead db inv.stock identifier p named status now hit was_live dead in
      let q =
        release_for_booking_quota now b.id reason
          (record db { bookings = moved_rows; inventories = rows }) inv.quota in
      record {
        state = record db {
          bookings = moved_rows;
          inventories = rows;
          vouchers = q.vouchers;
          redemptions = q.redemptions;
        };
        runs = rw (runs, release_resources, ◌>>=◌, q.runs);
        inv = record {
          stock = record {
            identified = stock.identified;
            unique = stock.unique;
            known = stock.known;
            owned = stock.owned;
            stocked = stock.stocked;
          };
          quota = q.quota;
        };
        rows = refl;
      }

  -- A confirmation consumes the redemption and leaves the stock alone.
  pub consume_confirmed :
      is_live status ≡ true
      → Inv (record db {
        bookings = moved_rows;
        redemptions = update_where (is_pending_for b.id) consume db.redemptions;
      })
  consume_confirmed live =
      let stock = StockInv-live db inv.stock identifier p named status now hit was_live live in
      record {
        stock = record {
          identified = stock.identified;
          unique = stock.unique;
          known = stock.known;
          owned = stock.owned;
          stocked = stock.stocked;
        };
        quota = consume-QuotaInv db.vouchers db.redemptions (λ _. 0) b.id inv.quota;
      }

pub reserved_live : (s : BookingStatus) → is_reserved s ≡ true → is_live s ≡ true
reserved_live reserved h = refl
reserved_live confirmed h = refl
reserved_live expired h = cc
reserved_live cancelled h = cc

open_named :
    (now user_id identifier : ℕ) (b : Booking)
    → is_open_owned now user_id identifier b ≡ true
    → matches_identifier identifier b ≡ true
open_named now user_id identifier b h = ground arith

open_live :
    (now user_id identifier : ℕ) (b : Booking)
    → is_open_owned now user_id identifier b ≡ true
    → is_live b.status ≡ true
open_live now user_id identifier b h = reserved_live b.status (ground arith)

-- The history is no part of the invariant.
pub Inv-history : (db : Db) (h : List StatusChange) → Inv db → Inv (record db { history = h })
Inv-history db h i = record {
  stock = record {
    identified = i.stock.identified;
    unique = i.stock.unique;
    known = i.stock.known;
    owned = i.stock.owned;
    stocked = i.stock.stocked;
  };
  quota = i.quota;
}

-- A release of resources, then an entry in the history, and the booking's id as the answer.
ended_runs :
    {db : Db} {work : Result (Unit {0} × Db)} {bookings : List Booking} (id : ℕ)
    (entry : StatusChange)
    → (m : Moved db work tt bookings)
    → Moved db
        (elim work [
          | ok (u, d) ↦ ok (id, record d { history = entry ∷ d.history })
          | err e ↦ err e
        ])
        id
        bookings
ended_runs id entry m = record {
  state = record m.state { history = entry ∷ m.state.history };
  runs = rw m.runs;
  inv = Inv-history m.state _ m.inv;
  rows = m.rows;
}

module _ (clock : Clock) (user_id identifier : ℕ) (db : Db) (inv : Inv db) {b : Booking}
    (hit : find (is_open_owned clock.db_now user_id identifier) db.bookings ≡ some b) where
  open_hit : is_live b.status ≡ true
  open_hit =
      open_live clock.db_now user_id identifier b
        (find_holds (is_open_owned clock.db_now user_id identifier) db.bookings hit)

  -- In a database with the invariant, confirming a booking that is the user's, RESERVED and before
  -- its deadline goes through: what passes this guard becomes CONFIRMED, the other bookings stay as
  -- they are, and the invariant is kept.
  pub confirm_work_total : Moved db (confirm_work clock user_id identifier db) b.id (
      update_where
        (is_open_owned clock.db_now user_id identifier)
        (set_status confirmed clock.db_now)
        db.bookings)
  unfolding confirm_work confirm_owned transition_where insert_transition_history
      consume_for_booking
  confirm_work_total =
      let i =
        consume_confirmed db inv identifier (is_open_owned clock.db_now user_id identifier)
          (open_named clock.db_now user_id identifier) confirmed clock.db_now hit open_hit refl in
      let entry =
        transition_entry b.id reserved confirmed (some user_id) customer_api
          booking_was_confirmed in
      record {
        state = record db {
          bookings =
              update_where (is_open_owned clock.db_now user_id identifier)
                (set_status confirmed clock.db_now) db.bookings;
          redemptions = update_where (is_pending_for b.id) consume db.redemptions;
          history = entry ∷ db.history;
        };
        runs = rw hit refl;
        inv = Inv-history _ (entry ∷ db.history) i;
        rows = refl;
      }

  -- In a database with the invariant, cancelling a booking that is the user's, RESERVED and before
  -- its deadline goes through: what passes this guard becomes CANCELLED, the other bookings stay as
  -- they are, and the invariant is kept.
  pub cancel_work_total : Moved db (cancel_work clock user_id identifier db) b.id (
      update_where
        (is_open_owned clock.db_now user_id identifier)
        (set_status cancelled clock.db_now)
        db.bookings)
  unfolding cancel_work cancel_owned transition_where insert_transition_history
  cancel_work_total =
      let m =
        release_ended db inv identifier (is_open_owned clock.db_now user_id identifier)
          (open_named clock.db_now user_id identifier) cancelled clock.db_now hit open_hit
          booking_cancelled refl in
      rw hit (
        ended_runs b.id
          (transition_entry b.id reserved cancelled (some user_id) customer_api
            booking_was_cancelled)
          m)

pub operable_named :
    (now identifier : ℕ) (target : OperationBookingTarget) (b : Booking)
    → is_operable now identifier target b ≡ true
    → matches_identifier identifier b ≡ true
operable_named now identifier target b h = ground arith

operable_live :
    (now identifier : ℕ) (target : OperationBookingTarget) (b : Booking)
    → is_operable now identifier target b ≡ true
    → is_live b.status ≡ true
operable_live now identifier target b h = reserved_live b.status (ground arith)

module _ (clock : Clock) (actor_id identifier reason : ℕ) (db : Db) (inv : Inv db) where
  abbrev operated_rows : OperationBookingTarget → List Booking
  operated_rows target =
      update_where (is_operable clock.db_now identifier target)
        (set_status (target_status target) clock.db_now) db.bookings

  -- In a database with the invariant, an operator's transition of a booking that passes the target's
  -- guard goes through: what passes it gets the target's status, the other bookings stay as they
  -- are, and the invariant is kept.
  pub operation_work_total :
      (target : OperationBookingTarget) {b : Booking}
      → find (is_operable clock.db_now identifier target) db.bookings ≡ some b
      → Moved db (operation_work clock actor_id identifier target reason db) b.id (
          update_where
            (is_operable clock.db_now identifier target)
            (set_status (target_status target) clock.db_now)
            db.bookings)
  unfolding operation_work transition_by_operation transition_where insert_transition_history
      consume_for_booking
  operation_work_total to_confirmed {b} hit =
      let live =
        operable_live clock.db_now identifier to_confirmed b (find_holds _ db.bookings hit) in
      let i =
        consume_confirmed db inv identifier (is_operable clock.db_now identifier to_confirmed)
          (operable_named clock.db_now identifier to_confirmed) confirmed clock.db_now hit live
          refl in
      let entry =
        transition_entry b.id reserved confirmed (some actor_id) operation_api
          (operator_reason reason) in
      record {
        state = record db {
          bookings = operated_rows to_confirmed;
          redemptions = update_where (is_pending_for b.id) consume db.redemptions;
          history = entry ∷ db.history;
        };
        runs = rw hit refl;
        inv = Inv-history _ (entry ∷ db.history) i;
        rows = refl;
      }
  operation_work_total to_expired {b} hit =
      let live =
        operable_live clock.db_now identifier to_expired b (find_holds _ db.bookings hit) in
      let m =
        release_ended db inv identifier (is_operable clock.db_now identifier to_expired)
          (operable_named clock.db_now identifier to_expired) expired clock.db_now hit live
          operation_expired refl in
      rw hit (
        ended_runs b.id
          (transition_entry b.id reserved expired (some actor_id) operation_api
            (operator_reason reason))
          m)
  operation_work_total to_cancelled {b} hit =
      let live =
        operable_live clock.db_now identifier to_cancelled b (find_holds _ db.bookings hit) in
      let m =
        release_ended db inv identifier (is_operable clock.db_now identifier to_cancelled)
          (operable_named clock.db_now identifier to_cancelled) cancelled clock.db_now hit live
          operation_cancelled refl in
      rw hit (
        ended_runs b.id
          (transition_entry b.id reserved cancelled (some actor_id) operation_api
            (operator_reason reason))
          m)
