-- ===== src/Booking/Expiry.antt =====
-- The worker's batch: every round goes through, and the whole batch keeps the invariant.
use mathlib.Core.Path.{subst}
use geek_interview.Base.{
  ℕ, ◌+◌, ◌≤◌, ◌≡◌, refl, sym, ap, ◌∙◌, Bool, true, false, none, some, List, [], ◌∷◌, arith,
  if◌then◌else◌, inl, inr, Option-cases, length, length-take-le,
}
use geek_interview.Domain.{reserved, expired}
use geek_interview.Errors.{ok}
use geek_interview.Tables.{
  find, find_by, update_where, count_where, find_holds, count_where-find, count_where-some,
  update_where-none,
}
use geek_interview.Store.{
  Db, Booking, StatusChange, reservation_expiry_worker, ttl_elapsed, reservation_expired,
  matches_identifier, pure, >>=_ok,
}
use geek_interview.Booking.Stock.{id_of, is_live, found_row}
use geek_interview.Booking.Transitions.{
  set_status, is_overdue, is_claimed_overdue, expire_claimed, claim_expired, claimable,
  insert_transition_history, transition_entry,
}
use geek_interview.Booking.Lifecycle.{
  release_resources, expire_one, expire_all, expire_work, expire_result, expired_after, safe_limit,
}
use geek_interview.Booking.Invariant.{Inv, Moved, release_ended, Inv-history, reserved_live}

overdue_named :
    (now booking_id : ℕ) (b : Booking)
    → is_claimed_overdue now booking_id b ≡ true
    → matches_identifier booking_id b ≡ true
overdue_named now booking_id b h = ground arith

overdue_live :
    (now booking_id : ℕ) (b : Booking)
    → is_claimed_overdue now booking_id b ≡ true
    → is_live b.status ≡ true
overdue_live now booking_id b h = reserved_live b.status (ground arith)

abbrev expired_rows : ℕ → ℕ → ℕ → Db → List Booking
expired_rows db_now now booking_id db =
    update_where (is_claimed_overdue now booking_id) (set_status expired db_now) db.bookings

abbrev expiry_entry : ℕ → StatusChange
expiry_entry booking_id =
    transition_entry booking_id reserved expired none reservation_expiry_worker ttl_elapsed

expired_runs :
    (now booking_id : ℕ) (db s : Db)
    → release_resources now booking_id reservation_expired db ≡ ok (tt, s)
    → expire_result now booking_id true db
      ≡ ok (true, record s { history = expiry_entry booking_id ∷ s.history })
unfolding insert_transition_history
expired_runs now booking_id db s e =
    >>=_ok (expired_after now booking_id) (λ _. pure true) db
      (>>=_ok (release_resources now booking_id reservation_expired)
        (λ _.
          insert_transition_history booking_id reserved expired none reservation_expiry_worker
            ttl_elapsed)
        db e)

module _ (db_now now booking_id : ℕ) (db : Db) (inv : Inv db) where
  expire_miss :
      find (is_claimed_overdue now booking_id) db.bookings ≡ none
      → expire_one db_now now booking_id db ≡ ok (false, db)
  unfolding expire_one expire_claimed
  expire_miss miss = rw (
    count_where-find (is_claimed_overdue now booking_id) db.bookings miss,
    update_where-none (is_claimed_overdue now booking_id) (set_status expired db_now) db.bookings
        miss,
  )

  module _ {b : Booking} (hit : find (is_claimed_overdue now booking_id) db.bookings ≡ some b) where
    hit_key : b.id ≡ booking_id
    hit_key = let h = find_holds (is_claimed_overdue now booking_id) db.bookings hit in ground arith

    pub hit_count : count_where (is_claimed_overdue now booking_id) db.bookings ≡ 1
    hit_count =
        let h = find_holds (is_claimed_overdue now booking_id) db.bookings hit in
        let row =
          found_row db.bookings inv.stock.identified booking_id (is_claimed_overdue now booking_id)
            (overdue_named now booking_id) expired db_now hit in
        rw
          (count_where-some id_of booking_id (is_overdue now) db.bookings
            inv.stock.identified.unique
            (ap (λ (k : ℕ). find_by id_of k db.bookings) (sym hit_key) ∙ row))
          (ground arith)

    released :
        Moved db
          (release_resources db_now booking_id reservation_expired
            (record db { bookings = expired_rows db_now now booking_id db }))
          tt
          (expired_rows db_now now booking_id db)
    released =
        subst
          (λ k.
            Moved db
              (release_resources db_now k reservation_expired
                (record db { bookings = expired_rows db_now now booking_id db }))
              tt (expired_rows db_now now booking_id db))
          hit_key
          (release_ended db inv booking_id (is_claimed_overdue now booking_id)
            (overdue_named now booking_id) expired db_now hit
            (overdue_live now booking_id b (find_holds _ db.bookings hit)) reservation_expired refl)

    pub expire_hit :
        Moved db (expire_one db_now now booking_id db) true (expired_rows db_now now booking_id db)
    unfolding expire_one expire_claimed insert_transition_history
    expire_hit = record {
      state = record (released.state) {
        history = expiry_entry booking_id ∷ (released.state).history;
      };
      runs = rw hit_count (expired_runs db_now booking_id _ released.state released.runs);
      inv =
          Inv-history released.state (expiry_entry booking_id ∷ (released.state).history)
            released.inv;
      rows = released.rows;
    }

  -- One round of the worker's loop always goes through: it expires the booking and releases its
  -- resources, or finds that the booking is no longer there to expire and changes nothing.
  pub expire_one_total :
      (done : Bool) × Moved db
        (expire_one db_now now booking_id db)
        done
        (expired_rows db_now now booking_id db)
  expire_one_total = elim (Option-cases (find (is_claimed_overdue now booking_id) db.bookings)) [
    | inl miss ↦ (
      false,
      record {
        state = db;
        runs = expire_miss miss;
        inv = inv;
        rows = sym (
            update_where-none (is_claimed_overdue now booking_id) (set_status expired db_now)
              db.bookings miss);
      },
    )
    | inr (b, hit) ↦ (true, expire_hit hit)
  ]

-- The loop over the claimed bookings goes through, keeps the invariant, and counts at most one expiry
-- for each of them.
pub expire_all_total :
    (db_now now : ℕ) (bs : List Booking) (processed : ℕ) (db : Db)
    → Inv db
    → (n : ℕ) × (db' : Db) × (expire_all db_now now bs processed db ≡ ok (n, db'))
      × Inv db'
      × (processed ≤ n)
      × (n ≤ processed + length bs)
unfolding expire_all
expire_all_total db_now now [] processed db inv =
    (processed, db, refl, inv, omega arith, omega arith)
expire_all_total db_now now (b ∷ bs) processed db inv =
    let (done, m) = expire_one_total db_now now b.id db inv in
    let (n, db', runs, inv', low, high) =
      expire_all_total db_now now bs (if done then processed + 1 else processed) m.state m.inv in
    (
      n,
      db',
      >>=_ok (expire_one db_now now b.id)
            (λ (d : Bool). expire_all db_now now bs (if d then processed + 1 else processed)) db
            m.runs
          ∙ runs,
      inv',
      ground arith,
      ground arith,
    )

pub safe_limit_bounds : (limit : ℕ) → (1 ≤ safe_limit limit) × (safe_limit limit ≤ 500)
safe_limit_bounds limit = ground arith

-- In a database with the invariant, a batch of the worker, whatever other transactions have locked,
-- goes through, keeps the invariant, and expires at most as many bookings as its limit allows, and
-- at most 500.
pub expire_work_total :
    (locked : ℕ → Bool) (limit now db_now : ℕ) (db : Db)
    → Inv db
    → (n : ℕ) × (db' : Db) × (expire_work locked limit now db_now db ≡ ok (n, db'))
      × Inv db'
      × (n ≤ safe_limit limit)
      × (n ≤ 500)
unfolding expire_work claim_expired
expire_work_total locked limit now db_now db inv =
    let (n, db', runs, inv', low, high) = expire_all_total db_now now _ 0 db inv in
    let few = length-take-le (safe_limit limit) (claimable locked now db.bookings) in
    (n, db', runs, inv', omega (arith, few), omega (arith, few, safe_limit_bounds limit))
