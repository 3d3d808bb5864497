-- ===== src/Booking/Once.antt =====
-- `execute`: what a request that went through has stored, and what its repetitions answer.
use geek_interview.Base.{ℕ, ◌≡◌, ◌≢◌, refl, sym, ap, ◌∙◌, true, Option, none, some, List, inl, inr}
use geek_interview.Errors.{
  ok, err, business, conflict, idempotency_key_reused, no_details, DriverError,
}
use geek_interview.Store.{Db}
use geek_interview.Transaction.{is_transient_database_error}
use geek_interview.Transaction.Retries.{
  with_transaction_keeps, with_transaction-eq-ok, with_transaction_once, Result-cases,
}
use geek_interview.Booking.Request.{
  NormalizedItem, CreateBookingDto, Texts, normalize_items, clean_code, non_empty,
}
use geek_interview.Booking.Invariant.{Inv}
use geek_interview.Booking.Create.{
  CreateBookingResult, Draw, create_work, request_hash_of, execute, execute_items,
}
use geek_interview.Booking.Creating.{IsFresh}
use geek_interview.Booking.Replaying.{
  Stored, create_work-Inv, create_work-Stored, work_again, work_reused,
}

module _ (t : Texts) (user_id key : ℕ) (db : Db) (inv : Inv db) where
  -- Creating a booking with fresh identifiers keeps the invariant, whatever the request is,
  -- whichever attempts the database aborts, and whether or not it succeeds.
  pub execute-Inv :
      (faults : ℕ → Option DriverError) (draws : ℕ → Draw) (request : CreateBookingDto)
      → ((n : ℕ) → IsFresh (draws n).booking_id (draws n).booking_code db.bookings)
      → Inv (execute t faults draws user_id request key db).1
  unfolding execute
  execute-Inv faults draws request fresh = elim (Result-cases (normalize_items t request.items)) [
    | inr (e, bad) ↦ rw bad inv
    | inl (items, good) ↦ rw good (
        with_transaction_keeps Inv faults _ (some 3) db inv (λ n a db' h.
          create_work-Inv (draws n) user_id (t.trim request.concert_id) items
            (non_empty t (clean_code t request.voucher_code))
            (request_hash_of t user_id request items) key db inv (fresh n) db' h))
  ]

  execute-Stored :
      (faults : ℕ → Option DriverError) (draws : ℕ → Draw) (request : CreateBookingDto)
      (items : List NormalizedItem) (db' : Db) {result : CreateBookingResult}
      → ((n : ℕ) → IsFresh (draws n).booking_id (draws n).booking_code db.bookings)
      → normalize_items t request.items ≡ ok items
      → execute t faults draws user_id request key db ≡ (ok result, db')
      → Stored user_id (request_hash_of t user_id request items) key result.booking db'
  unfolding execute
  execute-Stored faults draws request items db' {result} fresh good h =
      let (n, e) =
        with_transaction-eq-ok faults
          (λ n.
            create_work (draws n) user_id (t.trim request.concert_id) items
              (non_empty t (clean_code t request.voucher_code))
              (request_hash_of t user_id request items) key)
          (some 3) db db'
          (sym (ap (λ r. execute_items t faults draws user_id request key r db) good) ∙ h) in
      create_work-Stored (draws n) user_id (t.trim request.concert_id) items
        (non_empty t (clean_code t request.voucher_code)) (request_hash_of t user_id request items)
        key db inv (fresh n) db' e

  -- If a request with valid items went through in a database with the invariant, its identifiers
  -- fresh, then the same request with its key, the first attempt not aborted, answers the same
  -- booking, marked as replayed, and changes nothing.
  pub execute_again :
      (faults faults2 : ℕ → Option DriverError) (draws draws2 : ℕ → Draw)
      (request : CreateBookingDto) (items : List NormalizedItem) (db' : Db)
      {result : CreateBookingResult}
      → ((n : ℕ) → IsFresh (draws n).booking_id (draws n).booking_code db.bookings)
      → normalize_items t request.items ≡ ok items
      → execute t faults draws user_id request key db ≡ (ok result, db')
      → faults2 1 ≡ none
      → execute t faults2 draws2 user_id request key db'
        ≡ (ok (record { booking = result.booking; replayed = true }), db')
  unfolding execute
  execute_again faults faults2 draws draws2 request items db' {result} fresh good h quiet =
      let s = execute-Stored faults draws request items db' fresh good h in
      ap (λ r. execute_items t faults2 draws2 user_id request key r db') good
      ∙ with_transaction_once faults2 _ db' quiet
          (work_again (draws2 1) user_id (t.trim request.concert_id) items
            (non_empty t (clean_code t request.voucher_code))
            (request_hash_of t user_id request items) key result.booking db' s)
          tt

  -- If a request with valid items went through in a database with the invariant, its identifiers
  -- fresh, then another request with valid items and its key, the first attempt not aborted, is
  -- refused with IDEMPOTENCY_KEY_REUSED and changes nothing, as long as the fingerprints of the two
  -- differ.
  pub execute_reused :
      (faults faults2 : ℕ → Option DriverError) (draws draws2 : ℕ → Draw)
      (request request2 : CreateBookingDto) (items items2 : List NormalizedItem) (db' : Db)
      {result : CreateBookingResult}
      → ((n : ℕ) → IsFresh (draws n).booking_id (draws n).booking_code db.bookings)
      → normalize_items t request.items ≡ ok items
      → execute t faults draws user_id request key db ≡ (ok result, db')
      → normalize_items t request2.items ≡ ok items2
      → request_hash_of t user_id request2 items2 ≢ request_hash_of t user_id request items
      → faults2 1 ≡ none
      → execute t faults2 draws2 user_id request2 key db'
        ≡ (err (business idempotency_key_reused conflict no_details), db')
  unfolding execute is_transient_database_error
  execute_reused faults faults2 draws draws2 request request2 items items2 db' {result} fresh good h
        good2 differs quiet =
      let s = execute-Stored faults draws request items db' fresh good h in
      ap (λ r. execute_items t faults2 draws2 user_id request2 key r db') good2
      ∙ with_transaction_once faults2 _ db' quiet
          (work_reused (draws2 1) user_id (t.trim request2.concert_id) items2
            (non_empty t (clean_code t request2.voucher_code))
            (request_hash_of t user_id request items) key result.booking db' s
            (request_hash_of t user_id request2 items2) differs)
          refl
