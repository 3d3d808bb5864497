-- ===== src/Booking/Replaying.antt =====
-- A key's row after a call that went through, and what later calls with the key answer.
use mathlib.Core.Path.{subst}
use geek_interview.Base.{
  ℕ, ◌≡◌, ◌≢◌, refl, sym, ap, ◌∙◌, true, false, not, ◌&&◌, Option, none, some, List, ◌∷◌, arith,
  ◌==◌, inl, inr, Bool-cases,
}
use geek_interview.Errors.{
  ok, err, business, conflict, idempotency_key_reused, customer_not_found, unauthorized, no_details,
}
use geek_interview.Tables.{find, update_where}
use geek_interview.Store.{
  Db, IdempotencyRecord, IdempotencyStatus, processing, completed, failed, BookingResponse, ◌>>=◌,
  throw_if, >>=_ok,
}
use geek_interview.Inventory.{is_some}
use geek_interview.Idempotency.{existing, has_key, new_record, completed_with, claim, insert_claim}
use geek_interview.Booking.Write.{customer_exists, is_customer}
use geek_interview.Booking.Request.{NormalizedItem}
use geek_interview.Booking.Invariant.{Inv}
use geek_interview.Booking.Create.{
  CreateBookingResult, Draw, replay, replay_status, create_work, lift, claim_answer,
}
use geek_interview.Booking.Creating.{IsFresh}
use geek_interview.Booking.Executing.{FirstUse, Repeated, Inv-keys, create_work-eq-ok}

-- The key's row holds the response to the request.
pub record Stored (user_id request_hash key : ℕ) (response : BookingResponse) (db : Db)
    : Type 0 where
  pub customer : is_some (find (λ u. (u.id == user_id) && is_customer u.role) db.users) ≡ true
  pub row : IdempotencyRecord
  pub found : find (has_key user_id key) db.idempotency_records ≡ some row
  pub hash : row.request_hash ≡ request_hash
  pub answer : replay row request_hash ≡ ok (record { booking = response; replayed = true })

replay_status-replayed :
    (status : IdempotencyStatus) (body : Option BookingResponse) {result : CreateBookingResult}
    → replay_status status body ≡ ok result
    → result ≡ record { booking = result.booking; replayed = true }
replay_status-replayed completed (some b) h = ground arith
replay_status-replayed completed none h = cc
replay_status-replayed processing b h = cc
replay_status-replayed failed b h = cc

replay-eq-ok :
    (row : IdempotencyRecord) (request_hash : ℕ) {result : CreateBookingResult}
    → replay row request_hash ≡ ok result
    → (row.request_hash ≡ request_hash)
      × (result ≡ record { booking = result.booking; replayed = true })
unfolding replay
replay-eq-ok row request_hash {result} h = elim (Bool-cases (row.request_hash == request_hash)) [
  | inl same ↦
      let inner : replay_status row.status row.response_body ≡ ok result = ground arith in
      (ground arith, replay_status-replayed row.status row.response_body inner)
  | inr other ↦ absurd (ground arith)
]

module _ (d : Draw) (user_id request_hash key : ℕ) (db : Db) {result : CreateBookingResult}
    (db' : Db)
    (customer : is_some (find (λ u. (u.id == user_id) && is_customer u.role) db.users) ≡ true) where
  Repeated-Stored :
      Repeated user_id request_hash key db result db'
      → Stored user_id request_hash key result.booking db'
  Repeated-Stored r =
      let (same, again) = replay-eq-ok r.row request_hash r.answer in
      record {
        customer = rw r.unchanged customer;
        row = r.row;
        found = rw r.unchanged r.found;
        hash = same;
        answer = r.answer ∙ ap ok again;
      }

  FirstUse-Stored :
      FirstUse d user_id request_hash key db result db'
      → Stored user_id request_hash key result.booking db'
  unfolding replay find update_where
  FirstUse-Stored f =
      let row = new_record d.claim_id user_id key request_hash in
      let rows : f.booked_db.idempotency_records ≡ row ∷ db.idempotency_records =
        f.booked.written.keys.1 ∙ f.booked.keys.1 in
      let users : f.booked_db.users ≡ db.users = f.booked.written.keys.0 ∙ f.booked.keys.0 in
      record {
        customer = rw (f.state, users) customer;
        row = completed_with 201 result.booking row;
        found = rw (f.state, rows) (ground arith);
        hash = refl;
        answer = ground arith;
      }

module _ (d : Draw) (user_id concert : ℕ) (items : List NormalizedItem) (code : Option ℕ)
    (request_hash key : ℕ) (db : Db) (inv : Inv db)
    (fresh : IsFresh d.booking_id d.booking_code db.bookings) where
  pub create_work-Inv :
      (db' : Db) {result : CreateBookingResult}
      → create_work d user_id concert items code request_hash key db ≡ ok (result, db')
      → Inv db'
  create_work-Inv db' {result} h =
      elim (create_work-eq-ok d user_id concert items code request_hash key db inv fresh db' h).1 [
        | inl r ↦ subst Inv (sym r.unchanged) inv
        | inr f ↦ subst Inv (sym f.state) (Inv-keys f.booked_db _ f.booked.written.inv)
      ]

  pub create_work-Stored :
      (db' : Db) {result : CreateBookingResult}
      → create_work d user_id concert items code request_hash key db ≡ ok (result, db')
      → Stored user_id request_hash key result.booking db'
  create_work-Stored db' {result} h =
      let (customer, answered) =
        create_work-eq-ok d user_id concert items code request_hash key db inv fresh db' h in
      elim answered [
        | inl r ↦ Repeated-Stored d user_id request_hash key db db' customer r
        | inr f ↦ FirstUse-Stored d user_id request_hash key db db' customer f
      ]

-- Later work with the key.
module _ (d : Draw) (user_id concert : ℕ) (items : List NormalizedItem) (code : Option ℕ)
    (request_hash key : ℕ) (response : BookingResponse) (db : Db)
    (s : Stored user_id request_hash key response db) where
  claim_again : (id other_hash : ℕ) → claim id user_id key other_hash db ≡ ok (existing s.row, db)
  unfolding claim insert_claim
  claim_again id other_hash = let f = s.found in ground arith

  work_existing :
      (concert2 : ℕ) (items2 : List NormalizedItem) (code2 : Option ℕ) (other_hash : ℕ)
      → create_work d user_id concert2 items2 code2 other_hash key db
        ≡ lift (replay s.row other_hash) db
  unfolding create_work customer_exists
  work_existing concert2 items2 code2 other_hash =
      >>=_ok
        (throw_if (not (is_some (find (λ u. (u.id == user_id) && is_customer u.role) db.users)))
          (business customer_not_found unauthorized no_details))
        (λ _.
          claim d.claim_id user_id key other_hash
          >>= claim_answer d user_id concert2 items2 code2 other_hash)
        db (rw s.customer refl)
      ∙ >>=_ok (claim d.claim_id user_id key other_hash)
          (claim_answer d user_id concert2 items2 code2 other_hash) db
          (claim_again d.claim_id other_hash)

  pub work_again :
      create_work d user_id concert items code request_hash key db
      ≡ ok (record { booking = response; replayed = true }, db)
  work_again = work_existing concert items code request_hash ∙ ap (λ r. lift r db) s.answer

  pub work_reused :
      (other_hash : ℕ)
      → other_hash ≢ request_hash
      → create_work d user_id concert items code other_hash key db
        ≡ err (business idempotency_key_reused conflict no_details)
  unfolding replay
  work_reused other_hash differs =
      let h = s.hash in
      let off : (s.row.request_hash == other_hash) ≡ false = ground arith in
      work_existing concert items code other_hash ∙ rw off refl
