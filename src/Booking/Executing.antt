-- ===== src/Booking/Executing.antt =====
-- The transaction of `execute`: its claim of the idempotency key, and what a repeated call answers.
use mathlib.Core.Path.{subst}
use geek_interview.Base.{
  ℕ, ◌≡◌, refl, sym, ap, ◌∙◌, true, false, not, ◌&&◌, Option, none, some, List, ◌∷◌, arith, ◌==◌,
  inl, inr, ◌⊎◌, Option-cases,
}
use geek_interview.Errors.{Result, ok, err, business, unauthorized, customer_not_found, no_details}
use geek_interview.Tables.{find, update_where}
use geek_interview.Store.{Db, IdempotencyRecord, BookingResponse, ◌>>=◌, >>=-eq-ok}
use geek_interview.Idempotency.{
  IdempotencyClaim, claimed, existing, has_key, new_record, completed_with, is_open, claim,
  insert_claim, complete, close_record,
}
use geek_interview.Booking.Write.{customer_exists, is_customer}
use geek_interview.Inventory.{is_some}
use geek_interview.Booking.Request.{NormalizedItem}
use geek_interview.Booking.Invariant.{Inv}
use geek_interview.Booking.Create.{
  CreateBookingResult, Draw, replay, book, lift, claim_answer, create_work,
}
use geek_interview.Booking.Creating.{IsFresh}
use geek_interview.Booking.Booked.{throw_if-eq-ok}
use geek_interview.Booking.Selling.{Booked, book-Booked}

-- A key that was used is found again, and the table stays as it is; a new key is inserted.
pub claim-eq-ok :
    (id user_id key request_hash : ℕ) (db db' : Db) {c : IdempotencyClaim}
    → claim id user_id key request_hash db ≡ ok (c, db')
    → ((r : IdempotencyRecord) × (find (has_key user_id key) db.idempotency_records ≡ some r)
        × (c ≡ existing r)
        × (db' ≡ db))
      ⊎ ((find (has_key user_id key) db.idempotency_records ≡ none)
          × (c ≡ claimed (new_record id user_id key request_hash))
          × (db' ≡ record db {
            idempotency_records = new_record id user_id key request_hash ∷ db.idempotency_records;
          }))
unfolding claim insert_claim
claim-eq-ok id user_id key request_hash db db' {c} h =
    elim (Option-cases (find (has_key user_id key) db.idempotency_records)) [
      | inl free ↦ inr (free, ground arith, ground arith)
      | inr (r, e) ↦ inl (r, e, ground arith, ground arith)
    ]

pub complete-eq-ok :
    (id status : ℕ) (body : BookingResponse) (db db' : Db)
    → complete id status body db ≡ ok (tt, db')
    → db' ≡ record db {
      idempotency_records =
          update_where (is_open id) (completed_with status body) db.idempotency_records;
    }
unfolding complete close_record
complete-eq-ok id status body db db' h = ground arith

pub Inv-keys :
    (db : Db) (records : List IdempotencyRecord)
    → Inv db
    → Inv (record db { idempotency_records = records })
Inv-keys db records i = record {
  stock = record {
    identified = i.stock.identified;
    unique = i.stock.unique;
    known = i.stock.known;
    owned = i.stock.owned;
    stocked = i.stock.stocked;
  };
  quota = i.quota;
}

lift-eq-ok :
    {A : Type 0} (r : Result A) (db : Db) {a : A} {db' : Db}
    → lift r db ≡ ok (a, db')
    → (r ≡ ok a) × (db' ≡ db)
lift-eq-ok (ok a) db h = (ground arith, ground arith)
lift-eq-ok (err e) db h = cc

-- A first use of a key: the booking is made, and the key's row holds its response.
pub record FirstUse (d : Draw) (user_id request_hash key : ℕ) (db : Db)
    (result : CreateBookingResult) (db' : Db) : Type 0 where
  pub free : find (has_key user_id key) db.idempotency_records ≡ none
  pub fresh_result : result.replayed ≡ false
  pub concert : ℕ
  pub items : List NormalizedItem
  pub booked_db : Db
  pub booked :
      Booked d user_id concert items
        (record db {
          idempotency_records =
              new_record d.claim_id user_id key request_hash ∷ db.idempotency_records;
        })
        result.booking
        booked_db
  pub state : db' ≡ record booked_db {
    idempotency_records =
        update_where
          (is_open d.claim_id)
          (completed_with 201 result.booking)
          booked_db.idempotency_records;
  }

-- A repeated use of a key: nothing is written.
pub record Repeated (user_id request_hash key : ℕ) (db : Db) (result : CreateBookingResult)
    (db' : Db) : Type 0 where
  pub row : IdempotencyRecord
  pub found : find (has_key user_id key) db.idempotency_records ≡ some row
  pub answer : replay row request_hash ≡ ok result
  pub unchanged : db' ≡ db

module _ (d : Draw) (user_id concert : ℕ) (items : List NormalizedItem) (code : Option ℕ)
    (request_hash key : ℕ) (db : Db) (inv : Inv db)
    (fresh : IsFresh d.booking_id d.booking_code db.bookings) where
  abbrev first_row : IdempotencyRecord
  first_row = new_record d.claim_id user_id key request_hash

  abbrev claimed_db : Db
  claimed_db = record db { idempotency_records = first_row ∷ db.idempotency_records }

  first_use :
      (db' : Db) {result : CreateBookingResult}
      → find (has_key user_id key) db.idempotency_records ≡ none
      → claim_answer d user_id concert items code request_hash (claimed first_row) claimed_db
        ≡ ok (result, db')
      → FirstUse d user_id request_hash key db result db'
  first_use db' {result} free h =
      let (response, s1, e1, h1) = >>=-eq-ok (book d user_id concert items code) _ claimed_db h in
      let (_, s2, e2, h2) = >>=-eq-ok (complete d.claim_id 201 response) _ s1 h1 in
      let done = complete-eq-ok d.claim_id 201 response s1 s2 e2 in
      let b = book-Booked d user_id claimed_db (Inv-keys db _ inv) fresh concert items code s1 e1 in
      let same : s2 ≡ db' = ground arith in
      let er : record { booking = response; replayed = false } ≡ result = ground arith in
      subst (λ (x : CreateBookingResult). FirstUse d user_id request_hash key db x db') er
        (record {
          free = free;
          fresh_result = refl;
          concert = concert;
          items = items;
          booked_db = s1;
          booked = b;
          state = sym same ∙ done;
        })

  claim_answer-eq-ok :
      (db' : Db) {result : CreateBookingResult}
      → (claim d.claim_id user_id key request_hash
            >>= claim_answer d user_id concert items code request_hash)
          db
        ≡ ok (result, db')
      → Repeated user_id request_hash key db result db'
        ⊎ FirstUse d user_id request_hash key db result db'
  claim_answer-eq-ok db' {result} h =
      let (c, s, e, rest) =
        >>=-eq-ok (claim d.claim_id user_id key request_hash)
          (claim_answer d user_id concert items code request_hash) db h in
      elim (claim-eq-ok d.claim_id user_id key request_hash db s e) [
        | inl (r, found, is_existing, unchanged) ↦
            let answered =
              ap
                (λ (x : IdempotencyClaim).
                  claim_answer d user_id concert items code request_hash x s)
                (sym is_existing)
              ∙ rest in
            inl (lifted r s db' found unchanged answered)
        | inr (free, is_claimed, state) ↦ inr (
            first_use db' free (
              ap (claim_answer d user_id concert items code request_hash (claimed first_row))
                (sym state)
              ∙ ap
                  (λ (x : IdempotencyClaim).
                    claim_answer d user_id concert items code request_hash x s)
                  (sym is_claimed)
              ∙ rest))
      ]
    where
      lifted :
          (r : IdempotencyRecord) (s db' : Db) {result : CreateBookingResult}
          → find (has_key user_id key) db.idempotency_records ≡ some r
          → s ≡ db
          → lift (replay r request_hash) s ≡ ok (result, db')
          → Repeated user_id request_hash key db result db'
      lifted r s db' {result} found same h = record {
        row = r;
        found = found;
        answer = (lift-eq-ok (replay r request_hash) s h).0;
        unchanged = (lift-eq-ok (replay r request_hash) s h).1 ∙ same;
      }

  -- A call that goes through repeats the answer to its key, or is the first with its key and books.
  pub create_work-eq-ok :
      (db' : Db) {result : CreateBookingResult}
      → create_work d user_id concert items code request_hash key db ≡ ok (result, db')
      → (is_some (find (λ u. (u.id == user_id) && is_customer u.role) db.users) ≡ true)
        × (Repeated user_id request_hash key db result db'
            ⊎ FirstUse d user_id request_hash key db result db')
  unfolding create_work customer_exists
  create_work-eq-ok db' {result} h =
      let (is_known, rest) =
        throw_if-eq-ok
          (not (is_some (find (λ u. (u.id == user_id) && is_customer u.role) db.users)))
          (business customer_not_found unauthorized no_details)
          (claim d.claim_id user_id key request_hash
            >>= claim_answer d user_id concert items code request_hash)
          db h in
      (ground arith, claim_answer-eq-ok db' rest)
