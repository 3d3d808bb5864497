-- ===== src/Operation/Overseeing.antt =====
-- What the reads and the changes of operators do to bookings and to the database.
use mathlib.Core.Path.{subst}
use geek_interview.Base.{
  ℕ, ◌≡◌, refl, sym, ap, ◌∙◌, Bool, true, false, some, List, [], ◌∷◌, head?, All, arith,
  if◌then◌else◌, inl, inr, Bool-cases, Option-cases,
}
use geek_interview.Domain.{BookingStatus}
use geek_interview.Tables.Rows.{rows_found, All-updated, All-hit}
use geek_interview.Errors.{Exn, Result, ok, err}
use geek_interview.Tables.{select, find, find_by, update_where, find_holds, find_by-find}
use geek_interview.Store.{Db, Booking, matches_identifier}
use geek_interview.Booking.Request.{Texts}
use geek_interview.Transaction.Retries.{with_transaction-eq-ok}
use geek_interview.Booking.Transitions.{
  OperationBookingTarget, target_status, set_status, is_operable,
}
use geek_interview.Booking.Lifecycle.{World, Clock, operation_work, transition_booking_by_operation}
use geek_interview.Booking.Stock.{id_of}
use geek_interview.Booking.Invariant.{Inv, operable_named, operation_work_total}
use geek_interview.Booking.Refusals.{
  ok_err, ok_inj, operation_refused, transition_booking_by_operation-Inv,
}
use geek_interview.Operation.Running.{as_operator_keeps, as_operator-eq-ok}
use geek_interview.Operation.Bookings.{
  OperationBookingDetail, detail_of, detail_rows, find_booking_detail, updated_detail,
  update_booking_status,
}

updated_detail-state : (identifier : ℕ) (r : Result ℕ × Db) → (updated_detail identifier r).1 ≡ r.1
updated_detail-state identifier (ok a, db) = refl
updated_detail-state identifier (err e, db) = refl

pub update_booking_status-Inv :
    (t : Texts) (w : World) (actor_id identifier : ℕ) (status : OperationBookingTarget) (reason : ℕ)
    (db : Db)
    → Inv db
    → Inv (update_booking_status t w actor_id identifier status reason db).1
unfolding update_booking_status
update_booking_status-Inv t w actor_id identifier status reason db inv =
    as_operator_keeps Inv actor_id _ db inv (elim (Bool-cases (t.is_empty (t.trim reason))) [
      | inl empty ↦ rw empty inv
      | inr given ↦
          rw (given, updated_detail-state identifier _)
            (transition_booking_by_operation-Inv w db inv actor_id identifier status
              (t.trim reason))
    ])

-- The detail that is shown is of one of the bookings that were found.
head_status :
    (db : Db) (status : BookingStatus) (bs : List Booking) {d : OperationBookingDetail}
    → All (λ b. b.status ≡ status) bs
    → head? (detail_rows db bs) ≡ some d
    → d.summary.status ≡ status
head_status db status [] h e = absurd (ground arith)
head_status db status (b ∷ bs) {d} h e =
    elim (Option-cases (find_by (λ c. c.id) b.concert_id db.concerts)) [
      | inl gone ↦ head_status db status bs {d = d} h.1 (ground arith)
      | inr (c, there) ↦
          let same : detail_of db b c ≡ d = ground arith in
          ap (λ (x : OperationBookingDetail). x.summary.status) (sym same) ∙ h.0
    ]

some_inj : {a b : Booking} → some a ≡ some b → a ≡ b
some_inj h = cc

differ : {c : Bool} → c ≡ false → c ≡ true → ⊥
differ f h = cc

module _ (clock : Clock) (actor_id identifier : ℕ) (target : OperationBookingTarget) (db : Db)
    (inv : Inv db) {b : Booking}
    (hit : find (is_operable clock.db_now identifier target) db.bookings ≡ some b) where
  abbrev operated : Booking → Booking
  operated = set_status (target_status target) clock.db_now

  -- A row of that name, after the UPDATE, is the one that was changed.
  renamed_status :
      (x : Booking)
      → find_by id_of (id_of x) db.bookings ≡ some x
      → matches_identifier identifier
          (if is_operable clock.db_now identifier target x then operated x else x)
        ≡ true
      → (if is_operable clock.db_now identifier target x then operated x else x).status
        ≡ target_status target
  renamed_status x there m = elim (Bool-cases (is_operable clock.db_now identifier target x)) [
    | inl on ↦ rw on refl
    | inr off ↦
        let named : matches_identifier identifier x ≡ true = sym (rw off refl) ∙ m in
        let named_b : matches_identifier identifier b ≡ true =
          operable_named clock.db_now identifier target b (find_holds _ db.bookings hit) in
        let found_b : find_by id_of (id_of b) db.bookings ≡ some b =
          find_by-find id_of _ db.bookings inv.stock.identified.unique hit in
        let same : x.id ≡ b.id =
          inv.stock.identified.one identifier x.id b.id x b there found_b named named_b in
        let equal : some x ≡ some b =
          sym there ∙ ap (λ (k : ℕ). find_by id_of k db.bookings) same ∙ found_b in
        let on = find_holds (is_operable clock.db_now identifier target) db.bookings hit in
        absurd (
          differ off (
            subst (λ y. is_operable clock.db_now identifier target y ≡ true) (some_inj (sym equal))
              on))
  ]

  -- After the transition, whatever the look-up by the same identifier shows has the target's status.
  operated_detail :
      (reason a : ℕ) (db' : Db) {d : OperationBookingDetail}
      → operation_work clock actor_id identifier target reason db ≡ ok (a, db')
      → find_booking_detail identifier db' ≡ some d
      → d.summary.status ≡ target_status target
  unfolding find_booking_detail
  operated_detail reason a db' {d} h shown =
      let m = operation_work_total clock actor_id identifier reason db inv target hit in
      let state : m.state ≡ db' = ap (λ (r : ℕ × Db). r.1) (ok_inj (sym m.runs ∙ h)) in
      let rows : db'.bookings
          ≡ update_where (is_operable clock.db_now identifier target) operated db.bookings =
        ap (λ (s : Db). s.bookings) (sym state) ∙ m.rows in
      head_status db' (target_status target) (select (matches_identifier identifier) db'.bookings)
        {d = d}
        (rw rows (
          All-hit (λ y. y.status ≡ target_status target) (matches_identifier identifier)
            (update_where (is_operable clock.db_now identifier target) operated db.bookings)
            (All-updated (λ x. find_by id_of (id_of x) db.bookings ≡ some x)
              (λ y. matches_identifier identifier y ≡ true → y.status ≡ target_status target)
              (is_operable clock.db_now identifier target) operated renamed_status db.bookings
              (rows_found id_of db.bookings inv.stock.identified.unique))))
        shown

updated_detail-eq-ok :
    (identifier : ℕ) (r : Result ℕ × Db) {db : Db} {d : OperationBookingDetail}
    → updated_detail identifier r ≡ (ok d, db)
    → (a : ℕ) × (r ≡ (ok a, db)) × (find_booking_detail identifier db ≡ some d)
updated_detail-eq-ok identifier (ok a, s) {db} {d} h =
    elim (Option-cases (find_booking_detail identifier s)) [
      | inl gone ↦ absurd (ground arith)
      | inr (x, e) ↦
          let same : s ≡ db = ap (λ (r : Result OperationBookingDetail × Db). r.1) h in
          let shown : x ≡ d = ground arith in
          (a, ap (λ (y : Db). (ok a, y)) same, rw (← same, e) (ap some shown))
    ]
updated_detail-eq-ok identifier (err e, s) h = absurd (ground arith)

transition_shown :
    (w : World) (actor_id identifier : ℕ) (target : OperationBookingTarget) (reason a : ℕ)
    (db db' : Db) (d : OperationBookingDetail)
    → Inv db
    → transition_booking_by_operation w actor_id identifier target reason db ≡ (ok a, db')
    → find_booking_detail identifier db' ≡ some d
    → d.summary.status ≡ target_status target
unfolding transition_booking_by_operation
transition_shown w actor_id identifier target reason a db db' d inv h shown =
    let (n, ran) = with_transaction-eq-ok w.faults _ (some 3) db db' h in
    elim (Option-cases (find (is_operable (w.clock n).db_now identifier target) db.bookings)) [
      | inl miss ↦ absurd (
          ok_err
            (sym ran ∙ operation_refused (w.clock n) actor_id identifier target reason db miss))
      | inr (b, hit) ↦
          operated_detail (w.clock n) actor_id identifier target db inv hit reason a db' {d = d} ran
            shown
    ]

past_reason :
    (t : Texts) (reason : ℕ) (e : Exn) (r : Result OperationBookingDetail × Db) (db db' : Db)
    {d : OperationBookingDetail}
    → (if t.is_empty (t.trim reason) then (err e, db) else r) ≡ (ok d, db')
    → (t.is_empty (t.trim reason) ≡ false) × (r ≡ (ok d, db'))
past_reason t reason e r db db' {d} h = ground arith

-- In a database with the invariant, an operator's change of a booking that goes through shows the
-- booking with the status that was asked for, and its reason is not blank.
pub update_booking_status-shown :
    (t : Texts) (w : World) (actor_id identifier : ℕ) (target : OperationBookingTarget) (reason : ℕ)
    (db db' : Db) (d : OperationBookingDetail)
    → Inv db
    → update_booking_status t w actor_id identifier target reason db ≡ (ok d, db')
    → (d.summary.status ≡ target_status target) × (t.is_empty (t.trim reason) ≡ false)
unfolding update_booking_status
update_booking_status-shown t w actor_id identifier target reason db db' d inv h =
    let (may, called) = as_operator-eq-ok actor_id _ db db' h in
    let (given, ran) = past_reason t reason _ _ db db' {d = d} called in
    let (a, moved, shown) = updated_detail-eq-ok identifier _ {d = d} ran in
    (
      transition_shown w actor_id identifier target (t.trim reason) a db db' d inv moved shown,
      given,
    )
