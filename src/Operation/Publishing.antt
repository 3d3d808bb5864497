-- ===== src/Operation/Publishing.antt =====
-- New concerts, and what makes one public.
use mathlib.Core.Path.{subst}
use geek_interview.Base.{
  ℕ, ◌≡◌, refl, sym, ◌∙◌, false, Option, none, some, List, [], ◌∷◌, arith, leb, if◌then◌else◌, inl,
  inr, Bool-cases,
}
use geek_interview.Errors.{
  Exn, DriverError, business, conflict, concert_not_publishable, concert_state, Result, ok, err,
}
use geek_interview.Tables.{select, find, update_where, update_where-none}
use geek_interview.Tables.Rows.{find_only, find_updated}
use geek_interview.Store.{Db, Concert}
use geek_interview.Catalog.{is_named}
use geek_interview.Booking.Request.{Texts}
use geek_interview.Booking.Read.{find_role}
use geek_interview.Booking.Create.{find_by_identifier, find_bookable_concert}
use geek_interview.Booking.Invariant.{Inv}
use geek_interview.Operation.Running.{
  role_status, as_operator_admitted, as_operator_keeps, run_once_keeps, or_rethrow-state,
}
use geek_interview.Operation.Concerts.{
  CreateConcertDto, concert_error, cleaned_concert, insert_concert, create_concert, find_concert,
  is_ready, is_publishable, set_published, publish, published_or_error, publish_concert,
}

err_ok :
    {A : Type 0} {e : Exn} {a : A} {db db' : Db}
    → ◌≡◌ {A = Result A × Db} (err e, db) (ok a, db')
    → ⊥
err_ok h = absurd (ground arith)

-- The concerts are no part of the invariant.
Inv-concerts : (db : Db) (cs : List Concert) → Inv db → Inv (record db { concerts = cs })
Inv-concerts db cs i = record {
  stock = record {
    identified = i.stock.identified;
    unique = i.stock.unique;
    known = i.stock.known;
    owned = i.stock.owned;
    stocked = i.stock.stocked;
  };
  quota = i.quota;
}

insert_concert-state :
    (id : ℕ) (input : CreateConcertDto) (db db' : Db) {c : Concert}
    → insert_concert id input db ≡ ok (c, db')
    → (cs : List Concert) × (db' ≡ record db { concerts = cs })
unfolding insert_concert
insert_concert-state id input db db' h = (db'.concerts, ground arith)

pub create_concert-Inv :
    (t : Texts) (fault : Option DriverError) (now id actor_id : ℕ) (request : CreateConcertDto)
    (db : Db)
    → Inv db
    → Inv (create_concert t fault now id actor_id request db).1
unfolding create_concert
create_concert-Inv t fault now id actor_id request db inv =
    as_operator_keeps Inv actor_id _ db inv (elim (Bool-cases (leb request.starts_at now)) [
      | inl past ↦ rw past inv
      | inr future ↦
          rw (future, or_rethrow-state concert_error _)
            (run_once_keeps Inv fault (insert_concert id (cleaned_concert t request)) db inv
              (λ c db' h.
                let (cs, e) = insert_concert-state id (cleaned_concert t request) db db' h in
                subst Inv (sym e) (Inv-concerts db cs inv)))
    ])

published_or_error-state :
    (identifier : ℕ) (r : Result (Option Concert) × Db) → (published_or_error identifier r).1 ≡ r.1
published_or_error-state identifier (ok (some c), db) = refl
published_or_error-state identifier (ok none, db) = refl
published_or_error-state identifier (err e, db) = refl

pub publish_concert-Inv :
    (t : Texts) (fault : Option DriverError) (now actor_id identifier : ℕ) (db : Db)
    → Inv db
    → Inv (publish_concert t fault now actor_id identifier db).1
unfolding publish_concert publish
publish_concert-Inv t fault now actor_id identifier db inv =
    as_operator_keeps Inv actor_id _ db inv (
      rw (published_or_error-state (t.trim identifier) _) (
        run_once_keeps Inv fault (publish now (t.trim identifier)) db inv (λ c db' h.
          let e : db' ≡ record db { concerts = db'.concerts } = ground arith in
          subst Inv (sym e) (Inv-concerts db db'.concerts inv))))

module _ (t : Texts) (now actor_id identifier : ℕ) (db : Db) (c : Concert)
    (may : role_status (find_role actor_id db) ≡ none)
    (one : select (is_named (t.trim identifier)) db.concerts ≡ c ∷ []) where
  abbrev published_state : Db
  published_state = record db {
    concerts = update_where (is_publishable now (t.trim identifier) db) set_published db.concerts;
  }

  -- If an identifier names one concert, an operator publishes it exactly if it is DRAFT, starts in
  -- the future and has a category with stock; otherwise the call is refused with
  -- CONCERT_NOT_PUBLISHABLE and the concert's status, and nothing changes.
  pub publish_concert_decides : publish_concert t none now actor_id identifier db ≡ (
      if is_ready now db c
      then (ok (set_published c), published_state)
      else (err (business concert_not_publishable conflict (concert_state c.status)), db))
  unfolding publish_concert publish find_concert
  publish_concert_decides =
      let (named, ready) =
        find_only (is_named (t.trim identifier)) (is_ready now db) c db.concerts one in
      as_operator_admitted actor_id _ db may ∙ elim (Bool-cases (is_ready now db c)) [
        | inl on ↦ rw (publish_concert, publish, ready, on) refl
        | inr off ↦
            let nothing : find (is_publishable now (t.trim identifier) db) db.concerts ≡ none =
              ready ∙ rw off refl in
            rw
              (
                nothing,
                update_where-none (is_publishable now (t.trim identifier) db) set_published
                    db.concerts nothing,
                named,
                off,
              )
              refl
      ]

  -- If an identifier names one concert, then what an operator has published can be booked under it at
  -- that time, and the concert is the one that was answered.
  pub publish_concert-bookable :
      (p : Concert) (db' : Db)
      → publish_concert t none now actor_id identifier db ≡ (ok p, db')
      → find_bookable_concert now (t.trim identifier) db' ≡ ok (p, db')
  unfolding find_bookable_concert find_by_identifier
  publish_concert-bookable p db' h = elim (Bool-cases (is_ready now db c)) [
    | inl on ↦
        let there =
          find_updated (is_named (t.trim identifier)) (is_ready now db) set_published c (λ x. refl)
            db.concerts one on in
        let later : leb c.starts_at now ≡ false = ground arith in
        let ran : (ok (set_published c), published_state) ≡ (ok p, db') =
          sym (publish_concert_decides ∙ rw on refl) ∙ h in
        subst
          (λ (r : Result Concert × Db).
            find_bookable_concert now (t.trim identifier) r.1
            ≡ (elim r.0 [ ok x ↦ ok (x, r.1) | err e ↦ err e ]))
          ran (rw (there, later) refl)
    | inr off ↦
        let refused : publish_concert t none now actor_id identifier db
            ≡ (err (business concert_not_publishable conflict (concert_state c.status)), db) =
          publish_concert_decides ∙ rw off refl in
        absurd (err_ok (sym refused ∙ h))
  ]
