-- ===== src/Operation/Running.antt =====
-- How an operator's call runs: who may make it, what a failure leaves, what a success says.
use geek_interview.Base.{arith, ◌≡◌, refl, sym, ◌∙◌, ℕ, Option, none, some, inl, inr, Option-cases}
use geek_interview.Errors.{Exn, DriverError, http, unauthorized, forbidden, Result, ok, err}
use geek_interview.Store.{Db, UserRole, Tx}
use geek_interview.Transaction.{commit}
use geek_interview.Booking.Read.{find_role}
use geek_interview.Operation.{require_operator, as_operator, run_once, or_rethrow}
use geek_interview.Operation.Concerts.{row_or_throw}

-- `role !== 'OPERATOR' && role !== 'ADMIN'`, and what is thrown then
abbrev pub role_status : Option UserRole → Option ℕ
role_status none = some unauthorized
role_status (some UserRole.customer) = some forbidden
role_status (some _) = none

abbrev checked : Option ℕ → Result (Unit {0})
checked none = ok tt
checked (some status) = err (http status)

require_operator-role_status :
    (actor_id : ℕ) (db : Db)
    → require_operator actor_id db ≡ checked (role_status (find_role actor_id db))
unfolding require_operator
require_operator-role_status actor_id db = by_role (find_role actor_id db)
  where
    by_role :
        (role : Option UserRole)
        → elim role [
          | none ↦ err (http unauthorized)
          | some UserRole.customer ↦ err (http forbidden)
          | some _ ↦ ok tt
        ]
          ≡ checked (role_status role)
    by_role none = refl
    by_role (some UserRole.customer) = refl
    by_role (some UserRole.operator) = refl
    by_role (some UserRole.admin) = refl

-- Who is no operator is refused, and nothing changes.
pub as_operator_refused :
    {A : Type 0} (actor_id : ℕ) (call : Db → Result A × Db) (db : Db) {status : ℕ}
    → role_status (find_role actor_id db) ≡ some status
    → as_operator actor_id call db ≡ (err (http status), db)
as_operator_refused actor_id call db e = rw (require_operator-role_status actor_id db, e) refl

pub as_operator_admitted :
    {A : Type 0} (actor_id : ℕ) (call : Db → Result A × Db) (db : Db)
    → role_status (find_role actor_id db) ≡ none
    → as_operator actor_id call db ≡ call db
as_operator_admitted actor_id call db e = rw (require_operator-role_status actor_id db, e) refl

-- A property of the database that the call keeps is kept behind the check.
pub as_operator_keeps {ℓ} :
    {A : Type 0} (P : Db → Type ℓ) (actor_id : ℕ) (call : Db → Result A × Db) (db : Db)
    → P db
    → P (call db).1
    → P (as_operator actor_id call db).1
as_operator_keeps P actor_id call db before after =
    elim (Option-cases (role_status (find_role actor_id db))) [
      | inl may ↦ rw (as_operator_admitted actor_id call db may) after
      | inr (status, e) ↦ rw (as_operator_refused actor_id call db e) before
    ]

-- The state of a run, and its success.
pub run_once_keeps {ℓ} :
    {A : Type 0} (P : Db → Type ℓ) (fault : Option DriverError) (work : Tx A) (db : Db)
    → P db
    → ((a : A) (db' : Db) → work db ≡ ok (a, db') → P db')
    → P (run_once fault work db).1
run_once_keeps P (some e) work db before after = before
run_once_keeps {A = A} P none work db before after = committed (work db) refl
  where
    committed : (r : Result (A × Db)) → work db ≡ r → P (commit db r).1
    committed (ok (a, db')) e = after a db' e
    committed (err x) e = before

pub run_once-eq-ok :
    {A : Type 0} (fault : Option DriverError) (work : Tx A) (db db' : Db) {a : A}
    → run_once fault work db ≡ (ok a, db')
    → work db ≡ ok (a, db')
run_once-eq-ok (some e) work db db' h = absurd (ground arith)
run_once-eq-ok {A = A} none work db db' {a} h = committed (work db) h
  where
    committed : (r : Result (A × Db)) → commit db r ≡ (ok a, db') → r ≡ ok (a, db')
    committed (ok (x, s)) e = ground arith
    committed (err x) e = absurd (ground arith)

pub or_rethrow-state : {A : Type 0} (f : Exn → Exn) (r : Result A × Db) → (or_rethrow f r).1 ≡ r.1
or_rethrow-state f (ok a, db) = refl
or_rethrow-state f (err e, db) = refl

pub or_rethrow-eq-ok :
    {A : Type 0} (f : Exn → Exn) (r : Result A × Db) {db : Db} {a : A}
    → or_rethrow f r ≡ (ok a, db)
    → r ≡ (ok a, db)
or_rethrow-eq-ok f (ok a, db) h = h
or_rethrow-eq-ok f (err e, db) h = absurd (ground arith)

pub row_or_throw-state : {A : Type 0} (r : Result (Option A) × Db) → (row_or_throw r).1 ≡ r.1
row_or_throw-state (ok (some a), db) = refl
row_or_throw-state (ok none, db) = refl
row_or_throw-state (err e, db) = refl

pub row_or_throw-eq-ok :
    {A : Type 0} (r : Result (Option A) × Db) {db : Db} {a : A}
    → row_or_throw r ≡ (ok a, db)
    → r ≡ (ok (some a), db)
row_or_throw-eq-ok (ok (some a), db) h = ground arith
row_or_throw-eq-ok (ok none, db) h = absurd (ground arith)
row_or_throw-eq-ok (err e, db) h = absurd (ground arith)

-- A success behind the check is one of an operator.
pub as_operator-eq-ok :
    {A : Type 0} (actor_id : ℕ) (call : Db → Result A × Db) (db db' : Db) {a : A}
    → as_operator actor_id call db ≡ (ok a, db')
    → (role_status (find_role actor_id db) ≡ none) × (call db ≡ (ok a, db'))
as_operator-eq-ok actor_id call db db' h =
    elim (Option-cases (role_status (find_role actor_id db))) [
      | inl may ↦ (may, sym (as_operator_admitted actor_id call db may) ∙ h)
      | inr (status, e) ↦
          let refused = as_operator_refused actor_id call db e in absurd (ground arith)
    ]
