-- ===== src/Operation.antt =====
-- What the calls of operators share: `requireOperator` and `isDatabaseConstraint` of
-- src/modules/operation/application/operation.service.ts. The modules below are the calls on
-- concerts and their categories, on vouchers and on bookings.
pub mod Concerts
pub mod Vouchers
pub mod Bookings
pub mod Overseeing
pub mod Opening
pub mod Running
pub mod Refusing
pub mod Publishing
pub mod Releasing
pub mod Inserting
pub mod Keeping
pub mod Issuing
pub mod Redeeming
pub mod Listing
use geek_interview.Base.{ℕ, Bool, true, false, ◌||◌, Option, none, some}
use geek_interview.Errors.{
  Exn, DriverCode, DriverError, database, http, unauthorized, forbidden, p2002, s23505, Result, ok,
  err,
}
use geek_interview.Store.{Db, UserRole, Tx}
use geek_interview.Transaction.{commit}
use geek_interview.Booking.Read.{find_role}

unfoldable pub require_operator : ℕ → Db → Result (Unit {0})
require_operator actor_id db = elim (find_role actor_id db) [
  | none ↦ err (http unauthorized)
  | some UserRole.customer ↦ err (http forbidden)
  | some _ ↦ ok tt
]

abbrev pub is_unique_violation : Option DriverCode → Bool
is_unique_violation (some s23505) = true
is_unique_violation _ = false

abbrev pub is_unique_conflict : Option DriverCode → Bool
is_unique_conflict (some p2002) = true
is_unique_conflict _ = false

unfoldable pub is_database_constraint : Exn → Bool
is_database_constraint (database e) =
    is_unique_violation e.code || (is_unique_conflict e.code || is_unique_violation e.meta_code)
is_database_constraint _ = false

-- A call behind `requireOperator`.
abbrev pub behind : {A : Type 0} → Result (Unit {0}) → (Db → Result A × Db) → Db → Result A × Db
behind (ok u) call db = call db
behind (err e) call db = (err e, db)

abbrev pub as_operator : {A : Type 0} → ℕ → (Db → Result A × Db) → Db → Result A × Db
as_operator actor_id call db = behind (require_operator actor_id db) call db

-- One statement, or one transaction without retries, which the database may abort.
abbrev pub run_once : {A : Type 0} → Option DriverError → Tx A → Db → Result A × Db
run_once none work db = commit db (work db)
run_once (some e) work db = (err (database e), db)

-- `try { … } catch (error) { … }`
abbrev pub or_rethrow : {A : Type 0} → (Exn → Exn) → Result A × Db → Result A × Db
or_rethrow f (ok a, db) = (ok a, db)
or_rethrow f (err e, db) = (err (f e), db)
