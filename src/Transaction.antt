-- ===== src/Transaction.antt =====
-- src/shared/database/transaction.ts: one workflow in one transaction, with bounded retries.
pub mod Retries
pub mod Resources
use geek_interview.Base.{
  ℕ, zero, suc, ◌+◌, Bool, true, false, not, ◌||◌, Option, none, some, List, [], ◌∷◌, leb, ◌==◌,
  if◌then◌else◌,
}
use geek_interview.Errors.{
  Exn, DriverCode, DriverError, database, plain, p2034, s40001, s40p01, retry_exhausted, Result, ok,
  err,
}
use geek_interview.Store.{Db, Tx}

-- `TRANSIENT_POSTGRES_CODES.has(code ?? '')`
abbrev pub is_transient_code : Option DriverCode → Bool
is_transient_code (some s40001) = true
is_transient_code (some s40p01) = true
is_transient_code _ = false

abbrev pub is_write_conflict : Option DriverCode → Bool
is_write_conflict (some p2034) = true
is_write_conflict _ = false

-- Only errors of the driver carry a code that counts.
unfoldable pub is_transient_database_error : Exn → Bool
is_transient_database_error (database e) =
    is_write_conflict e.code || (is_transient_code e.code || is_transient_code e.meta_code)
is_transient_database_error _ = false

-- `Math.max(1, options.maxAttempts ?? 1)`
abbrev pub attempts_allowed : Option ℕ → ℕ
attempts_allowed none = 1
attempts_allowed (some n) = if leb 1 n then n else 1

-- The loop from `attempt` on, with `left` rounds to go.
unfoldable pub attempts {ℓ} : {A : Type ℓ} → (ℕ → Result A) → ℕ → ℕ → ℕ → Result A
attempts run zero attempt max = err (plain retry_exhausted)
attempts run (suc left) attempt max =
    let rest = attempts run left (attempt + 1) max in
    elim (run attempt) [
      | ok a ↦ ok a
      | err e ↦ if not (is_transient_database_error e) || (attempt == max) then err e else rest
    ]

-- One attempt: the database may abort it, which `faults` says; else the work runs.
abbrev pub attempt_of :
    {A : Type 0} → (ℕ → Option DriverError) → (ℕ → Tx A) → Db → ℕ → Result (A × Db)
attempt_of faults work db attempt = elim (faults attempt) [
  | none ↦ work attempt db
  | some e ↦ err (database e)
]

-- A commit keeps the new state, an error rolls back.
abbrev pub commit : {A : Type 0} → Db → Result (A × Db) → Result A × Db
commit db (ok (a, db')) = (ok a, db')
commit db (err e) = (err e, db)

unfoldable pub with_transaction :
    {A : Type 0} → (ℕ → Option DriverError) → (ℕ → Tx A) → Option ℕ → Db → Result A × Db
with_transaction faults work max_attempts db =
    let max = attempts_allowed max_attempts in
    commit db (attempts (attempt_of faults work db) max 1 max)
