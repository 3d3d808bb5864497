-- ===== src/Transaction/Retries.antt =====
-- How often `withTransaction` tries, and what it answers.
use geek_interview.Base.{
  ℕ, zero, suc, ◌+◌, ◌≤◌, ◌<◌, ◌≡◌, refl, sym, ◌∙◌, ap, ◌⊎◌, inl, inr, true, false, Option, none,
  some, arith, ◌==◌, Bool-cases,
}
use geek_interview.Errors.{Exn, DriverError, Result, ok, err, database}
use geek_interview.Store.{Db, Tx}
use geek_interview.Transaction.{
  is_transient_database_error, attempts_allowed, attempts, attempt_of, commit, with_transaction,
}

-- An attempt that is tried again.
abbrev pub IsRetried {ℓ} : {A : Type ℓ} → Result A → Type 0
IsRetried (ok _) = ⊥
IsRetried (err e) = is_transient_database_error e ≡ true

-- An attempt after which the loop ends whatever its number is.
abbrev pub IsFinal {ℓ} : {A : Type ℓ} → Result A → Type 0
IsFinal (ok _) = Unit
IsFinal (err e) = is_transient_database_error e ≡ false

-- The attempt that decides: those before it are retried, and it is final or the last one.
pub record Decides {ℓ} {A : Type ℓ} (run : ℕ → Result A) (first max n : ℕ) : Type ℓ where
  pub started : first ≤ n
  pub allowed : n ≤ max
  pub earlier : (m : ℕ) → first ≤ m → m < n → IsRetried (run m)
  pub ended : IsFinal (run n) ⊎ (n ≡ max)

abbrev Ends {ℓ} : {A : Type ℓ} → (ℕ → Result A) → ℕ → ℕ → ℕ → Type ℓ
Ends run left attempt max =
    (n : ℕ) × Decides run attempt max n × (attempts run left attempt max ≡ run n)

here-Decides {ℓ} :
    {A : Type ℓ} (run : ℕ → Result A) (attempt max : ℕ)
    → attempt ≤ max
    → IsFinal (run attempt) ⊎ (attempt ≡ max)
    → Decides run attempt max attempt
here-Decides run attempt max h e = record {
  started = omega arith;
  allowed = h;
  earlier = λ m a b. absurd (omega arith);
  ended = e;
}

pub Result-cases {ℓ} :
    {A : Type ℓ} (r : Result A) → ((a : A) × (r ≡ ok a)) ⊎ ((e : Exn) × (r ≡ err e))
Result-cases (ok a) = inl (a, refl)
Result-cases (err e) = inr (e, refl)

later-Decides {ℓ} :
    {A : Type ℓ} (run : ℕ → Result A) (attempt max n : ℕ)
    → IsRetried (run attempt)
    → Decides run (attempt + 1) max n
    → Decides run attempt max n
later-Decides run attempt max n again d = record {
  started = omega arith;
  allowed = d.allowed;
  earlier = λ m a b. elim (Bool-cases (m == attempt)) [
    | inl same ↦ let e : m ≡ attempt = ground arith in rw e again
    | inr other ↦ d.earlier m (ground arith) b
  ];
  ended = d.ended;
}

pub attempts_end {ℓ} :
    {A : Type ℓ} (run : ℕ → Result A) (left attempt max : ℕ)
    → left + attempt ≡ max + 1
    → attempt ≤ max
    → Ends run left attempt max
unfolding attempts
attempts_end run zero attempt max h k = absurd (omega arith)
attempts_end run (suc left) attempt max h k = elim (Result-cases (run attempt)) [
  | inl (a, e) ↦ (attempt, here-Decides run attempt max k (inl (rw e tt)), rw (e, attempts))
  | inr (x, e) ↦ elim (Bool-cases (is_transient_database_error x)) [
    | inr final ↦
        (attempt, here-Decides run attempt max k (inl (rw e final)), rw (e, attempts, final))
    | inl again ↦ elim (Bool-cases (attempt == max)) [
      | inl last ↦ (
        attempt,
        here-Decides run attempt max k (inr (ground arith)),
        rw (e, attempts, again, last),
      )
      | inr more ↦
          let (n, d, r) = attempts_end run left (attempt + 1) max (omega arith) (ground arith) in
          (n, later-Decides run attempt max n (rw e again) d, rw (e, attempts, again, more) r)
    ]
  ]
]

attempts_allowed_pos : (max : Option ℕ) → 1 ≤ attempts_allowed max
attempts_allowed_pos none = omega arith
attempts_allowed_pos (some n) = ground arith

-- Of the attempts 1, 2, … up to the number allowed, one decides: every attempt before it failed with
-- a serialization failure, a deadlock or a write conflict, and it is itself no such failure, or the
-- last one allowed. The caller gets its outcome, and the database the state that it commits, or the
-- old state if it failed.
pub with_transaction-Decides :
    {A : Type 0} (faults : ℕ → Option DriverError) (work : ℕ → Tx A) (max : Option ℕ) (db : Db)
    → (n : ℕ) × Decides (attempt_of faults work db) 1 (attempts_allowed max) n
      × (with_transaction faults work max db ≡ commit db (attempt_of faults work db n))
unfolding with_transaction
with_transaction-Decides faults work max db =
    let (n, d, r) =
      attempts_end (attempt_of faults work db) (attempts_allowed max) 1 (attempts_allowed max)
        (omega arith) (attempts_allowed_pos max) in
    (n, d, ap (commit db) r)

-- What holds of the state before, and is kept by the work whenever it succeeds, holds of the state
-- that any run leaves.
pub with_transaction_keeps {ℓ} :
    {A : Type 0} (P : Db → Type ℓ) (faults : ℕ → Option DriverError) (work : ℕ → Tx A)
    (max : Option ℕ) (db : Db)
    → P db
    → ((n : ℕ) (a : A) (db' : Db) → work n db ≡ ok (a, db') → P db')
    → P (with_transaction faults work max db).1
with_transaction_keeps {A} P faults work max db h keep =
    let (n, d, r) = with_transaction-Decides faults work max db in
    rw r (committed n (faults n) (work n db) refl)
  where
    committed :
        (n : ℕ) (f : Option DriverError) (w : Result (A × Db))
        → work n db ≡ w
        → P (commit db (elim f [ none ↦ w | some e ↦ err (database e) ])).1
    committed n none (ok (a, db')) e = keep n a db' e
    committed n none (err x) e = h
    committed n (some x) w e = h

-- A success that the caller sees is one of the work.
pub with_transaction-eq-ok :
    {A : Type 0} (faults : ℕ → Option DriverError) (work : ℕ → Tx A) (max : Option ℕ) (db db' : Db)
    {a : A}
    → with_transaction faults work max db ≡ (ok a, db')
    → (n : ℕ) × (work n db ≡ ok (a, db'))
with_transaction-eq-ok {A} faults work max db db' {a} h =
    let (n, d, r) = with_transaction-Decides faults work max db in
    (n, committed n (faults n) (work n db) (sym r ∙ h))
  where
    committed :
        (n : ℕ) (f : Option DriverError) (w : Result (A × Db))
        → commit db (elim f [ none ↦ w | some e ↦ err (database e) ]) ≡ (ok a, db')
        → w ≡ ok (a, db')
    committed n none (ok (x, s)) e = ground arith
    committed n none (err x) e = absurd (ground arith)
    committed n (some x) w e = absurd (ground arith)

attempts_final {ℓ} :
    {A : Type ℓ} (run : ℕ → Result A) (left attempt max : ℕ) (r : Result A)
    → run attempt ≡ r
    → IsFinal r
    → attempts run (suc left) attempt max ≡ r
unfolding attempts
attempts_final run left attempt max (ok a) e final = rw (e, attempts)
attempts_final run left attempt max (err x) e final = rw (e, attempts, final)

-- A first attempt that is not aborted, and ends in a success or an error of the program, is the only one.
pub with_transaction_once :
    {A : Type 0} (faults : ℕ → Option DriverError) (work : ℕ → Tx A) (db : Db) {r : Result (A × Db)}
    → faults 1 ≡ none
    → work 1 db ≡ r
    → IsFinal r
    → with_transaction faults work (some 3) db ≡ commit db r
unfolding with_transaction
with_transaction_once faults work db {r} f h final =
    ap (commit db) (attempts_final (attempt_of faults work db) 2 1 3 r (rw (attempt_of, f) h) final)
