-- ===== src/Metrics/Counting.antt =====
-- What the counters count.
use geek_interview.Base.{
  ℕ, ◌+◌, ◌<◌, ◌≡◌, refl, ◌∙◌, Bool, true, false, Option, none, some, List, [], ◌∷◌, arith, ◌==◌,
  if◌then◌else◌, inl, inr, Bool-cases,
}
use geek_interview.Errors.{BusinessErrorCode, DriverError, Result, ok, err}
use geek_interview.Store.{Db}
use geek_interview.Booking.Request.{CreateBookingDto, NormalizedItem, Texts, normalize_items}
use geek_interview.Booking.Create.{CreateBookingResult, Draw, execute_items, execute}
use geek_interview.Metrics.{
  MetricName, Outcome, success, replayed, failure, name_number, Counter, is_counter, increment,
  booking_attempts_total, booking_success_total, booking_replayed_total, booking_failure_total,
  booking_sold_out_total, inventory_conflicts_total, voucher_exhausted_total,
  idempotency_conflicts_total, error_code, is_idempotency_code, is_exhausted, is_sold_out,
  count_reason, count_failure, increment_if, outcome_name, record_booking_attempt,
  record_booking_success, record_booking_failure, record_result, observed_items, execute_observed,
}

-- The sum of the counters of a name.
abbrev pub total : MetricName → List Counter → ℕ
total name [] = 0
total name (c ∷ cs) =
    (if name_number c.name == name_number name then c.value else 0) + total name cs

-- An increment adds its amount to the total of its name, and to no other.
pub total-increment :
    (name other : MetricName) (labels amount : ℕ) (cs : List Counter)
    → total other (increment name labels amount cs)
      ≡ (if name_number name == name_number other then amount else 0) + total other cs
unfolding increment
total-increment name other labels amount [] = refl
total-increment name other labels amount (c ∷ cs) = elim (Bool-cases (is_counter name labels c)) [
  | inl hit ↦
      let same : name_number c.name ≡ name_number name = ground arith in
      rw (hit, same) (ground arith)
  | inr miss ↦ rw miss (omega (arith, total-increment name other labels amount cs))
]

-- Success, replay and failure.
abbrev pub outcomes : List Counter → ℕ
outcomes cs =
    total booking_success_total cs
    + total booking_replayed_total cs
    + total booking_failure_total cs

abbrev pub attempts_made : List Counter → ℕ
attempts_made = total booking_attempts_total

increment_if-total :
    (test : Bool) (name other : MetricName) (labels : ℕ) (cs : List Counter)
    → (name_number name == name_number other) ≡ false
    → total other (increment_if test name labels cs) ≡ total other cs
increment_if-total true name other labels cs apart =
    total-increment name other labels 1 cs ∙ rw apart (omega arith)
increment_if-total false name other labels cs apart = refl

-- The names of outcomes and attempts are none of those of the reasons.
abbrev IsMain : MetricName → Type 0
IsMain name = name_number name < 5

count_reason-total :
    (code : BusinessErrorCode) (labels : ℕ) (name : MetricName) (cs : List Counter)
    → IsMain name
    → total name (count_reason code labels cs) ≡ total name cs
count_reason-total code labels name cs main =
    increment_if-total (is_idempotency_code code) idempotency_conflicts_total name labels _
      (ground arith)
    ∙ increment_if-total (is_exhausted code) voucher_exhausted_total name 0 _ (ground arith)
    ∙ increment_if-total (is_sold_out code) inventory_conflicts_total name 0 _ (ground arith)
    ∙ increment_if-total (is_sold_out code) booking_sold_out_total name 0 cs (ground arith)

count_failure-total :
    (code : Option BusinessErrorCode) (labels : ℕ) (name : MetricName) (cs : List Counter)
    → IsMain name
    → total name (count_failure code labels cs) ≡ total name cs
count_failure-total none labels name cs main = refl
count_failure-total (some code) labels name cs main = count_reason-total code labels name cs main

abbrev CountsOne : List Counter → List Counter → Type 0
CountsOne before after =
    (outcomes after ≡ outcomes before + 1) × (attempts_made after ≡ attempts_made before)

outcome-CountsOne :
    (outcome : Outcome) (labels : ℕ) (cs : List Counter)
    → CountsOne cs (increment (outcome_name outcome) labels 1 cs)
outcome-CountsOne outcome labels cs =
    let add = λ (n : MetricName). total-increment (outcome_name outcome) n labels 1 cs in
    by_outcome outcome _ _ _ (add booking_success_total) (add booking_replayed_total)
      (add booking_failure_total) (add booking_attempts_total)
  where
    by_outcome :
        (o : Outcome) (s r f : ℕ) {a s' r' f' a' : ℕ}
        → s' ≡ (if name_number (outcome_name o) == 2 then 1 else 0) + s
        → r' ≡ (if name_number (outcome_name o) == 3 then 1 else 0) + r
        → f' ≡ (if name_number (outcome_name o) == 4 then 1 else 0) + f
        → a' ≡ (if name_number (outcome_name o) == 1 then 1 else 0) + a
        → (s' + r' + f' ≡ s + r + f + 1) × (a' ≡ a)
    by_outcome success s r f e g h k = (omega (arith, e, g, h), omega (arith, k))
    by_outcome replayed s r f e g h k = (omega (arith, e, g, h), omega (arith, k))
    by_outcome failure s r f e g h k = (omega (arith, e, g, h), omega (arith, k))

-- A result is recorded as one outcome and as no attempt.
record_result-counts :
    (code_number : Option BusinessErrorCode → ℕ) (r : Result CreateBookingResult)
    (cs : List Counter)
    → CountsOne cs (record_result code_number r cs)
unfolding record_booking_success record_booking_failure
record_result-counts code_number (ok r) cs =
    outcome-CountsOne (if r.replayed then replayed else success) 0 cs
record_result-counts code_number (err e) cs =
    let labels = code_number (error_code e) in
    let counted = outcome-CountsOne failure labels cs in
    let still = λ (n : MetricName) (m : IsMain n).
      count_failure-total (error_code e) labels n (increment booking_failure_total labels 1 cs) m in
    let s = still booking_success_total (omega arith) in
    let r = still booking_replayed_total (omega arith) in
    let f = still booking_failure_total (omega arith) in
    let a = still booking_attempts_total (omega arith) in
    (omega (arith, s, r, f, counted.0), omega (arith, a, counted.1))

observed_items-counts :
    (t : Texts) (code_number : Option BusinessErrorCode → ℕ) (faults : ℕ → Option DriverError)
    (draws : ℕ → Draw) (user_id : ℕ) (request : CreateBookingDto) (key : ℕ)
    (items : Result (List NormalizedItem)) (db : Db) (cs : List Counter)
    → ((observed_items t code_number faults draws user_id request key items db cs).0
        ≡ execute_items t faults draws user_id request key items db)
      × (attempts_made cs
            + outcomes (observed_items t code_number faults draws user_id request key items db cs).1
          ≡ outcomes cs
            + attempts_made
                (observed_items t code_number faults draws user_id request key items db cs).1)
unfolding record_booking_attempt
observed_items-counts t code_number faults draws user_id request key (err e) db cs =
    (refl, omega arith)
observed_items-counts t code_number faults draws user_id request key (ok items) db cs =
    let add = λ (n : MetricName). total-increment booking_attempts_total n 0 1 cs in
    let s = add booking_success_total in
    let r = add booking_replayed_total in
    let f = add booking_failure_total in
    let a = add booking_attempts_total in
    let (one, same) =
      record_result-counts code_number
        (execute_items t faults draws user_id request key (ok items) db).0
        (increment booking_attempts_total 0 1 cs) in
    (refl, omega (arith, s, r, f, a, one, same))

-- Recording a booking request changes neither its answer nor its effect, and adds as many outcomes
-- (success, replay or failure) as attempts.
pub execute_observed-counts :
    (t : Texts) (code_number : Option BusinessErrorCode → ℕ) (faults : ℕ → Option DriverError)
    (draws : ℕ → Draw) (user_id : ℕ) (request : CreateBookingDto) (key : ℕ) (db : Db)
    (cs : List Counter)
    → ((execute_observed t code_number faults draws user_id request key db cs).0
        ≡ execute t faults draws user_id request key db)
      × (attempts_made cs
            + outcomes (execute_observed t code_number faults draws user_id request key db cs).1
          ≡ outcomes cs
            + attempts_made
                (execute_observed t code_number faults draws user_id request key db cs).1)
unfolding execute_observed execute
execute_observed-counts t code_number faults draws user_id request key db cs =
    observed_items-counts t code_number faults draws user_id request key
      (normalize_items t request.items) db cs
