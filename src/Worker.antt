-- ===== src/Worker.antt =====
-- src/workers/reservation-expiry/reservation-expiry.worker.ts: the timer's ticks and the batches that
-- they run, without log entries. A tick is two steps, since it awaits its batch: what it does before,
-- and its end, when the batch has committed or failed.
use geek_interview.Base.{
  ℕ, ◌+◌, ◌-◌, ◌≤◌, ◌≡◌, refl, Bool, true, false, List, arith, leb, if◌then◌else◌, inl, inr,
  Bool-cases,
}
use geek_interview.Errors.{Result, ok, err}
use geek_interview.Store.{Db}
use geek_interview.Metrics.{Counter, record_expiry}
use geek_interview.Booking.Lifecycle.{World, expire_batch}
use geek_interview.Booking.Invariant.{Inv}
use geek_interview.System.{Step, expires, Step-Inv}

-- `running`, and how many batches are under way.
pub record Worker : Type 0 where
  pub running : Bool
  pub in_flight : ℕ

abbrev pub idle : Worker
idle = record { running = false; in_flight = 0 }

-- `if (this.running) return; this.running = true;` and the call of `runOnce`
unfoldable pub start_tick : Worker → Worker
start_tick w = if w.running then w else record { running = true; in_flight = w.in_flight + 1 }

-- `finally { this.running = false; }`
unfoldable pub end_tick : Worker → Worker
end_tick w = record { running = false; in_flight = w.in_flight - 1 }

abbrev pub count_processed : Result ℕ → List Counter → List Counter
count_processed (ok processed) cs = record_expiry processed cs
count_processed (err e) cs = cs

-- `runOnce`
unfoldable pub run_once :
    World → (ℕ → ℕ → Bool) → ℕ → ℕ → Db → List Counter → (Result ℕ × Db) × List Counter
run_once w locked limit now db cs =
    let r = expire_batch w locked limit now db in (r, count_processed r.0 cs)

-- `limit = 100`
abbrev pub batch_limit : ℕ
batch_limit = 100

-- The process: its worker, its database, its counters.
pub record Process : Type 0 where
  pub worker : Worker
  pub db : Db
  pub counters : List Counter

-- The process after a batch, which has succeeded or failed.
abbrev pub after_batch : World → (ℕ → ℕ → Bool) → ℕ → Process → Process
after_batch w locked now p =
    let r = run_once w locked batch_limit now p.db p.counters in
    record { worker = end_tick p.worker; db = r.0.1; counters = r.1 }

-- Ticks come at any time, a batch that is under way ends at any time, and calls of the API come in
-- between.
pub data ProcessStep (p : Process) : Process → Type 0 where
  ticks : ProcessStep p (record p { worker = start_tick p.worker })
  ends :
      (w : World) (locked : ℕ → ℕ → Bool) (now : ℕ)
      → 1 ≤ p.worker.in_flight
      → ProcessStep p (after_batch w locked now p)
  calls : {db : Db} → Step p.db db → ProcessStep p (record p { db = db })

pub data ProcessSteps (p : Process) : Process → Type 0 where
  rests : ProcessSteps p p
  goes_on : {q r : Process} → ProcessSteps p q → ProcessStep q r → ProcessSteps p r

-- The flag tells whether a batch is under way, at most one is, and the database is well-formed.
pub record ProcessInv (p : Process) : Type 0 where
  pub one : p.worker.in_flight ≤ 1
  pub told : p.worker.running ≡ leb 1 p.worker.in_flight
  pub kept : Inv p.db

ProcessStep-ProcessInv : {p q : Process} → ProcessInv p → ProcessStep p q → ProcessInv q
unfolding start_tick end_tick run_once
ProcessStep-ProcessInv {p} inv ticks =
    let one = inv.one in
    let told = inv.told in
    elim (Bool-cases p.worker.running) [
      | inl busy ↦ record {
        one = rw (start_tick, busy) one;
        told = rw (start_tick, busy) (ground arith);
        kept = inv.kept;
      }
      | inr free ↦ record {
        one = rw (start_tick, free) (ground arith);
        told = rw (start_tick, free) (ground arith);
        kept = inv.kept;
      }
    ]
ProcessStep-ProcessInv {p} inv (ends w locked now under_way) =
    let one = inv.one in
    record {
      one = omega arith;
      told = ground arith;
      kept = Step-Inv inv.kept (expires w locked batch_limit now);
    }
ProcessStep-ProcessInv {p} inv (calls step) = record {
  one = inv.one;
  told = inv.told;
  kept = Step-Inv inv.kept step;
}

-- However ticks, ends of batches and calls of the API follow each other, from an idle worker and a
-- database with the invariant: at most one batch is under way, the flag tells whether one is, and the
-- database keeps the invariant.
pub ProcessSteps-ProcessInv :
    {p q : Process} → p.worker ≡ idle → Inv p.db → ProcessSteps p q → ProcessInv q
ProcessSteps-ProcessInv {p} at_rest inv rests = record {
  one = rw at_rest (omega arith);
  told = rw at_rest refl;
  kept = inv;
}
ProcessSteps-ProcessInv at_rest inv (goes_on steps step) =
    ProcessStep-ProcessInv (ProcessSteps-ProcessInv at_rest inv steps) step
