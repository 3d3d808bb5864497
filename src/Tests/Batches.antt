-- ===== src/Tests/Batches.antt =====
-- Runs of the expiry worker's batches on the sample database.
use geek_interview.Base.{◌+◌, ◌-◌, ◌*◌, ◌≤◌, ◌≡◌, refl, false}
use geek_interview.Errors.{ok}
use geek_interview.Store.{Db}
use geek_interview.Samples.{sample, sample-Inv, world_at}
use geek_interview.Booking.Lifecycle.{expire_work, safe_limit}
use geek_interview.Booking.Invariant.{Inv}
use geek_interview.Booking.Draining.{
  least, overdue_count, free_overdue_count, batches, expire_work_exact, batches_drain,
}

expire_work_exact_example :
    (db' : Db) × (expire_work (λ _. false) 100 2000 2000 sample
      ≡ ok (least (safe_limit 100) (free_overdue_count (λ _. false) 2000 sample), db'))
    × Inv db'
    × (overdue_count 2000 db' + least (safe_limit 100) (free_overdue_count (λ _. false) 2000 sample)
        ≡ overdue_count 2000 sample)
    × (1 ≤ safe_limit 100)
    × (safe_limit 100 ≤ 500)
expire_work_exact_example = expire_work_exact 2000 2000 (λ _. false) sample sample-Inv 100

batches_drain_example :
    overdue_count 2000 (batches (world_at 2000) 2000 1 sample) ≡ overdue_count 2000 sample - 1 * 100
batches_drain_example = batches_drain (world_at 2000) 2000 1 sample sample-Inv (λ n. refl)
