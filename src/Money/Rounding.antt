-- ===== src/Money/Rounding.antt =====
-- Percentages: `percentageDiscountCents` rounds to the nearest cent, a half upwards.
use geek_interview.Base.{ℕ, ◌+◌, ◌*◌, ◌/◌, ◌≤◌, ◌<◌, ◌≡◌, some, List, arith}
use geek_interview.Money.{decimal_to_cents, percentage_discount_cents}

-- A percentage that reads as `p` hundredths takes off the nearest whole number of cents to
-- `subtotal * p / 10000`, a half rounded up.
pub percentage_discount_cents_nearest :
    (subtotal p : ℕ) (percent : List ℕ)
    → decimal_to_cents percent ≡ some p
    → (r : ℕ) × (percentage_discount_cents subtotal percent ≡ some r)
      × (2 * (r * 10000) ≤ 2 * (subtotal * p) + 10000)
      × (2 * (subtotal * p) < 2 * (r * 10000) + 10000)
unfolding percentage_discount_cents
percentage_discount_cents_nearest subtotal p percent e =
    ((subtotal * p + 5000) / 10000, rw e, omega arith, omega arith)

-- Up to 100.00 percent the discount is at most the subtotal.
pub percentage_discount_cents-le :
    (subtotal p r : ℕ) (percent : List ℕ)
    → decimal_to_cents percent ≡ some p
    → p ≤ 10000
    → percentage_discount_cents subtotal percent ≡ some r
    → r ≤ subtotal
unfolding percentage_discount_cents
percentage_discount_cents-le subtotal p r percent e small h =
    let bound : subtotal * p ≤ subtotal * 10000 = grind arith in ground (arith, e, bound)
