-- ===== src/Tests/Parts.antt =====
-- Runs of the model's parts.
use geek_interview.Base.{
  ℕ, ◌+◌, ◌*◌, ◌≤◌, ◌<◌, ◌≡◌, refl, Option, none, some, [], ◌∷◌, arith, ◌&&◌, ◌==◌, if◌then◌else◌,
}
use geek_interview.Domain.{reserved, confirm, cancel, transition_failure}
use geek_interview.Errors.{ok, DriverError, s40001}
use geek_interview.Tables.{find_by, sort_by, insert_by, select}
use geek_interview.Store.{Inventory, matches_identifier, percent, pure, reservation_expired}
use geek_interview.Samples.{held_booking, stock_row, sample, sample-Inv}
use geek_interview.Money.{
  decimal_to_cents, cents_to_decimal, percentage_discount_cents, split_dot, trim, trim_start,
  trim_end,
}
use geek_interview.Money.Digits.{is_digit, digits_value, all_digits}
use geek_interview.Money.RoundTrip.{decimal_to_cents-cents_to_decimal}
use geek_interview.Money.Rounding.{percentage_discount_cents_nearest}
use geek_interview.Voucher.Discount.{calculate_voucher_discount_cents}
use geek_interview.Voucher.Quota.{QuotaReleased, release_for_booking_quota}
use geek_interview.Transaction.{with_transaction, attempt_of, commit}
use geek_interview.Transaction.Retries.{Decides, with_transaction-Decides}
use geek_interview.Inventory.{items_of, release_for_booking}
use geek_interview.Inventory.Stock.{category_of}
use geek_interview.Inventory.Releasing.{Released, release_for_booking_total}
use geek_interview.Booking.Transitions.{is_open_owned, is_owned_by}
use geek_interview.Booking.Refusals.{is_none, is_open_owned-transition_failure}

decimal_to_cents-cents_to_decimal_example : decimal_to_cents (cents_to_decimal 12305) ≡ some 12305
decimal_to_cents-cents_to_decimal_example = decimal_to_cents-cents_to_decimal 12305

-- `12.50`
twelve_and_a_half : decimal_to_cents (b'1' ∷ b'2' ∷ b'.' ∷ b'5' ∷ []) ≡ some 1250
unfolding decimal_to_cents split_dot trim trim_start trim_end is_digit digits_value all_digits
twelve_and_a_half = refl

percentage_discount_cents_nearest_example :
    (r : ℕ) × (percentage_discount_cents 999 (b'1' ∷ b'2' ∷ b'.' ∷ b'5' ∷ []) ≡ some r)
    × (2 * (r * 10000) ≤ 2 * (999 * 1250) + 10000)
    × (2 * (999 * 1250) < 2 * (r * 10000) + 10000)
percentage_discount_cents_nearest_example =
    percentage_discount_cents_nearest 999 1250 (b'1' ∷ b'2' ∷ b'.' ∷ b'5' ∷ []) twelve_and_a_half

eighth_off : percentage_discount_cents 999 (b'1' ∷ b'2' ∷ b'.' ∷ b'5' ∷ []) ≡ some 125
unfolding percentage_discount_cents decimal_to_cents split_dot trim trim_start trim_end is_digit
    digits_value all_digits
eighth_off = refl

discount_of_999 :
    calculate_voucher_discount_cents 999
      (record { discount_type = percent; discount_value = b'1' ∷ b'2' ∷ b'.' ∷ b'5' ∷ [] })
    ≡ some 125
unfolding calculate_voucher_discount_cents percentage_discount_cents decimal_to_cents split_dot trim
    trim_start trim_end is_digit digits_value all_digits
discount_of_999 = refl

is_open_owned-transition_failure_example :
    (is_open_owned 500 2 51 held_booking ≡ (
      is_owned_by 2 held_booking
      && (matches_identifier 51 held_booking
          && is_none (transition_failure reserved confirm 1000 500))))
    × (is_none (transition_failure reserved confirm 1000 500)
        ≡ is_none (transition_failure reserved cancel 1000 500))
is_open_owned-transition_failure_example = is_open_owned-transition_failure 500 2 51 held_booking

-- The first attempt of three meets a serialization failure.
abbrev first_fails : ℕ → Option DriverError
first_fails n = if n == 1 then some (record { code = some s40001; meta_code = none }) else none

with_transaction-Decides_example :
    (n : ℕ) × Decides (attempt_of first_fails (λ n. pure n) sample) 1 3 n
    × (with_transaction first_fails (λ n. pure n) (some 3) sample
        ≡ commit sample (attempt_of first_fails (λ n. pure n) sample n))
with_transaction-Decides_example =
    with_transaction-Decides first_fails (λ n. pure n) (some 3) sample

stock_row_found : find_by category_of 20 sample.inventories ≡ some stock_row
unfolding find_by
stock_row_found = refl

too_few :
    (i : Inventory) → find_by category_of 20 sample.inventories ≡ some i → i.available_quantity < 8
unfolding find_by
too_few i e = ground arith

release_for_booking_total_example :
    (r : Released (items_of 50 sample.booking_items) 0 (λ _. 0) sample) × (release_for_booking 50
        sample
      ≡ ok (r.count, record sample { inventories = r.rows }))
unfolding items_of select sort_by insert_by find_by
release_for_booking_total_example =
    release_for_booking_total 50 (λ _. 0) sample sample-Inv.stock.unique ((λ e. ground arith), tt)
      (λ c i e. ground arith)

release_for_booking_quota_example : QuotaReleased 2000 50 reservation_expired sample
release_for_booking_quota_example =
    release_for_booking_quota 2000 50 reservation_expired sample sample-Inv.quota
