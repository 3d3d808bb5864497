-- ===== src/Voucher/Discount.antt =====
-- src/modules/voucher/application/voucher-discount.ts
use geek_interview.Base.{
  ℕ, ◌≤◌, ◌≡◌, Option, some, List, arith, ltb, if◌then◌else◌, Option-cases, inl, inr,
}
use geek_interview.Money.{decimal_to_cents, percentage_discount_cents, cents_to_decimal}
use geek_interview.Money.Digits.{◌⟫◌}
use geek_interview.Store.{VoucherDiscountType, percent, fixed}

pub record VoucherDiscountInput : Type 0 where
  pub discount_type : VoucherDiscountType
  pub discount_value : List ℕ

abbrev pub requested_discount : ℕ → VoucherDiscountType → List ℕ → Option ℕ
requested_discount subtotal percent value = percentage_discount_cents subtotal value
requested_discount subtotal fixed value = decimal_to_cents value

-- `none` is the error that `decimalToCents` throws on a malformed value.
unfoldable pub calculate_voucher_discount_cents : ℕ → VoucherDiscountInput → Option ℕ
calculate_voucher_discount_cents subtotal voucher =
    requested_discount subtotal voucher.discount_type voucher.discount_value ⟫ λ requested.
    some (if ltb subtotal requested then subtotal else requested)

unfoldable pub calculate_voucher_discount : List ℕ → VoucherDiscountInput → Option (List ℕ)
calculate_voucher_discount subtotal voucher = decimal_to_cents subtotal ⟫ λ cents.
    calculate_voucher_discount_cents cents voucher ⟫ λ discount. some (cents_to_decimal discount)

-- A discount is never larger than the subtotal.
pub calculate_voucher_discount_cents-le :
    (subtotal : ℕ) (voucher : VoucherDiscountInput) {d : ℕ}
    → calculate_voucher_discount_cents subtotal voucher ≡ some d
    → d ≤ subtotal
unfolding calculate_voucher_discount_cents
calculate_voucher_discount_cents-le subtotal voucher {d} h =
    elim (Option-cases (requested_discount subtotal voucher.discount_type voucher.discount_value)) [
      | inl e ↦ ground arith
      | inr (r, e) ↦ ground arith
    ]
