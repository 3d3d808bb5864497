-- ===== src/Voucher/Eligibility.antt =====
-- src/modules/voucher/application/voucher-eligibility.ts
use geek_interview.Base.{
  ℕ, ◌≤◌, ◌<◌, ◌≡◌, ◌↔◌, Bool, true, false, not, ◌||◌, Option, none, some, List, arith, ltb, leb,
  ◌==◌, if◌then◌else◌,
}
use geek_interview.Errors.{VoucherPolicyErrorCode, not_applicable, not_started, expired, exhausted}
use geek_interview.Store.{VoucherStatus}
use geek_interview.Store
use geek_interview.Inventory.{includes}

pub record VoucherEligibilityInput : Type 0 where
  pub status : VoucherStatus
  pub starts_at : ℕ
  pub expires_at : ℕ
  pub now : ℕ
  pub used_count : ℕ
  pub usage_limit : ℕ
  pub applicable_concert_id : Option ℕ
  pub applicable_ticket_category_id : Option ℕ
  pub concert_id : ℕ
  pub category_ids : List ℕ

abbrev pub is_active : VoucherStatus → Bool
is_active Store.active = true
is_active _ = false

abbrev pub is_expired_status : VoucherStatus → Bool
is_expired_status Store.expired = true
is_expired_status _ = false

-- `applicableConcertId && applicableConcertId !== concertId`
abbrev pub is_other_concert : Option ℕ → ℕ → Bool
is_other_concert none concert_id = false
is_other_concert (some c) concert_id = not (c == concert_id)

-- `applicableTicketCategoryId && !categoryIds.includes(applicableTicketCategoryId)`
abbrev pub is_other_category : Option ℕ → List ℕ → Bool
is_other_category none category_ids = false
is_other_category (some c) category_ids = not (includes category_ids c)

unfoldable pub voucher_eligibility_failure : VoucherEligibilityInput → Option VoucherPolicyErrorCode
voucher_eligibility_failure input =
    if leb input.expires_at input.now || is_expired_status input.status
    then some expired
    else if ltb input.now input.starts_at
    then some not_started
    else if not (is_active input.status)
    then some not_applicable
    else if is_other_concert input.applicable_concert_id input.concert_id
        || is_other_category input.applicable_ticket_category_id input.category_ids
    then some not_applicable
    else if leb input.usage_limit input.used_count
    then some exhausted
    else none

-- A voucher is eligible exactly if it is active, within its validity window, in scope for the
-- concert and the categories, and below its usage limit.
pub voucher_eligibility_failure-none :
    (input : VoucherEligibilityInput)
    → (voucher_eligibility_failure input ≡ none) ↔ (
        (input.status ≡ Store.active)
        × (input.starts_at ≤ input.now)
        × (input.now < input.expires_at)
        × (input.used_count < input.usage_limit)
        × (is_other_concert input.applicable_concert_id input.concert_id ≡ false)
        × (is_other_category input.applicable_ticket_category_id input.category_ids ≡ false))
unfolding voucher_eligibility_failure
voucher_eligibility_failure-none input = ground arith
