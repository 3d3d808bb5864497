-- ===== src/Voucher/Reservation.antt =====
-- src/modules/voucher/infrastructure/voucher-reservation.repository.ts
use geek_interview.Base.{
  ℕ, ◌+◌, ◌-◌, Bool, true, false, not, ◌&&◌, Option, none, some, List, ◌∷◌, ltb, leb, ◌==◌,
}
use geek_interview.Errors.{
  VoucherPolicyErrorCode, not_applicable, exhausted, already_redeemed, voucher_policy, plain,
  voucher_release_violated, raw_failure, s23505, ok,
}
use geek_interview.Money.{cents_to_decimal}
use geek_interview.Tables.{find, find_by, update_where, count_where}
use geek_interview.Inventory.{is_some}
use geek_interview.Store.{
  Voucher, VoucherDiscountType, Redemption, RedemptionStatus, ReleaseReason, reserved, consumed,
  released, Tx, pure, throw, throw_if, or_throw, gets, modify, ◌>>=◌, ◌>>◌,
}
use geek_interview.Voucher.Eligibility.{
  VoucherEligibilityInput, voucher_eligibility_failure, is_active,
}

-- `ReservedVoucherRow`: `discount_value::text` prints two decimals.
pub record ReservedVoucherRow : Type 0 where
  pub id : ℕ
  pub code : ℕ
  pub discount_type : VoucherDiscountType
  pub discount_value : List ℕ

-- `status <> 'RELEASED'`
abbrev pub is_held : RedemptionStatus → Bool
is_held released = false
is_held _ = true

abbrev pub is_pending : RedemptionStatus → Bool
is_pending reserved = true
is_pending _ = false

abbrev pub use_voucher : Voucher → Voucher
use_voucher v = record v { used_count = v.used_count + 1 }

abbrev pub unuse_voucher : Voucher → Voucher
unuse_voucher v = record v { used_count = v.used_count - 1 }

abbrev pub eligibility_input : Voucher → ℕ → ℕ → List ℕ → VoucherEligibilityInput
eligibility_input v now concert_id category_ids = record {
  status = v.status;
  starts_at = v.starts_at;
  expires_at = v.expires_at;
  now = now;
  used_count = v.used_count;
  usage_limit = v.usage_limit;
  applicable_concert_id = v.applicable_concert_id;
  applicable_ticket_category_id = v.applicable_ticket_category_id;
  concert_id = concert_id;
  category_ids = category_ids;
}

-- The guards of the UPDATE, at the transaction's `NOW()`.
abbrev pub is_usable : ℕ → ℕ → Voucher → Bool
is_usable id now v =
    (v.id == id)
    && (is_active v.status
        && (leb v.starts_at now && (ltb now v.expires_at && ltb v.used_count v.usage_limit)))

abbrev pub holds_voucher : ℕ → ℕ → Redemption → Bool
holds_voucher voucher_id user_id r =
    (r.voucher_id == voucher_id) && ((r.user_id == user_id) && is_held r.status)

abbrev pub throw_failure : Option VoucherPolicyErrorCode → Tx (Unit {0})
throw_failure none = pure tt
throw_failure (some code) = throw (voucher_policy code)

abbrev pub or_else : Option VoucherPolicyErrorCode → VoucherPolicyErrorCode → VoucherPolicyErrorCode
or_else none code = code
or_else (some code) _ = code

abbrev pub reserved_row : Voucher → ReservedVoucherRow
reserved_row v = record {
  id = v.id;
  code = v.code;
  discount_type = v.discount_type;
  discount_value = cents_to_decimal v.discount_value;
}

-- The UPDATE of the counter, which returns the row that it changed.
unfoldable pub count_use : ℕ → ℕ → Tx (Option Voucher)
count_use id now db = ok (
  find (is_usable id now) db.vouchers,
  record db { vouchers = update_where (is_usable id now) use_voucher db.vouchers },
)

-- `date_now` and `date_later` are the two readings of `new Date()`, `now` is the transaction's `NOW()`.
unfoldable pub reserve : ℕ → ℕ → ℕ → ℕ → ℕ → ℕ → List ℕ → Tx ReservedVoucherRow
reserve now date_now date_later code user_id concert_id category_ids = do
  row ← gets (λ db. find (λ v. v.code == code) db.vouchers)
  voucher ← or_throw row (voucher_policy not_applicable)
  throw_failure
      (voucher_eligibility_failure (eligibility_input voucher date_now concert_id category_ids))
  redemption ← gets (λ db. find (holds_voucher voucher.id user_id) db.redemptions)
  throw_if (is_some redemption) (voucher_policy already_redeemed)
  updated ← count_use voucher.id now
  v ← or_throw updated (
      voucher_policy (
        or_else
          (voucher_eligibility_failure
            (eligibility_input voucher date_later concert_id category_ids))
          exhausted))
  pure (reserved_row v)

-- The table's unique keys: one redemption for a booking, one that is held for a voucher and user.
unfoldable pub insert_redemption : ℕ → ℕ → ℕ → Tx (Unit {0})
insert_redemption voucher_id user_id booking_id = do
  taken ← gets (λ db. find_by (λ r. r.booking_id) booking_id db.redemptions)
  throw_if (is_some taken) (raw_failure s23505)
  held ← gets (λ db. find (holds_voucher voucher_id user_id) db.redemptions)
  throw_if (is_some held) (raw_failure s23505)
  modify λ db. record db { redemptions = new_row ∷ db.redemptions }
  where
    new_row : Redemption
    new_row = record {
      voucher_id = voucher_id;
      user_id = user_id;
      booking_id = booking_id;
      status = reserved;
      released_at = none;
      released_reason = none;
    }

-- `WHERE booking_id = … AND status = 'RESERVED'`
abbrev pub is_pending_for : ℕ → Redemption → Bool
is_pending_for booking_id r = (r.booking_id == booking_id) && is_pending r.status

abbrev pub consume : Redemption → Redemption
consume r = record r { status = consumed }

abbrev pub give_back : ℕ → ReleaseReason → Redemption → Redemption
give_back now reason r = record r {
  status = released;
  released_at = some now;
  released_reason = some reason;
}

unfoldable pub consume_for_booking : ℕ → Tx Bool
consume_for_booking booking_id db = ok (
  count_where (is_pending_for booking_id) db.redemptions == 1,
  record db { redemptions = update_where (is_pending_for booking_id) consume db.redemptions },
)

abbrev pub is_used : ℕ → Voucher → Bool
is_used id v = (v.id == id) && ltb 0 v.used_count

-- The UPDATE of the redemption, with the voucher of the first row that it returns.
unfoldable pub mark_released : ℕ → ℕ → ReleaseReason → Tx (Option Redemption)
mark_released now booking_id reason db = ok (
  find (is_pending_for booking_id) db.redemptions,
  record db {
    redemptions = update_where (is_pending_for booking_id) (give_back now reason) db.redemptions;
  },
)

-- The UPDATE of the counter, with the number of rows that it changed.
unfoldable pub uncount_use : ℕ → Tx ℕ
uncount_use id db = ok (
  count_where (is_used id) db.vouchers,
  record db { vouchers = update_where (is_used id) unuse_voucher db.vouchers },
)

abbrev pub release_counted : Option Redemption → Tx Bool
release_counted none = pure false
release_counted (some r) = do
  count ← uncount_use r.voucher_id
  throw_if (not (count == 1)) (plain voucher_release_violated)
  pure true

unfoldable pub release_for_booking : ℕ → ℕ → ReleaseReason → Tx Bool
release_for_booking now booking_id reason = do
  row ← mark_released now booking_id reason
  release_counted row
