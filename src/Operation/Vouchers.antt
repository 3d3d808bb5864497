-- ===== src/Operation/Vouchers.antt =====
-- createVoucher of src/modules/operation/application/operation.service.ts and of
-- src/modules/operation/infrastructure/operation.repository.ts, with the constraints of `vouchers`.
-- `id` is what gen_random_uuid() draws.
use geek_interview.Base.{
  ℕ, Bool, true, false, not, ◌&&◌, ◌||◌, Option, none, some, List, ◌∷◌, ltb, leb, ◌==◌,
  if◌then◌else◌,
}
use geek_interview.Errors.{
  Exn, DriverError, business, http, plain, raw_failure, bad_request, not_found, conflict, s22003,
  s23505, s23514, voucher_not_applicable, voucher_code_conflict, missing_concert, missing_category,
  scope_mismatch, no_details, Result, err,
}
use geek_interview.Money.{cents_to_decimal}
use geek_interview.Tables.{find, find_by}
use geek_interview.Store.{
  Db, Voucher, VoucherDiscountType, percent, fixed, VoucherStatus, active, Tx, pure, throw_if,
  or_throw, gets, modify, ◌>>=◌, ◌>>◌,
}
use geek_interview.Inventory.{is_some}
use geek_interview.Voucher.Eligibility.{is_other_concert}
use geek_interview.Booking.Request.{Texts}
use geek_interview.Booking.Write.{cast_numeric}
use geek_interview.Operation.{as_operator, run_once, or_rethrow, is_database_constraint}
use geek_interview.Operation.Concerts.{integer_limit}

-- The value is the number with two decimals that the DTO admits, in hundredths.
pub record CreateVoucherDto : Type 0 where
  pub code : ℕ
  pub discount_type : VoucherDiscountType
  pub discount_value : ℕ
  pub usage_limit : ℕ
  pub starts_at : ℕ
  pub expires_at : ℕ
  pub applicable_concert_id : Option ℕ
  pub applicable_ticket_category_id : Option ℕ

-- What the repository is given: `discount_value` is a text.
pub record VoucherInput : Type 0 where
  pub code : ℕ
  pub discount_type : VoucherDiscountType
  pub discount_value : List ℕ
  pub usage_limit : ℕ
  pub starts_at : ℕ
  pub expires_at : ℕ
  pub applicable_concert_id : Option ℕ
  pub applicable_ticket_category_id : Option ℕ

pub record VoucherOperationRow : Type 0 where
  pub id : ℕ
  pub code : ℕ
  pub discount_type : VoucherDiscountType
  pub discount_value : List ℕ
  pub usage_limit : ℕ
  pub used_count : ℕ
  pub status : VoucherStatus
  pub starts_at : ℕ
  pub expires_at : ℕ
  pub applicable_concert_id : Option ℕ
  pub applicable_ticket_category_id : Option ℕ

abbrev pub is_percent : VoucherDiscountType → Bool
is_percent percent = true
is_percent fixed = false

unfoldable pub check_concert_scope : Option ℕ → Tx (Unit {0})
check_concert_scope none = pure tt
check_concert_scope (some id) = do
  row ← gets (λ db. find_by (λ c. c.id) id db.concerts)
  _ ← or_throw row (plain missing_concert)
  pure tt

unfoldable pub check_category_scope : Option ℕ → Option ℕ → Tx (Unit {0})
check_category_scope concert_id none = pure tt
check_category_scope concert_id (some id) = do
  row ← gets (λ db. find_by (λ tc. tc.id) id db.ticket_categories)
  category ← or_throw row (plain missing_category)
  throw_if (is_other_concert concert_id category.concert_id) (plain scope_mismatch)

abbrev pub new_voucher : ℕ → VoucherInput → ℕ → Voucher
new_voucher id input value = record {
  id = id;
  code = input.code;
  discount_type = input.discount_type;
  discount_value = value;
  usage_limit = input.usage_limit;
  used_count = 0;
  status = active;
  starts_at = input.starts_at;
  expires_at = input.expires_at;
  applicable_concert_id = input.applicable_concert_id;
  applicable_ticket_category_id = input.applicable_ticket_category_id;
}

abbrev pub voucher_row : Voucher → VoucherOperationRow
voucher_row v = record {
  id = v.id;
  code = v.code;
  discount_type = v.discount_type;
  discount_value = cents_to_decimal v.discount_value;
  usage_limit = v.usage_limit;
  used_count = v.used_count;
  status = v.status;
  starts_at = v.starts_at;
  expires_at = v.expires_at;
  applicable_concert_id = v.applicable_concert_id;
  applicable_ticket_category_id = v.applicable_ticket_category_id;
}

-- The checks of the table: a limit of at least one, an end after the start, at most 100 percent.
abbrev pub meets_checks : Voucher → Bool
meets_checks v =
    leb 1 v.usage_limit
    && (ltb v.starts_at v.expires_at
        && (not (is_percent v.discount_type) || leb v.discount_value 10000))

-- The keys of `vouchers`: the id and the code.
abbrev pub is_same_voucher : ℕ → ℕ → Voucher → Bool
is_same_voucher id code v = (v.id == id) || (v.code == code)

unfoldable pub insert_voucher : ℕ → VoucherInput → Tx Voucher
insert_voucher id input = do
  value ← cast_numeric input.discount_value
  throw_if (leb integer_limit input.usage_limit) (raw_failure s22003)
  throw_if (not (meets_checks (new_voucher id input value))) (raw_failure s23514)
  clash ← gets (λ db. find (is_same_voucher id input.code) db.vouchers)
  throw_if (is_some clash) (raw_failure s23505)
  modify (λ db. record db { vouchers = new_voucher id input value ∷ db.vouchers })
  pure (new_voucher id input value)

unfoldable pub insert_scoped_voucher : ℕ → VoucherInput → Tx VoucherOperationRow
insert_scoped_voucher id input = do
  check_concert_scope input.applicable_concert_id
  check_category_scope input.applicable_concert_id input.applicable_ticket_category_id
  v ← insert_voucher id input
  pure (voucher_row v)

-- `code.trim().toUpperCase()` and `discountValue.toFixed(2)`
abbrev pub voucher_input : Texts → CreateVoucherDto → VoucherInput
voucher_input t request = record {
  code = t.upper (t.trim request.code);
  discount_type = request.discount_type;
  discount_value = cents_to_decimal request.discount_value;
  usage_limit = request.usage_limit;
  starts_at = request.starts_at;
  expires_at = request.expires_at;
  applicable_concert_id = request.applicable_concert_id;
  applicable_ticket_category_id = request.applicable_ticket_category_id;
}

abbrev pub new_voucher_error : Exn → Exn
new_voucher_error (plain missing_concert) = http not_found
new_voucher_error (plain missing_category) = http not_found
new_voucher_error (plain scope_mismatch) = business voucher_not_applicable bad_request no_details
new_voucher_error e =
    if is_database_constraint e then business voucher_code_conflict conflict no_details else e

unfoldable pub create_voucher :
    Texts → Option DriverError → ℕ → ℕ → ℕ → CreateVoucherDto → Db → Result VoucherOperationRow × Db
create_voucher t fault now id actor_id request = as_operator actor_id λ db.
    if leb request.expires_at request.starts_at || leb request.expires_at now
    then (err (business voucher_not_applicable bad_request no_details), db)
    else if is_percent request.discount_type && ltb 10000 request.discount_value
    then (err (business voucher_not_applicable bad_request no_details), db)
    else or_rethrow new_voucher_error
        (run_once fault (insert_scoped_voucher id (voucher_input t request)) db)
