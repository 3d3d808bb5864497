-- ===== src/Operation/Issuing.antt =====
-- A new voucher.
use geek_interview.Base.{
  ℕ, ◌≤◌, ◌<◌, ◌≡◌, sym, ap, ◌∙◌, true, false, not, ◌&&◌, ◌||◌, Option, none, ◌∷◌, arith, ltb, leb,
  ◌⊎◌, inl, inr, refl, some, List, ◌≢◌, All, All-mono, Any, Option-cases, if◌then◌else◌,
}
use geek_interview.Errors.{
  DriverError, business, bad_request, voucher_not_applicable, no_details, ok, err,
}
use geek_interview.Money.RoundTrip.{decimal_to_cents-cents_to_decimal}
use geek_interview.Money.{cents_to_decimal}
use geek_interview.Tables.{find, find_by}
use geek_interview.Tables.Members.{find-none-All, find_by-Any, Any-mono}
use geek_interview.Store.{
  Db, Voucher, Concert, TicketCategory, VoucherDiscountType, percent, fixed, active,
}
use geek_interview.Voucher.Eligibility.{is_other_concert}
use geek_interview.Booking.Request.{Texts}
use geek_interview.Booking.Read.{find_role}
use geek_interview.Operation.{run_once, or_rethrow}
use geek_interview.Operation.Running.{
  role_status, as_operator-eq-ok, run_once-eq-ok, or_rethrow-eq-ok,
}
use geek_interview.Operation.Inserting.{insert_scoped_voucher-Issued, some_inj}
use geek_interview.Operation.Vouchers.{
  CreateVoucherDto, VoucherOperationRow, is_percent, check_concert_scope, check_category_scope,
  new_voucher, voucher_row, meets_checks, is_same_voucher, insert_scoped_voucher, voucher_input,
  new_voucher_error, create_voucher,
}

-- The concert of the scope, if one is given, is there.
abbrev pub IsConcertScope : Option ℕ → List Concert → Type 0
IsConcertScope none concerts = Unit
IsConcertScope (some id) concerts = Any (λ c. c.id ≡ id) concerts

-- The concert of a category is that of the scope, if one is given.
abbrev pub AgreesWith : Option ℕ → ℕ → Type 0
AgreesWith none concert_id = Unit
AgreesWith (some id) concert_id = concert_id ≡ id

-- The category of the scope, if one is given, is there and agrees with the concert.
abbrev pub IsCategoryScope : Option ℕ → Option ℕ → List TicketCategory → Type 0
IsCategoryScope concert none categories = Unit
IsCategoryScope concert (some id) categories =
    Any (λ tc. (tc.id ≡ id) × AgreesWith concert tc.concert_id) categories

-- What the creation of a voucher has done.
pub record NewVoucher (t : Texts) (now id actor_id : ℕ) (request : CreateVoucherDto) (db : Db)
    (row : VoucherOperationRow) (db' : Db) : Type 0 where
  pub may : role_status (find_role actor_id db) ≡ none
  pub window : request.starts_at < request.expires_at
  pub ahead : now < request.expires_at
  pub limited : 1 ≤ request.usage_limit
  pub bounded : (request.discount_type ≡ fixed) ⊎ (request.discount_value ≤ 10000)
  pub new_code : All (λ v. (v.id ≢ id) × (v.code ≢ t.upper (t.trim request.code))) db.vouchers
  pub concert_known : IsConcertScope request.applicable_concert_id db.concerts
  pub category_known :
      IsCategoryScope request.applicable_concert_id request.applicable_ticket_category_id
        db.ticket_categories
  pub state : db' ≡ record db {
    vouchers =
        record {
          id = id;
          code = t.upper (t.trim request.code);
          discount_type = request.discount_type;
          discount_value = request.discount_value;
          usage_limit = request.usage_limit;
          used_count = 0;
          status = active;
          starts_at = request.starts_at;
          expires_at = request.expires_at;
          applicable_concert_id = request.applicable_concert_id;
          applicable_ticket_category_id = request.applicable_ticket_category_id;
        }
        ∷ db.vouchers;
  }
  pub answer : row ≡ record {
    id = id;
    code = t.upper (t.trim request.code);
    discount_type = request.discount_type;
    discount_value = cents_to_decimal request.discount_value;
    usage_limit = request.usage_limit;
    used_count = 0;
    status = active;
    starts_at = request.starts_at;
    expires_at = request.expires_at;
    applicable_concert_id = request.applicable_concert_id;
    applicable_ticket_category_id = request.applicable_ticket_category_id;
  }

check_concert_scope-IsConcertScope :
    (scope : Option ℕ) (db : Db)
    → check_concert_scope scope db ≡ ok (tt, db)
    → IsConcertScope scope db.concerts
unfolding check_concert_scope
check_concert_scope-IsConcertScope none db h = tt
check_concert_scope-IsConcertScope (some id) db h =
    elim (Option-cases (find_by (λ c. c.id) id db.concerts)) [
      | inl gone ↦ absurd (ground arith)
      | inr (c, e) ↦ Any-mono (λ x p. p.1) db.concerts (find_by-Any (λ c. c.id) id db.concerts e)
    ]

agrees : (scope : Option ℕ) (id : ℕ) → is_other_concert scope id ≡ false → AgreesWith scope id
agrees none id h = tt
agrees (some k) id h = ground arith

check_category_scope-IsCategoryScope :
    (concert scope : Option ℕ) (db : Db)
    → check_category_scope concert scope db ≡ ok (tt, db)
    → IsCategoryScope concert scope db.ticket_categories
unfolding check_category_scope
check_category_scope-IsCategoryScope concert none db h = tt
check_category_scope-IsCategoryScope concert (some id) db h =
    elim (Option-cases (find_by (λ tc. tc.id) id db.ticket_categories)) [
      | inl gone ↦ absurd (ground arith)
      | inr (tc, e) ↦
          let same : is_other_concert concert tc.concert_id ≡ false = ground arith in
          Any-mono (λ x p. (p.1, rw p.0 (agrees concert tc.concert_id same))) db.ticket_categories
            (find_by-Any (λ tc. tc.id) id db.ticket_categories e)
    ]

bounded_or_fixed :
    (kind : VoucherDiscountType) (value : ℕ)
    → (not (is_percent kind) || leb value 10000) ≡ true
    → (kind ≡ fixed) ⊎ (value ≤ 10000)
bounded_or_fixed percent value h = inr (ground arith)
bounded_or_fixed fixed value h = inl refl

no_clash :
    (id code : ℕ) (vs : List Voucher)
    → find (is_same_voucher id code) vs ≡ none
    → All (λ v. (v.id ≢ id) × (v.code ≢ code)) vs
no_clash id code vs e =
    All-mono (λ v miss. ((λ same. ground arith), (λ same. ground arith))) vs
      (find-none-All (is_same_voucher id code) vs e)

-- A voucher that is created: the actor is an operator or admin, no voucher has its id or its code, the
-- window is not empty and ends in the future, the limit is at least one, a percentage is at most 100,
-- the concert and the category of its scope, where they are given, are there and the category is one of
-- that concert; the voucher that is added to the table is ACTIVE, unused and otherwise as requested,
-- its code trimmed and in upper case, nothing else is changed, and the answer tells the same.
pub create_voucher-NewVoucher :
    (t : Texts) (fault : Option DriverError) (now id actor_id : ℕ) (request : CreateVoucherDto)
    (db db' : Db) (row : VoucherOperationRow)
    → create_voucher t fault now id actor_id request db ≡ (ok row, db')
    → NewVoucher t now id actor_id request db row db'
unfolding create_voucher
create_voucher-NewVoucher t fault now id actor_id request db db' row h =
    let (may, called) = as_operator-eq-ok actor_id _ db db' h in
    let (future, ran) = past_guards called in
    let i =
      insert_scoped_voucher-Issued id (voucher_input t request) db db'
        (run_once-eq-ok fault _ db db' (or_rethrow-eq-ok new_voucher_error _ ran)) in
    let value : i.value ≡ request.discount_value =
      some_inj (sym i.valued ∙ decimal_to_cents-cents_to_decimal request.discount_value) in
    let checks : meets_checks (new_voucher id (voucher_input t request) request.discount_value)
        ≡ true =
      rw (← value) i.checked in
    record {
      may = may;
      window = ground arith;
      ahead = ground arith;
      limited = ground arith;
      bounded = bounded_or_fixed request.discount_type request.discount_value (ground arith);
      new_code = no_clash id (t.upper (t.trim request.code)) db.vouchers i.new_code;
      concert_known =
          check_concert_scope-IsConcertScope request.applicable_concert_id db i.concert_known;
      category_known =
          check_category_scope-IsCategoryScope request.applicable_concert_id
            request.applicable_ticket_category_id db i.category_known;
      state =
          i.state
          ∙ ap
              (λ v. record db {
                vouchers = new_voucher id (voucher_input t request) v ∷ db.vouchers;
              })
              value;
      answer = i.answer ∙ ap (λ v. voucher_row (new_voucher id (voucher_input t request) v)) value;
    }
  where
    past_guards :
        (if leb request.expires_at request.starts_at || leb request.expires_at now
            then (err (business voucher_not_applicable bad_request no_details), db)
            else if is_percent request.discount_type && ltb 10000 request.discount_value
            then (err (business voucher_not_applicable bad_request no_details), db)
            else or_rethrow new_voucher_error
                (run_once fault (insert_scoped_voucher id (voucher_input t request)) db))
          ≡ (ok row, db')
        → (leb request.expires_at now ≡ false)
          × (or_rethrow new_voucher_error
                (run_once fault (insert_scoped_voucher id (voucher_input t request)) db)
              ≡ (ok row, db'))
    past_guards called = ground arith
