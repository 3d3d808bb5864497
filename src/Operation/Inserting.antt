-- ===== src/Operation/Inserting.antt =====
-- The transaction of a new voucher.
use mathlib.Core.Path.{subst}
use geek_interview.Base.{
  ℕ, ◌≡◌, sym, ap, ◌∙◌, true, Option, none, some, ◌∷◌, arith, inl, inr, Option-cases,
}
use geek_interview.Errors.{ok}
use geek_interview.Money.{decimal_to_cents}
use geek_interview.Tables.{find, find_by}
use geek_interview.Store.{Db, Voucher, >>=-eq-ok}
use geek_interview.Booking.Write.{cast_numeric}
use geek_interview.Operation.Vouchers.{
  VoucherInput, VoucherOperationRow, check_concert_scope, check_category_scope, new_voucher,
  voucher_row, meets_checks, is_same_voucher, insert_voucher, insert_scoped_voucher,
}

ok_inj : {A : Type 0} {a b : A} → ok a ≡ ok b → a ≡ b
ok_inj h = cc

pub some_inj : {A : Type 0} {a b : A} → some a ≡ some b → a ≡ b
some_inj h = cc

-- What the transaction of a new voucher has done.
pub record Issued (id : ℕ) (input : VoucherInput) (db : Db) (row : VoucherOperationRow) (db' : Db)
    : Type 0 where
  pub value : ℕ
  pub valued : decimal_to_cents input.discount_value ≡ some value
  pub checked : meets_checks (new_voucher id input value) ≡ true
  pub new_code : find (is_same_voucher id input.code) db.vouchers ≡ none
  pub concert_known : check_concert_scope input.applicable_concert_id db ≡ ok (tt, db)
  pub category_known :
      check_category_scope input.applicable_concert_id input.applicable_ticket_category_id db
      ≡ ok (tt, db)
  pub state : db' ≡ record db { vouchers = new_voucher id input value ∷ db.vouchers }
  pub answer : row ≡ voucher_row (new_voucher id input value)

check_concert_scope-state :
    (id : Option ℕ) (db db' : Db) → check_concert_scope id db ≡ ok (tt, db') → db' ≡ db
unfolding check_concert_scope
check_concert_scope-state none db db' h = ground arith
check_concert_scope-state (some id) db db' h =
    elim (Option-cases (find_by (λ c. c.id) id db.concerts)) [
      | inl gone ↦ absurd (ground arith)
      | inr (c, e) ↦ ground arith
    ]

check_category_scope-state :
    (concert id : Option ℕ) (db db' : Db)
    → check_category_scope concert id db ≡ ok (tt, db')
    → db' ≡ db
unfolding check_category_scope
check_category_scope-state concert none db db' h = ground arith
check_category_scope-state concert (some id) db db' h =
    elim (Option-cases (find_by (λ tc. tc.id) id db.ticket_categories)) [
      | inl gone ↦ absurd (ground arith)
      | inr (c, e) ↦ ground arith
    ]

insert_voucher-eq-ok :
    (id : ℕ) (input : VoucherInput) (db db' : Db) {v : Voucher}
    → insert_voucher id input db ≡ ok (v, db')
    → (value : ℕ) × (decimal_to_cents input.discount_value ≡ some value)
      × (meets_checks (new_voucher id input value) ≡ true)
      × (find (is_same_voucher id input.code) db.vouchers ≡ none)
      × (db' ≡ record db { vouchers = new_voucher id input value ∷ db.vouchers })
      × (v ≡ new_voucher id input value)
unfolding insert_voucher cast_numeric
insert_voucher-eq-ok id input db db' {v} h =
    elim (Option-cases (decimal_to_cents input.discount_value)) [
      | inl bad ↦ absurd (ground arith)
      | inr (value, p) ↦ elim (Option-cases (find (is_same_voucher id input.code) db.vouchers)) [
        | inr (clash, k) ↦ absurd (ground arith)
        | inl new_code ↦ (value, p, ground arith, new_code, ground arith, ground arith)
      ]
    ]

pub insert_scoped_voucher-Issued :
    (id : ℕ) (input : VoucherInput) (db db' : Db) {row : VoucherOperationRow}
    → insert_scoped_voucher id input db ≡ ok (row, db')
    → Issued id input db row db'
unfolding insert_scoped_voucher
insert_scoped_voucher-Issued id input db db' {row} h =
    let (u, d1, e1, h1) = >>=-eq-ok (check_concert_scope input.applicable_concert_id) _ db h in
    let s1 = check_concert_scope-state input.applicable_concert_id db d1 e1 in
    let (w, d2, e2, h2) =
      >>=-eq-ok
        (check_category_scope input.applicable_concert_id input.applicable_ticket_category_id) _ d1
        h1 in
    let s2 =
      check_category_scope-state input.applicable_concert_id input.applicable_ticket_category_id d1
        d2 e2 in
    let (v, d3, e3, h3) = >>=-eq-ok (insert_voucher id input) _ d2 h2 in
    let (value, valued, checked, new_code, state, made) =
      insert_voucher-eq-ok id input db d3 {v = v}
        (subst (λ d. insert_voucher id input d ≡ ok (v, d3)) (s2 ∙ s1) e3) in
    record {
      value = value;
      valued = valued;
      checked = checked;
      new_code = new_code;
      concert_known = e1 ∙ ap (λ d. ok (tt, d)) s1;
      category_known =
          sym (
            ap
              (check_category_scope input.applicable_concert_id input.applicable_ticket_category_id)
              s1)
          ∙ e2
          ∙ ap (λ d. ok (tt, d)) (s2 ∙ s1);
      state = sym (ap (λ (r : VoucherOperationRow × Db). r.1) (ok_inj h3)) ∙ state;
      answer = sym (ap (λ (r : VoucherOperationRow × Db). r.0) (ok_inj h3)) ∙ ap voucher_row made;
    }
