-- ===== src/Operation/Keeping.antt =====
-- A new voucher keeps the invariant of the database.
use mathlib.Core.Path.{subst}
use geek_interview.Base.{
  ℕ, ◌≤◌, ◌≡◌, ◌≢◌, refl, sym, ◌&&◌, ◌||◌, Option, none, some, List, [], ◌∷◌, All, All-mono, arith,
  ltb, leb, ◌==◌, ==→eq, inl, inr, Bool-cases,
}
use geek_interview.Errors.{DriverError}
use geek_interview.Tables.{find, find_by}
use geek_interview.Store.{Db, Voucher, Redemption}
use geek_interview.Voucher.Quota.{QuotaInv, voucher_key, uses}
use geek_interview.Booking.Invariant.{Inv}
use geek_interview.Booking.Request.{Texts}
use geek_interview.Operation.Running.{as_operator_keeps, run_once_keeps, or_rethrow-state}
use geek_interview.Operation.Inserting.{Issued, insert_scoped_voucher-Issued}
use geek_interview.Operation.Vouchers.{
  CreateVoucherDto, VoucherInput, VoucherOperationRow, is_percent, new_voucher, is_same_voucher,
  insert_scoped_voucher, voucher_input, new_voucher_error, create_voucher,
}

uses-absent :
    (id : ℕ) (vs : List Voucher) (rs : List Redemption)
    → find_by voucher_key id vs ≡ none
    → All (λ r. find_by voucher_key r.voucher_id vs ≢ none) rs
    → uses id rs ≡ 0
uses-absent id vs [] gone known = refl
uses-absent id vs (r ∷ rs) gone known = elim (Bool-cases (r.voucher_id == id)) [
  | inl same ↦ absurd (known.0 (rw (==→eq _ _ same) gone))
  | inr other ↦ rw other (ground (arith, uses-absent id vs rs gone known.1))
]

-- No voucher with the key of a new one: none with its id.
pub new_id :
    (id code : ℕ) (vs : List Voucher)
    → find (is_same_voucher id code) vs ≡ none
    → find_by voucher_key id vs ≡ none
unfolding find find_by
new_id id code [] e = refl
new_id id code (v ∷ vs) e = ground (arith, new_id id code vs)

module _ (new : Voucher) (vs : List Voucher) (rs : List Redemption) (q : QuotaInv vs rs (λ _. 0))
    (unused : new.used_count ≡ 0) (absent : find_by voucher_key new.id vs ≡ none) where
  counted_found :
      (id : ℕ) (v : Voucher)
      → find_by voucher_key id (new ∷ vs) ≡ some v
      → (v.used_count ≡ uses id rs) × (v.used_count ≤ v.usage_limit)
  unfolding find_by
  counted_found id v e = elim (Bool-cases (new.id == id)) [
    | inl same ↦
        let key : new.id ≡ id = ground arith in
        let here : new ≡ v = ground arith in
        let no_use : uses id rs ≡ 0 = rw (← key) (uses-absent new.id vs rs absent q.known) in
        rw (← here, unused, no_use) (refl, omega arith)
    | inr other ↦
        let there : find_by voucher_key id vs ≡ some v = ground arith in
        (omega (arith, q.counted id v there), q.limited id v there)
  ]

  still_known :
      (id : ℕ) → find_by voucher_key id vs ≢ none → find_by voucher_key id (new ∷ vs) ≢ none
  unfolding find_by
  still_known id h e = ground (arith, h)

  -- A new voucher has no redemptions.
  QuotaInv-issued : QuotaInv (new ∷ vs) rs (λ _. 0)
  QuotaInv-issued = record {
    unique_vouchers = (absent, q.unique_vouchers);
    unique_redemptions = q.unique_redemptions;
    known = All-mono (λ r h. still_known r.voucher_id h) rs q.known;
    counted = λ id v e. omega (arith, (counted_found id v e).0);
    limited = λ id v e. (counted_found id v e).1;
    single = q.single;
  }

Issued-Inv :
    {id : ℕ} {input : VoucherInput} {db db' : Db} {row : VoucherOperationRow}
    → Inv db
    → Issued id input db row db'
    → Inv db'
Issued-Inv {id} {input} {db} inv i = subst Inv (sym i.state) (record {
  stock = record {
    identified = inv.stock.identified;
    unique = inv.stock.unique;
    known = inv.stock.known;
    owned = inv.stock.owned;
    stocked = inv.stock.stocked;
  };
  quota =
      QuotaInv-issued (new_voucher id input i.value) db.vouchers db.redemptions inv.quota refl
        (new_id id input.code db.vouchers i.new_code);
})

pub create_voucher-Inv :
    (t : Texts) (fault : Option DriverError) (now id actor_id : ℕ) (request : CreateVoucherDto)
    (db : Db)
    → Inv db
    → Inv (create_voucher t fault now id actor_id request db).1
unfolding create_voucher
create_voucher-Inv t fault now id actor_id request db inv =
    as_operator_keeps Inv actor_id _ db inv
      (elim (Bool-cases (leb request.expires_at request.starts_at || leb request.expires_at now)) [
        | inl past ↦ rw past inv
        | inr future ↦
            elim (Bool-cases
              (is_percent request.discount_type && ltb 10000 request.discount_value)) [
                | inl over ↦ rw (future, over) inv
                | inr within ↦
                    rw (future, within, or_rethrow-state new_voucher_error _)
                      (run_once_keeps Inv fault (insert_scoped_voucher id (voucher_input t request))
                        db inv
                        (λ row db' h.
                          Issued-Inv inv
                            (insert_scoped_voucher-Issued id (voucher_input t request) db db' h)))
              ]
      ])
