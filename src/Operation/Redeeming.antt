-- ===== src/Operation/Redeeming.antt =====
-- From the creation of a voucher to its first use.
use mathlib.Core.Path.{subst}
use geek_interview.Base.{
  ℕ, ◌≤◌, ◌<◌, ◌≡◌, ◌≢◌, refl, sym, ap, true, false, ◌&&◌, none, List, [], ◌∷◌, All, All-mono,
  arith, leb, ltb, ◌==◌, ==→eq, ==_refl, inl, inr, Bool-cases, Option,
}
use geek_interview.Errors.{DriverError, ok}
use geek_interview.Tables.{find, find_by, update_where, update_where-none, find_absent}
use geek_interview.Tables.Members.{All-find-none}
use geek_interview.Store.{Db, Voucher, Redemption}
use geek_interview.Voucher.Eligibility.{
  is_active, is_other_concert, is_other_category, voucher_eligibility_failure,
  voucher_eligibility_failure-none,
}
use geek_interview.Voucher.Reservation.{
  use_voucher, is_usable, holds_voucher, eligibility_input, reserved_row, count_use, reserve,
}
use geek_interview.Voucher.Quota.{voucher_key}
use geek_interview.Booking.Invariant.{Inv}
use geek_interview.Booking.Request.{Texts}
use geek_interview.Operation.Vouchers.{
  CreateVoucherDto, VoucherOperationRow, is_same_voucher, voucher_input, new_voucher,
  create_voucher,
}
use geek_interview.Operation.Issuing.{create_voucher-NewVoucher}
use geek_interview.Operation.Keeping.{new_id}

-- Nobody holds a voucher that is not there.
nobody_holds :
    (id user_id : ℕ) (vs : List Voucher) (rs : List Redemption)
    → find_by voucher_key id vs ≡ none
    → All (λ r. find_by voucher_key r.voucher_id vs ≢ none) rs
    → find (holds_voucher id user_id) rs ≡ none
unfolding find
nobody_holds id user_id vs [] gone known = refl
nobody_holds id user_id vs (r ∷ rs) gone known = elim (Bool-cases (r.voucher_id == id)) [
  | inl same ↦ absurd (known.0 (rw (==→eq _ _ same) gone))
  | inr other ↦ rw other (nobody_holds id user_id vs rs gone known.1)
]

module _ (v : Voucher) (vs : List Voucher) (db : Db) (at user_id concert_id : ℕ)
    (category_ids : List ℕ) (listed : db.vouchers ≡ v ∷ vs)
    (no_other : find_by voucher_key v.id vs ≡ none)
    (unheld : find (holds_voucher v.id user_id) db.redemptions ≡ none)
    (eligible : voucher_eligibility_failure (eligibility_input v at concert_id category_ids)
      ≡ none) where
  usable : is_usable v.id at v ≡ true
  usable =
      let (active, started, ahead, room, concert, category) =
        (voucher_eligibility_failure-none (eligibility_input v at concert_id category_ids)).0
          eligible in
      ground (arith, active, started, ahead, room)

  -- The first voucher of the table, if it is eligible, is reserved.
  reserve_first :
      reserve at at at v.code user_id concert_id category_ids db
      ≡ ok (reserved_row v, record db { vouchers = use_voucher v ∷ vs })
  unfolding reserve count_use find update_where
  reserve_first =
      let rest = update_where-none (is_usable v.id at) use_voucher vs (
        find_absent voucher_key v.id
          (λ (x : Voucher).
            is_active x.status
            && (leb x.starts_at at && (ltb at x.expires_at && ltb x.used_count x.usage_limit)))
          vs no_other) in
      rw (listed, ==_refl v.code, eligible, unheld, usable, rest) refl

unclashing :
    (id code : ℕ) (v : Voucher) → v.id ≢ id → v.code ≢ code → is_same_voucher id code v ≡ false
unclashing id code v other_id other_code = elim (Bool-cases (is_same_voucher id code v)) [
  | inl clash ↦ elim (Bool-cases (v.id == id)) [
    | inl same ↦ absurd (other_id (==→eq _ _ same))
    | inr differs ↦ absurd (other_code (==→eq _ _ (ground arith)))
  ]
  | inr apart ↦ apart
]

-- In a database with the invariant, a voucher that was created can be reserved by any user under its
-- code, at any time of its window, for any booking in its scope; it is then counted once.
pub create_voucher-reserve :
    (t : Texts) (fault : Option DriverError) (now id actor_id : ℕ) (request : CreateVoucherDto)
    (db db' : Db) (row : VoucherOperationRow) (at user_id concert_id : ℕ) (category_ids : List ℕ)
    → Inv db
    → create_voucher t fault now id actor_id request db ≡ (ok row, db')
    → request.starts_at ≤ at
    → at < request.expires_at
    → is_other_concert request.applicable_concert_id concert_id ≡ false
    → is_other_category request.applicable_ticket_category_id category_ids ≡ false
    → (v : Voucher) × (db'.vouchers ≡ v ∷ db.vouchers)
      × (reserve at at at (t.upper (t.trim request.code)) user_id concert_id category_ids db'
          ≡ ok (reserved_row v, record db' { vouchers = use_voucher v ∷ db.vouchers }))
      × (v.used_count ≡ 0)
create_voucher-reserve t fault now id actor_id request db db' row at user_id concert_id category_ids
      inv h started ahead concert category =
    let n = create_voucher-NewVoucher t fault now id actor_id request db db' row h in
    let v = new_voucher id (voucher_input t request) request.discount_value in
    let state = n.state in
    let code = t.upper (t.trim request.code) in
    let absent = new_id id code db.vouchers (
      All-find-none (is_same_voucher id code) db.vouchers
        (All-mono (λ x apart. unclashing id code x apart.0 apart.1) db.vouchers n.new_code)) in
    let room = n.limited in
    let eligible =
      (voucher_eligibility_failure-none (eligibility_input v at concert_id category_ids)).1
        (refl, started, ahead, omega (arith, room), concert, category) in
    (
      v,
      ap (λ (d : Db). d.vouchers) state,
      subst
          (λ (d : Db).
            reserve at at at (t.upper (t.trim request.code)) user_id concert_id category_ids d
            ≡ ok (reserved_row v, record d { vouchers = use_voucher v ∷ db.vouchers }))
          (sym state)
          (reserve_first v db.vouchers (record db { vouchers = v ∷ db.vouchers }) at user_id
            concert_id category_ids refl absent
            (nobody_holds id user_id db.vouchers db.redemptions absent inv.quota.known) eligible),
      refl,
    )
