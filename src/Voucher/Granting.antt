-- ===== src/Voucher/Granting.antt =====
-- Reserving a voucher and writing its redemption: together they keep the quota.
use geek_interview.Base.{
  ℕ, ◌+◌, ◌≤◌, ◌≡◌, ◌≢◌, refl, true, none, some, List, ◌∷◌, All-mono, arith, ◌==◌, ==→eq, inl, inr,
  Bool-cases, Option-cases,
}
use geek_interview.Errors.{ok}
use geek_interview.Tables.{
  find, find_by, update_where, count_where, find_holds, find_by_key, find_by-find,
  find_by-update_where-some, find_by-update_where_ne_none, update_where-IsUnique, count_where-find,
}
use geek_interview.Store.{Db, Voucher, Redemption, reserved}
use geek_interview.Voucher.Reservation.{
  ReservedVoucherRow, holds_voucher, is_usable, use_voucher, reserved_row, count_use, reserve,
  insert_redemption,
}
use geek_interview.Voucher.Quota.{QuotaInv, voucher_key, booking_key, one_if, uses}

-- What a reservation that succeeds has found and done.
pub record Granted (now : ℕ) (db : Db) (r : ReservedVoucherRow) (db' : Db) : Type 0 where
  pub id : ℕ
  pub voucher : Voucher
  pub usable : find (is_usable id now) db.vouchers ≡ some voucher
  pub row : r ≡ reserved_row voucher
  pub state : db' ≡ record db { vouchers = update_where (is_usable id now) use_voucher db.vouchers }

pub reserve-Granted :
    (now date_now date_later code user_id concert_id : ℕ) (ids : List ℕ) (db db' : Db)
    {r : ReservedVoucherRow}
    → reserve now date_now date_later code user_id concert_id ids db ≡ ok (r, db')
    → Granted now db r db'
unfolding reserve count_use
reserve-Granted now date_now date_later code user_id concert_id ids db db' {r} h =
    elim (Option-cases (find (λ v. v.code == code) db.vouchers)) [
      | inl missing ↦ absurd (ground arith)
      | inr (v, e) ↦ elim (Option-cases (find (is_usable v.id now) db.vouchers)) [
        | inl late ↦ absurd (ground arith)
        | inr (w, f) ↦ record {
          id = v.id;
          voucher = w;
          usable = f;
          row = ground arith;
          state = ground arith;
        }
      ]
    ]

module _ (vs : List Voucher) (rs : List Redemption) (q : QuotaInv vs rs (λ _. 0)) (id now : ℕ)
    {w : Voucher} (usable : find (is_usable id now) vs ≡ some w) where
  abbrev granted_rows : List Voucher
  granted_rows = update_where (is_usable id now) use_voucher vs

  usable_key : w.id ≡ id
  usable_key = let h = find_holds (is_usable id now) vs usable in ground arith

  usable_row : find_by voucher_key w.id vs ≡ some w
  usable_row = find_by-find voucher_key (is_usable id now) vs q.unique_vouchers usable

  granted_count :
      (k : ℕ) (v : Voucher)
      → find_by voucher_key k granted_rows ≡ some v
      → (v.used_count ≡ one_if w.id k + uses k rs) × (v.used_count ≤ v.usage_limit)
  granted_count k v e =
      let (a, found, becomes) =
        find_by-update_where-some voucher_key (is_usable id now) use_voucher (λ x. refl) k vs e in
      let key : a.id ≡ k = find_by_key voucher_key k vs found in
      let count = q.counted k a found in
      let limit = q.limited k a found in
      let passes = find_holds (is_usable id now) vs usable in
      elim (Bool-cases (w.id == k)) [
        | inl same ↦
            let same_row : some a ≡ some w = cc (found, usable_row, ==→eq _ _ same) in
            let e' : a ≡ w = cc same_row in
            let passes_a : is_usable id now a ≡ true = rw e' passes in
            rw (becomes, passes_a, same) (ground arith)
        | inr other ↦ let its_id = usable_key in rw (becomes, other) (ground arith)
      ]

  -- The use that was counted is pending until its redemption is written.
  pub granted_QuotaInv : QuotaInv granted_rows rs (λ k. one_if w.id k)
  granted_QuotaInv = record {
    unique_vouchers =
        update_where-IsUnique voucher_key (is_usable id now) use_voucher (λ v. refl) vs
          q.unique_vouchers;
    unique_redemptions = q.unique_redemptions;
    known =
        All-mono
          (λ r.
            find_by-update_where_ne_none voucher_key (is_usable id now) use_voucher (λ v. refl)
              r.voucher_id vs)
          rs q.known;
    counted = λ k v e. (granted_count k v e).0;
    limited = λ k v e. (granted_count k v e).1;
    single = q.single;
  }

  pub granted_known : find_by voucher_key w.id granted_rows ≢ none
  granted_known =
      find_by-update_where_ne_none voucher_key (is_usable id now) use_voucher (λ v. refl) w.id vs
        (λ gone. cc (usable_row, gone))

abbrev redemption_row : ℕ → ℕ → ℕ → Redemption
redemption_row voucher_id user_id booking_id = record {
  voucher_id = voucher_id;
  user_id = user_id;
  booking_id = booking_id;
  status = reserved;
  released_at = none;
  released_reason = none;
}

single_after :
    (voucher_id user_id booking_id : ℕ) (rs : List Redemption) (v u : ℕ)
    → count_where (holds_voucher voucher_id user_id) rs ≡ 0
    → count_where (holds_voucher v u) rs ≤ 1
    → count_where (holds_voucher v u) (redemption_row voucher_id user_id booking_id ∷ rs) ≤ 1
unfolding count_where
single_after voucher_id user_id booking_id rs v u none_held one =
    elim (Bool-cases (voucher_id == v)) [
      | inr other ↦ rw other (omega (arith, one))
      | inl same_v ↦ elim (Bool-cases (user_id == u)) [
        | inr other ↦ rw (same_v, other) (omega (arith, one))
        | inl same_u ↦
            let none_here : count_where (holds_voucher v u) rs ≡ 0 =
              rw (← ==→eq _ _ same_v, ← ==→eq _ _ same_u) none_held in
            rw (same_v, same_u) (omega (arith, none_here))
      ]
    ]

-- A redemption that is written makes its pending use an actual one, and stays the only one that its
-- user holds of the voucher.
pub insert_redemption-QuotaInv :
    (voucher_id user_id booking_id : ℕ) (db db' : Db)
    → QuotaInv db.vouchers db.redemptions (λ k. one_if voucher_id k)
    → find_by voucher_key voucher_id db.vouchers ≢ none
    → insert_redemption voucher_id user_id booking_id db ≡ ok (tt, db')
    → (rs : List Redemption) × (db' ≡ record db { redemptions = rs })
      × QuotaInv db.vouchers rs (λ _. 0)
unfolding insert_redemption
insert_redemption-QuotaInv voucher_id user_id booking_id db db' q known h =
    elim (Option-cases (find_by booking_key booking_id db.redemptions)) [
      | inr (r, e) ↦ absurd (ground arith)
      | inl fresh ↦ elim (Option-cases (find (holds_voucher voucher_id user_id) db.redemptions)) [
        | inr (r, e) ↦ absurd (ground arith)
        | inl free ↦
            let none_held =
              count_where-find (holds_voucher voucher_id user_id) db.redemptions free in
            (
              redemption_row voucher_id user_id booking_id ∷ db.redemptions,
              ground arith,
              record {
                unique_vouchers = q.unique_vouchers;
                unique_redemptions = (fresh, q.unique_redemptions);
                known = (known, q.known);
                counted = λ k v e. ground (arith, q.counted k v e);
                limited = q.limited;
                single = λ v u.
                    single_after voucher_id user_id booking_id db.redemptions v u none_held
                      (q.single v u);
              },
            )
      ]
    ]
