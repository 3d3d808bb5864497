-- ===== src/Voucher/Quota.antt =====
-- The quota of a voucher: how its counter, its limit and its redemptions belong together.
use geek_interview.Base.{
  ℕ, ◌+◌, ◌≤◌, ◌≡◌, ◌≢◌, refl, sym, ap, ◌∙◌, Bool, true, false, none, some, List, [], ◌∷◌, All,
  All-mono, arith, ltb, ◌==◌, if◌then◌else◌, inl, inr, Bool-cases, Option-cases,
}
use geek_interview.Errors.{ok}
use geek_interview.Tables.{
  find, find_by, update_where, count_where, IsUnique, find_by_key, find_by-update_where-some,
  find_by-update_where_ne_none, update_where-IsUnique, update_where-none, count_where-some,
  count_where-update_where-le, find_absent, All-find, All-update_where,
}
use geek_interview.Store.{Db, Voucher, Redemption, ReleaseReason}
use geek_interview.Inventory.{is_some}
use geek_interview.Voucher.Reservation.{
  is_held, is_pending, is_pending_for, holds_voucher, is_used, unuse_voucher, consume, give_back,
  mark_released, uncount_use, release_for_booking,
}

abbrev pub voucher_key : Voucher → ℕ
voucher_key v = v.id

abbrev pub booking_key : Redemption → ℕ
booking_key r = r.booking_id

abbrev pub one_if : ℕ → ℕ → ℕ
one_if a b = if a == b then 1 else 0

-- How many redemptions of a voucher are not released.
abbrev pub uses : ℕ → List Redemption → ℕ
uses id [] = 0
uses id (r ∷ rs) = (if is_held r.status then one_if r.voucher_id id else 0) + uses id rs

-- `pending` counts the uses of each voucher whose redemption is still to be written.
pub record QuotaInv (vs : List Voucher) (rs : List Redemption) (pending : ℕ → ℕ) : Type 0 where
  pub unique_vouchers : IsUnique voucher_key vs
  pub unique_redemptions : IsUnique booking_key rs
  pub known : All (λ r. find_by voucher_key r.voucher_id vs ≢ none) rs
  pub counted :
      (id : ℕ) (v : Voucher)
      → find_by voucher_key id vs ≡ some v
      → v.used_count ≡ pending id + uses id rs
  pub limited :
      (id : ℕ) (v : Voucher) → find_by voucher_key id vs ≡ some v → v.used_count ≤ v.usage_limit
  pub single : (voucher_id user_id : ℕ) → count_where (holds_voucher voucher_id user_id) rs ≤ 1

uses-update_same :
    (id : ℕ) (p : Redemption → Bool) (f : Redemption → Redemption) (rs : List Redemption)
    → ((r : Redemption) → p r ≡ true → is_held (f r).status ≡ is_held r.status)
    → ((r : Redemption) → (f r).voucher_id ≡ r.voucher_id)
    → uses id (update_where p f rs) ≡ uses id rs
unfolding update_where
uses-update_same id p f [] held same = refl
uses-update_same id p f (r ∷ rs) held same = elim (Bool-cases (p r)) [
  | inl hit ↦ rw (hit, held r hit, same r) (omega (arith, uses-update_same id p f rs held same))
  | inr miss ↦ rw miss (omega (arith, uses-update_same id p f rs held same))
]

-- Releasing a booking's pending redemption lowers the uses of its voucher by one.
uses-release :
    (id booking_id now : ℕ) (reason : ReleaseReason) (rs : List Redemption) {r : Redemption}
    → IsUnique booking_key rs
    → find (is_pending_for booking_id) rs ≡ some r
    → uses id rs
      ≡ one_if r.voucher_id id
        + uses id (update_where (is_pending_for booking_id) (give_back now reason) rs)
unfolding find update_where
uses-release id booking_id now reason [] u e = cc
uses-release id booking_id now reason (x ∷ rs) {r} u e =
    elim (Bool-cases (is_pending_for booking_id x)) [
      | inl hit ↦
          let same : x ≡ r = ground arith in
          let key : x.booking_id ≡ booking_id = ground arith in
          let rest : update_where (is_pending_for booking_id) (give_back now reason) rs ≡ rs =
            update_where-none (is_pending_for booking_id) (give_back now reason) rs
              (find_absent booking_key booking_id (λ a. is_pending a.status) rs (rw (← key) u.0)) in
          rw (hit, rest, ← same) (ground arith)
      | inr miss ↦
          let ih = uses-release id booking_id now reason rs {r = r} u.1 (ground arith) in
          rw miss (omega (arith, ih))
    ]

-- A confirmation marks the redemption as consumed, which is still a use.
pub consume-QuotaInv :
    (vs : List Voucher) (rs : List Redemption) (pending : ℕ → ℕ) (booking_id : ℕ)
    → QuotaInv vs rs pending
    → QuotaInv vs (update_where (is_pending_for booking_id) consume rs) pending
consume-QuotaInv vs rs pending booking_id q = record {
  unique_vouchers = q.unique_vouchers;
  unique_redemptions =
      update_where-IsUnique booking_key (is_pending_for booking_id) consume (λ r. refl) rs
        q.unique_redemptions;
  known = All-update_where _ (is_pending_for booking_id) consume (λ r h. h) rs q.known;
  counted = λ id v e.
      q.counted id v e
      ∙ ap (◌+◌ (pending id)) (
          sym (
            uses-update_same id (is_pending_for booking_id) consume rs (λ r h. ground arith)
              (λ r. refl)));
  limited = q.limited;
  single = λ v u.
      let fewer : count_where (holds_voucher v u)
            (update_where (is_pending_for booking_id) consume rs)
          ≤ count_where (holds_voucher v u) rs =
        count_where-update_where-le (holds_voucher v u) (is_pending_for booking_id) consume
          (λ r hit h. ground arith) rs in
      omega (arith, q.single v u, fewer);
}

-- What a release leaves: the counter of the voucher is lowered exactly if a redemption was released.
pub record QuotaReleased (now booking_id : ℕ) (reason : ReleaseReason) (db : Db) : Type 0 where
  pub done : Bool
  pub vouchers : List Voucher
  pub redemptions : List Redemption
  pub runs :
      release_for_booking now booking_id reason db
      ≡ ok (done, record db { redemptions = redemptions; vouchers = vouchers })
  pub rows :
      redemptions ≡ update_where (is_pending_for booking_id) (give_back now reason) db.redemptions
  pub told : done ≡ is_some (find (is_pending_for booking_id) db.redemptions)
  pub quota : QuotaInv vouchers redemptions (λ _. 0)

abbrev released_rows : ℕ → ℕ → ReleaseReason → List Redemption → List Redemption
released_rows now booking_id reason =
    update_where (is_pending_for booking_id) (give_back now reason)

module _ (now booking_id : ℕ) (reason : ReleaseReason) (db : Db)
    (q : QuotaInv db.vouchers db.redemptions (λ _. 0)) {r : Redemption}
    (hit : find (is_pending_for booking_id) db.redemptions ≡ some r) where
  abbrev uncounted : List Voucher
  uncounted = update_where (is_used r.voucher_id) unuse_voucher db.vouchers

  one_use :
      (id : ℕ)
      → uses id db.redemptions
        ≡ one_if r.voucher_id id + uses id (released_rows now booking_id reason db.redemptions)
  one_use id = uses-release id booking_id now reason db.redemptions q.unique_redemptions hit

  uncount_one : count_where (is_used r.voucher_id) db.vouchers ≡ 1
  uncount_one = elim (Option-cases (find_by voucher_key r.voucher_id db.vouchers)) [
    | inl missing ↦
        absurd (All-find _ (is_pending_for booking_id) db.redemptions q.known hit missing)
    | inr (v, e) ↦
        rw
          (count_where-some voucher_key r.voucher_id (λ a. ltb 0 a.used_count) db.vouchers
            q.unique_vouchers e)
          (ground (arith, q.counted r.voucher_id v e, one_use r.voucher_id))
  ]

  uncounted_quota :
      (id : ℕ) (v : Voucher)
      → find_by voucher_key id uncounted ≡ some v
      → (v.used_count ≡ uses id (released_rows now booking_id reason db.redemptions))
        × (v.used_count ≤ v.usage_limit)
  uncounted_quota id v e =
      let (a, found, becomes) =
        find_by-update_where-some voucher_key (is_used r.voucher_id) unuse_voucher (λ x. refl) id
          db.vouchers e in
      let key : a.id ≡ id = find_by_key voucher_key id db.vouchers found in
      let count = q.counted id a found in
      let limit = q.limited id a found in let lower = one_use id in rw becomes (ground arith)

  released_QuotaInv :
      QuotaInv uncounted (released_rows now booking_id reason db.redemptions) (λ _. 0)
  released_QuotaInv = record {
    unique_vouchers =
        update_where-IsUnique voucher_key (is_used r.voucher_id) unuse_voucher (λ v. refl)
          db.vouchers q.unique_vouchers;
    unique_redemptions =
        update_where-IsUnique booking_key (is_pending_for booking_id) (give_back now reason)
          (λ x. refl) db.redemptions q.unique_redemptions;
    known =
        All-update_where _ (is_pending_for booking_id) (give_back now reason) (λ x h. h)
          db.redemptions
          (All-mono
            (λ x.
              find_by-update_where_ne_none voucher_key (is_used r.voucher_id) unuse_voucher
                (λ v. refl) x.voucher_id db.vouchers)
            db.redemptions q.known);
    counted = λ id v e. omega (arith, (uncounted_quota id v e).0);
    limited = λ id v e. (uncounted_quota id v e).1;
    single = λ v u.
        let fewer : count_where (holds_voucher v u)
              (released_rows now booking_id reason db.redemptions)
            ≤ count_where (holds_voucher v u) db.redemptions =
          count_where-update_where-le (holds_voucher v u) (is_pending_for booking_id)
            (give_back now reason) (λ x hit h. ground arith) db.redemptions in
        omega (arith, q.single v u, fewer);
  }

-- If counters, limits and redemptions belong together, releasing a booking's voucher goes through
-- and keeps them so; the redemption that is still RESERVED, if there is one, is released, and the
-- answer is whether there was one.
pub release_for_booking_quota :
    (now booking_id : ℕ) (reason : ReleaseReason) (db : Db)
    → QuotaInv db.vouchers db.redemptions (λ _. 0)
    → QuotaReleased now booking_id reason db
unfolding release_for_booking mark_released uncount_use
release_for_booking_quota now booking_id reason db q =
    elim (Option-cases (find (is_pending_for booking_id) db.redemptions)) [
      | inl miss ↦ record {
        done = false;
        vouchers = db.vouchers;
        redemptions = db.redemptions;
        runs = rw (
          miss,
          update_where-none (is_pending_for booking_id) (give_back now reason) db.redemptions miss,
        );
        rows = sym (
            update_where-none (is_pending_for booking_id) (give_back now reason) db.redemptions
              miss);
        told = rw miss refl;
        quota = q;
      }
      | inr (r, hit) ↦ record {
        done = true;
        vouchers = uncounted now booking_id reason db q hit;
        redemptions = released_rows now booking_id reason db.redemptions;
        runs = rw (hit, uncount_one now booking_id reason db q hit);
        rows = refl;
        told = rw hit refl;
        quota = released_QuotaInv now booking_id reason db q hit;
      }
    ]
