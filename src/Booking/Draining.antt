-- ===== src/Booking/Draining.antt =====
-- How far a batch of the worker gets: exactly how many bookings it expires, and what is left.
use mathlib.Core.Path.{subst}
use geek_interview.Base.{
  ℕ, zero, suc, ◌+◌, ◌-◌, ◌*◌, ◌≤◌, ◌≡◌, ◌≢◌, refl, sym, ap, ◌∙◌, Bool, true, false, not, ◌&&◌,
  none, List, [], ◌∷◌, All, All-mono, arith, ◌==◌, ==_refl, leb, if◌then◌else◌, inl, inr,
  Bool-cases, Option-cases, length, take,
}
use geek_interview.Domain.{expired}
use geek_interview.Errors.{Result, ok}
use geek_interview.Transaction.Retries.{with_transaction_once}
use geek_interview.Tables.{
  select, find, update_where, count_where, find-ne-none, All-select, All-sort_by,
}
use geek_interview.Tables.Rows.{rows_found, All-hit}
use geek_interview.Tables.Sorting.{
  Distinct, Distinct-Perm, Distinct-take, Distinct-select, IsUnique-Distinct, sort_by_permutes,
  count_where-Perm, length-select, count_where-select, All-take, length-take,
}
use geek_interview.Store.{Db, Booking, >>=_ok}
use geek_interview.Booking.Stock.{id_of}
use geek_interview.Booking.Transitions.{
  set_status, is_overdue, is_claimed_overdue, deadline_order, claimable, claim_expired,
}
use geek_interview.Booking.Lifecycle.{
  World, expire_one, expire_all, expire_work, expire_batch, safe_limit,
}
use geek_interview.Booking.Invariant.{Inv}
use geek_interview.Booking.Expiry.{expire_hit, hit_count, safe_limit_bounds}

-- A row that an UPDATE passes over is still found.
find_untouched :
    {A : Type 0} (p q : A → Bool) (f : A → A)
    → ((x : A) → q x ≡ true → p x ≡ false)
    → (xs : List A) → find q xs ≢ none
    → find q (update_where p f xs) ≢ none
unfolding find update_where
find_untouched p q f apart [] h = h
find_untouched p q f apart (x ∷ xs) h = elim (Bool-cases (q x)) [
  | inl hit ↦ rw (apart x hit, hit) (λ e. ground arith)
  | inr miss ↦ elim (Bool-cases (p x)) [
    | inl touched ↦ elim (Bool-cases (q (f x))) [
      | inl now ↦ rw (touched, now) (λ e. ground arith)
      | inr still ↦ rw (touched, still) (find_untouched p q f apart xs (λ e. h (rw miss e)))
    ]
    | inr passed ↦ rw (passed, miss) (find_untouched p q f apart xs (λ e. h (rw miss e)))
  ]
]

-- An UPDATE that ends a test for the rows that it touches lowers the count by their number.
count_where-ended :
    {A : Type 0} (p q : A → Bool) (f : A → A)
    → ((x : A) → p x ≡ true → q x ≡ true)
    → ((x : A) → q (f x) ≡ false)
    → (xs : List A) → count_where q (update_where p f xs) + count_where p xs ≡ count_where q xs
unfolding count_where update_where
count_where-ended p q f within over [] = refl
count_where-ended p q f within over (x ∷ xs) =
    ground (arith, within x, over x, count_where-ended p q f within over xs)

abbrev pub least : ℕ → ℕ → ℕ
least a b = if leb a b then a else b

abbrev pub overdue_count : ℕ → Db → ℕ
overdue_count now db = count_where (is_overdue now) db.bookings

-- Those that no other transaction has locked.
abbrev pub free_overdue_count : (ℕ → Bool) → ℕ → Db → ℕ
free_overdue_count locked now db =
    count_where (λ b. is_overdue now b && not (locked b.id)) db.bookings

module _ (db_now now : ℕ) where
  abbrev IsDue : Db → Booking → Type 0
  IsDue db b = find (is_claimed_overdue now b.id) db.bookings ≢ none

  IsDue-later :
      (k : ℕ) (db s : Db) (bs : List Booking)
      → s.bookings ≡ update_where (is_claimed_overdue now k) (set_status expired db_now) db.bookings
      → All (λ c. (k == c.id) ≡ false) bs
      → All (IsDue db) bs
      → All (IsDue s) bs
  IsDue-later k db s [] rows apart due = tt
  IsDue-later k db s (c ∷ bs) rows apart due = (
    rw rows (
        find_untouched (is_claimed_overdue now k) (is_claimed_overdue now c.id)
          (set_status expired db_now) (λ x h. let other = apart.0 in ground arith) db.bookings
          due.0),
    IsDue-later k db s bs rows apart.1 due.1,
  )

  -- The loop over bookings that are overdue, each named once, expires all of them.
  expire_all_exact :
      (bs : List Booking) (processed : ℕ) (db : Db)
      → Inv db
      → Distinct id_of bs
      → All (IsDue db) bs
      → (db' : Db) × (expire_all db_now now bs processed db ≡ ok (processed + length bs, db'))
        × Inv db'
        × (overdue_count now db' + length bs ≡ overdue_count now db)
  unfolding expire_all
  expire_all_exact [] processed db inv apart due =
      (db, ap (λ n. ok (n, db)) (omega arith), inv, omega arith)
  expire_all_exact (b ∷ bs) processed db inv apart due =
      elim (Option-cases (find (is_claimed_overdue now b.id) db.bookings)) [
        | inl gone ↦ absurd (due.0 gone)
        | inr (row, hit) ↦
            let m = expire_hit db_now now b.id db inv hit in
            let (db', runs, inv', left) =
              expire_all_exact bs (processed + 1) m.state m.inv apart.1
                (IsDue-later b.id db m.state bs m.rows apart.0 due.1) in
            let one = hit_count db_now now b.id db inv hit in
            let drop =
              count_where-ended (is_claimed_overdue now b.id) (is_overdue now)
                (set_status expired db_now) (λ x h. ground arith) (λ x. ground arith) db.bookings in
            let rows = ap (count_where (is_overdue now)) m.rows in
            (
              db',
              >>=_ok (expire_one db_now now b.id)
                    (λ (d : Bool).
                      expire_all db_now now bs (if d then processed + 1 else processed))
                    db m.runs
                  ∙ runs
                  ∙ ap (λ n. ok (n, db')) (omega arith),
              inv',
              omega (arith, left, one, drop, rows),
            )
      ]

  module _ (locked : ℕ → Bool) (db : Db) (inv : Inv db) where
    abbrev rows_claimable : List Booking
    rows_claimable = claimable locked now db.bookings

    claimable-Distinct : Distinct id_of rows_claimable
    claimable-Distinct =
        Distinct-select id_of (λ b. not (locked b.id)) _
          (Distinct-Perm id_of
            (sort_by_permutes deadline_order (select (is_overdue now) db.bookings))
            (Distinct-select id_of (is_overdue now) db.bookings
              (IsUnique-Distinct id_of db.bookings inv.stock.identified.unique)))

    claimable-IsDue : All (IsDue db) rows_claimable
    claimable-IsDue =
        All-select _ (λ b. not (locked b.id)) _
          (All-sort_by _ deadline_order _ (
            All-hit (IsDue db) (is_overdue now) db.bookings (
              All-mono
                (λ x found over.
                  find-ne-none (is_claimed_overdue now x.id) id_of x.id db.bookings {a = x} found
                    (rw (==_refl x.id) over))
                db.bookings (rows_found id_of db.bookings inv.stock.identified.unique))))

    claimable-length : length rows_claimable ≡ free_overdue_count locked now db
    claimable-length =
        length-select (λ b. not (locked b.id)) _
        ∙ sym (
            count_where-Perm (λ b. not (locked b.id))
              (sort_by_permutes deadline_order (select (is_overdue now) db.bookings)))
        ∙ count_where-select (λ b. not (locked b.id)) (is_overdue now) db.bookings

    -- In a database with the invariant, a batch of the worker goes through and keeps the invariant; it
    -- expires as many bookings as its limit allows, at least one and at most 500, or all that are
    -- overdue and not locked if these are fewer, and exactly that many fewer are overdue afterwards.
    pub expire_work_exact :
        (limit : ℕ)
        → (db' : Db) × (expire_work locked limit now db_now db
            ≡ ok (least (safe_limit limit) (free_overdue_count locked now db), db'))
          × Inv db'
          × (overdue_count now db' + least (safe_limit limit) (free_overdue_count locked now db)
              ≡ overdue_count now db)
          × (1 ≤ safe_limit limit)
          × (safe_limit limit ≤ 500)
    unfolding expire_work claim_expired
    expire_work_exact limit =
        let (db', runs, inv', left) =
          expire_all_exact (take (safe_limit limit) rows_claimable) 0 db inv
            (Distinct-take id_of (safe_limit limit) rows_claimable claimable-Distinct)
            (All-take (IsDue db) (safe_limit limit) rows_claimable claimable-IsDue) in
        let size : length (take (safe_limit limit) rows_claimable)
            ≡ least (safe_limit limit) (free_overdue_count locked now db) =
          length-take (safe_limit limit) rows_claimable
          ∙ ap (least (safe_limit limit)) claimable-length in
        (
          db',
          runs ∙ ap (λ n. ok (n, db')) (omega (arith, size)),
          inv',
          omega (arith, left, size),
          (safe_limit_bounds limit).0,
          (safe_limit_bounds limit).1,
        )

count_where-ext :
    {A : Type 0} (p q : A → Bool)
    → ((x : A) → p x ≡ q x)
    → (xs : List A) → count_where p xs ≡ count_where q xs
unfolding count_where
count_where-ext p q same [] = refl
count_where-ext p q same (x ∷ xs) = rw (same x) (omega (arith, count_where-ext p q same xs))

-- Batches one after another, as the worker's ticks run them, with nothing locked.
abbrev pub batches : World → ℕ → ℕ → Db → Db
batches w now zero db = db
batches w now (suc k) db = batches w now k (expire_batch w (λ _ _. false) 100 now db).1

-- In a database with the invariant, if no transaction is aborted and nothing is locked, every batch of
-- a hundred, all reading one time, leaves a hundred fewer overdue bookings, until none is left.
pub batches_drain :
    (w : World) (now k : ℕ) (db : Db)
    → Inv db
    → ((n : ℕ) → w.faults n ≡ none)
    → overdue_count now (batches w now k db) ≡ overdue_count now db - k * 100
unfolding expire_batch
batches_drain w now zero db inv sound = omega arith
batches_drain w now (suc k) db inv sound =
    let (db', runs, inv', left, low, high) =
      expire_work_exact (w.clock 1).db_now now (λ _. false) db inv 100 in
    let free : free_overdue_count (λ _. false) now db ≡ overdue_count now db =
      count_where-ext _ (is_overdue now) (λ b. ground arith) db.bookings in
    let ran =
      with_transaction_once w.faults (λ n. expire_work (λ _. false) 100 now (w.clock n).db_now) db
        (sound 1) runs tt in
    let state : (expire_batch w (λ _ _. false) 100 now db).1 ≡ db' =
      ap (λ (r : Result ℕ × Db). r.1) ran in
    let rest = batches_drain w now k db' inv' sound in
    subst (λ d. overdue_count now (batches w now k d) ≡ overdue_count now db - suc k * 100)
      (sym state) (rest ∙ ground (arith, left, free))
