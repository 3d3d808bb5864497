-- ===== src/Inventory/Releasing.antt =====
-- `releaseForBooking` puts back what a booking held, and cannot fail while the stock adds up.
use geek_interview.Base.{
  ℕ, ◌+◌, ◌≡◌, ◌≢◌, refl, none, some, List, [], ◌∷◌, All, All-mono, arith, leb, inl, inr,
  Option-cases,
}
use geek_interview.Errors.{ok}
use geek_interview.Tables.{
  find_by, update_where, count_where, IsUnique, find_by_key, update_where-IsUnique,
  count_where-some, find_by-update_where-some, find_by-update_where_ne_none,
}
use geek_interview.Store.{Db, Inventory, BookingItem}
use geek_interview.Inventory.{
  is_releasable, put_back, release_line, release_lines, items_of, release_for_booking,
}
use geek_interview.Inventory.Stock.{category_of, Stocked, at_category, lines_total}

abbrev released_rows : ℕ → ℕ → List Inventory → List Inventory
released_rows c q = update_where (is_releasable c q) (put_back q)

-- Where a row has room for the quantity, exactly that row takes it back.
release_count :
    (c q : ℕ) (need : ℕ → ℕ) (invs : List Inventory) (i : Inventory)
    → IsUnique category_of invs
    → find_by category_of c invs ≡ some i
    → Stocked invs (λ d. at_category c q d + need d)
    → count_where (is_releasable c q) invs ≡ 1
release_count c q need invs i u e s =
    let fits = s c i e in
    rw
      (count_where-some category_of c (λ a. leb (a.available_quantity + q) a.total_quantity) invs u
        e)
      (ground arith)

release_Stocked :
    (c q : ℕ) (need : ℕ → ℕ) (invs : List Inventory)
    → Stocked invs (λ d. at_category c q d + need d)
    → Stocked (released_rows c q invs) need
release_Stocked c q need invs s d i e =
    let (a, found, becomes) =
      find_by-update_where-some category_of (is_releasable c q) (put_back q) (λ b. refl) d invs e in
    let before = s d a found in
    let its_key : a.ticket_category_id ≡ d = find_by_key category_of d invs found in
    rw becomes (ground arith)

-- The state after `items` have been put back.
pub record Released (items : List BookingItem) (n : ℕ) (need : ℕ → ℕ) (db : Db) : Type 0 where
  pub count : ℕ
  pub rows : List Inventory
  pub runs : release_lines items n db ≡ ok (count, record db { inventories = rows })
  pub unique : IsUnique category_of rows
  pub stocked : Stocked rows need
  pub kept :
      (c : ℕ) → find_by category_of c db.inventories ≢ none → find_by category_of c rows ≢ none

-- Lines whose categories have rows are all put back: no line meets the violated invariant.
pub release_lines_total :
    (items : List BookingItem) (n : ℕ) (need : ℕ → ℕ) (db : Db)
    → IsUnique category_of db.inventories
    → All (λ i. find_by category_of i.ticket_category_id db.inventories ≢ none) items
    → Stocked db.inventories (λ d. lines_total d items + need d)
    → Released items n need db
unfolding release_lines release_line
release_lines_total [] n need db u known s = record {
  count = n;
  rows = db.inventories;
  runs = refl;
  unique = u;
  stocked = λ d i e. ground (arith, s d i e);
  kept = λ c h. h;
}
release_lines_total (item ∷ items) n need db u known s =
    let c = item.ticket_category_id in
    let q = item.quantity in
    let rows = released_rows c q db.inventories in
    let step : Stocked db.inventories (λ d. at_category c q d + (lines_total d items + need d)) =
      λ d i e. ground (arith, s d i e) in
    let kept =
      find_by-update_where_ne_none category_of (is_releasable c q) (put_back q) (λ b. refl) in
    let rest =
      release_lines_total items (n + q) need (record db { inventories = rows })
        (update_where-IsUnique category_of (is_releasable c q) (put_back q) (λ b. refl)
          db.inventories u)
        (All-mono (λ i h. kept i.ticket_category_id db.inventories h) items known.1)
        (release_Stocked c q _ db.inventories step) in
    record {
      count = rest.count;
      rows = rest.rows;
      runs = elim (Option-cases (find_by category_of c db.inventories)) [
        | inl missing ↦ absurd (known.0 missing)
        | inr (i, e) ↦ rw (release_count c q _ db.inventories i u e step) rest.runs
      ];
      unique = rest.unique;
      stocked = rest.stocked;
      kept = λ d h. rest.kept d (kept d db.inventories h);
    }

-- If categories are unique, those of a booking's lines have rows, and what is available, the lines
-- and `need` make up each total, then the release goes through, and what is available and `need`
-- make up each total.
pub release_for_booking_total :
    (booking_id : ℕ) (need : ℕ → ℕ) (db : Db)
    → IsUnique category_of db.inventories
    → All
        (λ i. find_by category_of i.ticket_category_id db.inventories ≢ none)
        (items_of booking_id db.booking_items)
    → Stocked db.inventories (λ d. lines_total d (items_of booking_id db.booking_items) + need d)
    → (r : Released (items_of booking_id db.booking_items) 0 need db) × (release_for_booking
          booking_id db
        ≡ ok (r.count, record db { inventories = r.rows }))
unfolding release_for_booking
release_for_booking_total booking_id need db u known s =
    let r = release_lines_total (items_of booking_id db.booking_items) 0 need db u known s in
    (r, r.runs)
