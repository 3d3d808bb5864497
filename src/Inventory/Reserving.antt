-- ===== src/Inventory/Reserving.antt =====
-- `reserve` takes from the stock what it adds to the need, and never more than is there.
use geek_interview.Base.{
  ℕ, ◌+◌, ◌≤◌, ◌<◌, ◌≡◌, ◌≢◌, refl, true, none, some, List, arith, ◌==◌, inl, inr, Bool-cases,
  Option-cases,
}
use geek_interview.Errors.{ok}
use geek_interview.Tables.{
  find, find_by, update_where, IsUnique, find_holds, find_by-find, find_by_key,
  find_by-update_where-some, update_where-IsUnique, find-ne-none, update_where-none,
  find_by-update_where_ne_none,
}
use geek_interview.Store.{Db, Inventory}
use geek_interview.Inventory.{is_reservable, take_from, reserve}
use geek_interview.Inventory.Stock.{category_of, Stocked, at_category}

abbrev pub reserved_rows : ℕ → ℕ → List Inventory → List Inventory
reserved_rows c q = update_where (is_reservable c q) (take_from q)

reserve_Stocked :
    (c q : ℕ) (need : ℕ → ℕ) (invs : List Inventory) (x : Inventory)
    → IsUnique category_of invs
    → find (is_reservable c q) invs ≡ some x
    → Stocked invs need
    → Stocked (reserved_rows c q invs) (λ d. at_category c q d + need d)
reserve_Stocked c q need invs x u hit s d i e =
    let (a, found, becomes) =
      find_by-update_where-some category_of (is_reservable c q) (take_from q) (λ b. refl) d invs
        e in
    let before = s d a found in
    let its_key : a.ticket_category_id ≡ d = find_by_key category_of d invs found in
    let passes = find_holds (is_reservable c q) invs hit in
    let at_x = find_by-find category_of (is_reservable c q) invs u hit in
    elim (Bool-cases (c == d)) [
      | inl same ↦
          let key_x : x.ticket_category_id ≡ d = ground arith in
          let same_row : some a ≡ some x = cc (found, at_x) in
          let e' : a ≡ x = cc same_row in
          let passes_a : is_reservable c q a ≡ true = rw e' passes in
          rw (becomes, passes_a, same) (ground arith)
      | inr other ↦ rw (becomes, other) (ground arith)
    ]

-- If categories are unique, a category's row with enough stock gives the quantity: it is returned
-- with that much less, and the UPDATE of the rows that pass the guard is all that changes.
pub reserve_enough :
    (c q : ℕ) (db : Db) (i : Inventory)
    → IsUnique category_of db.inventories
    → find_by category_of c db.inventories ≡ some i
    → q ≤ i.available_quantity
    → reserve c q db
      ≡ ok (some (take_from q i), record db { inventories = reserved_rows c q db.inventories })
unfolding reserve
reserve_enough c q db i u e h =
    let key_i : i.ticket_category_id ≡ c = find_by_key category_of c db.inventories e in
    elim (Option-cases (find (is_reservable c q) db.inventories)) [
      | inl miss ↦
          absurd
            (find-ne-none (is_reservable c q) category_of c db.inventories e (ground arith) miss)
      | inr (x, hit) ↦
          let passes = find_holds (is_reservable c q) db.inventories hit in
          let at_x = find_by-find category_of (is_reservable c q) db.inventories u hit in
          let key_x : x.ticket_category_id ≡ c = ground arith in
          let same_row : some i ≡ some x = cc (e, at_x) in
          let e' : i ≡ x = cc same_row in rw (hit, e')
    ]

-- If categories are unique and the category's row, if there is one, has less than the quantity,
-- nothing is reserved and nothing changes.
pub reserve_short :
    (c q : ℕ) (db : Db)
    → ((i : Inventory) → find_by category_of c db.inventories ≡ some i → i.available_quantity < q)
    → IsUnique category_of db.inventories
    → reserve c q db ≡ ok (none, db)
unfolding reserve
reserve_short c q db short u = elim (Option-cases (find (is_reservable c q) db.inventories)) [
  | inl miss ↦ rw (miss, update_where-none (is_reservable c q) (take_from q) db.inventories miss)
  | inr (x, hit) ↦
      let passes = find_holds (is_reservable c q) db.inventories hit in
      let at_x = find_by-find category_of (is_reservable c q) db.inventories u hit in
      let key_x : x.ticket_category_id ≡ c = ground arith in
      absurd (ground (arith, short x (cc (at_x))))
]

-- What a reservation that succeeds does to the stock: the category's need grows by the quantity.
pub reserve_success :
    (c q : ℕ) (need : ℕ → ℕ) (db db' : Db) {r : Inventory}
    → IsUnique category_of db.inventories
    → Stocked db.inventories need
    → reserve c q db ≡ ok (some r, db')
    → (rows : List Inventory) × (db' ≡ record db { inventories = rows })
      × IsUnique category_of rows
      × Stocked rows (λ d. at_category c q d + need d)
      × ((d : ℕ) → find_by category_of d db.inventories ≢ none → find_by category_of d rows ≢ none)
      × (find_by category_of c db.inventories ≢ none)
unfolding reserve
reserve_success c q need db db' u s e =
    elim (Option-cases (find (is_reservable c q) db.inventories)) [
      | inl miss ↦ absurd (ground (arith, miss))
      | inr (x, hit) ↦
          let passes = find_holds (is_reservable c q) db.inventories hit in
          let at_x = find_by-find category_of (is_reservable c q) db.inventories u hit in
          let key_x : x.ticket_category_id ≡ c = ground arith in
          (
            reserved_rows c q db.inventories,
            ground arith,
            update_where-IsUnique category_of (is_reservable c q) (take_from q) (λ b. refl)
                db.inventories u,
            reserve_Stocked c q need db.inventories x u hit s,
            λ d.
                find_by-update_where_ne_none category_of (is_reservable c q) (take_from q)
                  (λ b. refl) d db.inventories,
            λ gone. cc (at_x, gone),
          )
    ]
