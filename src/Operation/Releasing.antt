-- ===== src/Operation/Releasing.antt =====
-- When a concert is published.
use geek_interview.Base.{
  ℕ, ◌<◌, ◌≡◌, refl, ap, ◌∙◌, Bool, true, ◌||◌, map, if◌then◌else◌, none, List, [], ◌∷◌, Any, arith,
  ◌==◌, ◌⊎◌, inl, inr, Bool-cases,
}
use geek_interview.Domain.{ConcertStatus, draft, published, archived}
use geek_interview.Errors.{ok, err, business, concert_not_publishable, concert_state}
use geek_interview.Tables.{select, find, find_by}
use geek_interview.Tables.Members.{update_only}
use geek_interview.Store.{Db, Concert, TicketCategory, Inventory}
use geek_interview.Inventory.{is_some}
use geek_interview.Booking.Request.{Texts}
use geek_interview.Booking.Read.{find_role}
use geek_interview.Operation.Running.{role_status}
use geek_interview.Operation.Publishing.{publish_concert_decides}
use geek_interview.Operation.Concerts.{
  is_draft, has_stock_row, is_ready, set_published, publish_concert,
}

-- A category of the concert that has a row of stock
abbrev pub IsStocked : Db → ℕ → TicketCategory → Type 0
IsStocked db concert_id tc =
    (tc.concert_id ≡ concert_id)
    × Any (λ (i : Inventory). i.ticket_category_id ≡ tc.id) db.inventories

abbrev pub IsReady : ℕ → Db → Concert → Type 0
IsReady now db c =
    (c.status ≡ draft) × (now < c.starts_at) × Any (IsStocked db c.id) db.ticket_categories

is_draft-draft : (s : ConcertStatus) → is_draft s ≡ true → s ≡ draft
is_draft-draft draft h = refl
is_draft-draft published h = cc
is_draft-draft archived h = cc

find_by-Any :
    (k : ℕ) (is : List Inventory)
    → is_some (find_by (λ i. i.ticket_category_id) k is) ≡ true
    → Any (λ i. i.ticket_category_id ≡ k) is
unfolding find_by
find_by-Any k [] h = absurd (ground arith)
find_by-Any k (i ∷ is) h = elim (Bool-cases (i.ticket_category_id == k)) [
  | inl hit ↦ inl (ground arith)
  | inr miss ↦ inr (find_by-Any k is (ground arith))
]

Any-find_by :
    (k : ℕ) (is : List Inventory)
    → Any (λ i. i.ticket_category_id ≡ k) is
    → is_some (find_by (λ i. i.ticket_category_id) k is) ≡ true
unfolding find_by
Any-find_by k [] h = absurd h
Any-find_by k (i ∷ is) (inl e) = ground arith
Any-find_by k (i ∷ is) (inr h) =
    let later = Any-find_by k is h in
    elim (Bool-cases (i.ticket_category_id == k)) [
      | inl hit ↦ rw hit refl
      | inr miss ↦ rw miss later
    ]

module _ (db : Db) (id : ℕ) where
  has_stock_row-IsStocked :
      (tc : TicketCategory) → has_stock_row db id tc ≡ true → IsStocked db id tc
  has_stock_row-IsStocked tc h = (ground arith, find_by-Any tc.id db.inventories (ground arith))

  search-Any :
      (tcs : List TicketCategory)
      → is_some (find (has_stock_row db id) tcs) ≡ true
      → Any (IsStocked db id) tcs
  unfolding find
  search-Any [] h = absurd (ground arith)
  search-Any (tc ∷ tcs) h = elim (Bool-cases (has_stock_row db id tc)) [
    | inl hit ↦ inl (has_stock_row-IsStocked tc hit)
    | inr miss ↦ inr (search-Any tcs (ground arith))
  ]

  Any-search :
      (tcs : List TicketCategory)
      → Any (IsStocked db id) tcs
      → is_some (find (has_stock_row db id) tcs) ≡ true
  unfolding find
  Any-search [] h = absurd h
  Any-search (tc ∷ tcs) (inl (e, there)) =
      let stock = Any-find_by tc.id db.inventories there in
      let hit : has_stock_row db id tc ≡ true = ground (arith, stock) in rw hit refl
  Any-search (tc ∷ tcs) (inr h) =
      let later = Any-search tcs h in
      elim (Bool-cases (has_stock_row db id tc)) [
        | inl hit ↦ rw hit refl
        | inr miss ↦ rw miss later
      ]

is_ready-IsReady : (now : ℕ) (db : Db) (c : Concert) → is_ready now db c ≡ true → IsReady now db c
is_ready-IsReady now db c h = (
  is_draft-draft c.status (ground arith),
  ground arith,
  search-Any db c.id db.ticket_categories (ground arith),
)

IsReady-is_ready : (now : ℕ) (db : Db) (c : Concert) → IsReady now db c → is_ready now db c ≡ true
IsReady-is_ready now db c (is, ahead, stock) =
    let found = Any-search db c.id db.ticket_categories stock in rw (is, found) (ground arith)

abbrev pub goes_by : ℕ → Concert → Bool
goes_by identifier c = (c.slug == identifier) || (c.id == identifier)

-- If an identifier names one concert and the database does not abort the statement, an operator's
-- call either publishes it, and then it was DRAFT, started in the future and had a category with a
-- row of stock, it is answered as PUBLISHED, and the concert of that name is PUBLISHED in the table
-- and nothing else is changed; or one of these three does not hold, the call is refused with 409,
-- CONCERT_NOT_PUBLISHABLE and the concert's status, and nothing is changed.
pub publish_concert-exactly :
    (t : Texts) (now actor_id identifier : ℕ) (db : Db) (c : Concert)
    → role_status (find_role actor_id db) ≡ none
    → select (goes_by (t.trim identifier)) db.concerts ≡ c ∷ []
    → (IsReady now db c
        × (publish_concert t none now actor_id identifier db ≡ (
          ok (record c { status = published }),
          record db {
            concerts =
                map
                  (λ x.
                    if goes_by (t.trim identifier) x then record x { status = published } else x)
                  db.concerts;
          },
        )))
      ⊎ ((¬ IsReady now db c)
          × (publish_concert t none now actor_id identifier db
              ≡ (err (business concert_not_publishable 409 (concert_state c.status)), db)))
publish_concert-exactly t now actor_id identifier db c may one =
    let decided = publish_concert_decides t now actor_id identifier db c may one in
    elim (Bool-cases (is_ready now db c)) [
      | inl on ↦
          let rows =
            update_only (goes_by (t.trim identifier)) (is_ready now db) set_published c db.concerts
              one on in
          inl (
            is_ready-IsReady now db c on,
            decided ∙ rw on (ap (λ cs. (ok (set_published c), record db { concerts = cs })) rows),
          )
      | inr off ↦ inr (
        λ ready. absurd (let on = IsReady-is_ready now db c ready in ground arith),
        decided ∙ rw off refl,
      )
    ]
