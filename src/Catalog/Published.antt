-- ===== src/Catalog/Published.antt =====
-- What the catalogue shows beside what can be booked.
use geek_interview.Base.{
  ℕ, ◌≤◌, ◌≡◌, ap, Bool, true, ◌&&◌, some, List, [], ◌∷◌, map, arith, All, inl, inr, Bool-cases,
  Option-cases,
}
use geek_interview.Errors.{ok}
use geek_interview.Tables.{find, find_by}
use geek_interview.Store.{Db, Concert, TicketCategory}
use geek_interview.Booking.Create.{is_published, find_bookable_concert, find_by_identifier}
use geek_interview.Booking.Invariant.{Inv}
use geek_interview.Catalog.{
  concert_response, is_named, find_published_by_identifier, get_published,
  TicketCategoryAvailability, availability_of, find_for_published_concert,
}

-- The first row of a name, if it is published, is the first published row of the name.
find-and :
    (p q : Concert → Bool) (cs : List Concert) {c : Concert}
    → find q cs ≡ some c
    → p c ≡ true
    → find (λ x. p x && q x) cs ≡ some c
unfolding find
find-and p q [] e h = cc
find-and p q (x ∷ cs) {c} e h = elim (Bool-cases (q x)) [
  | inl hit ↦ let here : x ≡ c = ground arith in ground (arith, here)
  | inr miss ↦ ground (arith, find-and p q cs {c = c})
]

-- A concert that a booking finds is shown under the same identifier.
pub find_bookable_concert-get_published :
    (now identifier : ℕ) (db db' : Db) (c : Concert)
    → find_bookable_concert now identifier db ≡ ok (c, db')
    → get_published identifier db ≡ ok (concert_response c)
unfolding find_bookable_concert find_by_identifier get_published find_published_by_identifier
find_bookable_concert-get_published now identifier db db' c h =
    elim (Option-cases (find (is_named identifier) db.concerts)) [
      | inl e ↦ absurd (ground arith)
      | inr (x, e) ↦
          let same : x ≡ c = ground arith in
          let on_sale : is_published x.status ≡ true = ground arith in
          rw
            (
              get_published,
              find_published_by_identifier,
              find-and (λ c. is_published c.status) (is_named identifier) db.concerts e on_sale,
            )
            (ap (λ c. ok (concert_response c)) same)
    ]

abbrev pub IsCovered : TicketCategoryAvailability → Type 0
IsCovered r = r.available_quantity ≤ r.total_quantity

All-IsCovered :
    (db : Db) (tcs : List TicketCategory)
    → Inv db
    → All IsCovered (
        map
          (λ tc. availability_of tc (find_by (λ i. i.ticket_category_id) tc.id db.inventories))
          tcs)
All-IsCovered db [] inv = tt
All-IsCovered db (tc ∷ tcs) inv = (
  elim (Option-cases (find_by (λ i. i.ticket_category_id) tc.id db.inventories)) [
    | inl e ↦ rw e (omega arith)
    | inr (i, e) ↦ rw e (omega (arith, inv.stock.stocked tc.id i e))
  ],
  All-IsCovered db tcs inv,
)

-- In a database with the invariant, no category shows more tickets than its total.
pub find_for_published_concert-IsCovered :
    (identifier : ℕ) (db : Db) → Inv db → All IsCovered (find_for_published_concert identifier db)
unfolding find_for_published_concert
find_for_published_concert-IsCovered identifier db inv = All-IsCovered db _ inv
