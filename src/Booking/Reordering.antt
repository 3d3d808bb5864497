-- ===== src/Booking/Reordering.antt =====
-- The order of the items in a request.
use mathlib.Core.List.{Permᴰ}
use geek_interview.Base.{
  ℕ, ◌≡◌, refl, sym, ap, ◌∙◌, false, Option, none, List, [], ◌∷◌, map, All, arith, ◌==◌, inl, inr,
  Option-cases,
}
use geek_interview.Errors.{DriverError, ok}
use geek_interview.Tables.{find, sort_by}
use geek_interview.Tables.Sorting.{
  IsTotalOrder, All-Perm, Distinct, Distinct-Perm, sort_by-Perm, map-Perm,
}
use geek_interview.Store.{Db}
use geek_interview.Inventory.{includes}
use geek_interview.Booking.Request.{
  RequestItem, NormalizedItem, CreateBookingDto, Texts, is_invalid_quantity, clean_item,
  checked_item, item_order, find_duplicate, normalize_items,
}
use geek_interview.Booking.Create.{Draw, execute}

abbrev category_of_item : RequestItem → ℕ
category_of_item i = i.ticket_category_id

abbrev IsUnseen : List ℕ → RequestItem → Type 0
IsUnseen seen i = includes seen i.ticket_category_id ≡ false

seen_more :
    (k : ℕ) (seen : List ℕ) (items : List RequestItem)
    → All (IsUnseen (k ∷ seen)) items
    → All (λ i. (k == i.ticket_category_id) ≡ false) items × All (IsUnseen seen) items
seen_more k seen [] h = (tt, tt)
seen_more k seen (i ∷ items) h =
    let (a, b) = seen_more k seen items h.1 in
    let here = h.0 in ((ground arith, a), (ground arith, b))

seen_less :
    (k : ℕ) (seen : List ℕ) (items : List RequestItem)
    → All (λ i. (k == i.ticket_category_id) ≡ false) items
    → All (IsUnseen seen) items
    → All (IsUnseen (k ∷ seen)) items
seen_less k seen [] a b = tt
seen_less k seen (i ∷ items) a b =
    let first = a.0 in let second = b.0 in (ground arith, seen_less k seen items a.1 b.1)

-- The search for a duplicate finds none exactly where the categories differ.
items_apart :
    (seen : List ℕ) (items : List RequestItem)
    → find_duplicate seen items ≡ none
    → All (IsUnseen seen) items × Distinct category_of_item items
unfolding find_duplicate
items_apart seen [] h = (tt, tt)
items_apart seen (i ∷ items) h =
    let new : includes seen i.ticket_category_id ≡ false = ground arith in
    let (unseen, apart) = items_apart (i.ticket_category_id ∷ seen) items (ground arith) in
    let (other, older) = seen_more i.ticket_category_id seen items unseen in
    ((new, older), (other, apart))

no_duplicate :
    (seen : List ℕ) (items : List RequestItem)
    → All (IsUnseen seen) items
    → Distinct category_of_item items
    → find_duplicate seen items ≡ none
unfolding find_duplicate
no_duplicate seen [] unseen apart = refl
no_duplicate seen (i ∷ items) unseen apart =
    let rest =
      no_duplicate (i.ticket_category_id ∷ seen) items
        (seen_less i.ticket_category_id seen items apart.0 unseen.1) apart.1 in
    let here = unseen.0 in ground arith

abbrev IsValidItem : RequestItem → Type 0
IsValidItem i = is_invalid_quantity i.quantity ≡ false

valid_items :
    (items : List RequestItem)
    → find (λ i. is_invalid_quantity i.quantity) items ≡ none
    → All IsValidItem items
unfolding find
valid_items [] h = tt
valid_items (i ∷ items) h = (ground arith, valid_items items (ground arith))

no_invalid :
    (items : List RequestItem)
    → All IsValidItem items
    → find (λ i. is_invalid_quantity i.quantity) items ≡ none
unfolding find
no_invalid [] h = refl
no_invalid (i ∷ items) h = let here = h.0 in ground (arith, no_invalid items h.1)

checked_apart :
    (items : List RequestItem)
    → Distinct category_of_item items
    → Distinct (λ (i : NormalizedItem). i.ticket_category_id) (map checked_item items)
checked_apart [] h = tt
checked_apart (i ∷ items) h = (apart items h.0, checked_apart items h.1)
  where
    apart :
        (rest : List RequestItem)
        → All (λ j. (i.ticket_category_id == j.ticket_category_id) ≡ false) rest
        → All
            (λ (j : NormalizedItem). (i.ticket_category_id == j.ticket_category_id) ≡ false)
            (map checked_item rest)
    apart [] g = tt
    apart (j ∷ rest) g = (g.0, apart rest g.1)

normalize_items-Perm :
    (t : Texts) (xs ys : List RequestItem) (items : List NormalizedItem)
    → IsTotalOrder t.locale_le
    → Permᴰ xs ys
    → normalize_items t xs ≡ ok items
    → normalize_items t ys ≡ ok items
unfolding normalize_items
normalize_items-Perm t xs ys items order p h =
    let cleaned = map-Perm (clean_item t) p in
    elim (Option-cases (find (λ i. is_invalid_quantity i.quantity) (map (clean_item t) xs))) [
      | inr (i, bad) ↦ absurd (ground arith)
      | inl good ↦ elim (Option-cases (find_duplicate [] (map (clean_item t) xs))) [
        | inr (i, twice) ↦ absurd (ground arith)
        | inl once ↦
            let (unseen, apart) = items_apart [] (map (clean_item t) xs) once in
            let still_good =
              no_invalid (map (clean_item t) ys)
                (All-Perm IsValidItem cleaned (valid_items (map (clean_item t) xs) good)) in
            let still_once =
              no_duplicate [] (map (clean_item t) ys) (All-Perm (IsUnseen []) cleaned unseen)
                (Distinct-Perm category_of_item cleaned apart) in
            let sorted =
              sort_by-Perm (λ (i : NormalizedItem). i.ticket_category_id) t.locale_le order
                (map-Perm checked_item cleaned) (checked_apart (map (clean_item t) xs) apart) in
            let result : sort_by (item_order t) (map checked_item (map (clean_item t) xs)) ≡ items =
              ground arith in
            rw (normalize_items, still_good, still_once) (ap ok (sym sorted ∙ result))
      ]
    ]

-- A request with valid items is the same call, with the same answer and effect, in whatever order
-- its items are listed, if the comparison of the identifiers is a total order.
pub execute_reordered :
    (t : Texts) (faults : ℕ → Option DriverError) (draws : ℕ → Draw) (user_id key : ℕ)
    (request : CreateBookingDto) (others : List RequestItem) (items : List NormalizedItem) (db : Db)
    → IsTotalOrder t.locale_le
    → Permᴰ request.items others
    → normalize_items t request.items ≡ ok items
    → execute t faults draws user_id (record request { items = others }) key db
      ≡ execute t faults draws user_id request key db
unfolding execute
execute_reordered t faults draws user_id key request others items db order p valid =
    rw (valid, normalize_items-Perm t request.items others items order p valid) refl
