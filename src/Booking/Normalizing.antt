-- ===== src/Booking/Normalizing.antt =====
-- What `normalizeItems` lets through.
use geek_interview.Base.{
  ◌≤◌, ◌≡◌, false, none, List, [], ◌∷◌, map, All, arith, inl, inr, Bool-cases, Option-cases,
}
use geek_interview.Errors.{ok}
use geek_interview.Tables.{find, sort_by, All-sort_by}
use geek_interview.Booking.Request.{
  Number, whole, other, RequestItem, NormalizedItem, Texts, is_invalid_quantity, clean_item,
  checked_item, item_order, normalize_items, find_duplicate,
}

abbrev pub IsSellable : NormalizedItem → Type 0
IsSellable i = (1 ≤ i.quantity) × (i.quantity ≤ 10)

valid_quantity :
    (i : RequestItem) → is_invalid_quantity i.quantity ≡ false → IsSellable (checked_item i)
valid_quantity i h = go i.quantity h
  where
    go :
        (n : Number)
        → is_invalid_quantity n ≡ false
        → IsSellable
            (checked_item (record { ticket_category_id = i.ticket_category_id; quantity = n }))
    go (whole n) h = (ground arith, ground arith)
    go other h = cc

checked_items :
    (items : List RequestItem)
    → find (λ i. is_invalid_quantity i.quantity) items ≡ none
    → All IsSellable (map checked_item items)
unfolding find
checked_items [] h = tt
checked_items (i ∷ items) h = elim (Bool-cases (is_invalid_quantity i.quantity)) [
  | inl bad ↦ absurd (ground arith)
  | inr good ↦ (valid_quantity i good, checked_items items (ground arith))
]

-- Every item of a booking that is accepted asks for one to ten tickets.
pub normalize_items-IsSellable :
    (t : Texts) (request_items : List RequestItem) (items : List NormalizedItem)
    → normalize_items t request_items ≡ ok items
    → All IsSellable items
unfolding normalize_items
normalize_items-IsSellable t request_items items h =
    let cleaned = map (clean_item t) request_items in
    elim (Option-cases (find (λ i. is_invalid_quantity i.quantity) cleaned)) [
      | inr (i, bad) ↦ absurd (ground arith)
      | inl good ↦ elim (Option-cases (find_duplicate [] cleaned)) [
        | inr (i, twice) ↦ absurd (ground arith)
        | inl once ↦
            let same : items ≡ sort_by (item_order t) (map checked_item cleaned) = ground arith in
            rw same (
              All-sort_by IsSellable (item_order t) (map checked_item cleaned)
                (checked_items cleaned good))
      ]
    ]
