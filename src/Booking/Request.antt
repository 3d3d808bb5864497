-- ===== src/Booking/Request.antt =====
-- The request of a booking: src/modules/booking/presentation/dto/create-booking.dto.ts,
-- `normalizeItems` of the service, and
-- src/modules/idempotency/application/request-fingerprint.ts
use geek_interview.Base.{
  ℕ, Bool, true, not, ◌&&◌, Option, none, some, List, [], ◌∷◌, map, leb, if◌then◌else◌,
}
use geek_interview.Errors.{business, bad_request, invalid_item, ticket_category, Result, ok, err}
use geek_interview.Tables.{find, sort_by}
use geek_interview.Inventory.{includes}

-- A number of the request: a natural number, or any other (negative, fractional, not finite).
pub data Number : Type 0 where
  whole : ℕ → Number
  other : Number

pub record RequestItem : Type 0 where
  pub ticket_category_id : ℕ
  pub quantity : Number

pub record CreateBookingDto : Type 0 where
  pub concert_id : ℕ
  pub items : List RequestItem
  pub voucher_code : Option ℕ

pub record NormalizedItem : Type 0 where
  pub ticket_category_id : ℕ
  pub quantity : ℕ

pub record CanonicalBookingIntent : Type 0 where
  pub user_id : ℕ
  pub concert_id : ℕ
  pub items : List NormalizedItem
  pub voucher_code : Option ℕ

-- What the runtime does with texts, each text a number: `trim`, `toLowerCase`, `toUpperCase`, the
-- test for `''`, `localeCompare(…, 'en') <= 0`, and the SHA-256 of an intent's JSON.
pub record Texts : Type 0 where
  pub trim : ℕ → ℕ
  pub lower : ℕ → ℕ
  pub upper : ℕ → ℕ
  pub is_empty : ℕ → Bool
  pub locale_le : ℕ → ℕ → Bool
  pub digest : CanonicalBookingIntent → ℕ

-- `!Number.isInteger(q) || q < 1 || q > 10`
abbrev pub is_invalid_quantity : Number → Bool
is_invalid_quantity (whole n) = not (leb 1 n && leb n 10)
is_invalid_quantity other = true

abbrev pub amount : Number → ℕ
amount (whole n) = n
amount other = 0

abbrev pub clean_item : Texts → RequestItem → RequestItem
clean_item t i = record {
  ticket_category_id = t.lower (t.trim i.ticket_category_id);
  quantity = i.quantity;
}

-- The first item whose category stands further left already.
unfoldable pub find_duplicate : List ℕ → List RequestItem → Option RequestItem
find_duplicate seen [] = none
find_duplicate seen (i ∷ items) =
    if includes seen i.ticket_category_id
    then some i
    else find_duplicate (i.ticket_category_id ∷ seen) items

abbrev pub item_order : Texts → NormalizedItem → NormalizedItem → Bool
item_order t a b = t.locale_le a.ticket_category_id b.ticket_category_id

abbrev pub checked_item : RequestItem → NormalizedItem
checked_item i = record { ticket_category_id = i.ticket_category_id; quantity = amount i.quantity }

unfoldable pub normalize_items : Texts → List RequestItem → Result (List NormalizedItem)
normalize_items t request_items =
    let items = map (clean_item t) request_items in
    elim (find (λ i. is_invalid_quantity i.quantity) items) [
      | some i ↦ err (business invalid_item bad_request (ticket_category i.ticket_category_id))
      | none ↦ elim (find_duplicate [] items) [
        | some i ↦ err (business invalid_item bad_request (ticket_category i.ticket_category_id))
        | none ↦ ok (sort_by (item_order t) (map checked_item items))
      ]
    ]

-- `voucherCode?.trim().toUpperCase()`
abbrev pub clean_code : Texts → Option ℕ → Option ℕ
clean_code t none = none
clean_code t (some code) = some (t.upper (t.trim code))

-- `code || null`, and the test `if (code)`
abbrev pub non_empty : Texts → Option ℕ → Option ℕ
non_empty t none = none
non_empty t (some code) = if t.is_empty code then none else some code

abbrev pub canonical_item : Texts → NormalizedItem → NormalizedItem
canonical_item t i = record {
  ticket_category_id = t.lower (t.trim i.ticket_category_id);
  quantity = i.quantity;
}

unfoldable pub canonicalize_booking_intent :
    Texts → ℕ → ℕ → List NormalizedItem → Option ℕ → CanonicalBookingIntent
canonicalize_booking_intent t user_id concert_id items voucher_code = record {
  user_id = t.lower (t.trim user_id);
  concert_id = t.lower (t.trim concert_id);
  items = sort_by (item_order t) (map (canonical_item t) items);
  voucher_code = non_empty t (clean_code t voucher_code);
}

abbrev pub fingerprint_booking_intent : Texts → CanonicalBookingIntent → ℕ
fingerprint_booking_intent t intent = t.digest intent
