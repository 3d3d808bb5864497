-- ===== src/Operation/Listing.antt =====
-- The list of bookings for operators, page by page.
use geek_interview.Base.{
  ℕ, zero, suc, ◌*◌, ◌≤◌, ◌≡◌, refl, ◌∙◌, ap, sym, Bool, true, false, none, some, List, [], ◌∷◌,
  ◌++◌, map, length, take, arith, inl, inr, Bool-cases, Option-cases,
}
use geek_interview.Errors.{Result, ok, err}
use geek_interview.Tables.{select, find_by, sort_by, count_where}
use geek_interview.Tables.Sorting.{sort_by_permutes, count_where-Perm}
use geek_interview.Store.{Db, Booking, Concert}
use geek_interview.Booking.Request.{Texts}
use geek_interview.Booking.Read.{Page, find_role, newest_first}
use geek_interview.Booking.Paging.{first_pages, first_pages-take}
use geek_interview.Operation.Running.{role_status, as_operator_admitted}
use geek_interview.Operation.Bookings.{
  OperationBookingQuery, OperationBookingSummary, passes, summary_rows, find_bookings,
  is_empty_range, list_bookings,
}

abbrev pub rows_of : {A : Type 0} → Result (Page A) × Db → List A
rows_of (ok page, db) = page.rows
rows_of (err e, db) = []

abbrev pub on_page : OperationBookingQuery → ℕ → OperationBookingQuery
on_page query n = record query { page = n }

-- What an operator sees who asks for the first `n` pages, one after another.
abbrev pub walk : Texts → ℕ → OperationBookingQuery → ℕ → Db → List OperationBookingSummary
walk t actor_id query zero db = []
walk t actor_id query (suc n) db =
    walk t actor_id query n db ++ rows_of (list_bookings t actor_id (on_page query (suc n)) db)

-- Whether a booking's concert is there, and both pass the filter.
abbrev pub is_wanted : Texts → OperationBookingQuery → List Concert → Booking → Bool
is_wanted t query concerts b = elim (find_by (λ c. c.id) b.concert_id concerts) [
  | none ↦ false
  | some c ↦ passes t query b c
]

module _ (t : Texts) (query : OperationBookingQuery) (concerts : List Concert) where
  abbrev rows : List Booking → List OperationBookingSummary
  rows = summary_rows t query concerts

  summary_rows-on_page :
      (n : ℕ) (bs : List Booking) → summary_rows t (on_page query n) concerts bs ≡ rows bs
  summary_rows-on_page n [] = refl
  summary_rows-on_page n (b ∷ bs) = rw (summary_rows-on_page n bs) refl

  summary_rows-ids :
      (bs : List Booking)
      → (map (λ r. r.id) (rows bs) ≡ map (λ b. b.id) (select (is_wanted t query concerts) bs))
        × (length (rows bs) ≤ length bs)
  unfolding select
  summary_rows-ids [] = (refl, omega arith)
  summary_rows-ids (b ∷ bs) =
      let rest = summary_rows-ids bs in
      elim (Option-cases (find_by (λ c. c.id) b.concert_id concerts)) [
        | inl gone ↦
            let out : is_wanted t query concerts b ≡ false = rw (is_wanted, gone) refl in
            rw (gone, out) (rest.0, omega (arith, rest.1))
        | inr (c, found) ↦ elim (Bool-cases (passes t query b c)) [
          | inl hit ↦
              let seen : is_wanted t query concerts b ≡ true = rw (is_wanted, found, hit) refl in
              rw (found, hit, seen) (ap (λ ids. b.id ∷ ids) rest.0, omega (arith, rest.1))
          | inr miss ↦
              let out : is_wanted t query concerts b ≡ false = rw (is_wanted, found, miss) refl in
              rw (found, miss, out) (rest.0, omega (arith, rest.1))
        ]
      ]

take-all : {A : Type 0} (n : ℕ) (xs : List A) → length xs ≤ n → take n xs ≡ xs
take-all zero [] h = refl
take-all zero (x ∷ xs) h = absurd (omega (arith, h))
take-all (suc n) [] h = refl
take-all (suc n) (x ∷ xs) h = ap (λ ys. x ∷ ys) (take-all n xs (omega (arith, h)))

count_where-length : {A : Type 0} (xs : List A) → count_where (λ _. true) xs ≡ length xs
unfolding count_where
count_where-length [] = refl
count_where-length (x ∷ xs) = omega (arith, count_where-length xs)

length-sort_by : {A : Type 0} (le : A → A → Bool) (xs : List A) → length (sort_by le xs) ≡ length xs
length-sort_by le xs =
    sym (count_where-length (sort_by le xs))
    ∙ sym (count_where-Perm (λ _. true) (sort_by_permutes le xs))
    ∙ count_where-length xs

module _ (t : Texts) (actor_id : ℕ) (query : OperationBookingQuery) (db : Db)
    (may : role_status (find_role actor_id db) ≡ none)
    (range : is_empty_range query.from query.to ≡ false) where
  abbrev all_rows : List OperationBookingSummary
  all_rows = summary_rows t query db.concerts (sort_by newest_first db.bookings)

  walk-first_pages : (n : ℕ) → walk t actor_id query n db ≡ first_pages n query.limit all_rows
  unfolding list_bookings find_bookings
  walk-first_pages zero = refl
  walk-first_pages (suc n) =
      rw
        (
          walk-first_pages n,
          as_operator_admitted actor_id _ db may,
          range,
          summary_rows-on_page t query db.concerts (suc n) (sort_by newest_first db.bookings),
        )
        refl

  -- An operator who asks, with a filter whose range of times is not empty, for the first pages,
  -- enough to hold all bookings, is shown the identifiers of exactly the bookings that pass the
  -- filter together with their concerts, each as often as it is there, in the order from the newest
  -- to the oldest.
  pub walk_complete :
      (n : ℕ)
      → length db.bookings ≤ n * query.limit
      → map (λ r. r.id) (walk t actor_id query n db)
        ≡ map
            (λ b. b.id)
            (select (is_wanted t query db.concerts) (sort_by newest_first db.bookings))
  walk_complete n room =
      let (ids, few) = summary_rows-ids t query db.concerts (sort_by newest_first db.bookings) in
      let size = length-sort_by newest_first db.bookings in
      ap (map (λ (r : OperationBookingSummary). r.id)) (
        walk-first_pages n
        ∙ first_pages-take n query.limit all_rows
        ∙ take-all (n * query.limit) all_rows (omega (arith, few, size, room)))
      ∙ ids
