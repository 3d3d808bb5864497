-- ===== src/Booking/Paging.antt =====
-- The pages of a user's bookings, and who sees a booking.
use geek_interview.Base.{
  ℕ, zero, suc, ◌+◌, ◌-◌, ◌*◌, ◌≡◌, ◌≢◌, refl, sym, ap, ◌∙◌, Bool, ◌&&◌, none, List, [], ◌∷◌, ◌++◌,
  length, take, drop, arith, ◌==◌,
}
use geek_interview.Errors.{err, http, not_found}
use geek_interview.Tables.{find, select}
use geek_interview.Store.{Db, Booking, matches_identifier}
use geek_interview.Booking.Read.{page_of, total_of, paginate, find_owned_by_identifier, get_owned}

-- The first `n` pages, one after another.
abbrev pub first_pages : {A : Type 0} → ℕ → ℕ → List A → List A
first_pages zero limit rows = []
first_pages (suc n) limit rows = first_pages n limit rows ++ (paginate (suc n) limit rows).rows

take-nil : {A : Type 0} (n : ℕ) → take {A = A} n [] ≡ []
take-nil zero = refl
take-nil (suc n) = refl

take-append-drop :
    {A : Type 0} (n m : ℕ) (xs : List A) → take n xs ++ take m (drop n xs) ≡ take (n + m) xs
take-append-drop zero m xs = let e : m ≡ 0 + m = omega arith in ap (λ k. take k xs) e
take-append-drop (suc n) m [] = take-nil m ∙ sym (take-nil (suc n + m))
take-append-drop (suc n) m (x ∷ xs) =
    let e : suc (n + m) ≡ suc n + m = omega arith in
    ap (◌∷◌ x) (take-append-drop n m xs) ∙ ap (λ k. take k (x ∷ xs)) e

-- The first pages are the first rows: no row is skipped and none is shown twice.
pub first_pages-take :
    {A : Type 0} (n limit : ℕ) (rows : List A) → first_pages n limit rows ≡ take (n * limit) rows
unfolding paginate
first_pages-take zero limit rows = let e : 0 ≡ 0 * limit = omega arith in ap (λ k. take k rows) e
first_pages-take (suc n) limit rows =
    let before : suc n - 1 ≡ n = omega arith in
    let longer : n * limit + limit ≡ suc n * limit = grind arith in
    ap (λ r. r ++ page_of (suc n) limit rows) (first_pages-take n limit rows)
    ∙ ap (λ k. take (n * limit) rows ++ take limit (drop (k * limit) rows)) before
    ∙ take-append-drop (n * limit) limit rows
    ∙ ap (λ k. take k rows) longer

total_of-shown : {A : Type 0} (xs : List A) (count : ℕ) → xs ≢ [] → total_of xs count ≡ count
total_of-shown [] count h = absurd (h refl)
total_of-shown (x ∷ xs) count h = refl

-- A page that shows a row reports the number of all rows.
pub paginate_total :
    {A : Type 0} (page limit : ℕ) (rows : List A)
    → (paginate page limit rows).rows ≢ []
    → (paginate page limit rows).pagination.total ≡ length rows
unfolding paginate
paginate_total page limit rows shown = total_of-shown (page_of page limit rows) (length rows) shown

select-none : (p : Booking → Bool) (bs : List Booking) → find p bs ≡ none → select p bs ≡ []
unfolding find select
select-none p [] e = refl
select-none p (b ∷ bs) e = ground (arith, select-none p bs)

-- A booking of another user is not found, as one that does not exist.
pub get_owned_hidden :
    (user_id identifier : ℕ) (db : Db)
    → find (λ b. (b.user_id == user_id) && matches_identifier identifier b) db.bookings ≡ none
    → get_owned user_id identifier db ≡ err (http not_found)
unfolding get_owned find_owned_by_identifier
get_owned_hidden user_id identifier db e =
    rw
      (
        get_owned,
        find_owned_by_identifier,
        select-none (λ b. (b.user_id == user_id) && matches_identifier identifier b) db.bookings e,
      )
      refl
