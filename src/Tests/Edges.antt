-- ===== src/Tests/Edges.antt =====
-- Runs of the limiter, the header checks, the lists and the normalisation.
use geek_interview.Base.{ℕ, ◌≤◌, ◌≡◌, ◌≢◌, refl, true, none, List, [], ◌∷◌, arith, ◌==◌, ◌&&◌}
use geek_interview.Errors.{
  ok, err, http, not_found, business, rate_limited, too_many_requests, retry_after,
}
use geek_interview.Tables.{find, find_by, select, sort_by}
use geek_interview.Store.{matches_identifier}
use geek_interview.Store.{Concert, published}
use geek_interview.Transaction.Resources.{distinct, assert_unique_resource_ids}
use geek_interview.Catalog.{get_published, concert_response}
use geek_interview.Catalog.Published.{find_bookable_concert-get_published}
use geek_interview.Booking.Create.{find_bookable_concert, find_by_identifier}
use geek_interview.Samples.{sample, texts, two_tickets}
use geek_interview.RateLimit.{Bucket, prune, admit}
use geek_interview.RateLimit.Windows.{admitted_count, window_bound, retry_is_enough}
use geek_interview.Booking.Read.{paginate, get_owned}
use geek_interview.Booking.Paging.{get_owned_hidden}
use geek_interview.Booking.Request.{normalize_items, find_duplicate}

-- Clients 4 and 5, two attempts allowed in 1000 ms.
abbrev busy : List (ℕ × ℕ)
busy = (4, 110) ∷ (5, 120) ∷ (4, 130) ∷ (4, 1099) ∷ []

window_bound_example : admitted_count 2 1000 4 ((4, 100) ∷ busy) [] ≤ 2
unfolding prune select find_by
window_bound_example =
    window_bound 2 1000 4 100 busy [] (omega arith) refl
      (omega arith, (omega arith, (omega arith, (omega arith, tt))))

abbrev full_bucket : List Bucket
full_bucket = record { key = 4; count = 2; reset_at = 1100 } ∷ []

refused_now :
    admit 2 1000 4 600 full_bucket
    ≡ (err (business rate_limited too_many_requests (retry_after 1)), full_bucket)
unfolding admit prune select find_by
refused_now = refl

retry_is_enough_example : (admit 2 1000 4 1600 full_bucket).0 ≡ ok true
unfolding find_by
retry_is_enough_example =
    retry_is_enough 2 1000 4 600 1600 1 full_bucket (refl, tt) refused_now (omega arith)

abbrev five : List ℕ
five = 1 ∷ 2 ∷ 3 ∷ 4 ∷ 5 ∷ []

third_page_shows : (paginate 3 2 five).rows ≢ []
unfolding paginate
third_page_shows e = cc

not_theirs : find (λ b. (b.user_id == 1) && matches_identifier 51 b) sample.bookings ≡ none
unfolding find
not_theirs = refl

get_owned_hidden_example : get_owned 1 51 sample ≡ err (http not_found)
get_owned_hidden_example = get_owned_hidden 1 51 sample not_theirs

items_taken :
    normalize_items texts two_tickets.items
    ≡ ok (record { ticket_category_id = 20; quantity = 2 } ∷ [])
unfolding normalize_items find find_duplicate sort_by
items_taken = refl

abbrev the_concert : Concert
the_concert = record { id = 10; slug = 11; name = 12; status = published; starts_at = 1000000 }

concert_found : find_bookable_concert 100 11 sample ≡ ok (the_concert, sample)
unfolding find_bookable_concert find_by_identifier find
concert_found = refl

find_bookable_concert-get_published_example :
    get_published 11 sample ≡ ok (concert_response the_concert)
find_bookable_concert-get_published_example =
    find_bookable_concert-get_published 100 11 sample sample the_concert concert_found

five_pass : assert_unique_resource_ids five ≡ ok tt
unfolding assert_unique_resource_ids distinct
five_pass = refl
