-- ===== src/Tests/Exposing.antt =====
-- Requests that are counted, and the text of counters.
use geek_interview.Base.{ℕ, ◌+◌, ◌≡◌, refl, Bool, Option, none, some, List, [], ◌∷◌}
use geek_interview.Errors.{http, conflict}
use geek_interview.Http.RequestIds.{HeaderValue, one, request_id_middleware}
use geek_interview.Filter.{thrown}
use geek_interview.Metrics.{http_requests_total, record_request}
use geek_interview.Metrics.Counting.{total}
use geek_interview.Http.{matches}
use geek_interview.Metrics.Routes.{
  normalize_route, before_query, segments, replace_segment, all_code_units,
}
use geek_interview.Metrics.Interceptor.{
  RequestWithId, Handled, threw, route_of, intercept, answered_status, intercept-answered,
}
use geek_interview.Metrics.Exposition.{join, NamedCounter, to_prometheus}
use geek_interview.Metrics.Exposition.Lines.{lines_of}
use geek_interview.Metrics.Exposition.Scraping.{read_all, read_all-to_prometheus}
use geek_interview.Metrics.Routes.Stable.{IsNormal, normalize_route-IsNormal}

-- `/a/bk-7/b?c`
abbrev booking_route : List ℕ
booking_route = b'/' ∷ b'a' ∷ b'/' ∷ b'b' ∷ b'k' ∷ b'-' ∷ b'7' ∷ b'/' ∷ b'b' ∷ 63 ∷ b'c' ∷ []

-- `/a/:id/b`
route_of_booking :
    normalize_route booking_route ≡ b'/' ∷ b'a' ∷ b'/' ∷ b':' ∷ b'i' ∷ b'd' ∷ b'/' ∷ b'b' ∷ []
unfolding normalize_route before_query segments replace_segment matches all_code_units join
route_of_booking = refl

normalize_route-IsNormal_example : IsNormal (normalize_route booking_route)
normalize_route-IsNormal_example = normalize_route-IsNormal booking_route

abbrev given_id : Option HeaderValue
given_id = some (one (b'a' ∷ b'-' ∷ b'1' ∷ []))

abbrev identified : RequestWithId
identified = record {
  method = b'G' ∷ b'E' ∷ b'T' ∷ [];
  url = booking_route;
  original_url = none;
  base_url = none;
  route_path = none;
  request_id = some (request_id_middleware given_id []).request_id;
  header = given_id;
}

abbrev label_of : List ℕ → List ℕ → ℕ → ℕ
label_of method route status = status

abbrev refused : Handled Bool
refused = threw (thrown (http conflict))

intercept-answered_example :
    ((intercept label_of identified [] 200 refused []).handled ≡ refused)
    × ((intercept label_of identified [] 200 refused []).counters
        ≡ record_request
            (label_of identified.method
              (normalize_route (route_of none identified))
              (answered_status (some 7) 7 200 refused))
            [])
    × (total http_requests_total (intercept label_of identified [] 200 refused []).counters
        ≡ total http_requests_total [] + 1)
    × ((intercept label_of identified [] 200 refused []).traced ≡ request_id_middleware given_id [])
intercept-answered_example =
    intercept-answered label_of identified given_id [] [] (some 7) 7 200 refused [] refl

-- A counter `a` with the label `k`, whose value is a quote, a line feed and a backslash, and one
-- without labels
abbrev two_counters : List NamedCounter
two_counters =
    record {
      name = b'a' ∷ [];
      labels = record { key = b'k' ∷ []; value = 34 ∷ 10 ∷ 92 ∷ [] } ∷ [];
      value = 12;
    }
    ∷ record { name = b'b' ∷ []; labels = []; value = 0 }
    ∷ []

read_all-to_prometheus_example :
    read_all (lines_of (to_prometheus two_counters)) ≡ some two_counters
read_all-to_prometheus_example = read_all-to_prometheus two_counters (
  (((refl, tt), ((refl, tt), tt)), (refl, tt), ((refl, tt), tt)),
  ((((refl, tt), tt), (refl, tt), tt), tt),
)
