-- ===== src/Metrics/Interceptor.antt =====
-- src/shared/observability/request-observability.interceptor.ts: what is counted of a request that
-- reached its handler. Durations and log entries are left out.
use geek_interview.Base.{ℕ, ◌+◌, ◌≡◌, refl, Option, none, some, List, [], ◌∷◌, ◌++◌, arith}
use geek_interview.Errors.{business, http, voucher_policy, database, plain, bad_request}
use geek_interview.Http.RequestIds.{HeaderValue, Traced, resolve_request_id, request_id_middleware}
use geek_interview.Filter.{
  Thrown, thrown, invalid_request, not_ready, service_unavailable, internal_server_error,
  answer_error,
}
use geek_interview.Metrics.{Counter, http_requests_total, record_request}
use geek_interview.Metrics.Counting.{total, total-increment}
use geek_interview.Metrics.Routes.{normalize_route}

pub record RequestWithId : Type 0 where
  pub method : List ℕ
  pub url : List ℕ
  pub original_url : Option (List ℕ)
  pub base_url : Option (List ℕ)
  pub route_path : Option (List ℕ)
  pub request_id : Option (List ℕ)
  pub header : Option HeaderValue

-- `??`
abbrev pub text_or : Option (List ℕ) → List ℕ → List ℕ
text_or none other = other
text_or (some text) other = text

abbrev pub unrouted : RequestWithId → List ℕ
unrouted r = text_or r.original_url r.url

-- The pattern of the route behind its base, if there is one and it is not empty
unfoldable pub route_of : Option (List ℕ) → RequestWithId → List ℕ
route_of none r = unrouted r
route_of (some []) r = unrouted r
route_of (some (c ∷ cs)) r = text_or r.base_url [] ++ c ∷ cs

-- `request.requestId ?? resolveRequestId(header)`
abbrev pub id_or_resolved : Option (List ℕ) → Option HeaderValue → List ℕ → List ℕ
id_or_resolved (some id) header drawn = id
id_or_resolved none header drawn = resolve_request_id header drawn

-- What a handler does: it returns, or throws.
pub data Handled {ℓ} (A : Type ℓ) : Type ℓ where
  replied : A → Handled A
  threw : Thrown → Handled A

-- `statusCode`: what `getStatus` of an error says, if it has one
unfoldable pub status_code : Thrown → ℕ
status_code (thrown (business code status d)) = status
status_code (thrown (http status)) = status
status_code (thrown (voucher_policy code)) = internal_server_error
status_code (thrown (database e)) = internal_server_error
status_code (thrown (plain message)) = internal_server_error
status_code (invalid_request ms) = bad_request
status_code not_ready = service_unavailable

pub record Intercepted {ℓ} (A : Type ℓ) : Type ℓ where
  pub traced : Traced
  pub handled : Handled A
  pub counters : List Counter

-- The status of a handler that returns is that of the response.
abbrev pub recorded_status {ℓ} : {A : Type ℓ} → ℕ → Handled A → ℕ
recorded_status status (replied a) = status
recorded_status status (threw e) = status_code e

-- `label_number` tells the labels of `http_requests_total` apart: method, route and status.
unfoldable pub intercept {ℓ} :
    {A : Type ℓ}
    → (List ℕ → List ℕ → ℕ → ℕ)
    → RequestWithId
    → List ℕ
    → ℕ
    → Handled A
    → List Counter
    → Intercepted A
intercept label_number request drawn status handled counters =
    let id = id_or_resolved request.request_id request.header drawn in
    let route = route_of request.route_path request in
    record {
      traced = record { request_id = id; response_header = id };
      handled = handled;
      counters =
          record_request
            (label_number request.method (normalize_route route) (recorded_status status handled))
            counters;
    }

-- The status that the client gets
abbrev pub answered_status {ℓ} : {A : Type ℓ} → Option ℕ → ℕ → ℕ → Handled A → ℕ
answered_status request_id drawn status (replied a) = status
answered_status request_id drawn status (threw e) = (answer_error request_id drawn e).status

status_code-answer_error :
    (request_id : Option ℕ) (drawn : ℕ) (e : Thrown)
    → status_code e ≡ (answer_error request_id drawn e).status
unfolding status_code answer_error
status_code-answer_error request_id drawn (thrown (business code status d)) = refl
status_code-answer_error request_id drawn (thrown (http status)) = refl
status_code-answer_error request_id drawn (thrown (voucher_policy code)) = refl
status_code-answer_error request_id drawn (thrown (database e)) = refl
status_code-answer_error request_id drawn (thrown (plain message)) = refl
status_code-answer_error request_id drawn (invalid_request ms) = refl
status_code-answer_error request_id drawn not_ready = refl

recorded-answered {ℓ} :
    {A : Type ℓ} (request_id : Option ℕ) (drawn status : ℕ) (handled : Handled A)
    → recorded_status status handled ≡ answered_status request_id drawn status handled
recorded-answered request_id drawn status (replied a) = refl
recorded-answered request_id drawn status (threw e) = status_code-answer_error request_id drawn e

-- The interceptor passes on what a handler did; it counts one request more, under its method, its
-- normalised route and the status that the client gets, from the filter if the handler threw; and a
-- request that has passed the middleware keeps its id, also in the response.
pub intercept-answered {ℓ} :
    {A : Type ℓ} (label_number : List ℕ → List ℕ → ℕ → ℕ) (request : RequestWithId)
    (header : Option HeaderValue) (drawn again : List ℕ) (trace_id : Option ℕ) (drawn_id status : ℕ)
    (handled : Handled A) (counters : List Counter)
    → request.request_id ≡ some (request_id_middleware header drawn).request_id
    → ((intercept label_number request again status handled counters).handled ≡ handled)
      × ((intercept label_number request again status handled counters).counters
          ≡ record_request
              (label_number request.method
                (normalize_route (route_of request.route_path request))
                (answered_status trace_id drawn_id status handled))
              counters)
      × (total http_requests_total
            (intercept label_number request again status handled counters).counters
          ≡ total http_requests_total counters + 1)
      × ((intercept label_number request again status handled counters).traced
          ≡ request_id_middleware header drawn)
unfolding intercept record_request request_id_middleware
intercept-answered label_number request header drawn again trace_id drawn_id status handled counters
      passed =
    let one =
      total-increment http_requests_total http_requests_total
        (label_number request.method (normalize_route (route_of request.route_path request))
          (recorded_status status handled))
        1 counters in
    (
      refl,
      rw (recorded-answered trace_id drawn_id status handled) refl,
      omega (arith, one),
      rw passed refl,
    )
