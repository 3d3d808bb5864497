-- ===== src/Health.antt =====
-- src/app/health.controller.ts: the two health checks. The time stamp is an argument; the constant
-- texts `ok` and the service's name are left out.
use geek_interview.Base.{ℕ, ◌≡◌, ◌≢◌, ◌↔◌, refl, arith, Option, none, some}
use geek_interview.Errors.{DriverError}
use geek_interview.Metrics.Interceptor.{Handled, replied, threw, answered_status}
use geek_interview.Filter.{not_ready, answer_error, service_unavailable}

pub record LiveHealthResponse : Type 0 where
  pub timestamp : ℕ

pub record ReadyHealthResponse : Type 0 where
  pub timestamp : ℕ

unfoldable pub live : ℕ → Handled LiveHealthResponse
live now = replied (record { timestamp = now })

-- `SELECT 1` goes through, or the driver throws.
unfoldable pub ready : Option DriverError → ℕ → Handled ReadyHealthResponse
ready none now = replied (record { timestamp = now })
ready (some e) now = threw not_ready

unfoldable pub check : Option DriverError → ℕ → Handled ReadyHealthResponse
unfolding ready
check = ready

-- A check of readiness is answered with 503 exactly if the database does not answer, and a check of
-- liveness never is; 200 is the status of a handler that returns.
pub check_answers :
    (fault : Option DriverError) (request_id : Option ℕ) (drawn now : ℕ)
    → (answered_status request_id drawn 200 (check fault now) ≡ service_unavailable
        ↔ (fault ≢ none))
      × (answered_status request_id drawn 200 (live now) ≡ 200)
unfolding check ready live answer_error
check_answers none request_id drawn now = ((λ e. absurd (ground arith), λ h. absurd (h refl)), refl)
check_answers (some e) request_id drawn now = ((λ p. λ q. cc, λ h. refl), refl)
