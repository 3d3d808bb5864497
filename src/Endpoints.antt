-- ===== src/Endpoints.antt =====
-- src/modules/booking/presentation/booking.controller.ts and
-- src/modules/operation/presentation/operation.controller.ts: the checks of the headers before the
-- services, and a booking request from the limiter to its answer.
pub mod Customers
pub mod Causes
pub mod Stopping
use geek_interview.Base.{ℕ, Bool, true, false, Option, none, some, List}
use geek_interview.Errors.{Exn, DriverError, Result, ok, err}
use geek_interview.Store.{Db, BookingResponse, Concert}
use geek_interview.Http.{require_idempotency_key, require_authenticated_user_id}
use geek_interview.RateLimit.{HttpRequest, UrlTexts, Bucket, can_activate}
use geek_interview.Filter.{ErrorAnswer, thrown, answer_error}
use geek_interview.Booking.Request.{CreateBookingDto, Texts}
use geek_interview.Booking.Read.{Page, require_customer, list_for_user, get_owned}
use geek_interview.Booking.Transitions.{OperationBookingTarget}
use geek_interview.Booking.Lifecycle.{World, confirm_booking, cancel_booking}
use geek_interview.Booking.Create.{CreateBookingResult, Draw, execute}
use geek_interview.Operation.Concerts.{
  CreateConcertDto, CreateTicketCategoryDto, TicketCategoryOperationRow, create_concert,
  create_ticket_category, publish_concert,
}
use geek_interview.Operation.Vouchers.{CreateVoucherDto, VoucherOperationRow, create_voucher}
use geek_interview.Operation.Bookings.{
  OperationBookingQuery, OperationBookingSummary, OperationBookingDetail, list_bookings,
  get_booking, update_booking_status,
}

-- The numbers that stand for the texts of user ids and keys.
pub record Names : Type 0 where
  pub user_of : List ℕ → ℕ
  pub key_of : List ℕ → ℕ

-- A check that throws, or goes on with what it returns.
abbrev pub after : {A B : Type 0} → Result A → (A → Db → Result B × Db) → Db → Result B × Db
after (ok a) rest db = rest a db
after (err e) rest db = (err e, db)

abbrev pub authenticated :
    {B : Type 0} → Names → Option (List ℕ) → (ℕ → Db → Result B × Db) → Db → Result B × Db
authenticated n header rest =
    after (require_authenticated_user_id header) λ user_id. rest (n.user_of user_id)

-- `requireCustomerUserId`, then `requireCustomer`
abbrev pub as_customer :
    {B : Type 0} → Names → Option (List ℕ) → (ℕ → Db → Result B × Db) → Db → Result B × Db
as_customer n header rest =
    authenticated n header λ user_id db. after (require_customer user_id db) (λ u. rest user_id) db

abbrev pub booking_of : Result CreateBookingResult × Db → Result BookingResponse × Db
booking_of (ok r, db) = (ok r.booking, db)
booking_of (err e, db) = (err e, db)

unfoldable pub post_booking :
    Texts
    → Names
    → (ℕ → Option DriverError)
    → (ℕ → Draw)
    → CreateBookingDto
    → Option (List ℕ)
    → Option (List ℕ)
    → Db
    → Result BookingResponse × Db
post_booking t n faults draws request user_header key_header = as_customer n user_header λ user_id.
    after (require_idempotency_key key_header)
      λ key db. booking_of (execute t faults draws user_id request (n.key_of key) db)

unfoldable pub post_confirm : Names → World → ℕ → Option (List ℕ) → Db → Result BookingResponse × Db
post_confirm n w identifier user_header =
    as_customer n user_header λ user_id. confirm_booking w user_id identifier

unfoldable pub post_cancel : Names → World → ℕ → Option (List ℕ) → Db → Result BookingResponse × Db
post_cancel n w identifier user_header =
    as_customer n user_header λ user_id. cancel_booking w user_id identifier

unfoldable pub get_my_bookings :
    Names → ℕ → ℕ → Option (List ℕ) → Db → Result (Page BookingResponse) × Db
get_my_bookings n page limit user_header =
    as_customer n user_header λ user_id db. (ok (list_for_user user_id page limit db), db)

unfoldable pub get_my_booking : Names → ℕ → Option (List ℕ) → Db → Result BookingResponse × Db
get_my_booking n identifier user_header =
    as_customer n user_header λ user_id db. (get_owned user_id identifier db, db)

unfoldable pub admin_list_bookings :
    Texts
    → Names
    → OperationBookingQuery
    → Option (List ℕ)
    → Db
    → Result (Page OperationBookingSummary) × Db
admin_list_bookings t n query header =
    authenticated n header λ actor_id. list_bookings t actor_id query

unfoldable pub admin_get_booking :
    Names → ℕ → Option (List ℕ) → Db → Result OperationBookingDetail × Db
admin_get_booking n identifier header =
    authenticated n header λ actor_id. get_booking actor_id identifier

unfoldable pub admin_update_status :
    Texts
    → Names
    → World
    → ℕ
    → OperationBookingTarget
    → ℕ
    → Option (List ℕ)
    → Db
    → Result OperationBookingDetail × Db
admin_update_status t n w identifier status reason header =
    authenticated n header λ actor_id. update_booking_status t w actor_id identifier status reason

unfoldable pub admin_create_concert :
    Texts
    → Names
    → Option DriverError
    → ℕ
    → ℕ
    → CreateConcertDto
    → Option (List ℕ)
    → Db
    → Result Concert × Db
admin_create_concert t n fault now id request header =
    authenticated n header λ actor_id. create_concert t fault now id actor_id request

unfoldable pub admin_create_category :
    Texts
    → Names
    → Option DriverError
    → ℕ
    → ℕ
    → CreateTicketCategoryDto
    → Option (List ℕ)
    → Db
    → Result TicketCategoryOperationRow × Db
admin_create_category t n fault id identifier request header =
    authenticated n header λ actor_id. create_ticket_category t fault id actor_id identifier request

unfoldable pub admin_publish_concert :
    Texts → Names → Option DriverError → ℕ → ℕ → Option (List ℕ) → Db → Result Concert × Db
admin_publish_concert t n fault now identifier header =
    authenticated n header λ actor_id. publish_concert t fault now actor_id identifier

unfoldable pub admin_create_voucher :
    Texts
    → Names
    → Option DriverError
    → ℕ
    → ℕ
    → CreateVoucherDto
    → Option (List ℕ)
    → Db
    → Result VoucherOperationRow × Db
admin_create_voucher t n fault now id request header =
    authenticated n header λ actor_id. create_voucher t fault now id actor_id request

-- What the client gets.
pub data Reply (A : Type 0) : Type 0 where
  created : A → Reply A
  failed : ErrorAnswer → Reply A

abbrev pub reply_of : {A : Type 0} → ℕ → Result A × Db → Reply A × Db
reply_of request_id (ok a, db) = (created a, db)
reply_of request_id (err e, db) =
    (failed (answer_error (some request_id) request_id (thrown e)), db)

abbrev pub guarded :
    {A : Type 0}
    → ℕ
    → Result Bool × List Bucket
    → (Db → Reply A × Db)
    → Db
    → (Reply A × Db) × List Bucket
guarded request_id (ok admitted, buckets) rest db = (rest db, buckets)
guarded request_id (err e, buckets) rest db =
    ((failed (answer_error (some request_id) request_id (thrown e)), db), buckets)

-- A booking request under its request id: the limiter, the controller, the filter.
unfoldable pub serve_booking :
    Texts
    → UrlTexts
    → Names
    → ℕ
    → ℕ
    → HttpRequest
    → ℕ
    → ℕ
    → (ℕ → Option DriverError)
    → (ℕ → Draw)
    → CreateBookingDto
    → Option (List ℕ)
    → Option (List ℕ)
    → List Bucket
    → Db
    → (Reply BookingResponse × Db) × List Bucket
serve_booking t u n max window_ms http now request_id faults draws request user_header key_header
      buckets =
    guarded request_id (can_activate t u max window_ms http now buckets)
      λ db. reply_of request_id (post_booking t n faults draws request user_header key_header db)
