-- ===== src/Endpoints/Customers.antt =====
-- What a booking request's answer says about its headers and about the database.
use mathlib.Core.Path.{subst}
use geek_interview.Base.{ℕ, ◌≡◌, refl, sym, ap, ◌∙◌, Bool, true, Option, some, List, arith}
use geek_interview.Errors.{Exn, DriverError, Result, ok, err, business, rate_limited, retry_after}
use geek_interview.Endpoints.Causes.{Stopped, ShowsError, answer_error-ShowsError}
use geek_interview.Endpoints.Stopping.{
  can_activate-refused, can_activate-admits, post_booking-Stopped, require_customer-eq-ok,
}
use geek_interview.Store.{Db, BookingResponse, UserRole, Tx}
use geek_interview.Http.{require_idempotency_key, require_authenticated_user_id}
use geek_interview.RateLimit.{HttpRequest, UrlTexts, Bucket, can_activate}
use geek_interview.Filter.{ErrorAnswer, thrown, answer_error}
use geek_interview.Transaction.{with_transaction, commit}
use geek_interview.Transaction.Retries.{with_transaction-Decides}
use geek_interview.Booking.Request.{CreateBookingDto, NormalizedItem, Texts, normalize_items}
use geek_interview.Booking.Read.{find_role, require_customer}
use geek_interview.Booking.Create.{CreateBookingResult, Draw, execute_items, execute}
use geek_interview.Endpoints.{
  Names, after, booking_of, post_booking, Reply, failed, reply_of, guarded, serve_booking,
}

-- An error, and with it the database as it was.
abbrev pub KeepsOnError : {A : Type 0} → Db → Result A × Db → Type 0
KeepsOnError db (ok a, db') = Unit
KeepsOnError db (err e, db') = db' ≡ db

commit-KeepsOnError : {A : Type 0} (db : Db) (r : Result (A × Db)) → KeepsOnError db (commit db r)
commit-KeepsOnError db (ok (a, db')) = tt
commit-KeepsOnError db (err e) = refl

with_transaction-KeepsOnError :
    {A : Type 0} (faults : ℕ → Option DriverError) (work : ℕ → Tx A) (max : Option ℕ) (db : Db)
    → KeepsOnError db (with_transaction faults work max db)
with_transaction-KeepsOnError faults work max db =
    let (n, d, r) = with_transaction-Decides faults work max db in rw r (commit-KeepsOnError db _)

execute-KeepsOnError :
    (t : Texts) (faults : ℕ → Option DriverError) (draws : ℕ → Draw) (user_id : ℕ)
    (request : CreateBookingDto) (key : ℕ) (db : Db)
    → KeepsOnError db (execute t faults draws user_id request key db)
unfolding execute
execute-KeepsOnError t faults draws user_id request key db =
    by_items (normalize_items t request.items)
  where
    by_items :
        (items : Result (List NormalizedItem))
        → KeepsOnError db (execute_items t faults draws user_id request key items db)
    by_items (ok items) = with_transaction-KeepsOnError faults _ (some 3) db
    by_items (err e) = refl

after-KeepsOnError :
    {A B : Type 0} (r : Result A) (rest : A → Db → Result B × Db) (db : Db)
    → ((a : A) → KeepsOnError db (rest a db))
    → KeepsOnError db (after r rest db)
after-KeepsOnError (ok a) rest db h = h a
after-KeepsOnError (err e) rest db h = refl

booking_of-KeepsOnError :
    (db : Db) (r : Result CreateBookingResult × Db)
    → KeepsOnError db r
    → KeepsOnError db (booking_of r)
booking_of-KeepsOnError db (ok r, db') h = tt
booking_of-KeepsOnError db (err e, db') h = h

post_booking-KeepsOnError :
    (t : Texts) (n : Names) (faults : ℕ → Option DriverError) (draws : ℕ → Draw)
    (request : CreateBookingDto) (user_header key_header : Option (List ℕ)) (db : Db)
    → KeepsOnError db (post_booking t n faults draws request user_header key_header db)
unfolding post_booking
post_booking-KeepsOnError t n faults draws request user_header key_header db =
    after-KeepsOnError (require_authenticated_user_id user_header) _ db λ user.
      after-KeepsOnError (require_customer (n.user_of user) db) _ db λ u.
        after-KeepsOnError (require_idempotency_key key_header) _ db λ key.
          booking_of-KeepsOnError db _
            (execute-KeepsOnError t faults draws (n.user_of user) request (n.key_of key) db)

-- What an error answer stands for: where the request was stopped and by which error, which the answer
-- shows; the database is as it was, and the buckets are those that the limiter leaves.
pub record Refused (t : Texts) (n : Names) (faults : ℕ → Option DriverError) (draws : ℕ → Draw)
    (request : CreateBookingDto) (user_header key_header : Option (List ℕ))
    (limiter : Result Bool × List Bucket) (request_id : ℕ) (db : Db) (answer : ErrorAnswer)
    (db' : Db) (left : List Bucket) : Type 0 where
  pub reason : Exn
  pub stopped : Stopped t n faults draws request user_header key_header limiter.0 db reason
  pub shows : ShowsError request_id reason answer
  pub same : db' ≡ db
  pub buckets : left ≡ limiter.1

failed_inj : {A : Type 0} {a b : ErrorAnswer} → ◌≡◌ {A = Reply A} (failed a) (failed b) → a ≡ b
failed_inj h = cc

shown :
    (request_id : ℕ) (x : Exn) (answer : ErrorAnswer)
    → ◌≡◌ {A = Reply BookingResponse}
        (failed (answer_error (some request_id) request_id (thrown x)))
        (failed answer)
    → ShowsError request_id x answer
shown request_id x answer e =
    subst (ShowsError request_id x) (failed_inj e) (answer_error-ShowsError request_id x)

reply_of-failed :
    (request_id : ℕ) (db : Db) (r : Result BookingResponse × Db) {answer : ErrorAnswer} {db' : Db}
    → KeepsOnError db r
    → ◌≡◌ {A = Reply BookingResponse × Db} (reply_of request_id r) (failed answer, db')
    → (x : Exn) × (r.0 ≡ err x) × ShowsError request_id x answer × (db' ≡ db)
reply_of-failed request_id db (ok a, s) h e = absurd (ground arith)
reply_of-failed request_id db (err x, s) {answer} {db'} h e = (
  x,
  refl,
  shown request_id x answer (ap (λ (p : Reply BookingResponse × Db). p.0) e),
  sym (ap (λ (p : Reply BookingResponse × Db). p.1) e) ∙ h,
)

module _ (t : Texts) (u : UrlTexts) (n : Names) (max window_ms : ℕ) (http : HttpRequest)
    (now request_id : ℕ) (faults : ℕ → Option DriverError) (draws : ℕ → Draw)
    (request : CreateBookingDto) (user_header key_header : Option (List ℕ)) (buckets : List Bucket)
    (db : Db) where
  abbrev IsRefused : Result Bool × List Bucket → ErrorAnswer → Db → List Bucket → Type 0
  IsRefused limiter answer db' left =
      Refused t n faults draws request user_header key_header limiter request_id db answer db' left

  guarded-Refused :
      (limiter : Result Bool × List Bucket) {answer : ErrorAnswer} {db' : Db} {left : List Bucket}
      → ((x : Exn) → limiter.0 ≡ err x → (s : ℕ) × (x ≡ business rate_limited 429 (retry_after s)))
      → ((b : Bool) → limiter.0 ≡ ok b → b ≡ true)
      → ◌≡◌ {A = (Reply BookingResponse × Db) × List Bucket}
          (guarded request_id limiter
            (λ d.
              reply_of request_id (post_booking t n faults draws request user_header key_header d))
            db)
          ((failed answer, db'), left)
      → IsRefused limiter answer db' left
  guarded-Refused (ok b, after) {answer} {db'} limits admits e =
      let (x, threw, shows, same) =
        reply_of-failed request_id db
          (post_booking t n faults draws request user_header key_header db)
          (post_booking-KeepsOnError t n faults draws request user_header key_header db)
          (ap (λ (p : (Reply BookingResponse × Db) × List Bucket). p.0) e) in
      record {
        reason = x;
        stopped =
            post_booking-Stopped t n faults draws request user_header key_header (ok b) db
              (ap ok (admits b refl)) x threw;
        shows = shows;
        same = same;
        buckets = sym (ap (λ (p : (Reply BookingResponse × Db) × List Bucket). p.1) e);
      }
  guarded-Refused (err x, after) {answer} {db'} limits admits e =
      let (s, is) = limits x refl in
      record {
        reason = x;
        stopped =
            subst (Stopped t n faults draws request user_header key_header (err x) db) (sym is)
              (Stopped.limited s (ap err is));
        shows =
            shown request_id x answer
              (ap (λ (p : (Reply BookingResponse × Db) × List Bucket). p.0.0) e);
        same = sym (ap (λ (p : (Reply BookingResponse × Db) × List Bucket). p.0.1) e);
        buckets = sym (ap (λ (p : (Reply BookingResponse × Db) × List Bucket). p.1) e);
      }

  -- A booking request that is answered with an error was stopped by the limiter, with 429, for a header
  -- that names no user or a user who is not there, with 401, for a user who is no customer, with 403,
  -- for a key that is missing or invalid, with 400, or else by an error of the service, in this order;
  -- the answer shows that error: a business error with its status, code and details, an error of the
  -- framework with its status, any other one as an unexpected error with 500 and no details; the
  -- database is as it was, and the buckets are those that the limiter leaves.
  pub serve_booking-Refused :
      (answer : ErrorAnswer) (db' : Db) (left : List Bucket)
      → serve_booking t u n max window_ms http now request_id faults draws request user_header
          key_header buckets db
        ≡ ((failed answer, db'), left)
      → Refused t n faults draws request user_header key_header
          (can_activate t u max window_ms http now buckets)
          request_id
          db
          answer
          db'
          left
  unfolding serve_booking
  serve_booking-Refused answer db' left e =
      guarded-Refused (can_activate t u max window_ms http now buckets)
        (can_activate-refused t u max window_ms http now buckets)
        (can_activate-admits t u max window_ms http now buckets) e

after-eq-ok :
    {A B : Type 0} (r : Result A) (rest : A → Db → Result B × Db) (db : Db) {b : B} {db' : Db}
    → after r rest db ≡ (ok b, db')
    → (a : A) × (r ≡ ok a) × (rest a db ≡ (ok b, db'))
after-eq-ok (ok a) rest db h = (a, refl, h)
after-eq-ok (err e) rest db h = absurd (ground arith)

booking_of-eq-ok :
    (r : Result CreateBookingResult × Db) {b : BookingResponse} {db' : Db}
    → booking_of r ≡ (ok b, db')
    → (x : CreateBookingResult) × (x.booking ≡ b) × (r ≡ (ok x, db'))
booking_of-eq-ok (ok x, db) {b} h =
    let same : x.booking ≡ b = ground arith in
    (x, same, ap (λ (p : Result BookingResponse × Db). (ok x, p.1)) h)
booking_of-eq-ok (err e, db) h = absurd (ground arith)

-- Who may book: the user is known by an accepted header and is a customer, the key is accepted, and
-- what is answered is the booking that the service made or found under that user and key.
pub record Served (t : Texts) (n : Names) (faults : ℕ → Option DriverError) (draws : ℕ → Draw)
    (request : CreateBookingDto) (user_header key_header : Option (List ℕ)) (db : Db)
    (booking : BookingResponse) (db' : Db) : Type 0 where
  pub user_id : List ℕ
  pub key : List ℕ
  pub result : CreateBookingResult
  pub known : require_authenticated_user_id user_header ≡ ok user_id
  pub is_customer : find_role (n.user_of user_id) db ≡ some UserRole.customer
  pub keyed : require_idempotency_key key_header ≡ ok key
  pub made : execute t faults draws (n.user_of user_id) request (n.key_of key) db ≡ (ok result, db')
  pub shown : result.booking ≡ booking

-- A booking that the controller answers was made, or found again, by the service for a customer who
-- is known by an accepted header, under an accepted key.
pub post_booking-Served :
    (t : Texts) (n : Names) (faults : ℕ → Option DriverError) (draws : ℕ → Draw)
    (request : CreateBookingDto) (user_header key_header : Option (List ℕ)) (db db' : Db)
    (booking : BookingResponse)
    → post_booking t n faults draws request user_header key_header db ≡ (ok booking, db')
    → Served t n faults draws request user_header key_header db booking db'
unfolding post_booking
post_booking-Served t n faults draws request user_header key_header db db' booking h =
    let (user_id, known, h1) = after-eq-ok (require_authenticated_user_id user_header) _ db h in
    let (ok_role, role, h2) = after-eq-ok (require_customer (n.user_of user_id) db) _ db h1 in
    let (key, keyed, h3) = after-eq-ok (require_idempotency_key key_header) _ db h2 in
    let (result, shown, made) = booking_of-eq-ok _ h3 in
    record {
      user_id = user_id;
      key = key;
      result = result;
      known = known;
      is_customer = require_customer-eq-ok (n.user_of user_id) db role;
      keyed = keyed;
      made = made;
      shown = shown;
    }
