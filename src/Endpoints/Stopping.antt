-- ===== src/Endpoints/Stopping.antt =====
-- The checks of a booking request name the cause when they throw.
use mathlib.Core.Path.{subst}
use geek_interview.Base.{
  ℕ, ◌≡◌, ◌≢◌, refl, sym, ap, ◌∙◌, Bool, true, ◌||◌, Option, none, some, List, [], ◌∷◌, arith, ◌⊎◌,
  inl, inr, Bool-cases, length, ltb, leb,
}
use geek_interview.Errors.{
  Exn, BusinessErrorCode, DriverError, Result, ok, err, business, http, rate_limited, retry_after,
  no_details, idempotency_key_required, idempotency_key_invalid,
}
use geek_interview.Store.{Db, UserRole}
use geek_interview.Money.{trim}
use geek_interview.Http.{
  require_idempotency_key, require_authenticated_user_id, checked_key, has_control,
  max_idempotency_key_length,
}
use geek_interview.RateLimit.{
  Bucket, HttpRequest, UrlTexts, admit, admit_at, can_activate, prune, key_of, is_booking_creation,
  key_for, retry_seconds,
}
use geek_interview.Tables.{find_by}
use geek_interview.Booking.Request.{CreateBookingDto, Texts}
use geek_interview.Booking.Read.{find_role, require_customer}
use geek_interview.Booking.Create.{CreateBookingResult, Draw}
use geek_interview.Endpoints.{Names, after, booking_of, post_booking}
use geek_interview.Endpoints.Causes.{Stopped}

err_inj : {A : Type 0} {x y : Exn} → ◌≡◌ {A = Result A} (err x) (err y) → x ≡ y
err_inj h = cc

admit_at-refused :
    (max window_ms key now : ℕ) (buckets : List Bucket) (b : Option Bucket) (x : Exn)
    → (admit_at max window_ms key now buckets b).0 ≡ err x
    → (seconds : ℕ) × (x ≡ business rate_limited 429 (retry_after seconds))
admit_at-refused max window_ms key now buckets none x h = absurd (ground arith)
admit_at-refused max window_ms key now buckets (some b) x h =
    elim (Bool-cases (leb b.reset_at now)) [
      | inl over ↦ absurd (ground arith)
      | inr still ↦ elim (Bool-cases (ltb b.count max)) [
        | inl room ↦ absurd (ground arith)
        | inr full ↦ (retry_seconds b.reset_at now, ground arith)
      ]
    ]

pub can_activate-refused :
    (t : Texts) (u : UrlTexts) (max window_ms : ℕ) (request : HttpRequest) (now : ℕ)
    (buckets : List Bucket) (x : Exn)
    → (can_activate t u max window_ms request now buckets).0 ≡ err x
    → (seconds : ℕ) × (x ≡ business rate_limited 429 (retry_after seconds))
unfolding can_activate admit
can_activate-refused t u max window_ms request now buckets x h =
    elim (Bool-cases (is_booking_creation t u request)) [
      | inl is ↦
          let live = prune now buckets in
          admit_at-refused max window_ms (key_for t u request) now live
            (find_by key_of (key_for t u request) live) x (ground arith)
      | inr other ↦ absurd (ground arith)
    ]

admit_at-admits :
    (max window_ms key now : ℕ) (buckets : List Bucket) (b : Option Bucket) (a : Bool)
    → (admit_at max window_ms key now buckets b).0 ≡ ok a
    → a ≡ true
admit_at-admits max window_ms key now buckets none a h = ground arith
admit_at-admits max window_ms key now buckets (some b) a h = ground arith

pub can_activate-admits :
    (t : Texts) (u : UrlTexts) (max window_ms : ℕ) (request : HttpRequest) (now : ℕ)
    (buckets : List Bucket) (a : Bool)
    → (can_activate t u max window_ms request now buckets).0 ≡ ok a
    → a ≡ true
unfolding can_activate admit
can_activate-admits t u max window_ms request now buckets a h =
    elim (Bool-cases (is_booking_creation t u request)) [
      | inl is ↦
          let live = prune now buckets in
          admit_at-admits max window_ms (key_for t u request) now live
            (find_by key_of (key_for t u request) live) a (ground arith)
      | inr other ↦ ground arith
    ]

require_authenticated_user_id-refused :
    (header : Option (List ℕ)) (x : Exn)
    → require_authenticated_user_id header ≡ err x
    → x ≡ http 401
unfolding require_authenticated_user_id
require_authenticated_user_id-refused none x h = ground arith
require_authenticated_user_id-refused (some header) x h = ground arith

require_customer-refused :
    (user_id : ℕ) (db : Db) (x : Exn)
    → require_customer user_id db ≡ err x
    → ((find_role user_id db ≡ none) × (x ≡ http 401))
      ⊎ ((role : UserRole) × (find_role user_id db ≡ some role)
          × (role ≢ UserRole.customer)
          × (x ≡ http 403))
unfolding require_customer
require_customer-refused user_id db x h = by_role (find_role user_id db) refl h
  where
    by_role :
        (o : Option UserRole)
        → find_role user_id db ≡ o
        → ◌≡◌ {A = Result (Unit {0})}
            (elim o [
              | none ↦ err (http 401)
              | some UserRole.customer ↦ ok tt
              | some _ ↦ err (http 403)
            ])
            (err x)
        → ((find_role user_id db ≡ none) × (x ≡ http 401))
          ⊎ ((role : UserRole) × (find_role user_id db ≡ some role)
              × (role ≢ UserRole.customer)
              × (x ≡ http 403))
    by_role none e h = inl (e, ground arith)
    by_role (some UserRole.customer) e h = absurd (ground arith)
    by_role (some UserRole.operator) e h = inr (UserRole.operator, e, (λ p. cc), ground arith)
    by_role (some UserRole.admin) e h = inr (UserRole.admin, e, (λ p. cc), ground arith)

abbrev IsKeyError : Exn → Type 0
IsKeyError x =
    (code : BusinessErrorCode) × (x ≡ business code 400 no_details)
    × ((code ≡ idempotency_key_required) ⊎ (code ≡ idempotency_key_invalid))

checked_key-refused : (text : List ℕ) (x : Exn) → checked_key text ≡ err x → IsKeyError x
checked_key-refused [] x h = (idempotency_key_required, ground arith, inl refl)
checked_key-refused (c ∷ cs) x h =
    elim (Bool-cases (ltb max_idempotency_key_length (length (c ∷ cs)) || has_control (c ∷ cs))) [
      | inl bad ↦ (idempotency_key_invalid, ground arith, inr refl)
      | inr good ↦ absurd (ground arith)
    ]

require_idempotency_key-refused :
    (header : Option (List ℕ)) (x : Exn) → require_idempotency_key header ≡ err x → IsKeyError x
unfolding require_idempotency_key
require_idempotency_key-refused none x h = (idempotency_key_required, ground arith, inl refl)
require_idempotency_key-refused (some header) x h = checked_key-refused (trim header) x h

pub require_customer-eq-ok :
    (user_id : ℕ) (db : Db)
    → require_customer user_id db ≡ ok tt
    → find_role user_id db ≡ some UserRole.customer
unfolding require_customer
require_customer-eq-ok user_id db h = ground arith

after-err :
    {A B : Type 0} (r : Result A) (rest : A → Db → Result B × Db) (db : Db) (x : Exn)
    → (after r rest db).0 ≡ err x
    → (r ≡ err x) ⊎ ((a : A) × (r ≡ ok a) × ((rest a db).0 ≡ err x))
after-err (ok a) rest db x h = inr (a, refl, h)
after-err (err e) rest db x h = inl (ap err (err_inj h))

booking_of-err :
    (r : Result CreateBookingResult × Db) (x : Exn) → (booking_of r).0 ≡ err x → r.0 ≡ err x
booking_of-err (ok a, db) x h = absurd (ground arith)
booking_of-err (err e, db) x h = ap err (err_inj h)

-- What the controller throws, behind the limiter.
module _ (t : Texts) (n : Names) (faults : ℕ → Option DriverError) (draws : ℕ → Draw)
    (request : CreateBookingDto) (user_header key_header : Option (List ℕ)) (limiter : Result Bool)
    (db : Db) (passed : limiter ≡ ok true) where
  abbrev Stops : Exn → Type 0
  Stops = Stopped t n faults draws request user_header key_header limiter db

  role-Stopped :
      (user : List ℕ) (x : Exn)
      → require_authenticated_user_id user_header ≡ ok user
      → ((find_role (n.user_of user) db ≡ none) × (x ≡ http 401))
        ⊎ ((role : UserRole) × (find_role (n.user_of user) db ≡ some role)
            × (role ≢ UserRole.customer)
            × (x ≡ http 403))
      → Stops x
  role-Stopped user x named (inl (gone, e)) =
      subst Stops (sym e) (Stopped.unknown user passed named gone)
  role-Stopped user x named (inr (role, has, other, e)) =
      subst Stops (sym e) (Stopped.no_customer user role passed named has other)

  key-Stopped :
      (user : List ℕ) (x : Exn)
      → require_authenticated_user_id user_header ≡ ok user
      → find_role (n.user_of user) db ≡ some UserRole.customer
      → require_idempotency_key key_header ≡ err x
      → Stops x
  key-Stopped user x named customer h =
      let (code, e, which) = require_idempotency_key-refused key_header x h in
      subst Stops (sym e) (Stopped.unkeyed user code passed named customer (h ∙ ap err e) which)

  pub post_booking-Stopped :
      (x : Exn)
      → (post_booking t n faults draws request user_header key_header db).0 ≡ err x
      → Stops x
  unfolding post_booking
  post_booking-Stopped x h = elim (after-err (require_authenticated_user_id user_header) _ db x h) [
    | inl bad ↦ subst Stops (sym (require_authenticated_user_id-refused user_header x bad)) (
        Stopped.unnamed passed
          (bad ∙ ap err (require_authenticated_user_id-refused user_header x bad)))
    | inr (user, named, h1) ↦ elim (after-err (require_customer (n.user_of user) db) _ db x h1) [
      | inl bad ↦ role-Stopped user x named (require_customer-refused (n.user_of user) db x bad)
      | inr (_, role, h2) ↦
          let customer = require_customer-eq-ok (n.user_of user) db role in
          elim (after-err (require_idempotency_key key_header) _ db x h2) [
            | inl bad ↦ key-Stopped user x named customer bad
            | inr (key, keyed, h3) ↦
                Stopped.in_service user key x passed named customer keyed (booking_of-err _ x h3)
          ]
    ]
  ]
