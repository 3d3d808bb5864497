-- ===== src/Store.antt =====
-- The database: the tables of database/migrations, rows as the repositories read them, and the
-- transaction monad. Ids, slugs, codes, names and reasons are compared for equality and ordered
-- only, so each text is a number that stands for it; amounts of money are cents; times are
-- milliseconds.
use geek_interview.Base.{ℕ, Bool, true, false, Option, none, some, List, ◌==◌, ◌||◌, ◌≡◌, refl}
pub use geek_interview.Domain.{ConcertStatus, draft, published, archived}
use geek_interview.Domain.{BookingStatus}
use geek_interview.Errors.{Exn, Result, ok, err}

pub data UserRole : Type 0 where
  customer operator admin : UserRole

pub record User : Type 0 where
  pub id : ℕ
  pub role : UserRole

pub record Concert : Type 0 where
  pub id : ℕ
  pub slug : ℕ
  pub name : ℕ
  pub status : ConcertStatus
  pub starts_at : ℕ

pub record TicketCategory : Type 0 where
  pub id : ℕ
  pub concert_id : ℕ
  pub code : ℕ
  pub name : ℕ
  pub price : ℕ

pub record Inventory : Type 0 where
  pub ticket_category_id : ℕ
  pub total_quantity : ℕ
  pub available_quantity : ℕ

pub data VoucherDiscountType : Type 0 where
  percent fixed : VoucherDiscountType

pub data VoucherStatus : Type 0 where
  active expired disabled : VoucherStatus

pub record Voucher : Type 0 where
  pub id : ℕ
  pub code : ℕ
  pub discount_type : VoucherDiscountType
  pub discount_value : ℕ
  pub usage_limit : ℕ
  pub used_count : ℕ
  pub status : VoucherStatus
  pub starts_at : ℕ
  pub expires_at : ℕ
  pub applicable_concert_id : Option ℕ
  pub applicable_ticket_category_id : Option ℕ

pub record Booking : Type 0 where
  pub id : ℕ
  pub booking_code : ℕ
  pub user_id : ℕ
  pub concert_id : ℕ
  pub status : BookingStatus
  pub subtotal : ℕ
  pub discount_amount : ℕ
  pub final_amount : ℕ
  pub expires_at : ℕ
  pub created_at : ℕ
  pub updated_at : ℕ

pub record BookingItem : Type 0 where
  pub id : ℕ
  pub booking_id : ℕ
  pub ticket_category_id : ℕ
  pub quantity : ℕ
  pub unit_price : ℕ
  pub line_total : ℕ

-- `releaseForBooking`'s reasons
pub data ReleaseReason : Type 0 where
  reservation_expired booking_cancelled operation_cancelled operation_expired : ReleaseReason

pub data RedemptionStatus : Type 0 where
  reserved consumed released : RedemptionStatus

pub record Redemption : Type 0 where
  pub voucher_id : ℕ
  pub user_id : ℕ
  pub booking_id : ℕ
  pub status : RedemptionStatus
  pub released_at : Option ℕ
  pub released_reason : Option ReleaseReason

pub data ChangeSource : Type 0 where
  customer_api operation_api reservation_expiry_worker : ChangeSource

pub data ChangeReason : Type 0 where
  booking_created booking_was_confirmed booking_was_cancelled ttl_elapsed : ChangeReason
  operator_reason : ℕ → ChangeReason

pub record StatusChange : Type 0 where
  pub booking_id : ℕ
  pub from_status : Option BookingStatus
  pub to_status : BookingStatus
  pub changed_by : Option ℕ
  pub change_source : ChangeSource
  pub reason : ChangeReason

-- `BookingItemResponse` and `BookingResponse`: what the API returns, money as text.
pub record BookingItemResponse : Type 0 where
  pub id : ℕ
  pub ticket_category_id : ℕ
  pub category_code : ℕ
  pub category_name : ℕ
  pub quantity : ℕ
  pub unit_price : List ℕ
  pub line_total : List ℕ

pub record ConcertSummary : Type 0 where
  pub id : ℕ
  pub slug : ℕ
  pub name : ℕ

pub record BookingResponse : Type 0 where
  pub id : ℕ
  pub booking_code : ℕ
  pub concert : ConcertSummary
  pub status : BookingStatus
  pub subtotal : List ℕ
  pub discount_amount : List ℕ
  pub final_amount : List ℕ
  pub expires_at : ℕ
  pub created_at : ℕ
  pub updated_at : ℕ
  pub items : List BookingItemResponse

pub data IdempotencyStatus : Type 0 where
  processing completed failed : IdempotencyStatus

pub record IdempotencyRecord : Type 0 where
  pub id : ℕ
  pub user_id : ℕ
  pub idempotency_key : ℕ
  pub request_hash : ℕ
  pub status : IdempotencyStatus
  pub response_status : Option ℕ
  pub response_body : Option BookingResponse

pub record Db : Type 0 where
  pub users : List User
  pub concerts : List Concert
  pub ticket_categories : List TicketCategory
  pub inventories : List Inventory
  pub vouchers : List Voucher
  pub bookings : List Booking
  pub booking_items : List BookingItem
  pub redemptions : List Redemption
  pub idempotency_records : List IdempotencyRecord
  pub history : List StatusChange

-- `id::text = identifier OR booking_code = identifier`
abbrev pub matches_identifier : ℕ → Booking → Bool
matches_identifier identifier b = (b.id == identifier) || (b.booking_code == identifier)

-- Work inside one transaction; what is thrown rolls it back, so an error carries no state.
abbrev pub Tx : Type 0 → Type 0
Tx A = Db → Result (A × Db)

abbrev pub pure : {A : Type 0} → A → Tx A
pure a db = ok (a, db)

abbrev pub throw : {A : Type 0} → Exn → Tx A
throw e db = err e

infixl 5 ◌>>=◌ ◌>>◌
abbrev pub ◌>>=◌ : {A B : Type 0} → Tx A → (A → Tx B) → Tx B
◌>>=◌ m f db = elim (m db) [ ok (a, db') ↦ f a db' | err e ↦ err e ]

abbrev pub ◌>>◌ : {B : Type 0} → Tx (Unit {0}) → Tx B → Tx B
m >> k = m >>= λ _. k

abbrev pub gets : {A : Type 0} → (Db → A) → Tx A
gets f db = ok (f db, db)

abbrev pub modify : (Db → Db) → Tx (Unit {0})
modify f db = ok (tt, f db)

-- `if (c) throw e;`
abbrev pub throw_if : Bool → Exn → Tx (Unit {0})
throw_if true e db = err e
throw_if false e db = ok (tt, db)

abbrev pub or_throw : {A : Type 0} → Option A → Exn → Tx A
or_throw none e db = err e
or_throw (some a) e db = ok (a, db)

bind_result :
    {A B : Type 0} (m : Result (A × Db)) (f : A → Tx B) {r : B × Db}
    → (elim m [ ok (a, db') ↦ f a db' | err e ↦ err e ]) ≡ ok r
    → (a : A) × (db' : Db) × (m ≡ ok (a, db')) × (f a db' ≡ ok r)
bind_result (ok (a, db')) f h = (a, db', refl, h)
bind_result (err e) f h = cc

-- A sequence that succeeds did so step by step.
pub >>=-eq-ok :
    {A B : Type 0} (m : Tx A) (f : A → Tx B) (db : Db) {r : B × Db}
    → (m >>= f) db ≡ ok r
    → (a : A) × (db' : Db) × (m db ≡ ok (a, db')) × (f a db' ≡ ok r)
>>=-eq-ok m f db h = bind_result (m db) f h

-- A first step that succeeds hands over to the rest.
pub >>=_ok :
    {A B : Type 0} (m : Tx A) (f : A → Tx B) (db : Db) {a : A} {db' : Db}
    → m db ≡ ok (a, db')
    → (m >>= f) db ≡ f a db'
>>=_ok m f db e = rw (e, ◌>>=◌)

-- A first step that throws ends the sequence.
pub >>=_err :
    {A B : Type 0} (m : Tx A) (f : A → Tx B) (db : Db) {x : Exn}
    → m db ≡ err x
    → (m >>= f) db ≡ err x
>>=_err m f db e = rw (e, ◌>>=◌)
