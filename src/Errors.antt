-- ===== src/Errors.antt =====
-- What the code throws: src/shared/errors/business.exception.ts, the exceptions of the framework,
-- the errors of the database driver and plain `Error`s.
use geek_interview.Base.{ℕ, Option, some, List}
use geek_interview.Domain.{BookingStatus, ConcertStatus}

pub data BusinessErrorCode : Type 0 where
  customer_not_found invalid_item concert_not_bookable insufficient_ticket_inventory
        voucher_not_applicable voucher_not_started voucher_expired voucher_exhausted
        voucher_already_redeemed booking_not_confirmable booking_not_expired booking_not_cancellable
        booking_not_transitionable invalid_operation_filter concert_slug_conflict concert_not_found
        concert_not_publishable concert_not_editable ticket_category_conflict voucher_code_conflict
        idempotency_key_required idempotency_key_invalid idempotency_key_reused
        idempotency_request_in_progress idempotency_result_unavailable rate_limited :
      BusinessErrorCode

-- The `details` of a business error.
pub data Details : Type 0 where
  no_details : Details
  ticket_category : ℕ → Details
  ticket_categories : List ℕ → Details
  booking_state : BookingStatus → Details
  booking_deadline : BookingStatus → ℕ → ℕ → Details
  booking_target : BookingStatus → BookingStatus → Details
  retry_after : ℕ → Details
  concert_state : ConcertStatus → Details

-- `VoucherPolicyErrorCode`, the code of a `VoucherReservationError`
pub data VoucherPolicyErrorCode : Type 0 where
  not_applicable not_started expired exhausted already_redeemed : VoucherPolicyErrorCode

-- The codes of driver errors that the code tells apart: Prisma's and PostgreSQL's.
pub data DriverCode : Type 0 where
  p2002 p2010 p2034 s40001 s40p01 s23505 s23514 s22003 : DriverCode
  other_code : ℕ → DriverCode

-- `{ code?, meta?: { code? } }`
pub record DriverError : Type 0 where
  pub code : Option DriverCode
  pub meta_code : Option DriverCode

-- The messages of plain `Error`s.
pub data Message : Type 0 where
  invalid_money negative_money inventory_release_violated voucher_release_violated claim_disappeared
        record_not_completed retry_exhausted duplicate_resources missing_concert concert_not_draft
        missing_category scope_mismatch undefined_row :
      Message

pub data Exn : Type 0 where
  business : BusinessErrorCode → ℕ → Details → Exn
  -- `NotFoundException`, `UnauthorizedException`, `ForbiddenException`: by status
  http : ℕ → Exn
  voucher_policy : VoucherPolicyErrorCode → Exn
  database : DriverError → Exn
  plain : Message → Exn

pub data Result {ℓ} (A : Type ℓ) : Type ℓ where
  ok : A → Result A
  err : Exn → Result A

-- A failed raw query: Prisma's P2010 with PostgreSQL's code beside it.
abbrev pub raw_failure : DriverCode → Exn
raw_failure c = database (record { code = some p2010; meta_code = some c })

abbrev pub bad_request : ℕ
bad_request = 400

abbrev pub unauthorized : ℕ
unauthorized = 401

abbrev pub forbidden : ℕ
forbidden = 403

abbrev pub not_found : ℕ
not_found = 404

abbrev pub conflict : ℕ
conflict = 409

abbrev pub too_many_requests : ℕ
too_many_requests = 429
