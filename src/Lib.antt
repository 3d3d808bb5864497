-- ===== src/Lib.antt =====
-- Verification of the concert ticket booking backend: what happens to stock, vouchers, bookings and
-- idempotency keys when customers book, confirm and cancel, when operators create concerts, stock and
-- vouchers or change a booking, and when the worker expires reservations.
--
-- The parts, with the paths of the code from the repository's root:
--   Base, Tables: native numbers and Boolean tests; a table as the list of its rows, with SELECT,
--     UPDATE and ORDER BY and their laws.
--   Money: src/shared/money/money.ts. A text is the list of its UTF-16 code units, a bigint that is
--     never negative is a natural number. `print_digits` runs on fuel one larger than its number, and a
--     number has fewer digits than that.
--   Domain: src/modules/booking/domain/booking-lifecycle.ts.
--   Errors: src/shared/errors/business.exception.ts, and what else is thrown.
--   Store: the rows of database/migrations and the transaction monad: work is a function from the
--     database to a result with the new database, or to an error, which rolls everything back.
--   Transaction: src/shared/database/transaction.ts: `withTransaction`, whose attempts the database may
--     abort (`faults`); its loop has as many rounds of fuel as attempts are allowed.
--   Inventory: src/modules/inventory/infrastructure/inventory-reservation.repository.ts.
--   Voucher: src/modules/voucher: discount, eligibility, and the repository that reserves vouchers.
--   Idempotency: src/modules/idempotency/infrastructure/idempotency.repository.ts.
--   Booking.Request: the DTO, `normalizeItems` and the fingerprint of a request.
--   Booking.Write, Booking.Read, Booking.Transitions: the three repositories of
--     src/modules/booking/infrastructure, and booking-read.service.ts.
--   Booking.Lifecycle: src/modules/booking/application/booking-lifecycle.service.ts.
--   Booking.Create: src/modules/booking/application/create-booking.service.ts.
--   System: calls of the services as steps of the database.
--   Worker: src/workers/reservation-expiry/reservation-expiry.worker.ts, whose ticks and batches are
--     steps of the process beside those calls.
--   RateLimit: src/shared/http/booking-rate-limit.guard.ts, whose map of buckets is the state.
--   Http: src/shared/http/idempotency-key.ts and customer-user.ts.
--   Catalog: the reads of concerts and of their stock in src/modules/concert and src/modules/inventory.
--   Http.RequestIds: src/shared/observability/request-id.middleware.ts.
--   Operation: src/modules/operation: the service and the repository of operators, in Concerts (with
--     categories, stock and publishing), Vouchers and Bookings.
--   Endpoints: the controllers of src/modules/booking/presentation and src/modules/operation/presentation.
--   Filter: src/shared/http/api-exception.filter.ts.
--   Health: src/app/health.controller.ts.
--   Metrics: the counters of src/shared/observability/observability.service.ts, in Exposition their
--     text, in Routes the routes under which requests are counted; Interceptor is
--     request-observability.interceptor.ts beside it.
--   The other modules hold proofs, and Samples and Tests runs on a small database.
--
-- A service calls its repositories inside one transaction: `execute` claims the idempotency key, takes
-- the stock of each item, counts the voucher, writes the rows and completes the key; the lifecycle
-- changes the status first and then consumes or releases what the booking holds. The invariant
-- (Booking.Invariant) ties the stock to the items of live bookings and a voucher's counter to its
-- redemptions that are not released.
--
-- What stands for code outside the repository: PostgreSQL's statements are functions on tables;
-- `NOW()` is fixed for a transaction and is an argument, as are `new Date()`, random identifiers, the
-- rows that SKIP LOCKED passes over and the errors with which the database aborts an attempt. A text
-- that is only compared is a number; trimming, case, `localeCompare` and SHA-256 are the fields of
-- `Texts`. Identifiers that a booking draws are assumed to be fresh (`IsFresh`).
-- Committed transactions are taken one after another: every UPDATE of the code carries its guard in its
-- WHERE clause, which PostgreSQL evaluates on the locked row, and what a statement of a concurrent
-- transaction reads in between is not modelled.
-- Bodies and queries of requests are taken as the validation of the DTOs lets them through: numbers
-- are natural, amounts have two decimals.
-- Not modelled: the start of the process and its configuration; the timer of the worker, whose ticks
-- may come at any time; log entries and durations; the texts of messages; in the details that
-- operators see, the ids of history entries and the times of entries, redemptions and keys; the
-- scripts for set-up and load tests. They do not take part in what is decided.
pub mod Base
pub mod Money
pub mod Domain
pub mod Errors
pub mod Tables
pub mod Store
pub mod Inventory
pub mod Voucher
pub mod Idempotency
pub mod Booking
pub mod Transaction
pub mod RateLimit
pub mod Http
pub mod Catalog
pub mod Operation
pub mod Filter
pub mod Metrics
pub mod Endpoints
pub mod Worker
pub mod System
pub mod Samples
pub mod Tests
pub mod Health
