-- ===== src/System.antt =====
-- The API calls as steps of the database, and what holds in every state that they reach: the calls of
-- src/modules/booking/application/create-booking.service.ts and booking-lifecycle.service.ts, and of
-- src/modules/operation/application/operation.service.ts.
-- Transactions commit one after another: a run with concurrent calls is the sequence of their commits.
use geek_interview.Base.{ℕ, Bool, ◌+◌, ◌≤◌, ◌≡◌, Option, some, arith}
use geek_interview.Errors.{DriverError}
use geek_interview.Tables.{find_by, count_where}
use geek_interview.Store.{Db, Inventory, Voucher}
use geek_interview.Inventory.Stock.{category_of, held}
use geek_interview.Voucher.Quota.{voucher_key, uses}
use geek_interview.Voucher.Reservation.{holds_voucher}
use geek_interview.Booking.Request.{CreateBookingDto, Texts}
use geek_interview.Booking.Transitions.{OperationBookingTarget}
use geek_interview.Booking.Lifecycle.{World, confirm_booking, cancel_booking, expire_batch}
use geek_interview.Booking.Create.{Draw, execute}
use geek_interview.Booking.Stock.{live_in}
use geek_interview.Booking.Invariant.{Inv}
use geek_interview.Booking.Creating.{IsFresh}
use geek_interview.Booking.Once.{execute-Inv}
use geek_interview.Operation.Concerts.{
  CreateConcertDto, CreateTicketCategoryDto, create_concert, create_ticket_category,
  publish_concert,
}
use geek_interview.Operation.Vouchers.{CreateVoucherDto, create_voucher}
use geek_interview.Operation.Bookings.{update_booking_status}
use geek_interview.Operation.Opening.{create_ticket_category-Inv}
use geek_interview.Operation.Publishing.{create_concert-Inv, publish_concert-Inv}
use geek_interview.Operation.Keeping.{create_voucher-Inv}
use geek_interview.Operation.Overseeing.{update_booking_status-Inv}
use geek_interview.Booking.Refusals.{confirm_booking-Inv, cancel_booking-Inv, expire_batch-Inv}

-- One call, with all that it draws from its environment; the identifiers of a new booking are fresh.
pub data Step (db : Db) : Db → Type 0 where
  creates :
      (t : Texts) (faults : ℕ → Option DriverError) (draws : ℕ → Draw) (user_id key : ℕ)
      (request : CreateBookingDto)
      → ((n : ℕ) → IsFresh (draws n).booking_id (draws n).booking_code db.bookings)
      → Step db (execute t faults draws user_id request key db).1
  confirms :
      (w : World) (user_id identifier : ℕ) → Step db (confirm_booking w user_id identifier db).1
  cancels :
      (w : World) (user_id identifier : ℕ) → Step db (cancel_booking w user_id identifier db).1
  updates :
      (t : Texts) (w : World) (actor_id identifier : ℕ) (target : OperationBookingTarget)
      (reason : ℕ)
      → Step db (update_booking_status t w actor_id identifier target reason db).1
  creates_concert :
      (t : Texts) (fault : Option DriverError) (now id actor_id : ℕ) (request : CreateConcertDto)
      → Step db (create_concert t fault now id actor_id request db).1
  creates_category :
      (t : Texts) (fault : Option DriverError) (id actor_id identifier : ℕ)
      (request : CreateTicketCategoryDto)
      → Step db (create_ticket_category t fault id actor_id identifier request db).1
  publishes :
      (t : Texts) (fault : Option DriverError) (now actor_id identifier : ℕ)
      → Step db (publish_concert t fault now actor_id identifier db).1
  creates_voucher :
      (t : Texts) (fault : Option DriverError) (now id actor_id : ℕ) (request : CreateVoucherDto)
      → Step db (create_voucher t fault now id actor_id request db).1
  expires :
      (w : World) (locked : ℕ → ℕ → Bool) (limit now : ℕ)
      → Step db (expire_batch w locked limit now db).1

pub data Steps (db : Db) : Db → Type 0 where
  done : Steps db db
  then : {mid last : Db} → Steps db mid → Step mid last → Steps db last

pub Step-Inv : {db db' : Db} → Inv db → Step db db' → Inv db'
Step-Inv {db} inv (creates t faults draws user_id key request fresh) =
    execute-Inv t user_id key db inv faults draws request fresh
Step-Inv {db} inv (confirms w user_id identifier) = confirm_booking-Inv w db inv user_id identifier
Step-Inv {db} inv (cancels w user_id identifier) = cancel_booking-Inv w db inv user_id identifier
Step-Inv {db} inv (updates t w actor_id identifier target reason) =
    update_booking_status-Inv t w actor_id identifier target reason db inv
Step-Inv {db} inv (creates_concert t fault now id actor_id request) =
    create_concert-Inv t fault now id actor_id request db inv
Step-Inv {db} inv (creates_category t fault id actor_id identifier request) =
    create_ticket_category-Inv t fault id actor_id identifier request db inv
Step-Inv {db} inv (publishes t fault now actor_id identifier) =
    publish_concert-Inv t fault now actor_id identifier db inv
Step-Inv {db} inv (creates_voucher t fault now id actor_id request) =
    create_voucher-Inv t fault now id actor_id request db inv
Step-Inv {db} inv (expires w locked limit now) = expire_batch-Inv w db inv locked limit now

-- Every sequence of calls keeps the invariant.
pub Steps-Inv : {db db' : Db} → Inv db → Steps db db' → Inv db'
Steps-Inv inv done = inv
Steps-Inv inv (then s one) = Step-Inv (Steps-Inv inv s) one

-- In every state that the calls reach, the tickets of a category that are available and those that
-- RESERVED and CONFIRMED bookings hold make up its total exactly: nothing is oversold and nothing leaks.
pub no_oversell :
    {db db' : Db} (c : ℕ) (i : Inventory)
    → Inv db
    → Steps db db'
    → find_by category_of c db'.inventories ≡ some i
    → i.available_quantity + held (live_in db'.bookings) c db'.booking_items ≡ i.total_quantity
no_oversell c i inv s found = (Steps-Inv inv s).stock.stocked c i found

-- In every state that the calls reach, a voucher's counter is the number of its redemptions that are
-- not released, it does not pass its limit, and no user holds two of them.
pub no_overuse :
    {db db' : Db} (id user_id : ℕ) (v : Voucher)
    → Inv db
    → Steps db db'
    → find_by voucher_key id db'.vouchers ≡ some v
    → (v.used_count ≡ uses id db'.redemptions)
      × (uses id db'.redemptions ≤ v.usage_limit)
      × (count_where (holds_voucher id user_id) db'.redemptions ≤ 1)
no_overuse id user_id v inv s found =
    let q = (Steps-Inv inv s).quota in
    let counted = q.counted id v found in
    let limited = q.limited id v found in (omega arith, omega arith, q.single id user_id)
