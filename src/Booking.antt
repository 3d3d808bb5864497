-- ===== src/Booking.antt =====
-- src/modules/booking: the repositories, the lifecycle and the creation of bookings.
pub mod Write
pub mod Read
pub mod Transitions
pub mod Lifecycle
pub mod Request
pub mod Create
pub mod Stock
pub mod Invariant
pub mod Expiry
pub mod Writing
pub mod Reserving
pub mod Creating
pub mod Sold
pub mod Booked
pub mod Selling
pub mod Executing
pub mod Replaying
pub mod Once
pub mod Refusals
pub mod Denied
pub mod Paging
pub mod Normalizing
pub mod Reordering
pub mod Draining
