-- ===== src/Voucher.antt =====
-- src/modules/voucher: the discount, the eligibility rules and the reservation of quota.
pub mod Discount
pub mod Eligibility
pub mod Reservation
pub mod Quota
pub mod Granting
