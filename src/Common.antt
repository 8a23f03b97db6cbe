-- ===== src/Common.antt =====
-- The package common/: port ranges, reserved resources and the bookkeeping of one offer.
pub mod Ranges
pub mod Reserved
pub mod Offer
