-- ===== src/Sv.antt =====
-- sv/: sampled values.
pub mod Pdus
pub mod Subscribers
