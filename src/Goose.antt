-- ===== src/Goose.antt =====
-- goose/: publishing and subscribing.
pub mod Messages
pub mod Tracker
pub mod Publisher
pub mod Supervision
pub mod Stream
pub mod Codec
