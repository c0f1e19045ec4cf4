-- ===== src/Tests.antt =====
-- The development's theorems at concrete inputs, by component.
pub mod Asn1
pub mod Osi
pub mod Session
pub mod Frames
pub mod Samples
pub mod Goose
pub mod Server
pub mod Reports
pub mod Keys
pub mod Mms
pub mod Settings
