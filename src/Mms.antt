-- ===== src/Mms.antt =====
-- mms/: the values of the Manufacturing Message Specification.
pub mod Values
pub mod Codec
pub mod Times
