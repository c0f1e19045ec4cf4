-- ===== src/Osi.antt =====
-- osi/: the transport layers below MMS.
pub mod Stream
pub mod Tpkt
pub mod Cotp
pub mod Session
