-- ===== src/Rsession.antt =====
-- rsession/: the keys of a routable session and the numbers that it accepts.
pub mod Keys
pub mod Payloads
pub mod Replay
pub mod Streams
