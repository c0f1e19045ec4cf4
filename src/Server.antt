-- ===== src/Server.antt =====
-- server/: the parts of the server that decide who may do what.
pub mod Select
pub mod Reports
pub mod Settings
