-- ===== src/Server/Handlers.antt =====
-- The handlers of a connection's messages, by its step.
pub mod Reports
pub mod Link
pub mod Business
pub mod Dispatch
pub mod Joining
