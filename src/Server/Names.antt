-- ===== src/Server/Names.antt =====
-- The table of names is exact: who is registered, and under which name.
pub mod Invariant
pub mod Sending
pub mod Shutdown
pub mod Register
pub mod Rooms
pub mod Reports
pub mod Linking
pub mod Handlers
pub mod Reach
