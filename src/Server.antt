-- ===== src/Server.antt =====
-- Package server: the proxy server's state and every handler of a message.
pub mod State
pub mod Closing
pub mod Sending
pub mod Rooms
pub mod Setup
pub mod Tunnel
pub mod Piping
pub mod Up2p
pub mod Handlers
pub mod Names
mod Runs
mod Traffic
