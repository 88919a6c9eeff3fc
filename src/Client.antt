-- ===== src/Client.antt =====
-- The package client: boxes, sub boxes, links through the server, and the ways to reach another
-- client.
pub mod Errors
pub mod State
pub mod Boxes
pub mod Link
pub mod Opening
pub mod Up2p
pub mod Events
pub mod SubTypes
pub mod Mixing
pub mod Sockets
pub mod Toys
mod Runs
mod Traffic
