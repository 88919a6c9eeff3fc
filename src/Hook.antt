-- ===== src/Hook.antt =====
-- The hook tool, which carries TCP connections over the proxy: _hook-tcp/.
pub mod Config
pub mod Server
pub mod Client
pub mod Build
mod Runs
