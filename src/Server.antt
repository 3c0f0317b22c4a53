-- ===== src/Server.antt =====
-- server: the refs of a server, and those who follow them.
pub mod Head
pub mod Registry
pub mod Sweep
pub mod Connect
pub mod Serve
pub mod Options
