-- ===== src/Tests.antt =====
-- Concrete runs: each theorem with hypotheses, applied where they hold.
pub mod Toy
pub mod Select
pub mod Order
pub mod Names
pub mod Wire
pub mod Head
pub mod Keepalive
pub mod Server
pub mod Connect
pub mod Serve
pub mod Options
pub mod Receive
pub mod Compact
pub mod Client
pub mod Dial
pub mod Complete
pub mod Listing
pub mod Replace
