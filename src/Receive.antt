-- ===== src/Receive.antt =====
-- receive: the objects that a client has been sent, and what they add up to.
pub mod Graph
pub mod Retain
pub mod Compare
pub mod Interpret
pub mod Listing
