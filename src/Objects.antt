-- ===== src/Objects.antt =====
-- objects: the store of git objects and the choice of what to send.
pub mod Order
pub mod Store
pub mod Walk
pub mod Select
pub mod Compact
pub mod Load
pub mod Replace
