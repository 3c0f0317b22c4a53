-- ===== src/Receive/Retain.antt =====
-- What `mark` collects, and what `Retain` keeps of a graph.
pub mod Marks
pub mod Live
pub mod Laws
pub mod Ends
