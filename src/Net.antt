-- ===== src/Net.antt =====
-- src/net: the connection layer.
pub mod WorkQueue
pub mod Worker
pub mod ConnectionPool
pub mod Server
