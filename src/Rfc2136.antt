-- ===== src/Rfc2136.antt =====
-- internal/rfc2136: dynamic updates.
pub mod Wire
pub mod Tsig
pub mod Naming
pub mod Cluster
pub mod Handler
pub mod Server
