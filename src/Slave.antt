-- ===== src/Slave.antt =====
-- internal/slave: the authoritative server that answers queries.
pub mod Wire
pub mod Response
pub mod Dns
