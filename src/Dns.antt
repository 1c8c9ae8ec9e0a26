-- ===== src/Dns.antt =====
-- internal/dns: parsing of queries and building of responses.
pub mod Query
pub mod Response
