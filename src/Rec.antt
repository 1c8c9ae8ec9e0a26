-- ===== src/Rec.antt =====
-- internal/rec: domain names, record types, record data and resource records.
pub mod Domain
pub mod Types
pub mod Opts
pub mod Rr
pub mod Parse
