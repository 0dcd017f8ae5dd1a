-- ===== src/Federation.antt =====
-- Account federation, server/src/federation: the pure decisions (Policy), the tables (Tables), the
-- numbers that services see (Subject), the transactions (Store), the requests by QR code
-- (JoinRequest) and runs on small tables (Examples).
pub mod JoinRequest
pub mod Policy
pub mod Tables
pub mod Subject
pub mod Store
pub mod Examples
