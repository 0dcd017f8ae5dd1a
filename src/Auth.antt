-- ===== src/Auth.antt =====
-- Accounts and their credentials, server/src/auth: the tables (Tables), admission and locking
-- (Access), which sessions are current (Session), candidate passkeys (Candidates), recovery codes and
-- requests (Recovery), the pairing of a second device (Pairing), the sessions of devices (Devices), and
-- runs of them (Examples).
pub mod Devices
pub mod Tables
pub mod Access
pub mod Session
pub mod Candidates
pub mod Pairing
pub mod Recovery
pub mod Examples
