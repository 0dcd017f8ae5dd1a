-- ===== src/Consent.antt =====
-- Consent of a user to what a service may read, server/src/consent: permission keys (Keys), what a
-- service still has to ask (Requirement), the stored decisions (Store) and the gate before a
-- sign-in to a service (Gate).
pub mod Keys
pub mod Requirement
pub mod Store
pub mod Gate
pub mod Examples
