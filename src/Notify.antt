-- ===== src/Notify.antt =====
-- Security events (Events) and their delivery (Outbox), server/src/notify, with a run (Examples).
pub mod Events
pub mod Outbox
pub mod Examples
