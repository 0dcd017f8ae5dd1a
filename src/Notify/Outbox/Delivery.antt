-- ===== src/Notify/Outbox/Delivery.antt =====
-- The bounds of the delay between two attempts of server/src/notify/outbox-worker.ts.
