-- ===== src/Notify/Examples.antt =====
-- The delay after the third attempt, with the random number a half.
