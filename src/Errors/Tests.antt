-- ===== src/Errors/Tests.antt =====
-- The error theorems at concrete errors.
