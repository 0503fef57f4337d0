-- ===== src/DirtyTimestamp/Tests.antt =====
-- The timeout theorem at a concrete stamp.
