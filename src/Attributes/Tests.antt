-- ===== src/Attributes/Tests.antt =====
-- Modes of entries.
