-- ===== src/App/Services/Tests.antt =====
-- The constructors on a small configuration.
