-- ===== src/Certs.antt =====
-- internal/certs.
pub mod Gate
