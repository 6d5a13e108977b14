-- ===== src/Security.antt =====
-- security/: user accounts.
pub mod Auth
