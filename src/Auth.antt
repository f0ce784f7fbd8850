-- ===== src/Auth.antt =====
-- Who may do what: src/auth.
pub mod Rbac
pub mod Ratelimit
