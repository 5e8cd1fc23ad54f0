-- ===== src/Controllers.antt =====
-- packages/controllers/src: the parts of a contract that several contracts share.
pub mod Admin
pub mod Hooks
pub mod Claims
