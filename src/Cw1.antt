-- ===== src/Cw1.antt =====
-- The proxy contracts contracts/cw1-whitelist and contracts/cw1-subkeys.
pub mod Whitelist
pub mod Subkeys
