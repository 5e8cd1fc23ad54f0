-- ===== src/Cw3.antt =====
-- The voting rules of the multisig contracts, cw3-flex-multisig and
-- cw3-fixed-multisig.
pub mod Defs
pub mod Threshold
pub mod Needed
pub mod Passing
pub mod Early
pub mod Flex
pub mod Fixed
mod Tests
