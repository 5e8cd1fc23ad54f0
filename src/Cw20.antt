-- ===== src/Cw20.antt =====
-- The token contract cw20-base: contracts/cw20-base/src. `Defs` has its state and messages,
-- `Instantiate` and `Execute` its entry points, `Query` what can be read.
pub mod Defs
pub mod Instantiate
pub mod Execute
pub mod Balances
pub mod Steps
pub mod Supply
pub mod Authority
pub mod Genesis
pub mod Panics
pub mod Runs
pub mod Transfer
pub mod Query
pub mod Enumerable
mod Tests
