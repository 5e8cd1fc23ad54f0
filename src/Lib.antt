-- ===== src/Lib.antt =====
-- Verification of the smart contracts in contracts/ and of the packages in packages/ that they
-- rest on.
--
-- How the parts interact: a contract is a set of entry points (`instantiate`, `execute`, `query`)
-- over a key-value storage that packages/storage-plus gives types. An entry point reads the caller
-- and the block, changes the storage, and returns messages for other contracts, or an error. The
-- runtime reverts a call that returns an error or panics. Here an entry point is a function from
-- the state of the contract to `Outcome`: `ok` with the new state and the messages, `err` with the
-- error of the source, or `panic`.
--
-- Files:
--   Prelude        shared names; Prelude/Results is `Outcome`, Prelude/Words the checked arithmetic
--                  of `u64` (Cargo.toml sets overflow-checks), Prelude/Checked chains of it
--   Std            cosmwasm_std, which is no part of the repository, as a record of the functions
--                  that the contracts call with their documented behaviour; Mock is an instance
--   Storage        `Map` and `Item` of packages/storage-plus/src/map.rs, path.rs and item.rs
--                  (Distinct: maps with each key once; Repeats: rows with a repeated address);
--                  Range is `range` and `prefix` of map.rs and prefix.rs, Range/Pages proves
--                  what it lists
--   Indexed        packages/storage-plus/src/indexed_map.rs and `MultiIndex` of indexes.rs; Laws
--                  proves that the index and the map agree
--   Pagination     packages/cw0/src/pagination.rs, and the address check that everything uses
--   Funds          what a contract holds and pays: coin.rs, balance.rs and denom.rs of
--                  packages/cw20/src; Assets counts one asset in coins, balances and payments,
--                  Payable is packages/cw0/src/payment.rs
--   Snapshot       packages/storage-plus/src/snapshot.rs; Changelog and Heights prove what a read
--                  at a height gives
--   Balance        packages/cw0/src/balance.rs; Laws and Totals prove its sums
--   Controllers    packages/controllers/src: Admin, Hooks (with Registry), Claims (with Paying)
--   Expiration     packages/cw0/src/expiration.rs; Order and Delay prove its
--                  laws, Live says without it what has not expired
--   Cw2            packages/cw2/src/lib.rs
--   Cw20           contracts/cw20-base/src: Defs (state.rs, msg.rs, error.rs), Instantiate and
--                  Execute (contract.rs, allowances.rs), Query, Enumerable; the others prove: Steps
--                  what a successful call has done, Supply, Authority, Genesis, Panics, Runs and
--                  Transfer the properties
--   Cw3            the voting rules of contracts/cw3-flex-multisig/src/state.rs and msg.rs with
--                  packages/cw3/src (Defs, Threshold), and proofs about them (Needed, Passing,
--                  Early); Cw3/Flex is contract.rs, with Lists, Steps, Lifecycle, Tally and Dispatch;
--                  Cw3/Fixed is contracts/cw3-fixed-multisig/src, with Lists, Steps, Sound, Runs,
--                  Dispatch and Genesis
--   Cw4            contracts/cw4-group/src with packages/cw4/src; Steps, Total, Genesis, Past and
--                  Diffs prove its properties, Voting makes it the group of Cw3/Flex
--   Cw1            Whitelist is contracts/cw1-whitelist/src, Subkeys contracts/cw1-subkeys/src;
--                  Spending, Asking and Keeping prove what the subkeys can do
--   Stake          contracts/cw4-stake/src, on the controllers and the snapshot map; Steps, Bonded,
--                  Weights, Runs, Past and Releasing prove its properties
--   Escrow         contracts/cw20-escrow/src; Steps, Funds and Deciding prove what is paid out
--   Swap           contracts/cw20-atomic-swap/src, with the hash and the hex code as a parameter;
--                  Steps, Funds and Deciding prove what is paid out
--   Bonding        contracts/cw20-bonding/src on the token of Cw20, with the curve as a parameter;
--                  Trades, Steps, Pegged, Reserve and Selling prove its properties
--   Cw721          contracts/cw721-base/src with packages/cw721/src, on the indexed map; Steps,
--                  Ownership and Enumerable prove its properties
--   Cw1155         contracts/cw1155-base/src with packages/cw1155/src; Steps, Balances and
--                  Registered prove its properties
--
-- How code and model correspond: functions keep the names of the source. An address, a text and a
-- key are numbers, which are compared only, and ordered where a map is read in order; where bytes
-- matter, a text is the list of its bytes. A `Map` is an association list. What is stored parses
-- again, so parse errors do not occur. The attributes of a `Response` are a log and are left out,
-- and a message that a proposal carries is its number. No loop needs fuel: all recursions are over
-- lists.
--
-- Not modelled: JSON schemas and serialisation, entry-point glue, the byte encodings of keys,
-- unique indexes, the curves of cw20-bonding, which compute with rust_decimal, the lists of escrows
-- and swaps, and the packages and contracts that no file above names.
pub mod Prelude
pub mod Std
pub mod Mock
pub mod Storage
pub mod Cw2
pub mod Expiration
pub mod Cw20
pub mod Cw3
pub mod Snapshot
pub mod Controllers
pub mod Cw4
pub mod Balance
pub mod Cw1
pub mod Funds
pub mod Escrow
pub mod Pagination
pub mod Stake
pub mod Swap
pub mod Bonding
pub mod Indexed
pub mod Cw721
pub mod Cw1155
