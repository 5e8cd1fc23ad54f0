-- ===== src/Cw2.antt =====
-- The contract's own name and version in its storage: packages/cw2/src/lib.rs.
use Prim.Native.String.{String}
use cosmwasm_plus.Prelude.{some}
use cosmwasm_plus.Storage.{Item}

pub record ContractVersion : Type 0 where
  pub contract : String
  pub version : String

-- what `CONTRACT` holds afterwards
unfoldable pub set_contract_version : String → String → Item ContractVersion
set_contract_version name version = some (record { contract = name; version = version })
