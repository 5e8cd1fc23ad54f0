-- ===== src/Cw1/Whitelist.antt =====
-- The contract cw1-whitelist: contracts/cw1-whitelist/src/contract.rs and state.rs.
use Prim.Native.String.{String}
use cosmwasm_plus.Prelude.{
  ℕ, Bool, false, not, ◌&&◌, ◌||◌, some, List, [], ◌∷◌, Outcome, ok, ◌>>=◌, ◌>>◌, map_err, fail_if,
  ok_or, ◌==◌, nat_eq,
}
use cosmwasm_plus.Std.{Std, StdError, invalid_addr}
use cosmwasm_plus.Storage.{Item, load_item}
use cosmwasm_plus.Cw2.{ContractVersion, set_contract_version}

pub data ContractError : Type 0 where
  std : StdError → ContractError
  unauthorized : ContractError

pub record AdminList : Type 0 where
  pub admins : List ℕ
  pub mutable : Bool

-- `self.admins.iter().any(|a| a.as_ref() == addr)`
abbrev pub any_is : ℕ → List ℕ → Bool
any_is addr [] = false
any_is addr (a ∷ admins) = a == addr || any_is addr admins

unfoldable pub is_admin : ℕ → AdminList → Bool
is_admin addr cfg = any_is addr cfg.admins

unfoldable pub can_modify : ℕ → AdminList → Bool
unfolding is_admin
can_modify addr cfg = cfg.mutable && is_admin addr cfg

pub data ExecuteMsg (Msg : Type 0) : Type 0 where
  execute_msgs : (msgs : List Msg) → ExecuteMsg Msg
  freeze : ExecuteMsg Msg
  update_admins : (admins : List ℕ) → ExecuteMsg Msg

-- `ADMIN_LIST` and cw2's `CONTRACT`
pub record State : Type 0 where
  pub contract : Item ContractVersion
  pub admin_list : Item AdminList

abbrev pub lift : {A : Type 0} → Outcome StdError A → Outcome ContractError A
lift = map_err std

-- `can_execute`
unfoldable pub can_execute : ℕ → Item AdminList → Outcome StdError Bool
unfolding is_admin
can_execute sender admin_list = do cfg ← load_item admin_list; ok (is_admin sender cfg)

-- the messages, relayed; `Msg` is the type of a `CosmosMsg`
unfoldable pub execute_execute :
    {Msg : Type 0} → ℕ → List Msg → State → Outcome ContractError (State × List Msg)
execute_execute sender msgs s = do
  can ← lift (can_execute sender s.admin_list)
  fail_if (not can) unauthorized
  ok (s, msgs)

unfoldable pub execute_freeze : ℕ → Item AdminList → Outcome ContractError (Item AdminList)
execute_freeze sender admin_list = do
  cfg ← lift (load_item admin_list)
  fail_if (not (can_modify sender cfg)) unauthorized
  ok (some (record cfg { mutable = false }))

module _ ⦃api : Std⦄ where
  unfoldable pub map_validate : List ℕ → Outcome StdError (List ℕ)
  map_validate [] = ok []
  map_validate (addr ∷ admins) = do
    a ← ok_or (api.addr_validate addr) invalid_addr
    valid ← map_validate admins
    ok (a ∷ valid)

  -- `version` is CARGO_PKG_VERSION of the build; the storage is that of a new contract.
  unfoldable pub instantiate : String → List ℕ → Bool → Outcome StdError State
  unfolding set_contract_version
  instantiate version admins mutable = do
    valid ← map_validate admins
    ok (record {
      contract = set_contract_version "crates.io:cw1-whitelist" version;
      admin_list = some (record { admins = valid; mutable = mutable });
    })

  unfoldable pub execute_update_admins :
      ℕ → List ℕ → Item AdminList → Outcome ContractError (Item AdminList)
  execute_update_admins sender admins admin_list = do
    cfg ← lift (load_item admin_list)
    fail_if (not (can_modify sender cfg)) unauthorized
    valid ← lift (map_validate admins)
    ok (some (record cfg { admins = valid }))

  unfoldable pub execute :
      {Msg : Type 0} → ℕ → ExecuteMsg Msg → State → Outcome ContractError (State × List Msg)
  execute sender (execute_msgs msgs) s = execute_execute sender msgs s
  execute sender freeze s = do
    admin_list ← execute_freeze sender s.admin_list
    ok (record s { admin_list = admin_list }, [])
  execute sender (update_admins admins) s = do
    admin_list ← execute_update_admins sender admins s.admin_list
    ok (record s { admin_list = admin_list }, [])
