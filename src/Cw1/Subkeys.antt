-- ===== src/Cw1/Subkeys.antt =====
-- The contract cw1-subkeys: contracts/cw1-subkeys/src/contract.rs and state.rs. Admins may relay
-- anything, other accounts what their allowance and permissions cover.
pub mod Spending
pub mod Asking
pub mod Keeping
pub mod Lists
mod Tests
use Prim.Native.String.{String}
use cosmwasm_plus.Prelude.{
  ℕ, Bool, true, false, not, Option, none, some, List, [], ◌∷◌, Outcome, ok, err, panic, ◌>>=◌,
  ◌>>◌, map_err, fail_if, ok_or, or_panic, ◌==◌, nat_eq, unwrap_or, is_ok, if◌then◌else◌,
}
use cosmwasm_plus.Std.{Std, StdError, invalid_addr}
use cosmwasm_plus.Storage.{Map, Item, load_item, may_load, save, remove, update}
use cosmwasm_plus.Cw2.{ContractVersion, set_contract_version}
use cosmwasm_plus.Expiration.{Expiration, default_expiration}
use cosmwasm_plus.Balance.{Coin, NativeBalance, add_assign, sub_all, sub_saturating, is_empty, sub}
use cosmwasm_plus.Cw1.Whitelist
use cosmwasm_plus.Cw1.Whitelist.{AdminList, is_admin, execute_freeze, execute_update_admins}

pub data ContractError : Type 0 where
  std : StdError → ContractError
  unauthorized cannot_set_own_account not_allowed no_allowance message_type_rejected : ContractError
  delegate_perm re_delegate_perm un_delegate_perm withdraw_perm withdraw_addr_perm : ContractError

pub record Permissions : Type 0 where
  pub delegate : Bool
  pub redelegate : Bool
  pub undelegate : Bool
  pub withdraw : Bool

pub record Allowance : Type 0 where
  pub balance : NativeBalance
  pub expires : Expiration

abbrev pub default_allowance : Allowance
default_allowance = record { balance = []; expires = default_expiration }

-- The messages of cosmwasm_std that the contract tells apart; what else they hold is `payload`.
pub data StakingMsg : Type 0 where
  delegate_msg undelegate_msg redelegate_msg other_staking : (payload : ℕ) → StakingMsg

pub data DistributionMsg : Type 0 where
  set_withdraw_address withdraw_delegator_reward other_distribution :
      (payload : ℕ) → DistributionMsg

pub data CosmosMsg : Type 0 where
  staking : StakingMsg → CosmosMsg
  distribution : DistributionMsg → CosmosMsg
  bank_send : (to_address : ℕ) (amount : List Coin) → CosmosMsg
  other_msg : (payload : ℕ) → CosmosMsg

-- `ADMIN_LIST` of cw1-whitelist, `PERMISSIONS`, `ALLOWANCES` and cw2's `CONTRACT`
pub record State : Type 0 where
  pub contract : Item ContractVersion
  pub admin_list : Item AdminList
  pub permissions : Map ℕ Permissions
  pub allowances : Map ℕ Allowance

pub data ExecuteMsg : Type 0 where
  execute_msgs : (msgs : List CosmosMsg) → ExecuteMsg
  freeze : ExecuteMsg
  update_admins : (admins : List ℕ) → ExecuteMsg
  increase_allowance : (spender : ℕ) (amount : Coin) (expires : Option Expiration) → ExecuteMsg
  decrease_allowance : (spender : ℕ) (amount : Coin) (expires : Option Expiration) → ExecuteMsg
  set_permissions : (spender : ℕ) (perm : Permissions) → ExecuteMsg

abbrev pub Response : Type 0
Response = List CosmosMsg

abbrev pub lift : {A : Type 0} → Outcome StdError A → Outcome ContractError A
lift = map_err std

-- `From<cw1_whitelist::ContractError>`
abbrev pub from_whitelist : Whitelist.ContractError → ContractError
from_whitelist (Whitelist.std error) = std error
from_whitelist Whitelist.unauthorized = unauthorized

unfoldable pub check_staking_permissions :
    StakingMsg → Permissions → Outcome ContractError (Unit {0})
check_staking_permissions (delegate_msg _) perm = fail_if (not perm.delegate) delegate_perm
check_staking_permissions (undelegate_msg _) perm = fail_if (not perm.undelegate) un_delegate_perm
check_staking_permissions (redelegate_msg _) perm = fail_if (not perm.redelegate) re_delegate_perm
check_staking_permissions (other_staking _) perm = panic

unfoldable pub check_distribution_permissions :
    DistributionMsg → Permissions → Outcome ContractError (Unit {0})
check_distribution_permissions (set_withdraw_address _) perm =
    fail_if (not perm.withdraw) withdraw_addr_perm
check_distribution_permissions (withdraw_delegator_reward _) perm =
    fail_if (not perm.withdraw) withdraw_perm
check_distribution_permissions (other_distribution _) perm = panic

-- `….is_ok()`
abbrev pub tested : {E A : Type 0} → Outcome E A → Outcome StdError Bool
tested (ok _) = ok true
tested (err _) = ok false
tested panic = panic

-- `if let Some(exp) = expires { allowance.expires = exp; }`
abbrev pub with_expires : Option Expiration → Allowance → Allowance
with_expires none allowance = allowance
with_expires (some exp) allowance = record allowance { expires = exp }

module _ ⦃api : Std⦄ where
  -- what the loop of `execute_execute` does for one message of an account that is no admin
  unfoldable pub check_msg :
      ℕ → Map ℕ Permissions → CosmosMsg → Map ℕ Allowance → Outcome ContractError (Map ℕ Allowance)
  unfolding update
  check_msg sender permissions (staking msg) allowances = do
    perm ← ok_or (may_load sender permissions) not_allowed
    check_staking_permissions msg perm
    ok allowances
  check_msg sender permissions (distribution msg) allowances = do
    perm ← ok_or (may_load sender permissions) not_allowed
    check_distribution_permissions msg perm
    ok allowances
  check_msg sender permissions (bank_send _ amount) allowances = do
    (_, allowances') ←
        update sender
          (λ allow. do
            allowance ← ok_or allow no_allowance
            left ← lift (sub_all amount allowance.balance)
            ok (record allowance { balance = left }))
          allowances
    ok allowances'
  check_msg sender permissions (other_msg _) allowances = err message_type_rejected

  unfoldable pub check_msgs :
      ℕ
      → Map ℕ Permissions
      → List CosmosMsg
      → Map ℕ Allowance
      → Outcome ContractError (Map ℕ Allowance)
  check_msgs sender permissions [] allowances = ok allowances
  check_msgs sender permissions (msg ∷ msgs) allowances = do
    allowances' ← check_msg sender permissions msg allowances
    check_msgs sender permissions msgs allowances'

  unfoldable pub execute_execute :
      ℕ → List CosmosMsg → State → Outcome ContractError (State × Response)
  execute_execute sender msgs s = do
    cfg ← lift (load_item s.admin_list)
    if is_admin sender cfg then ok (s, msgs) else (do
      allowances ← check_msgs sender s.permissions msgs s.allowances
      ok (record s { allowances = allowances }, msgs))

  -- the check that the three setters start with, and the address that they set
  unfoldable pub admin_sets : ℕ → ℕ → State → Outcome ContractError ℕ
  admin_sets sender spender s = do
    cfg ← lift (load_item s.admin_list)
    fail_if (not (is_admin sender cfg)) unauthorized
    spender_addr ← ok_or (api.addr_validate spender) (std invalid_addr)
    fail_if (sender == spender_addr) cannot_set_own_account
    ok spender_addr

  unfoldable pub execute_increase_allowance :
      ℕ → ℕ → Coin → Option Expiration → State → Outcome ContractError (State × Response)
  unfolding update
  execute_increase_allowance sender spender amount expires s = do
    spender_addr ← admin_sets sender spender s
    (_, allowances) ←
        update spender_addr
          (λ allow. do
            let allowance = with_expires expires (unwrap_or default_allowance allow)
            sum ← or_panic (add_assign amount allowance.balance)
            ok (record allowance { balance = sum }))
          s.allowances
    ok (record s { allowances = allowances }, [])

  unfoldable pub execute_decrease_allowance :
      ℕ → ℕ → Coin → Option Expiration → State → Outcome ContractError (State × Response)
  unfolding update
  execute_decrease_allowance sender spender amount expires s = do
    spender_addr ← admin_sets sender spender s
    (allowance, allowances) ←
        update spender_addr
          (λ allow. do
            old ← ok_or allow no_allowance
            let allowance = with_expires expires old
            left ← lift (sub_saturating amount allowance.balance)
            ok (record allowance { balance = left }))
          s.allowances
    ok (
      record s {
        allowances =
            if is_empty allowance.balance then remove spender_addr allowances else allowances;
      },
      [],
    )

  unfoldable pub execute_set_permissions :
      ℕ → ℕ → Permissions → State → Outcome ContractError (State × Response)
  execute_set_permissions sender spender perm s = do
    spender_addr ← admin_sets sender spender s
    ok (record s { permissions = save spender_addr perm s.permissions }, [])

  unfoldable pub execute : ℕ → ExecuteMsg → State → Outcome ContractError (State × Response)
  execute sender (execute_msgs msgs) s = execute_execute sender msgs s
  execute sender freeze s = do
    admin_list ← map_err from_whitelist (execute_freeze sender s.admin_list)
    ok (record s { admin_list = admin_list }, [])
  execute sender (update_admins admins) s = do
    admin_list ← map_err from_whitelist (execute_update_admins sender admins s.admin_list)
    ok (record s { admin_list = admin_list }, [])
  execute sender (increase_allowance spender amount expires) s =
      execute_increase_allowance sender spender amount expires s
  execute sender (decrease_allowance spender amount expires) s =
      execute_decrease_allowance sender spender amount expires s
  execute sender (set_permissions spender perm) s = execute_set_permissions sender spender perm s

  -- `version` is CARGO_PKG_VERSION of the build.
  unfoldable pub instantiate : String → List ℕ → Bool → Outcome StdError State
  unfolding set_contract_version
  instantiate version admins mutable = do
    s ← Whitelist.instantiate version admins mutable
    ok (record {
      contract = set_contract_version "crates.io:cw1-subkeys" version;
      admin_list = s.admin_list;
      permissions = [];
      allowances = [];
    })

  -- the answer of `can_execute` for an account that is no admin
  unfoldable pub covers : Option Allowance → Option Permissions → CosmosMsg → Outcome StdError Bool
  covers (some allow) perm (bank_send _ amount) = tested (sub_all amount allow.balance)
  covers none perm (bank_send _ amount) = ok false
  covers allow (some perm) (staking msg) = tested (check_staking_permissions msg perm)
  covers allow none (staking msg) = ok false
  covers allow perm (distribution _) = ok false
  covers allow perm (other_msg _) = ok false

  -- `can_execute`
  unfoldable pub can_execute : ℕ → CosmosMsg → State → Outcome StdError Bool
  can_execute sender msg s = do
    cfg ← load_item s.admin_list
    if is_admin sender cfg then ok true else (do
      valid ← ok_or (api.addr_validate sender) invalid_addr
      covers (may_load valid s.allowances) (may_load valid s.permissions) msg)
