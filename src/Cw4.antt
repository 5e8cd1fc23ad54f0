-- ===== src/Cw4.antt =====
-- The contract cw4-group: contracts/cw4-group/src, with `Member` and the hook messages of
-- packages/cw4/src. A group of weighted members whose past weights can be read.
pub mod Steps
pub mod Total
pub mod Genesis
pub mod Past
pub mod Diffs
pub mod Voting
mod Tests
use Prim.Native.String.{String}
use cosmwasm_plus.Prelude.{
  ℕ, Bool, true, false, Option, none, some, List, [], ◌∷◌, ◌++◌, Outcome, ok, err, panic, ◌>>=◌,
  ◌>>◌, map_err, ok_or, or_panic, ◌==◌, nat_eq, pair_eq, unwrap_or, u64_add, u64_sub,
}
use cosmwasm_plus.Std.{Std, StdError, invalid_addr, BlockInfo}
use cosmwasm_plus.Pagination.{maybe_addr}
use cosmwasm_plus.Storage.Range.{nat_order, page}
use cosmwasm_plus.Storage.{Item, load_item}
use cosmwasm_plus.Cw2.{ContractVersion, set_contract_version}
use cosmwasm_plus.Snapshot
use cosmwasm_plus.Snapshot.{SnapshotMap, Strategy, save, remove, may_load, may_load_at_height}
use cosmwasm_plus.Controllers.Admin.{AdminError, Admin, assert_admin, execute_update_admin}
use cosmwasm_plus.Controllers.Hooks.{
  HookError, Hooks, prepare_hooks, execute_add_hook, execute_remove_hook,
}

pub data ContractError : Type 0 where
  std : StdError → ContractError
  hook : HookError → ContractError
  admin : AdminError → ContractError
  unauthorized : ContractError

pub record Member : Type 0 where
  pub addr : ℕ
  pub weight : ℕ

pub record MemberDiff : Type 0 where
  pub key : ℕ
  pub old : Option ℕ
  pub new : Option ℕ

-- what `MemberChangedHookMsg::into_cosmos_msg` builds: the diffs for one address
pub record HookMsg : Type 0 where
  pub contract_addr : ℕ
  pub diffs : List MemberDiff

-- `ADMIN`, `HOOKS`, `TOTAL`, `MEMBERS` and cw2's `CONTRACT`
pub record State : Type 0 where
  pub contract : Item ContractVersion
  pub admin : Admin
  pub hooks : Hooks
  pub total : Item ℕ
  pub members : SnapshotMap ℕ

pub record Env : Type 0 where
  pub sender : ℕ
  pub block : BlockInfo

pub data ExecuteMsg : Type 0 where
  update_admin : (new_admin : Option ℕ) → ExecuteMsg
  update_members_msg : (drop : List ℕ) (add : List Member) → ExecuteMsg
  add_hook : (addr : ℕ) → ExecuteMsg
  remove_hook : (addr : ℕ) → ExecuteMsg

-- The messages of a `Response`.
abbrev pub Response : Type 0
Response = List HookMsg

abbrev pub lift : {A : Type 0} → Outcome StdError A → Outcome ContractError A
lift = map_err std

abbrev pub into_cosmos_msg : List MemberDiff → ℕ → Outcome StdError HookMsg
into_cosmos_msg diffs h = ok (record { contract_addr = h; diffs = diffs })

-- `MEMBERS` of a new contract
abbrev pub no_members : SnapshotMap ℕ
no_members = record {
  primary = [];
  checkpoints = [];
  changelog = [];
  strategy = Strategy.every_block;
}

module _ ⦃api : Std⦄ where
  abbrev pub addr_validate : ℕ → Outcome ContractError ℕ
  addr_validate addr = ok_or (api.addr_validate addr) (std invalid_addr)

  -- `.map(|admin| api.addr_validate(&admin)).transpose()?`
  unfoldable pub validate_option : Option ℕ → Outcome ContractError (Option ℕ)
  validate_option none = ok none
  validate_option (some addr) = do a ← addr_validate addr; ok (some a)

  -- the loop of `create` over the members, with the total so far
  unfoldable pub create_members :
      ℕ → List Member → ℕ → SnapshotMap ℕ → Outcome ContractError (ℕ × SnapshotMap ℕ)
  create_members height [] total members = ok (total, members)
  create_members height (member ∷ rest) total members = do
    total' ← or_panic (u64_add total member.weight)
    member_addr ← addr_validate member.addr
    create_members height rest total' (save member_addr member.weight height members)

  unfoldable pub create : Option ℕ → List Member → ℕ → State → Outcome ContractError State
  create adm members height s = do
    admin_addr ← validate_option adm
    (total, saved) ← create_members height members 0 s.members
    ok (record s { admin = some admin_addr; total = some total; members = saved })

  -- `version` is CARGO_PKG_VERSION of the build; the storage is that of a new contract.
  unfoldable pub instantiate :
      String → BlockInfo → Option ℕ → List Member → Outcome ContractError (State × Response)
  unfolding set_contract_version
  instantiate version block adm members = do
    s ← create adm members block.height (record {
      contract = set_contract_version "crates.io:cw4-group" version;
      admin = none;
      hooks = none;
      total = none;
      members = no_members;
    })
    ok (s, [])

  -- the loop of `update_members` over the members to add: the total, the members and the diffs
  unfoldable pub add_members :
      ℕ
      → List Member
      → ℕ
      → SnapshotMap ℕ
      → Outcome ContractError (ℕ × SnapshotMap ℕ × List MemberDiff)
  add_members height [] total members = ok (total, members, [])
  add_members height (add ∷ rest) total members = do
    add_addr ← addr_validate add.addr
    let old = may_load add_addr members
    left ← or_panic (u64_sub total (unwrap_or 0 old))
    total' ← or_panic (u64_add left add.weight)
    (total_after, after, diffs) ←
        add_members height rest total' (save add_addr add.weight height members)
    ok (total_after, after, record { key = add.addr; old = old; new = some add.weight } ∷ diffs)

  -- the loop of `update_members` over the addresses to remove
  unfoldable pub remove_members :
      ℕ → List ℕ → ℕ → SnapshotMap ℕ → Outcome ContractError (ℕ × SnapshotMap ℕ × List MemberDiff)
  remove_members height [] total members = ok (total, members, [])
  remove_members height (drop ∷ rest) total members = do
    remove_addr ← addr_validate drop
    elim (may_load remove_addr members) [
      | none ↦ remove_members height rest total members
      | some weight ↦ do
        total' ← or_panic (u64_sub total weight)
        (total_after, after, diffs) ←
            remove_members height rest total' (remove remove_addr height members)
        ok (total_after, after, record { key = drop; old = some weight; new = none } ∷ diffs)
    ]

  unfoldable pub update_members :
      ℕ → ℕ → List Member → List ℕ → State → Outcome ContractError (State × List MemberDiff)
  update_members height sender to_add to_remove s = do
    map_err admin (assert_admin s.admin sender)
    total ← lift (load_item s.total)
    (total1, members1, added) ← add_members height to_add total s.members
    (total2, members2, removed) ← remove_members height to_remove total1 members1
    ok (record s { total = some total2; members = members2 }, added ++ removed)

  unfoldable pub execute_update_members :
      Env → List Member → List ℕ → State → Outcome ContractError (State × Response)
  unfolding prepare_hooks
  execute_update_members env add drop s = do
    (s', diff) ← update_members env.block.height env.sender add drop s
    messages ← lift (prepare_hooks (into_cosmos_msg diff) s'.hooks)
    ok (s', messages)

  unfoldable pub execute : Env → ExecuteMsg → State → Outcome ContractError (State × Response)
  execute env (ExecuteMsg.update_admin new_admin) s = do
    valid ← validate_option new_admin
    adm ← map_err admin (execute_update_admin s.admin env.sender valid)
    ok (record s { admin = adm }, [])
  execute env (ExecuteMsg.update_members_msg drop add) s = execute_update_members env add drop s
  execute env (ExecuteMsg.add_hook addr) s = do
    valid ← addr_validate addr
    hooks ← map_err hook (execute_add_hook s.admin env.sender valid s.hooks)
    ok (record s { hooks = hooks }, [])
  execute env (ExecuteMsg.remove_hook addr) s = do
    valid ← addr_validate addr
    hooks ← map_err hook (execute_remove_hook s.admin env.sender valid s.hooks)
    ok (record s { hooks = hooks }, [])

  unfoldable pub query_member : ℕ → Option ℕ → State → Outcome ContractError (Option ℕ)
  unfolding may_load_at_height
  query_member addr height s = do
    valid ← addr_validate addr
    elim height [
      | some h ↦ lift (may_load_at_height valid h s.members)
      | none ↦ ok (may_load valid s.members)
    ]

  unfoldable pub list_members : Option ℕ → Option ℕ → State → Outcome StdError (List (ℕ × ℕ))
  list_members start_after limit s = do
    start ← maybe_addr start_after
    ok (page start limit s.members.primary)

unfoldable pub query_total_weight : State → Outcome StdError ℕ
query_total_weight s = load_item s.total
