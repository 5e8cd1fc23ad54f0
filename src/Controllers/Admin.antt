-- ===== src/Controllers/Admin.antt =====
-- `Admin` of packages/controllers/src/admin.rs: one optional address that may change the contract.
use cosmwasm_plus.Prelude.{
  ℕ, Bool, false, not, Option, none, some, Outcome, ok, ◌>>=◌, ◌>>◌, map_err, fail_if, ◌==◌, nat_eq,
}
use cosmwasm_plus.Std.{StdError}
use cosmwasm_plus.Storage.{Item, load_item}

pub data AdminError : Type 0 where
  std : StdError → AdminError
  not_admin : AdminError

abbrev pub Admin : Type 0
Admin = Item (Option ℕ)

unfoldable pub is_admin : Admin → ℕ → Outcome StdError Bool
is_admin admin caller = do
  stored ← load_item admin
  elim stored [ none ↦ ok false | some owner ↦ ok (caller == owner) ]

unfoldable pub assert_admin : Admin → ℕ → Outcome AdminError (Unit {0})
unfolding is_admin
assert_admin admin caller = do is ← map_err std (is_admin admin caller); fail_if (not is) not_admin

unfoldable pub execute_update_admin : Admin → ℕ → Option ℕ → Outcome AdminError Admin
execute_update_admin admin sender new_admin = do assert_admin admin sender; ok (some new_admin)
