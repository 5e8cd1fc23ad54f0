-- ===== src/Controllers/Hooks.antt =====
-- `Hooks` of packages/controllers/src/hooks.rs: the addresses that are told of a change.
pub mod Registry
mod Tests
use cosmwasm_plus.Prelude.{
  ℕ, Bool, true, false, not, ◌||◌, Option, none, some, List, [], ◌∷◌, ◌++◌, Outcome, ok, err, panic,
  ◌>>=◌, ◌>>◌, map_err, fail_if, ok_or, ◌==◌, nat_eq, unwrap_or, if◌then◌else◌,
}
use cosmwasm_plus.Std.{StdError}
use cosmwasm_plus.Storage.{Item, load_item}
use cosmwasm_plus.Controllers.Admin.{AdminError, Admin, assert_admin}

pub data HookError : Type 0 where
  std : StdError → HookError
  admin : AdminError → HookError
  hook_already_registered : HookError
  hook_not_registered : HookError

abbrev pub Hooks : Type 0
Hooks = Item (List ℕ)

-- `hooks.iter().any(|h| h == &addr)`
abbrev pub registered : ℕ → List ℕ → Bool
registered addr [] = false
registered addr (h ∷ hooks) = h == addr || registered addr hooks

-- `hooks.remove(p)` at the first position `p` of the address, if there is one
abbrev pub remove_first : ℕ → List ℕ → Option (List ℕ)
remove_first addr [] = none
remove_first addr (h ∷ hooks) =
    let rest = remove_first addr hooks in
    if h == addr then some hooks else elim rest [ none ↦ none | some hs ↦ some (h ∷ hs) ]

unfoldable pub add_hook : ℕ → Hooks → Outcome HookError Hooks
add_hook addr item =
    let hooks = unwrap_or [] item in
    do fail_if (registered addr hooks) hook_already_registered; ok (some (hooks ++ (addr ∷ [])))

unfoldable pub remove_hook : ℕ → Hooks → Outcome HookError Hooks
remove_hook addr item = do
  hooks ← map_err std (load_item item)
  left ← ok_or (remove_first addr hooks) hook_not_registered
  ok (some left)

-- `.map(prep).collect()`
abbrev pub collect : {M : Type 0} → (ℕ → Outcome StdError M) → List ℕ → Outcome StdError (List M)
collect prep [] = ok []
collect prep (h ∷ hooks) = do msg ← prep h; msgs ← collect prep hooks; ok (msg ∷ msgs)

unfoldable pub prepare_hooks :
    {M : Type 0} → (ℕ → Outcome StdError M) → Hooks → Outcome StdError (List M)
prepare_hooks prep item = collect prep (unwrap_or [] item)

unfoldable pub execute_add_hook : Admin → ℕ → ℕ → Hooks → Outcome HookError Hooks
execute_add_hook adm sender addr hooks = do
  map_err admin (assert_admin adm sender)
  add_hook addr hooks

unfoldable pub execute_remove_hook : Admin → ℕ → ℕ → Hooks → Outcome HookError Hooks
execute_remove_hook adm sender addr hooks = do
  map_err admin (assert_admin adm sender)
  remove_hook addr hooks
