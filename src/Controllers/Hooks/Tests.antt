-- ===== src/Controllers/Hooks/Tests.antt =====
-- Two hooks, a third added, the first removed.
use cosmwasm_plus.Prelude.{ℕ, ◌≡◌, refl, some, [], ◌∷◌, ok, err, nat_eq}
use cosmwasm_plus.Controllers.Hooks.{HookError, Hooks, add_hook, remove_hook}

abbrev four : ℕ
four = 4

abbrev five : ℕ
five = 5

abbrev two : Hooks
two = some (4 ∷ 9 ∷ [])

added_test : add_hook 5 two ≡ ok (some (4 ∷ 9 ∷ 5 ∷ []))
unfolding add_hook
added_test = refl

refused_test : add_hook 9 two ≡ err HookError.hook_already_registered
unfolding add_hook
refused_test = refl

removed_test : remove_hook 4 two ≡ ok (some (9 ∷ []))
unfolding remove_hook
removed_test = refl
