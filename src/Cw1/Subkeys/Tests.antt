-- ===== src/Cw1/Subkeys/Tests.antt =====
-- Account 5 may send 30 of the token 2 and 70 of the token 6, delegate and withdraw; 1 is the admin.
use Prim.Native.Nat.{ℕ}
use cosmwasm_plus.Prelude.{
  ◌↔◌, ◌≤◌, arith, ◌≡◌, refl, true, false, none, some, List, [], ◌∷◌, ok, err, is_ok, nat_eq,
}
use cosmwasm_plus.Mock.{mock_std}
use cosmwasm_plus.Storage.{save, remove, may_load}
use cosmwasm_plus.Expiration.{Expiration}
use cosmwasm_plus.Balance.{
  Coin, find, set_amount, remove_coin, sub, sub_all, sub_saturating, add_assign, insert_coin,
  is_empty,
}
use cosmwasm_plus.Balance.Totals.{coins_in}
use cosmwasm_plus.Cw1.Whitelist.{AdminList, is_admin}
use cosmwasm_plus.Cw1.Subkeys.{
  message_type_rejected, CosmosMsg, staking, bank_send, other_msg, delegate_msg, Permissions,
  Allowance, State, execute_msgs, increase_allowance, decrease_allowance, check_staking_permissions,
  check_msg, check_msgs, execute_execute, execute, can_execute, covers, admin_sets,
  execute_increase_allowance, execute_decrease_allowance,
}
use cosmwasm_plus.Cw1.Subkeys.Spending.{Spends, all_permitted, execute-Spends}
use cosmwasm_plus.Cw1.Subkeys.Asking.{can_execute_is_execute, transfer_iff}
use cosmwasm_plus.Cw1.Subkeys.Keeping.{AreSorted}

abbrev coin : ℕ → ℕ → Coin
coin denom amount = record { denom = denom; amount = amount }

abbrev allowance : Allowance
allowance = record { balance = coin 2 30 ∷ coin 6 70 ∷ []; expires = Expiration.at_height 90 }

abbrev perm : Permissions
perm = record { delegate = true; redelegate = false; undelegate = false; withdraw = true }

abbrev cfg : AdminList
cfg = record { admins = 1 ∷ []; mutable = false }

abbrev proxy : State
proxy = record {
  contract = none;
  admin_list = some cfg;
  permissions = (5, perm) ∷ [];
  allowances = (5, allowance) ∷ (8, record allowance { balance = coin 3 4 ∷ [] }) ∷ [];
}

abbrev msgs : List CosmosMsg
msgs =
    bank_send 9 (coin 6 20 ∷ coin 2 30 ∷ [])
    ∷ staking (delegate_msg 0)
    ∷ bank_send 4 (coin 6 1 ∷ [])
    ∷ []

abbrev spent : State
spent = record proxy {
  allowances =
      (5, record allowance { balance = coin 6 49 ∷ [] })
      ∷ (8, record allowance { balance = coin 3 4 ∷ [] })
      ∷ [];
}

spent_test : execute 5 (execute_msgs msgs) proxy ≡ ok (spent, msgs)
unfolding execute execute_execute is_admin check_msgs check_msg check_staking_permissions sub_all
    sub find set_amount remove_coin save may_load
spent_test = refl

rejected_test : execute 5 (execute_msgs (other_msg 0 ∷ [])) proxy ≡ err message_type_rejected
unfolding execute execute_execute is_admin check_msgs check_msg
rejected_test = refl

abbrev grown : State
grown = record proxy {
  allowances =
      (5, record allowance { balance = coin 2 30 ∷ coin 4 1 ∷ coin 6 70 ∷ [] })
      ∷ (8, record allowance { balance = coin 3 4 ∷ [] })
      ∷ [];
}

grown_test : execute 1 (increase_allowance 5 (coin 4 1) none) proxy ≡ ok (grown, [])
unfolding execute execute_increase_allowance admin_sets is_admin add_assign find insert_coin save
    may_load
grown_test = refl

-- An allowance that is taken away is removed.
removed_test :
    execute 1 (decrease_allowance 8 (coin 3 9) none) proxy
    ≡ ok (record proxy { allowances = (5, allowance) ∷ [] }, [])
unfolding execute execute_decrease_allowance admin_sets is_admin sub_saturating find remove_coin
    is_empty save remove may_load
removed_test = refl

execute-Spends_example :
    (spent.admin_list ≡ proxy.admin_list)
    × (spent.permissions ≡ proxy.permissions)
    × Spends 5 msgs proxy.allowances spent.allowances
    × (all_permitted (may_load 5 proxy.permissions) msgs ≡ true)
unfolding is_admin may_load
execute-Spends_example =
    execute-Spends 5 (execute_msgs msgs) cfg proxy spent msgs refl refl refl spent_test

can_execute_is_execute_example :
    can_execute 5 (staking (delegate_msg 0)) proxy
    ≡ ok (is_ok (execute 5 (execute_msgs (staking (delegate_msg 0) ∷ [])) proxy))
can_execute_is_execute_example =
    can_execute_is_execute 5 (staking (delegate_msg 0)) cfg proxy refl refl refl

transfer_iff_example :
    (is_ok (execute 5 (execute_msgs (bank_send 9 (coin 6 70 ∷ []) ∷ [])) proxy) ≡ true)
    ↔ ((denom : ℕ) → coins_in denom (coin 6 70 ∷ []) ≤ coins_in denom allowance.balance)
unfolding is_admin may_load
transfer_iff_example =
    transfer_iff 5 9 (coin 6 70 ∷ []) cfg allowance proxy refl refl refl refl refl

proxy-AreSorted : AreSorted proxy.allowances
unfolding may_load
proxy-AreSorted k = ground arith

may_send_test : can_execute 5 (bank_send 9 (coin 6 70 ∷ [])) proxy ≡ ok true
unfolding can_execute covers is_admin sub_all sub find remove_coin may_load
may_send_test = refl
