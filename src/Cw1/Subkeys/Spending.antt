-- ===== src/Cw1/Subkeys/Spending.antt =====
-- What an account that is no admin can do through cw1-subkeys.
use cosmwasm_plus.Prelude.{
  ℕ, ◌+◌, ◌≡◌, refl, ◌∙◌, Bool, true, false, ◌&&◌, Option, none, some, List, [], ◌∷◌, ok, ◌==◌,
  nat_eq, arith, Option-cases, inl, inr, ok-cases, is_ok,
}
use cosmwasm_plus.Std.{Std}
use cosmwasm_plus.Storage.{Map, may_load, save}
use cosmwasm_plus.Storage.Laws.{may_load-save}
use cosmwasm_plus.Balance.{Coin, NativeBalance, sub_all}
use cosmwasm_plus.Balance.Laws.{amount_in, is_sorted}
use cosmwasm_plus.Balance.Totals.{coins_in, sub_all_subtracts}
use cosmwasm_plus.Cw1.Whitelist.{
  AdminList, is_admin, can_modify, execute_freeze, execute_update_admins,
}
use cosmwasm_plus.Cw1.Subkeys.{
  CosmosMsg, StakingMsg, DistributionMsg, staking, distribution, bank_send, other_msg, delegate_msg,
  undelegate_msg, redelegate_msg, other_staking, set_withdraw_address, withdraw_delegator_reward,
  other_distribution, Permissions, Allowance, State, ExecuteMsg, Response, execute_msgs, freeze,
  update_admins, increase_allowance, decrease_allowance, set_permissions, check_staking_permissions,
  check_distribution_permissions, check_msg, check_msgs, execute_execute, admin_sets,
  execute_increase_allowance, execute_decrease_allowance, execute_set_permissions, execute,
}

-- The amount of a denomination that some messages send.
abbrev pub sent : ℕ → List CosmosMsg → ℕ
sent e [] = 0
sent e (bank_send _ amount ∷ msgs) = coins_in e amount + sent e msgs
sent e (_ ∷ msgs) = sent e msgs

-- Whether the permissions cover a staking and a distribution message.
abbrev pub may_stake : StakingMsg → Permissions → Bool
may_stake (delegate_msg _) perm = perm.delegate
may_stake (undelegate_msg _) perm = perm.undelegate
may_stake (redelegate_msg _) perm = perm.redelegate
may_stake (other_staking _) perm = false

abbrev pub may_withdraw : DistributionMsg → Permissions → Bool
may_withdraw (other_distribution _) perm = false
may_withdraw _ perm = perm.withdraw

-- Whether each message is a transfer or covered by the permissions.
abbrev pub permitted : Option Permissions → CosmosMsg → Bool
permitted perm (bank_send _ _) = true
permitted (some perm) (staking msg) = may_stake msg perm
permitted (some perm) (distribution msg) = may_withdraw msg perm
permitted _ _ = false

abbrev pub all_permitted : Option Permissions → List CosmosMsg → Bool
all_permitted perm [] = true
all_permitted perm (msg ∷ msgs) = permitted perm msg && all_permitted perm msgs

-- The coins that an account may still send.
abbrev pub balance_of : ℕ → Map ℕ Allowance → NativeBalance
balance_of k allowances = elim (may_load k allowances) [
  | none ↦ []
  | some allowance ↦ allowance.balance
]

-- From `a` to `b` the sender has spent what `msgs` send, and no other allowance changes.
abbrev pub Spends : ℕ → List CosmosMsg → Map ℕ Allowance → Map ℕ Allowance → Type 0
Spends sender msgs a b =
    (is_sorted (balance_of sender b) ≡ true)
    × ((e : ℕ)
        → amount_in e (balance_of sender b) + sent e msgs ≡ amount_in e (balance_of sender a))
    × ((other : ℕ) → (other == sender) ≡ false → may_load other b ≡ may_load other a)

check_staking_permits :
    (msg : StakingMsg) (perm : Permissions)
    → check_staking_permissions msg perm ≡ ok tt
    → may_stake msg perm ≡ true
unfolding check_staking_permissions
check_staking_permits (delegate_msg _) perm p = ground arith
check_staking_permits (undelegate_msg _) perm p = ground arith
check_staking_permits (redelegate_msg _) perm p = ground arith
check_staking_permits (other_staking _) perm p = cc

check_distribution_permits :
    (msg : DistributionMsg) (perm : Permissions)
    → check_distribution_permissions msg perm ≡ ok tt
    → may_withdraw msg perm ≡ true
unfolding check_distribution_permissions
check_distribution_permits (set_withdraw_address _) perm p = ground arith
check_distribution_permits (withdraw_delegator_reward _) perm p = ground arith
check_distribution_permits (other_distribution _) perm p = cc

module _ ⦃api : Std⦄ where
  bank_send-Spends :
      (sender : ℕ) (permissions : Map ℕ Permissions) (to : ℕ) (amount : List Coin)
      (a b : Map ℕ Allowance)
      → is_sorted (balance_of sender a) ≡ true
      → check_msg sender permissions (bank_send to amount) a ≡ ok b
      → Spends sender (bank_send to amount ∷ []) a b
  unfolding check_msg
  bank_send-Spends sender permissions to amount a b s p = elim (Option-cases (may_load sender a)) [
    | inl missing ↦ absurd (ground arith)
    | inr (allowance, found) ↦ elim (ok-cases (sub_all amount allowance.balance)) [
      | inr short ↦ absurd (ground arith)
      | inl (left, e) ↦
          let start : balance_of sender a ≡ allowance.balance = ground arith in
          let is_saved : b ≡ save sender (record allowance { balance = left }) a = ground arith in
          let is_left : balance_of sender (save sender (record allowance { balance = left }) a)
              ≡ left =
            ground (arith, may_load-save sender sender (record allowance { balance = left }) a) in
          let (sorted, takes) = sub_all_subtracts amount allowance.balance left (ground arith) e in
          rw (is_saved, is_left, start)
            (
              sorted,
              λ d. omega (arith, takes d),
              λ other apart.
                  ground
                    (arith, may_load-save sender other (record allowance { balance = left }) a),
            )
    ]
  ]

  -- A staking or distribution message that is let through changes no allowance and is permitted.
  staking_checked :
      (sender : ℕ) (permissions : Map ℕ Permissions) (msg : StakingMsg) (a b : Map ℕ Allowance)
      → check_msg sender permissions (staking msg) a ≡ ok b
      → (b ≡ a) × (permitted (may_load sender permissions) (staking msg) ≡ true)
  unfolding check_msg
  staking_checked sender permissions msg a b p = elim (Option-cases (may_load sender permissions)) [
    | inl missing ↦ absurd (ground arith)
    | inr (perm, found) ↦ elim (ok-cases (check_staking_permissions msg perm)) [
      | inr refused ↦ absurd (ground arith)
      | inl (tt, e) ↦ (ground arith, rw found (check_staking_permits msg perm e))
    ]
  ]

  distribution_checked :
      (sender : ℕ) (permissions : Map ℕ Permissions) (msg : DistributionMsg) (a b : Map ℕ Allowance)
      → check_msg sender permissions (distribution msg) a ≡ ok b
      → (b ≡ a) × (permitted (may_load sender permissions) (distribution msg) ≡ true)
  unfolding check_msg
  distribution_checked sender permissions msg a b p =
      elim (Option-cases (may_load sender permissions)) [
        | inl missing ↦ absurd (ground arith)
        | inr (perm, found) ↦ elim (ok-cases (check_distribution_permissions msg perm)) [
          | inr refused ↦ absurd (ground arith)
          | inl (tt, e) ↦ (ground arith, rw found (check_distribution_permits msg perm e))
        ]
      ]

  unchanged-Spends :
      (sender : ℕ) (msg : CosmosMsg) (a b : Map ℕ Allowance)
      → ((e : ℕ) → sent e (msg ∷ []) ≡ 0)
      → is_sorted (balance_of sender a) ≡ true
      → b ≡ a
      → Spends sender (msg ∷ []) a b
  unchanged-Spends sender msg a b free s same =
      rw same (s, λ e. omega (arith, free e), λ other _. refl)

  check_msg-Spends :
      (sender : ℕ) (permissions : Map ℕ Permissions) (msg : CosmosMsg) (a b : Map ℕ Allowance)
      → is_sorted (balance_of sender a) ≡ true
      → check_msg sender permissions msg a ≡ ok b
      → Spends sender (msg ∷ []) a b × (permitted (may_load sender permissions) msg ≡ true)
  unfolding check_msg
  check_msg-Spends sender permissions (staking msg) a b s p =
      let (same, may) = staking_checked sender permissions msg a b p in
      (unchanged-Spends sender (staking msg) a b (λ e. refl) s same, may)
  check_msg-Spends sender permissions (distribution msg) a b s p =
      let (same, may) = distribution_checked sender permissions msg a b p in
      (unchanged-Spends sender (distribution msg) a b (λ e. refl) s same, may)
  check_msg-Spends sender permissions (bank_send to amount) a b s p =
      (bank_send-Spends sender permissions to amount a b s p, refl)
  check_msg-Spends sender permissions (other_msg payload) a b s p = cc

  sent_cons :
      (e : ℕ) (msg : CosmosMsg) (msgs : List CosmosMsg)
      → sent e (msg ∷ msgs) ≡ sent e (msg ∷ []) + sent e msgs
  sent_cons e (staking _) msgs = omega arith
  sent_cons e (distribution _) msgs = omega arith
  sent_cons e (bank_send _ amount) msgs = omega arith
  sent_cons e (other_msg _) msgs = omega arith

  pub check_msgs-Spends :
      (sender : ℕ) (permissions : Map ℕ Permissions) (msgs : List CosmosMsg) (a b : Map ℕ Allowance)
      → is_sorted (balance_of sender a) ≡ true
      → check_msgs sender permissions msgs a ≡ ok b
      → Spends sender msgs a b × (all_permitted (may_load sender permissions) msgs ≡ true)
  unfolding check_msgs
  check_msgs-Spends sender permissions [] a b s p =
      let same : b ≡ a = ground arith in rw same ((s, λ e. omega arith, λ other _. refl), refl)
  check_msgs-Spends sender permissions (msg ∷ msgs) a b s p =
      elim (ok-cases (check_msg sender permissions msg a)) [
        | inr failed ↦ absurd (ground arith)
        | inl (c, e1) ↦
            let ((s1, takes, others), may) = check_msg-Spends sender permissions msg a c s e1 in
            let ((s2, takes', others'), may') =
              check_msgs-Spends sender permissions msgs c b s1 (ground arith) in
            (
              (
                s2,
                λ e. omega (arith, takes e, takes' e, sent_cons e msg msgs),
                λ other apart. others' other apart ∙ others other apart,
              ),
              ground arith,
            )
      ]

  freeze_refused :
      (sender : ℕ) (cfg : AdminList)
      → is_admin sender cfg ≡ false
      → is_ok (execute_freeze sender (some cfg)) ≡ false
  unfolding execute_freeze can_modify
  freeze_refused sender cfg n = ground arith

  update_refused :
      (sender : ℕ) (admins : List ℕ) (cfg : AdminList)
      → is_admin sender cfg ≡ false
      → is_ok (execute_update_admins sender admins (some cfg)) ≡ false
  unfolding execute_update_admins can_modify
  update_refused sender admins cfg n = ground arith

  sets_refused :
      (sender spender : ℕ) (s : State) (cfg : AdminList)
      → s.admin_list ≡ some cfg
      → is_admin sender cfg ≡ false
      → is_ok (admin_sets sender spender s) ≡ false
  unfolding admin_sets
  sets_refused sender spender s cfg stored n = ground arith

  -- A message that succeeds for an account that is no admin, and whose allowance is sorted, leaves
  -- the admins, the permissions and all other allowances; what it relays is covered by the
  -- permissions of the account or a transfer, and the transfers take their amounts, in every
  -- denomination, from the allowance of the account.
  pub execute-Spends :
      (sender : ℕ) (msg : ExecuteMsg) (cfg : AdminList) (s s' : State) (r : Response)
      → s.admin_list ≡ some cfg
      → is_admin sender cfg ≡ false
      → is_sorted (balance_of sender s.allowances) ≡ true
      → execute sender msg s ≡ ok (s', r)
      → (s'.admin_list ≡ s.admin_list)
        × (s'.permissions ≡ s.permissions)
        × Spends sender r s.allowances s'.allowances
        × (all_permitted (may_load sender s.permissions) r ≡ true)
  unfolding execute execute_execute execute_increase_allowance execute_decrease_allowance
      execute_set_permissions
  execute-Spends sender (execute_msgs msgs) cfg s s' r stored n sorted p =
      elim (ok-cases (check_msgs sender s.permissions msgs s.allowances)) [
        | inr failed ↦ absurd (ground arith)
        | inl (left, e) ↦
            let made : s' ≡ record s { allowances = left } = ground arith in
            let relayed : r ≡ msgs = ground arith in
            let (spends, may) =
              check_msgs-Spends sender s.permissions msgs s.allowances left sorted e in
            rw (made, relayed) (refl, refl, spends, may)
      ]
  execute-Spends sender freeze cfg s s' r stored n sorted p =
      absurd (ground (arith, freeze_refused sender cfg n))
  execute-Spends sender (update_admins admins) cfg s s' r stored n sorted p =
      absurd (ground (arith, update_refused sender admins cfg n))
  execute-Spends sender (increase_allowance spender amount expires) cfg s s' r stored n sorted p =
      absurd (ground (arith, sets_refused sender spender s cfg stored n))
  execute-Spends sender (decrease_allowance spender amount expires) cfg s s' r stored n sorted p =
      absurd (ground (arith, sets_refused sender spender s cfg stored n))
  execute-Spends sender (set_permissions spender perm) cfg s s' r stored n sorted p =
      absurd (ground (arith, sets_refused sender spender s cfg stored n))
