-- ===== src/Cw1/Subkeys/Asking.antt =====
-- What `can_execute` of cw1-subkeys answers, and what `execute` then does.
use cosmwasm_plus.Prelude.{
  ℕ, ◌≡◌, ◌≢◌, ◌≤◌, ◌↔◌, refl, Bool, true, false, some, List, [], ◌∷◌, ok, arith, Option-cases, inl,
  inr, Bool-cases, ok-cases, is_ok, Outcome-cases, nat_eq,
}
use cosmwasm_plus.Std.{Std}
use cosmwasm_plus.Storage.{may_load}
use cosmwasm_plus.Balance.{Coin, NativeBalance, find, sub, sub_all}
use cosmwasm_plus.Balance.Laws.{is_sorted}
use cosmwasm_plus.Balance.Totals.{coins_in, all_positive, sub_all_iff}
use cosmwasm_plus.Cw1.Whitelist.{AdminList, is_admin}
use cosmwasm_plus.Cw1.Subkeys.{
  CosmosMsg, staking, distribution, bank_send, other_msg, other_staking, withdraw_delegator_reward,
  delegate_msg, undelegate_msg, redelegate_msg, Permissions, Allowance, State, execute_msgs,
  check_staking_permissions, check_distribution_permissions, check_msg, check_msgs, execute_execute,
  execute, can_execute, covers, tested,
}

-- The messages that `can_execute` looks at or refuses as `execute` does.
abbrev pub is_answered : CosmosMsg → Bool
is_answered (staking (other_staking _)) = false
is_answered (distribution _) = false
is_answered _ = true

module _ ⦃api : Std⦄ where
  sub_returns :
      (other : Coin) (coins : NativeBalance)
      → tested (sub other coins) ≡ ok (is_ok (sub other coins))
  unfolding sub
  sub_returns other coins = elim (Option-cases (find other.denom coins)) [
    | inl absent ↦ ground arith
    | inr (c, found) ↦ elim (Option-cases (api.checked_sub c.amount other.amount)) [
      | inl short ↦ ground arith
      | inr (left, e) ↦ ground arith
    ]
  ]

  -- Subtracting coins ends with an answer, never with a panic.
  sub_all_returns :
      (others : List Coin) (coins : NativeBalance)
      → tested (sub_all others coins) ≡ ok (is_ok (sub_all others coins))
  unfolding sub_all
  sub_all_returns [] coins = refl
  sub_all_returns (other ∷ others) coins = elim (Outcome-cases (sub other coins)) [
    | inl (left, e) ↦ rw e (sub_all_returns others left)
    | inr (inl (reason, e)) ↦ rw e refl
    | inr (inr e) ↦ absurd (ground (arith, sub_returns other coins))
  ]

  covers-check_msg :
      (sender : ℕ) (msg : CosmosMsg) (s : State)
      → is_answered msg ≡ true
      → covers (may_load sender s.allowances) (may_load sender s.permissions) msg
        ≡ ok (is_ok (check_msg sender s.permissions msg s.allowances))
  unfolding covers check_msg check_staking_permissions
  covers-check_msg sender (bank_send to amount) s answered =
      elim (Option-cases (may_load sender s.allowances)) [
        | inl missing ↦ ground arith
        | inr (allowance, found) ↦
            let answer = sub_all_returns amount allowance.balance in
            elim (ok-cases (sub_all amount allowance.balance)) [
              | inl (left, e) ↦ ground arith
              | inr short ↦ ground arith
            ]
      ]
  covers-check_msg sender (staking (delegate_msg payload)) s answered = ground arith
  covers-check_msg sender (staking (undelegate_msg payload)) s answered = ground arith
  covers-check_msg sender (staking (redelegate_msg payload)) s answered = ground arith
  covers-check_msg sender (staking (other_staking payload)) s answered = cc
  covers-check_msg sender (distribution msg) s answered = cc
  covers-check_msg sender (other_msg payload) s answered = refl

  check_one :
      (sender : ℕ) (msg : CosmosMsg) (s : State)
      → is_ok (check_msgs sender s.permissions (msg ∷ []) s.allowances)
        ≡ is_ok (check_msg sender s.permissions msg s.allowances)
  unfolding check_msgs
  check_one sender msg s = elim (ok-cases (check_msg sender s.permissions msg s.allowances)) [
    | inl (left, e) ↦ rw e refl
    | inr failed ↦ ground arith
  ]

  -- For a transfer, a delegation, undelegation or redelegation and any message of a kind that is
  -- always refused, `can_execute` answers whether `execute` of the message alone succeeds, if the
  -- sender is a valid address.
  pub can_execute_is_execute :
      (sender : ℕ) (msg : CosmosMsg) (cfg : AdminList) (s : State)
      → s.admin_list ≡ some cfg
      → api.addr_validate sender ≡ some sender
      → is_answered msg ≡ true
      → can_execute sender msg s ≡ ok (is_ok (execute sender (execute_msgs (msg ∷ [])) s))
  unfolding can_execute execute execute_execute
  can_execute_is_execute sender msg cfg s stored valid answered =
      let covered = covers-check_msg sender msg s answered in
      let one = check_one sender msg s in
      elim (Bool-cases (is_admin sender cfg)) [
        | inl admin ↦ ground arith
        | inr other ↦ elim (ok-cases (check_msgs sender s.permissions (msg ∷ []) s.allowances)) [
          | inl (left, e) ↦ ground arith
          | inr failed ↦ ground arith
        ]
      ]

  -- An account that is no admin and has the withdraw permission executes a withdrawal of rewards
  -- with success, while `can_execute` answers that it cannot.
  pub withdrawal_is_denied :
      (sender payload : ℕ) (cfg : AdminList) (perm : Permissions) (s : State)
      → s.admin_list ≡ some cfg
      → is_admin sender cfg ≡ false
      → api.addr_validate sender ≡ some sender
      → may_load sender s.permissions ≡ some perm
      → perm.withdraw ≡ true
      → (can_execute sender (distribution (withdraw_delegator_reward payload)) s ≡ ok false)
        × (execute sender (execute_msgs (distribution (withdraw_delegator_reward payload) ∷ [])) s
            ≡ ok (s, distribution (withdraw_delegator_reward payload) ∷ []))
  unfolding can_execute covers execute execute_execute check_msgs check_msg
      check_distribution_permissions
  withdrawal_is_denied sender payload cfg perm s stored n valid found may =
      (ground arith, ground arith)

  -- A transfer, of coins of positive amounts, by an account that is no admin and has a sorted
  -- allowance succeeds exactly when, in every denomination, the coins come to no more than the
  -- balance of the allowance has, whatever the allowance says of its expiration.
  pub transfer_iff :
      (sender to : ℕ) (amount : List Coin) (cfg : AdminList) (allowance : Allowance) (s : State)
      → s.admin_list ≡ some cfg
      → is_admin sender cfg ≡ false
      → may_load sender s.allowances ≡ some allowance
      → is_sorted allowance.balance ≡ true
      → all_positive amount ≡ true
      → (is_ok (execute sender (execute_msgs (bank_send to amount ∷ [])) s) ≡ true)
        ↔ ((denom : ℕ) → coins_in denom amount ≤ coins_in denom allowance.balance)
  unfolding execute execute_execute check_msgs check_msg
  transfer_iff sender to amount cfg allowance s stored n found sorted positive =
      let same : is_ok (execute sender (execute_msgs (bank_send to amount ∷ [])) s)
          ≡ is_ok (sub_all amount allowance.balance) =
        elim (ok-cases (sub_all amount allowance.balance)) [
          | inl (left, e) ↦ ground arith
          | inr short ↦ ground arith
        ] in
      rw same (sub_all_iff amount allowance.balance sorted positive)

  unanswered_is_not_true :
      (sender : ℕ) (msg : CosmosMsg) (s : State)
      → is_answered msg ≡ false
      → covers (may_load sender s.allowances) (may_load sender s.permissions) msg ≢ ok true
  unfolding covers check_staking_permissions
  unanswered_is_not_true sender (distribution msg) s unanswered p = ground arith
  unanswered_is_not_true sender (staking (other_staking payload)) s unanswered p = ground arith
  unanswered_is_not_true sender (staking (delegate_msg payload)) s unanswered p = cc
  unanswered_is_not_true sender (staking (undelegate_msg payload)) s unanswered p = cc
  unanswered_is_not_true sender (staking (redelegate_msg payload)) s unanswered p = cc
  unanswered_is_not_true sender (bank_send to amount) s unanswered p = cc
  unanswered_is_not_true sender (other_msg payload) s unanswered p = cc

  -- Where `can_execute` answers yes, with an admin list stored, `execute` of the message alone by
  -- the sender succeeds.
  pub can_execute_promises :
      (sender : ℕ) (msg : CosmosMsg) (cfg : AdminList) (s : State)
      → s.admin_list ≡ some cfg
      → can_execute sender msg s ≡ ok true
      → is_ok (execute sender (execute_msgs (msg ∷ [])) s) ≡ true
  unfolding can_execute execute execute_execute
  can_execute_promises sender msg cfg s stored p = elim (Bool-cases (is_admin sender cfg)) [
    | inl admin ↦ ground arith
    | inr other ↦ elim (Option-cases (api.addr_validate sender)) [
      | inl bad ↦ absurd (ground arith)
      | inr (a, good) ↦
          let same : a ≡ sender = api.addr_validate_lem good in
          let valid : api.addr_validate sender ≡ some sender = rw same at good in
          elim (Bool-cases (is_answered msg)) [
            | inl answered ↦
                let answer = can_execute_is_execute sender msg cfg s stored valid answered in
                ground arith
            | inr unanswered ↦
                absurd (unanswered_is_not_true sender msg s unanswered (ground arith))
          ]
    ]
  ]
