-- ===== src/Cw1/Subkeys/Keeping.antt =====
-- What every message of cw1-subkeys keeps: sorted allowances, and the admins once they are frozen.
use cosmwasm_plus.Prelude.{
  ℕ, ◌≡◌, refl, true, false, Option, none, some, List, ok, arith, Option-cases, inl, inr,
  Bool-cases, ok-cases, nat_eq, ◌==◌, if◌then◌else◌, is_ok, unwrap_or, nat_beq_iff,
}
use cosmwasm_plus.Std.{Std}
use cosmwasm_plus.Storage.{Map, may_load, save, remove}
use cosmwasm_plus.Storage.Laws.{may_load-save, may_load-remove}
use cosmwasm_plus.Expiration.{Expiration}
use cosmwasm_plus.Balance.{Coin, NativeBalance, add_assign, sub_saturating, is_empty}
use cosmwasm_plus.Balance.Laws.{is_sorted}
use cosmwasm_plus.Balance.Totals.{add_assign_adds, sub_saturating_subtracts}
use cosmwasm_plus.Cw1.Whitelist.{
  AdminList, is_admin, can_modify, execute_freeze, execute_update_admins,
}
use cosmwasm_plus.Cw1.Subkeys.{
  State, ExecuteMsg, Response, Allowance, default_allowance, with_expires, execute_msgs, freeze,
  update_admins, increase_allowance, decrease_allowance, set_permissions, check_msgs,
  execute_execute, admin_sets, execute_increase_allowance, execute_decrease_allowance,
  execute_set_permissions, execute,
}
use cosmwasm_plus.Cw1.Subkeys.Spending.{balance_of, check_msgs-Spends}

freeze_fails :
    (sender : ℕ) (cfg : AdminList)
    → cfg.mutable ≡ false
    → is_ok (execute_freeze sender (some cfg)) ≡ false
unfolding execute_freeze can_modify
freeze_fails sender cfg frozen = ground arith

-- Every allowance has its coins sorted by denomination, each denomination once.
abbrev pub AreSorted : Map ℕ Allowance → Type 0
AreSorted allowances = (k : ℕ) → is_sorted (balance_of k allowances) ≡ true

save-AreSorted :
    (k : ℕ) (v : Allowance) (a : Map ℕ Allowance)
    → is_sorted v.balance ≡ true
    → AreSorted a
    → AreSorted (save k v a)
save-AreSorted k v a s all j = ground (arith, may_load-save k j v a, all j)

remove-AreSorted : (k : ℕ) (a : Map ℕ Allowance) → AreSorted a → AreSorted (remove k a)
remove-AreSorted k a all j = ground (arith, may_load-remove k j a, all j)

module _ ⦃api : Std⦄ where
  update_fails :
      (sender : ℕ) (admins : List ℕ) (cfg : AdminList)
      → cfg.mutable ≡ false
      → is_ok (execute_update_admins sender admins (some cfg)) ≡ false
  unfolding execute_update_admins can_modify
  update_fails sender admins cfg frozen = ground arith

  increase_steps :
      (sender spender : ℕ) (amount : Coin) (expires : Option Expiration) (s : State) {s' : State}
      {r : Response}
      → execute_increase_allowance sender spender amount expires s ≡ ok (s', r)
      → (addr : ℕ) × (old : Allowance) × (sum : NativeBalance) × (old
          ≡ with_expires expires (unwrap_or default_allowance (may_load addr s.allowances)))
        × (add_assign amount old.balance ≡ some sum)
        × (s' ≡ record s { allowances = save addr (record old { balance = sum }) s.allowances })
  unfolding execute_increase_allowance
  increase_steps sender spender amount expires s p = elim (ok-cases (admin_sets sender spender s)) [
    | inr failed ↦ absurd (ground arith)
    | inl (addr, e) ↦
        let old = with_expires expires (unwrap_or default_allowance (may_load addr s.allowances)) in
        elim (Option-cases (add_assign amount old.balance)) [
          | inl over ↦ absurd (ground arith)
          | inr (sum, e') ↦ (addr, old, sum, refl, e', ground arith)
        ]
  ]

  decrease_steps :
      (sender spender : ℕ) (amount : Coin) (expires : Option Expiration) (s : State) {s' : State}
      {r : Response}
      → execute_decrease_allowance sender spender amount expires s ≡ ok (s', r)
      → (addr : ℕ) × (old : Allowance) × (left : NativeBalance) × (may_load addr s.allowances
          ≡ some old)
        × (sub_saturating amount (with_expires expires old).balance ≡ ok left)
        × (s' ≡ record s {
          allowances =
              if is_empty left
              then remove addr
                  (save addr (record (with_expires expires old) { balance = left }) s.allowances)
              else save addr (record (with_expires expires old) { balance = left }) s.allowances;
        })
  unfolding execute_decrease_allowance
  decrease_steps sender spender amount expires s p = elim (ok-cases (admin_sets sender spender s)) [
    | inr failed ↦ absurd (ground arith)
    | inl (addr, e) ↦ elim (Option-cases (may_load addr s.allowances)) [
      | inl missing ↦ absurd (ground arith)
      | inr (old, found) ↦
          elim (ok-cases (sub_saturating amount (with_expires expires old).balance)) [
            | inr failed ↦ absurd (ground arith)
            | inl (left, e') ↦ (addr, old, left, found, e', ground arith)
          ]
    ]
  ]

  -- Once the admin list is frozen, every message that succeeds leaves it, also its mutability.
  pub execute_keeps_admins :
      (sender : ℕ) (msg : ExecuteMsg) (cfg : AdminList) (s s' : State) (r : Response)
      → s.admin_list ≡ some cfg
      → cfg.mutable ≡ false
      → execute sender msg s ≡ ok (s', r)
      → s'.admin_list ≡ some cfg
  unfolding execute execute_execute execute_increase_allowance execute_decrease_allowance
      execute_set_permissions
  execute_keeps_admins sender (execute_msgs msgs) cfg s s' r stored frozen p =
      elim (Bool-cases (is_admin sender cfg)) [
        | inl admin ↦ ground arith
        | inr other ↦ elim (ok-cases (check_msgs sender s.permissions msgs s.allowances)) [
          | inl (left, e) ↦ ground arith
          | inr failed ↦ absurd (ground arith)
        ]
      ]
  execute_keeps_admins sender freeze cfg s s' r stored frozen p =
      absurd (ground (arith, freeze_fails sender cfg frozen))
  execute_keeps_admins sender (update_admins admins) cfg s s' r stored frozen p =
      absurd (ground (arith, update_fails sender admins cfg frozen))
  execute_keeps_admins sender (increase_allowance spender amount expires) cfg s s' r stored frozen
        p =
      let (_, _, _, _, _, made) = increase_steps sender spender amount expires s p in rw made stored
  execute_keeps_admins sender (decrease_allowance spender amount expires) cfg s s' r stored frozen
        p =
      let (_, _, _, _, _, made) = decrease_steps sender spender amount expires s p in rw made stored
  execute_keeps_admins sender (set_permissions spender perm) cfg s s' r stored frozen p =
      elim (ok-cases (admin_sets sender spender s)) [
        | inl (addr, e) ↦ ground arith
        | inr failed ↦ absurd (ground arith)
      ]

  with_expires_balance :
      (expires : Option Expiration) (old : Allowance)
      → (with_expires expires old).balance ≡ old.balance
  with_expires_balance none old = refl
  with_expires_balance (some exp) old = refl

  default_sorted :
      (k : ℕ) (a : Map ℕ Allowance)
      → AreSorted a
      → is_sorted (unwrap_or default_allowance (may_load k a)).balance ≡ true
  default_sorted k a all = ground (arith, all k)

  -- Where an admin list is stored, every message that succeeds keeps all allowances sorted by
  -- denomination, each denomination once.
  pub execute-AreSorted :
      (sender : ℕ) (msg : ExecuteMsg) (cfg : AdminList) (s s' : State) (r : Response)
      → s.admin_list ≡ some cfg
      → AreSorted s.allowances
      → execute sender msg s ≡ ok (s', r)
      → AreSorted s'.allowances
  unfolding execute execute_execute execute_set_permissions
  execute-AreSorted sender (execute_msgs msgs) cfg s s' r stored all p =
      elim (Bool-cases (is_admin sender cfg)) [
        | inl admin ↦ let same : s' ≡ s = ground arith in rw same all
        | inr other ↦ elim (ok-cases (check_msgs sender s.permissions msgs s.allowances)) [
          | inr failed ↦ absurd (ground arith)
          | inl (left, e) ↦
              let made : s' ≡ record s { allowances = left } = ground arith in
              let ((sorted, _, others), _) =
                check_msgs-Spends sender s.permissions msgs s.allowances left (all sender) e in
              rw made (λ k. elim (Bool-cases (k == sender)) [
                | inl here ↦ ground (arith, nat_beq_iff k sender)
                | inr apart ↦ ground (arith, others k apart, all k)
              ])
        ]
      ]
  execute-AreSorted sender freeze cfg s s' r stored all p =
      elim (ok-cases (execute_freeze sender s.admin_list)) [
        | inr failed ↦ absurd (ground arith)
        | inl (admin_list, e) ↦
            let same : s'.allowances ≡ s.allowances = ground arith in rw same all
      ]
  execute-AreSorted sender (update_admins admins) cfg s s' r stored all p =
      elim (ok-cases (execute_update_admins sender admins s.admin_list)) [
        | inr failed ↦ absurd (ground arith)
        | inl (admin_list, e) ↦
            let same : s'.allowances ≡ s.allowances = ground arith in rw same all
      ]
  execute-AreSorted sender (increase_allowance spender amount expires) cfg s s' r stored all p =
      let (addr, old, sum, is_old, e, made) = increase_steps sender spender amount expires s p in
      let known = unwrap_or default_allowance (may_load addr s.allowances) in
      let start : is_sorted old.balance ≡ true =
        rw (is_old, with_expires_balance expires known) (default_sorted addr s.allowances all) in
      rw made (
        save-AreSorted addr (record old { balance = sum }) s.allowances
          (add_assign_adds amount old.balance sum start e).0 all)
  execute-AreSorted sender (decrease_allowance spender amount expires) cfg s s' r stored all p =
      let (addr, old, left, found, e, made) = decrease_steps sender spender amount expires s p in
      let start : is_sorted (with_expires expires old).balance ≡ true =
        rw (with_expires_balance expires old) (ground (arith, all addr)) in
      let saved =
        save-AreSorted addr (record (with_expires expires old) { balance = left }) s.allowances
          (sub_saturating_subtracts amount (with_expires expires old).balance left start e).0 all in
      rw made (elim (Bool-cases (is_empty left)) [
        | inl empty ↦ rw empty (
            remove-AreSorted addr
              (save addr (record (with_expires expires old) { balance = left }) s.allowances) saved)
        | inr some_left ↦ rw some_left saved
      ])
  execute-AreSorted sender (set_permissions spender perm) cfg s s' r stored all p =
      elim (ok-cases (admin_sets sender spender s)) [
        | inr failed ↦ absurd (ground arith)
        | inl (addr, e) ↦ let same : s'.allowances ≡ s.allowances = ground arith in rw same all
      ]
