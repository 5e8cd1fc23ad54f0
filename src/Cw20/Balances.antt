-- ===== src/Cw20/Balances.antt =====
-- The steps of the handlers of cw20-base as equations, and what they do to the balances.
use cosmwasm_plus.Prelude.{
  ℕ, ◌+◌, ◌-◌, ◌≤◌, ◌≡◌, refl, false, none, some, ok, err, panic, ◌==◌, nat_eq, pair_eq, ltb, leb,
  if◌then◌else◌, u128_mod, arith, Option-cases, inl, inr,
}
use cosmwasm_plus.Std.{Std, overflow, BlockInfo}
use cosmwasm_plus.Storage.{Map, Item, may_load, save}
use cosmwasm_plus.Storage.Laws.{balance_of, balance_of-save, sum, sum-save}
use cosmwasm_plus.Expiration.{is_expired}
use cosmwasm_plus.Cw20.Defs.{std, TokenInfo, AllowanceResponse}
use cosmwasm_plus.Cw20.Execute.{sub_balance, add_balance, sub_supply, deduct_allowance}

module _ ⦃api : Std⦄ where
  pub sub_balance_lem :
      (a x : ℕ) (m : Map ℕ ℕ)
      → sub_balance a x m ≡ (
          if leb x (balance_of a m) then ok (save a (balance_of a m - x) m) else err (std overflow))
  unfolding sub_balance
  sub_balance_lem a x m = ground (arith, api.checked_sub_lem (balance_of a m) x)

  pub add_balance_lem :
      (a x : ℕ) (m : Map ℕ ℕ)
      → add_balance a x m
        ≡ (if ltb (balance_of a m + x) u128_mod then ok (save a (balance_of a m + x) m) else panic)
  unfolding add_balance
  add_balance_lem a x m = ground (arith, api.uint_add_lem (balance_of a m) x)

  pub sub_supply_lem :
      (x : ℕ) (t : TokenInfo)
      → sub_supply x (some t) ≡ (
          if leb x t.total_supply
          then ok (some (record t { total_supply = t.total_supply - x }))
          else err (std overflow))
  unfolding sub_supply
  sub_supply_lem x t = ground (arith, api.checked_sub_lem t.total_supply x)

  -- Inversion of the steps, with the sum and every balance afterwards.
  pub sub_balance-eq-ok :
      (a x : ℕ) (m : Map ℕ ℕ) {m' : Map ℕ ℕ}
      → sub_balance a x m ≡ ok m'
      → (x ≤ balance_of a m)
        × (sum m' + x ≡ sum m)
        × ((j : ℕ) → balance_of j m' ≡ (if j == a then balance_of a m - x else balance_of j m))
  sub_balance-eq-ok a x m p = (
    ground (arith, sub_balance_lem a x m),
    ground (arith, sub_balance_lem a x m, sum-save a (balance_of a m - x) m),
    λ j. ground (arith, sub_balance_lem a x m, balance_of-save a j (balance_of a m - x) m),
  )

  pub add_balance-eq-ok :
      (a x : ℕ) (m : Map ℕ ℕ) {m' : Map ℕ ℕ}
      → add_balance a x m ≡ ok m'
      → (sum m' ≡ sum m + x)
        × ((j : ℕ) → balance_of j m' ≡ (if j == a then balance_of a m + x else balance_of j m))
  add_balance-eq-ok a x m p = (
    ground (arith, add_balance_lem a x m, sum-save a (balance_of a m + x) m),
    λ j. ground (arith, add_balance_lem a x m, balance_of-save a j (balance_of a m + x) m),
  )

  pub sub_supply-eq-ok :
      (x : ℕ) (i : Item TokenInfo) {i' : Item TokenInfo}
      → sub_supply x i ≡ ok i'
      → (t : TokenInfo) × (i ≡ some t)
        × (x ≤ t.total_supply)
        × (i' ≡ some (record t { total_supply = t.total_supply - x }))
  unfolding sub_supply
  sub_supply-eq-ok x none p = cc
  sub_supply-eq-ok x (some t) p = (
    t,
    refl,
    ground (arith, api.checked_sub_lem t.total_supply x),
    ground (arith, api.checked_sub_lem t.total_supply x),
  )

  pub deduct_allowance-eq-ok :
      (owner spender : ℕ) (block : BlockInfo) (x : ℕ) (m : Map (ℕ × ℕ) AllowanceResponse)
      {m' : Map (ℕ × ℕ) AllowanceResponse}
      → deduct_allowance owner spender block x m ≡ ok m'
      → (a : AllowanceResponse) × (may_load (owner, spender) m ≡ some a)
        × (is_expired a.expires block ≡ false)
        × (x ≤ a.allowance)
        × (m' ≡ save (owner, spender) (record a { allowance = a.allowance - x }) m)
  unfolding deduct_allowance
  deduct_allowance-eq-ok owner spender block x m p =
      elim (Option-cases (may_load (owner, spender) m)) [
        | inl missing ↦ absurd (ground arith)
        | inr (a, found) ↦ (
          a,
          found,
          ground arith,
          ground (arith, api.checked_sub_lem a.allowance x),
          ground (arith, api.checked_sub_lem a.allowance x),
        )
      ]
