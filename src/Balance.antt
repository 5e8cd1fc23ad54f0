-- ===== src/Balance.antt =====
-- `NativeBalance` of packages/cw0/src/balance.rs: amounts of native tokens, sorted by denomination.
pub mod Laws
pub mod Totals
mod Tests
use cosmwasm_plus.Prelude.{
  ℕ, Bool, true, false, not, ◌||◌, Option, none, some, List, [], ◌∷◌, Outcome, ok, err, panic,
  ◌>>=◌, ok_or, ◌==◌, nat_eq, leb, ltb, if◌then◌else◌,
}
use cosmwasm_plus.Std.{Std, StdError, overflow}

-- `Coin` of cosmwasm_std; a denomination is a number, ordered as the texts are
pub record Coin : Type 0 where
  pub denom : ℕ
  pub amount : ℕ

abbrev pub NativeBalance : Type 0
NativeBalance = List Coin

-- the first coin of a denomination
unfoldable pub find : ℕ → NativeBalance → Option Coin
find denom [] = none
find denom (c ∷ coins) = if c.denom == denom then some c else find denom coins

unfoldable pub has : Coin → NativeBalance → Bool
has required coins = elim (find required.denom coins) [
  | none ↦ false
  | some m ↦ leb required.amount m.amount
]

-- `!self.0.iter().any(|x| x.amount != Uint128::zero())`
unfoldable pub is_empty : NativeBalance → Bool
is_empty [] = true
is_empty (c ∷ coins) = if c.amount == 0 then is_empty coins else false

-- `self.0[i].amount = amount` at the first coin of the denomination
unfoldable pub set_amount : ℕ → ℕ → NativeBalance → NativeBalance
set_amount denom amount [] = []
set_amount denom amount (c ∷ coins) =
    let rest = set_amount denom amount coins in
    if c.denom == denom then record c { amount = amount } ∷ coins else c ∷ rest

-- `self.0.remove(i)` at the first coin of the denomination
unfoldable pub remove_coin : ℕ → NativeBalance → NativeBalance
remove_coin denom [] = []
remove_coin denom (c ∷ coins) =
    let rest = remove_coin denom coins in if c.denom == denom then coins else c ∷ rest

-- `insert` at `insert_pos`, or `push`
unfoldable pub insert_coin : Coin → NativeBalance → NativeBalance
insert_coin other [] = other ∷ []
insert_coin other (c ∷ coins) =
    let rest = insert_coin other coins in
    if leb other.denom c.denom then other ∷ c ∷ coins else c ∷ rest

module _ ⦃api : Std⦄ where
  -- `add_assign` of a coin; `none` is an overflow
  unfoldable pub add_assign : Coin → NativeBalance → Option NativeBalance
  add_assign other coins = elim (find other.denom coins) [
    | none ↦ some (insert_coin other coins)
    | some c ↦ elim (api.uint_add c.amount other.amount) [
      | none ↦ none
      | some sum ↦ some (set_amount other.denom sum coins)
    ]
  ]

  -- `add_assign` of a balance
  unfoldable pub add_balances : List Coin → NativeBalance → Option NativeBalance
  add_balances [] coins = some coins
  add_balances (other ∷ others) coins = elim (add_assign other coins) [
    | none ↦ none
    | some sum ↦ add_balances others sum
  ]

  unfoldable pub sub : Coin → NativeBalance → Outcome StdError NativeBalance
  sub other coins = elim (find other.denom coins) [
    | none ↦ err overflow
    | some c ↦ do
      remainder ← ok_or (api.checked_sub c.amount other.amount) overflow
      ok (
          if remainder == 0
          then remove_coin other.denom coins
          else set_amount other.denom remainder coins)
  ]

  -- `sub` of some coins, one after the other
  unfoldable pub sub_all : List Coin → NativeBalance → Outcome StdError NativeBalance
  sub_all [] coins = ok coins
  sub_all (other ∷ others) coins = do left ← sub other coins; sub_all others left

  unfoldable pub sub_saturating : Coin → NativeBalance → Outcome StdError NativeBalance
  sub_saturating other coins = elim (find other.denom coins) [
    | none ↦ err overflow
    | some c ↦ if leb c.amount other.amount then ok (remove_coin other.denom coins) else (do
      left ← ok_or (api.checked_sub c.amount other.amount) overflow
      ok (set_amount other.denom left coins))
  ]
