-- ===== src/Funds/Assets.antt =====
-- How much of a native token or of the token of a cw20 contract is sent, held or paid.
use cosmwasm_plus.Prelude.{
  ℕ, ◌+◌, ◌≡◌, refl, List, [], ◌∷◌, ◌++◌, ◌==◌, nat_eq, arith, if◌then◌else◌,
}
use cosmwasm_plus.Balance.Totals.{coins_in}
use cosmwasm_plus.Funds.{
  Cw20CoinVerified, Balance, native_balance, cw20_balance, Denom, native_denom, cw20_denom, Payment,
  bank_send, cw20_transfer,
}

-- A native token or the token of a cw20 contract.
pub data Asset : Type 0 where
  coin_of : (denom : ℕ) → Asset
  token_of : (address : ℕ) → Asset

abbrev pub asset_of : Denom → Asset
asset_of (native_denom d) = coin_of d
asset_of (cw20_denom a) = token_of a

abbrev pub token_in : ℕ → Cw20CoinVerified → ℕ
token_in t c = if c.address == t then c.amount else 0

abbrev pub tokens_in : ℕ → List Cw20CoinVerified → ℕ
tokens_in t [] = 0
tokens_in t (c ∷ coins) = token_in t c + tokens_in t coins

abbrev pub in_funds : Asset → Balance → ℕ
in_funds (coin_of e) (native_balance coins) = coins_in e coins
in_funds (token_of t) (cw20_balance token) = token_in t token
in_funds _ _ = 0

abbrev pub paid_one : Asset → Payment → ℕ
paid_one (coin_of e) (bank_send _ coins) = coins_in e coins
paid_one (token_of t) (cw20_transfer address _ amount) = if address == t then amount else 0
paid_one _ _ = 0

-- What some messages pay out of an asset.
abbrev pub paid : Asset → List Payment → ℕ
paid x [] = 0
paid x (m ∷ ms) = paid_one x m + paid x ms

pub paid-append : (x : Asset) (ms ns : List Payment) → paid x (ms ++ ns) ≡ paid x ms + paid x ns
paid-append x [] ns = omega arith
paid-append x (m ∷ ms) ns = omega (arith, paid-append x ms ns)

pub no_funds : (x : Asset) → in_funds x (native_balance []) ≡ 0
no_funds (coin_of e) = refl
no_funds (token_of t) = refl
