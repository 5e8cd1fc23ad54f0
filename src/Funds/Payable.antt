-- ===== src/Funds/Payable.antt =====
-- The checks of the native coins sent with a message: packages/cw0/src/payment.rs.
use cosmwasm_plus.Prelude.{
  ℕ, Option, none, some, List, [], ◌∷◌, Outcome, ok, err, panic, ◌>>=◌, ◌==◌, nat_eq, if◌then◌else◌,
}
use cosmwasm_plus.Balance.{Coin}

pub data PaymentError : Type 0 where
  missing_denom extra_denom : (denom : ℕ) → PaymentError
  multiple_denoms no_funds non_payable : PaymentError

unfoldable pub nonpayable : List Coin → Outcome PaymentError (Unit {0})
nonpayable [] = ok tt
nonpayable (_ ∷ _) = err non_payable

unfoldable pub one_coin : List Coin → Outcome PaymentError Coin
one_coin [] = err no_funds
one_coin (coin ∷ []) = if coin.amount == 0 then err no_funds else ok coin
one_coin (_ ∷ _ ∷ _) = err multiple_denoms

unfoldable pub must_pay : List Coin → ℕ → Outcome PaymentError ℕ
must_pay funds denom = do
  coin ← one_coin funds
  if coin.denom == denom then ok coin.amount else err (missing_denom denom)

-- `find(|c| c.denom != denom)`
unfoldable pub mismatch : List Coin → ℕ → Option Coin
mismatch [] denom = none
mismatch (c ∷ coins) denom =
    let later = mismatch coins denom in if c.denom == denom then later else some c

abbrev wrong_coin : Option Coin → Outcome PaymentError ℕ
wrong_coin none = panic
wrong_coin (some wrong) = err (extra_denom wrong.denom)

unfoldable pub may_pay : List Coin → ℕ → Outcome PaymentError ℕ
may_pay [] denom = ok 0
may_pay (c ∷ []) denom =
    if c.denom == denom then ok c.amount else wrong_coin (mismatch (c ∷ []) denom)
may_pay (c ∷ d ∷ coins) denom = wrong_coin (mismatch (c ∷ d ∷ coins) denom)
