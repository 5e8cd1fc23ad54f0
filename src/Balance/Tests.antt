-- ===== src/Balance/Tests.antt =====
-- A balance of 30 of the token 2 and 70 of the token 6.
use Prim.Native.Nat.{ℕ}
use cosmwasm_plus.Prelude.{◌≡◌, refl, true, false, some, [], ◌∷◌, ok, err, nat_eq}
use cosmwasm_plus.Std.{overflow}
use cosmwasm_plus.Mock.{mock_std}
use cosmwasm_plus.Balance.{
  Coin, NativeBalance, find, has, set_amount, remove_coin, insert_coin, add_assign, add_balances,
  sub, sub_all, sub_saturating, is_empty,
}

abbrev coin : ℕ → ℕ → Coin
coin denom amount = record { denom = denom; amount = amount }

abbrev wallet : NativeBalance
wallet = coin 2 30 ∷ coin 6 70 ∷ []

inserted_test : add_assign (coin 4 9) wallet ≡ some (coin 2 30 ∷ coin 4 9 ∷ coin 6 70 ∷ [])
unfolding add_assign find insert_coin
inserted_test = refl

summed_test :
    add_balances (coin 6 5 ∷ coin 9 1 ∷ []) wallet ≡ some (coin 2 30 ∷ coin 6 75 ∷ coin 9 1 ∷ [])
unfolding add_balances add_assign find set_amount insert_coin
summed_test = refl

subtracted_test : sub_all (coin 6 5 ∷ coin 2 30 ∷ []) wallet ≡ ok (coin 6 65 ∷ [])
unfolding sub_all sub find set_amount remove_coin
subtracted_test = refl

missing_test : sub (coin 7 0) wallet ≡ err overflow
unfolding sub find
missing_test = refl

saturated_test : sub_saturating (coin 6 90) wallet ≡ ok (coin 2 30 ∷ [])
unfolding sub_saturating find remove_coin
saturated_test = refl

has_test : has (coin 6 71) wallet ≡ false
unfolding has find
has_test = refl

empty_test : is_empty (coin 2 0 ∷ []) ≡ true
unfolding is_empty
empty_test = refl
