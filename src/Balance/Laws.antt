-- ===== src/Balance/Laws.antt =====
-- The amount of each denomination after an addition and a subtraction.
use cosmwasm_plus.Prelude.{
  ℕ, ◌≡◌, refl, Bool, true, ◌&&◌, none, some, [], ◌∷◌, ◌==◌, nat_eq, ltb, if◌then◌else◌, arith,
  nat_beq_iff,
}
use cosmwasm_plus.Balance.{Coin, NativeBalance, find, set_amount, remove_coin, insert_coin}

-- The amount of a denomination, 0 if there is none.
abbrev pub amount_in : ℕ → NativeBalance → ℕ
amount_in denom coins = elim (find denom coins) [ none ↦ 0 | some c ↦ c.amount ]

-- Every denomination of the list is above the given one.
abbrev pub is_above : ℕ → NativeBalance → Bool
is_above denom [] = true
is_above denom (c ∷ coins) = ltb denom c.denom && is_above denom coins

-- Sorted by denomination, each once.
abbrev pub is_sorted : NativeBalance → Bool
is_sorted [] = true
is_sorted (c ∷ coins) = is_above c.denom coins && is_sorted coins

find-above : (d : ℕ) (coins : NativeBalance) → is_above d coins ≡ true → find d coins ≡ none
unfolding find
find-above d [] a = refl
find-above d (c ∷ coins) a = ground (arith, find-above d coins)

above-set_amount :
    (e d v : ℕ) (coins : NativeBalance) → is_above e (set_amount d v coins) ≡ is_above e coins
unfolding set_amount
above-set_amount e d v [] = refl
above-set_amount e d v (c ∷ coins) = ground (arith, above-set_amount e d v coins)

above-remove_coin :
    (e d : ℕ) (coins : NativeBalance)
    → is_above e coins ≡ true
    → is_above e (remove_coin d coins) ≡ true
unfolding remove_coin
above-remove_coin e d [] a = refl
above-remove_coin e d (c ∷ coins) a = ground (arith, above-remove_coin e d coins)

above-insert_coin :
    (e : ℕ) (other : Coin) (coins : NativeBalance)
    → ltb e other.denom ≡ true
    → is_above e coins ≡ true
    → is_above e (insert_coin other coins) ≡ true
unfolding insert_coin
above-insert_coin e other [] l a = ground arith
above-insert_coin e other (c ∷ coins) l a = ground (arith, above-insert_coin e other coins)

above_trans :
    (d e : ℕ) (coins : NativeBalance)
    → ltb d e ≡ true
    → is_above e coins ≡ true
    → is_above d coins ≡ true
above_trans d e [] l a = refl
above_trans d e (c ∷ coins) l a = ground (arith, above_trans d e coins)

pub sorted-set_amount :
    (d v : ℕ) (coins : NativeBalance)
    → is_sorted coins ≡ true
    → is_sorted (set_amount d v coins) ≡ true
unfolding set_amount
sorted-set_amount d v [] s = refl
sorted-set_amount d v (c ∷ coins) s =
    ground (arith, sorted-set_amount d v coins, above-set_amount c.denom d v coins)

pub sorted-remove_coin :
    (d : ℕ) (coins : NativeBalance)
    → is_sorted coins ≡ true
    → is_sorted (remove_coin d coins) ≡ true
unfolding remove_coin
sorted-remove_coin d [] s = refl
sorted-remove_coin d (c ∷ coins) s =
    ground (arith, sorted-remove_coin d coins, above-remove_coin c.denom d coins)

pub sorted-insert_coin :
    (other : Coin) (coins : NativeBalance)
    → is_sorted coins ≡ true
    → find other.denom coins ≡ none
    → is_sorted (insert_coin other coins) ≡ true
unfolding insert_coin find
sorted-insert_coin other [] s absent = refl
sorted-insert_coin other (c ∷ coins) s absent = ground (
  arith,
  sorted-insert_coin other coins,
  above-insert_coin c.denom other coins,
  above_trans other.denom c.denom coins,
)

pub find-set_amount :
    (d v e : ℕ) (coins : NativeBalance) (c : Coin)
    → find d coins ≡ some c
    → amount_in e (set_amount d v coins) ≡ (if d == e then v else amount_in e coins)
unfolding find set_amount
find-set_amount d v e [] c h = cc
find-set_amount d v e (b ∷ coins) c h = ground (
  arith,
  find-set_amount d v e coins c,
  nat_beq_iff d e,
  nat_beq_iff b.denom d,
  nat_beq_iff b.denom e,
)

pub find-remove_coin :
    (d e : ℕ) (coins : NativeBalance)
    → is_sorted coins ≡ true
    → amount_in e (remove_coin d coins) ≡ (if d == e then 0 else amount_in e coins)
unfolding find remove_coin
find-remove_coin d e [] s = ground arith
find-remove_coin d e (b ∷ coins) s = ground (
  arith,
  find-remove_coin d e coins,
  find-above d coins,
  nat_beq_iff d e,
  nat_beq_iff b.denom d,
  nat_beq_iff b.denom e,
)

pub find-insert_coin :
    (other : Coin) (e : ℕ) (coins : NativeBalance)
    → find other.denom coins ≡ none
    → amount_in e (insert_coin other coins)
      ≡ (if other.denom == e then other.amount else amount_in e coins)
unfolding find insert_coin
find-insert_coin other e [] absent = ground arith
find-insert_coin other e (b ∷ coins) absent = ground (
  arith,
  find-insert_coin other e coins,
  nat_beq_iff other.denom e,
  nat_beq_iff b.denom other.denom,
  nat_beq_iff b.denom e,
)
