-- ===== src/Storage/Weights.antt =====
-- The sum of a number of every stored value, after a write and a removal.
use cosmwasm_plus.Prelude.{ℕ, ◌+◌, ◌≡◌, refl, none, some, Option, [], ◌∷◌, Key, arith}
use cosmwasm_plus.Storage.{Map, may_load, save, remove}
use cosmwasm_plus.Storage.Distinct.{IsDistinct}

-- the number of a value, 0 if there is none
abbrev pub number_of : {V : Type 0} → (V → ℕ) → Option V → ℕ
number_of number none = 0
number_of number (some v) = number v

module _ {K V : Type 0} ⦃key : Key K⦄ (number : V → ℕ) where
  -- The sum of the numbers of all stored values.
  abbrev pub weight : Map K V → ℕ
  weight [] = 0
  weight ((_, v) ∷ m) = number v + weight m

  pub weight-save :
      (k : K) (v : V) (m : Map K V)
      → weight (save k v m) + number_of number (may_load k m) ≡ weight m + number v
  unfolding may_load save
  weight-save k v [] = omega arith
  weight-save k v ((i, w) ∷ m) = ground (arith, key.same_iff k i, weight-save k v m)

  weight-remove-none : (k : K) (m : Map K V) → may_load k m ≡ none → weight (remove k m) ≡ weight m
  unfolding remove may_load
  weight-remove-none k [] h = refl
  weight-remove-none k ((j, w) ∷ m) h = ground (arith, weight-remove-none k m)

  pub weight-remove :
      (k : K) (m : Map K V)
      → IsDistinct m
      → weight (remove k m) + number_of number (may_load k m) ≡ weight m
  unfolding remove may_load
  weight-remove k [] d = omega arith
  weight-remove k ((j, w) ∷ m) (fresh, d) =
      ground (arith, key.same_iff k j, weight-remove k m d, weight-remove-none k m)
