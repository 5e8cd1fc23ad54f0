-- ===== src/Storage/Distinct.antt =====
-- Maps with each key once, and the sum of what is left after a removal.
use cosmwasm_plus.Prelude.{ℕ, ◌+◌, ◌≡◌, refl, none, [], ◌∷◌, Key, ◌==◌, arith, Bool-cases, inl, inr}
use cosmwasm_plus.Storage.{Map, may_load, save, remove}
use cosmwasm_plus.Storage.Laws.{may_load-save, may_load-remove, sum, balance_of}

module _ {K V : Type 0} ⦃key : Key K⦄ where
  -- No key is stored twice.
  abbrev pub IsDistinct : Map K V → Type 0
  IsDistinct [] = Unit {0}
  IsDistinct ((k, _) ∷ m) = (may_load k m ≡ none) × IsDistinct m

  pub save-IsDistinct : (k : K) (v : V) (m : Map K V) → IsDistinct m → IsDistinct (save k v m)
  unfolding save may_load
  save-IsDistinct k v [] d = (refl, tt)
  save-IsDistinct k v ((j, w) ∷ m) (fresh, d) = elim (Bool-cases (k == j)) [
    | inl here ↦ let at_j : k ≡ j = (key.same_iff k j).0 here in rw here (rw at_j fresh, d)
    | inr other ↦ rw other (
      ground (arith, key.same_iff k j, key.same_iff j k, may_load-save k j v m),
      save-IsDistinct k v m d,
    )
  ]

  pub remove-IsDistinct : (k : K) (m : Map K V) → IsDistinct m → IsDistinct (remove k m)
  unfolding remove may_load
  remove-IsDistinct k [] d = tt
  remove-IsDistinct k ((j, w) ∷ m) (fresh, d) = elim (Bool-cases (k == j)) [
    | inl here ↦ rw here (remove-IsDistinct k m d)
    | inr other ↦ rw other (
      ground (arith, key.same_iff k j, key.same_iff j k, may_load-remove k j m),
      remove-IsDistinct k m d,
    )
  ]

module _ {K : Type 0} ⦃key : Key K⦄ where
  sum-remove-none : (k : K) (m : Map K ℕ) → may_load k m ≡ none → sum (remove k m) ≡ sum m
  unfolding remove may_load
  sum-remove-none k [] h = refl
  sum-remove-none k ((j, w) ∷ m) h = ground (arith, sum-remove-none k m)

  pub sum-remove : (k : K) (m : Map K ℕ) → IsDistinct m → sum (remove k m) + balance_of k m ≡ sum m
  unfolding remove may_load
  sum-remove k [] d = omega arith
  sum-remove k ((j, w) ∷ m) (fresh, d) =
      ground (arith, key.same_iff k j, sum-remove k m d, sum-remove-none k m)

module _ {K V : Type 0} ⦃key : Key K⦄ where
  remove-absent : (k : K) (m : Map K V) → may_load k m ≡ none → remove k m ≡ m
  unfolding remove may_load
  remove-absent k [] h = refl
  remove-absent k ((j, w) ∷ m) h = ground (arith, remove-absent k m)

  -- Removing a key that was new gives back the map.
  pub remove-save : (k : K) (v : V) (m : Map K V) → may_load k m ≡ none → remove k (save k v m) ≡ m
  unfolding remove may_load save
  remove-save k v [] h = ground (arith, key.same_iff k k)
  remove-save k v ((j, w) ∷ m) h = ground (arith, remove-save k v m)
