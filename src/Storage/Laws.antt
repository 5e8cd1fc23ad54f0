-- ===== src/Storage/Laws.antt =====
-- What is read after a write, and the sum of a map's numbers.
use cosmwasm_plus.Prelude.{
  ℕ, ◌+◌, ◌≡◌, refl, ◌≤◌, none, some, [], ◌∷◌, Key, ◌==◌, if◌then◌else◌, unwrap_or, arith,
  Bool-cases, inl, inr, false, length,
}
use cosmwasm_plus.Storage.{Map, may_load, save, remove, has}

module _ {K V : Type 0} ⦃key : Key K⦄ where
  pub may_load-save :
      (k j : K) (v : V) (m : Map K V)
      → may_load j (save k v m) ≡ (if j == k then some v else may_load j m)
  unfolding may_load save
  may_load-save k j v [] = refl
  may_load-save k j v ((i, w) ∷ m) =
      ground (arith, key.same_iff j k, key.same_iff k i, key.same_iff j i, may_load-save k j v m)

  pub may_load-remove :
      (k j : K) (m : Map K V) → may_load j (remove k m) ≡ (if j == k then none else may_load j m)
  unfolding may_load remove
  may_load-remove k j [] = ground arith
  may_load-remove k j ((i, w) ∷ m) =
      ground (arith, key.same_iff j k, key.same_iff k i, key.same_iff j i, may_load-remove k j m)

-- The sum of all numbers of a map.
abbrev pub sum : {K : Type 0} → Map K ℕ → ℕ
sum [] = 0
sum ((_, v) ∷ m) = v + sum m

-- The number stored under a key, 0 if there is none.
module _ {K : Type 0} ⦃key : Key K⦄ where
  abbrev pub balance_of : K → Map K ℕ → ℕ
  balance_of k m = unwrap_or 0 (may_load k m)

  pub balance_of-save :
      (k j : K) (v : ℕ) (m : Map K ℕ)
      → balance_of j (save k v m) ≡ (if j == k then v else balance_of j m)
  balance_of-save k j v m = ground (arith, may_load-save k j v m)

  pub sum-save : (k : K) (v : ℕ) (m : Map K ℕ) → sum (save k v m) + balance_of k m ≡ sum m + v
  unfolding may_load save
  sum-save k v [] = omega arith
  sum-save k v ((i, w) ∷ m) = ground (arith, key.same_iff k i, sum-save k v m)

  pub balance_of-le-sum : (k : K) (m : Map K ℕ) → balance_of k m ≤ sum m
  unfolding may_load
  balance_of-le-sum k [] = omega arith
  balance_of-le-sum k ((i, w) ∷ m) = ground (arith, balance_of-le-sum k m)

module _ {K V : Type 0} ⦃key : Key K⦄ where
  -- What holds of every entry of a map and of one more holds of every entry after the write.
  pub all-save :
      (P : K → V → Type 0) (k : K) (v : V) (m : Map K V)
      → P k v
      → ((j : K) (w : V) → (j == k) ≡ false → may_load j m ≡ some w → P j w)
      → (j : K) (w : V) → may_load j (save k v m) ≡ some w
      → P j w
  all-save P k v m new old j w found = elim (Bool-cases (j == k)) [
    | inl here ↦
        let at_k : j ≡ k = (key.same_iff j k).0 here in
        let is_v : w ≡ v = ground (arith, may_load-save k j v m) in rw (at_k, is_v) new
    | inr other ↦ old j w other (ground (arith, may_load-save k j v m))
  ]

  pub length-save :
      (k : K) (v : V) (m : Map K V) → length (save k v m) ≡ length m + (if has k m then 0 else 1)
  unfolding may_load save has
  length-save k v [] = refl
  length-save k v ((i, w) ∷ m) = ground (arith, length-save k v m)
