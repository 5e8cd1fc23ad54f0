-- ===== src/Indexed/Laws.antt =====
-- The index of an `IndexedMap` lists the entries by their number.
use cosmwasm_plus.Prelude.{
  ℕ, ◌≡◌, refl, Bool, true, false, ◌&&◌, Option, none, some, List, [], ◌∷◌, ◌==◌, nat_eq, pair_eq,
  arith, Option-cases, inl, inr, nat_beq_iff, pair_beq_iff, map, ◌||◌,
}
use cosmwasm_plus.Storage
use cosmwasm_plus.Storage.{Map}
use cosmwasm_plus.Storage.Laws.{may_load-save, may_load-remove}
use cosmwasm_plus.Storage.Distinct.{IsDistinct, save-IsDistinct, remove-IsDistinct}
use cosmwasm_plus.Storage.Range.{nat_order, Order, range, prefix, within}
use cosmwasm_plus.Storage.Range.Pages.{range_lists, load-prefix, prefix-IsDistinct}
use cosmwasm_plus.Indexed.{
  IndexedMap, may_load, index_save, index_remove, replace, save, remove, pks,
}

abbrev pub is_some : {A : Type 0} → Option A → Bool
is_some none = false
is_some (some _) = true

-- whether a number is in a list
abbrev pub listed : ℕ → List ℕ → Bool
listed k [] = false
listed k (j ∷ rest) = k == j || listed k rest

listed-keys :
    (k : ℕ) (l : Map ℕ (Unit {0})) → listed k (map (λ e. e.0) l) ≡ is_some (Storage.may_load k l)
unfolding Storage.may_load
listed-keys k [] = refl
listed-keys k ((j, v) ∷ l) = ground (arith, listed-keys k l)

module _ {V : Type 0} (index : V → ℕ) where
  -- whether an entry has a number
  abbrev pub numbered : ℕ → Option V → Bool
  numbered i none = false
  numbered i (some v) = index v == i

  -- The index has exactly the keys of the stored entries, each under its number, and no key is
  -- stored twice.
  pub record IsIndexed (s : IndexedMap V) : Type 0 where
    pub distinct : IsDistinct s.primary
    pub distinct_keys : IsDistinct s.idx_map
    pub indexed :
        (i k : ℕ)
        → is_some (Storage.may_load (i, k) s.idx_map) ≡ numbered i (Storage.may_load k s.primary)

  -- An entry that is replaced by another or by none, where the old value is the stored one.
  pub replace-IsIndexed :
      (key : ℕ) (new_data : Option V) (s : IndexedMap V)
      → IsIndexed s
      → IsIndexed (replace index key new_data (Storage.may_load key s.primary) s)
  unfolding replace index_save index_remove
  replace-IsIndexed key none s x = elim (Option-cases (Storage.may_load key s.primary)) [
    | inl fresh ↦ rw fresh (record {
      distinct = remove-IsDistinct key s.primary x.distinct;
      distinct_keys = x.distinct_keys;
      indexed =
          λ i k. ground (arith, x.indexed i k, nat_beq_iff k key, may_load-remove key k s.primary);
    })
    | inr (old, stored) ↦ rw stored (record {
      distinct = remove-IsDistinct key s.primary x.distinct;
      distinct_keys = remove-IsDistinct (index old, key) s.idx_map x.distinct_keys;
      indexed = λ i k. ground (
        arith,
        x.indexed i k,
        nat_beq_iff k key,
        may_load-remove key k s.primary,
        may_load-remove (index old, key) (i, k) s.idx_map,
        pair_beq_iff (i, k) (index old, key),
        nat_beq_iff (index old) i,
      );
    })
  ]
  replace-IsIndexed key (some v) s x = elim (Option-cases (Storage.may_load key s.primary)) [
    | inl fresh ↦ rw fresh (record {
      distinct = save-IsDistinct key v s.primary x.distinct;
      distinct_keys = save-IsDistinct (index v, key) tt s.idx_map x.distinct_keys;
      indexed = λ i k. ground (
        arith,
        x.indexed i k,
        nat_beq_iff k key,
        may_load-save key k v s.primary,
        may_load-save (index v, key) (i, k) tt s.idx_map,
        nat_beq_iff (index v) i,
        nat_beq_iff i (index v),
      );
    })
    | inr (old, stored) ↦ rw stored (record {
      distinct = save-IsDistinct key v s.primary x.distinct;
      distinct_keys =
          save-IsDistinct (index v, key) tt (Storage.remove (index old, key) s.idx_map)
            (remove-IsDistinct (index old, key) s.idx_map x.distinct_keys);
      indexed = λ i k. ground (
        arith,
        x.indexed i k,
        nat_beq_iff k key,
        may_load-save key k v s.primary,
        may_load-save (index v, key) (i, k) tt (Storage.remove (index old, key) s.idx_map),
        may_load-remove (index old, key) (i, k) s.idx_map,
        nat_beq_iff (index v) i,
        nat_beq_iff i (index v),
        nat_beq_iff i (index old),
        nat_beq_iff (index old) i,
      );
    })
  ]

  pub save-IsIndexed :
      (key : ℕ) (v : V) (s : IndexedMap V) → IsIndexed s → IsIndexed (save index key v s)
  unfolding save may_load
  save-IsIndexed key v s x = replace-IsIndexed key (some v) s x

  pub remove-IsIndexed : (key : ℕ) (s : IndexedMap V) → IsIndexed s → IsIndexed (remove index key s)
  unfolding remove may_load
  remove-IsIndexed key s x = replace-IsIndexed key none s x

  -- In a map whose index is right, the keys that the index lists for a number, after a bound, are
  -- exactly the keys after the bound whose entry has the number.
  pub pks_lists :
      (i k : ℕ) (min : Option ℕ) (s : IndexedMap V)
      → IsIndexed s
      → listed k (pks i min s) ≡ (within min none k && numbered i (Storage.may_load k s.primary))
  unfolding pks
  pks_lists i k min s x =
      let (_, loads) =
        range_lists min none (prefix i s.idx_map) (prefix-IsDistinct i s.idx_map x.distinct_keys) in
      ground (
        arith,
        listed-keys k (range min none Order.ascending (prefix i s.idx_map)),
        loads k,
        load-prefix i k s.idx_map,
        x.indexed i k,
      )
