-- ===== src/Indexed.antt =====
-- `IndexedMap` of packages/storage-plus/src/indexed_map.rs with one `MultiIndex` of indexes.rs: a
-- map whose entries can also be listed by a number of their value. The index stores a key of the
-- value's number and the primary key; the length that it stores with the key serves to find the
-- primary key in the flat bytes, and is left out.
pub mod Laws
use cosmwasm_plus.Prelude.{
  ℕ, Option, none, some, List, [], ◌∷◌, Outcome, ok, err, panic, ◌>>=◌, nat_eq, pair_eq, map,
}
use cosmwasm_plus.Std.{StdError}
use cosmwasm_plus.Storage
use cosmwasm_plus.Storage.{Map}
use cosmwasm_plus.Storage.Range.{nat_order, Order, range, prefix}

pub record IndexedMap (V : Type 0) : Type 0 where
  pub primary : Map ℕ V
  pub idx_map : Map (ℕ × ℕ) (Unit {0})

module _ {V : Type 0} where
  unfoldable pub may_load : ℕ → IndexedMap V → Option V
  may_load k s = Storage.may_load k s.primary

  unfoldable pub load : ℕ → IndexedMap V → Outcome StdError V
  unfolding Storage.load
  load k s = Storage.load k s.primary

  -- `pks`: the primary keys of the entries with a number, after `min`
  unfoldable pub pks : ℕ → Option ℕ → IndexedMap V → List ℕ
  pks i min s = map (λ e. e.0) (range min none Order.ascending (prefix i s.idx_map))

module _ {V : Type 0} (index : V → ℕ) where
  -- `MultiIndex::save` and `MultiIndex::remove`
  unfoldable pub index_save : ℕ → V → Map (ℕ × ℕ) (Unit {0}) → Map (ℕ × ℕ) (Unit {0})
  index_save pk new_data m = Storage.save (index new_data, pk) tt m

  unfoldable pub index_remove : ℕ → V → Map (ℕ × ℕ) (Unit {0}) → Map (ℕ × ℕ) (Unit {0})
  index_remove pk old_data m = Storage.remove (index old_data, pk) m

  abbrev forget : ℕ → Option V → Map (ℕ × ℕ) (Unit {0}) → Map (ℕ × ℕ) (Unit {0})
  forget key none m = m
  forget key (some old) m = index_remove key old m

  unfoldable pub replace : ℕ → Option V → Option V → IndexedMap V → IndexedMap V
  unfolding index_save
  replace key none old_data s = record {
    primary = Storage.remove key s.primary;
    idx_map = forget key old_data s.idx_map;
  }
  replace key (some new_data) old_data s = record {
    primary = Storage.save key new_data s.primary;
    idx_map = index_save key new_data (forget key old_data s.idx_map);
  }

  unfoldable pub save : ℕ → V → IndexedMap V → IndexedMap V
  unfolding replace
  save key new_data s = replace key (some new_data) (may_load key s) s

  unfoldable pub remove : ℕ → IndexedMap V → IndexedMap V
  unfolding replace
  remove key s = replace key none (may_load key s) s

  unfoldable pub update :
      {E : Type 0} → ℕ → (Option V → Outcome E V) → IndexedMap V → Outcome E (V × IndexedMap V)
  unfolding replace
  update key action s = do
    output ← action (may_load key s)
    ok (output, replace key (some output) (may_load key s) s)
