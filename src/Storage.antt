-- ===== src/Storage.antt =====
-- `Map` and `Item` of packages/storage-plus/src/map.rs and item.rs, at the level of their typed
-- interface: a `Map` holds the pairs that were saved and not removed, each key once; an `Item`
-- holds one value or none. What is stored was serialised from the type, so it parses again.
pub mod Laws
pub mod Distinct
pub mod Repeats
pub mod Weights
pub mod Range
use cosmwasm_plus.Prelude.{
  Bool, true, false, Option, none, some, List, [], ◌∷◌, Outcome, ok, err, panic, ◌>>=◌, Key, ◌==◌,
  if◌then◌else◌,
}
use cosmwasm_plus.Std.{StdError, not_found}

abbrev pub Map : Type 0 → Type 0 → Type 0
Map K V = List (K × V)

abbrev pub Item : Type 0 → Type 0
Item V = Option V

module _ {K V : Type 0} ⦃key : Key K⦄ where
  unfoldable pub may_load : K → Map K V → Option V
  may_load k [] = none
  may_load k ((j, v) ∷ m) = if k == j then some v else may_load k m

  unfoldable pub has : K → Map K V → Bool
  unfolding may_load
  has k m = elim (may_load k m) [ none ↦ false | some _ ↦ true ]

  unfoldable pub save : K → V → Map K V → Map K V
  save k v [] = (k, v) ∷ []
  save k v ((j, w) ∷ m) = if k == j then (k, v) ∷ m else (j, w) ∷ save k v m

  unfoldable pub remove : K → Map K V → Map K V
  remove k [] = []
  remove k ((j, w) ∷ m) = let rest = remove k m in if k == j then rest else (j, w) ∷ rest

  unfoldable pub load : K → Map K V → Outcome StdError V
  unfolding may_load
  load k m = elim (may_load k m) [ none ↦ err not_found | some v ↦ ok v ]

  -- the saved value, and the map
  unfoldable pub update :
      {E : Type 0} → K → (Option V → Outcome E V) → Map K V → Outcome E (V × Map K V)
  unfolding may_load save
  update k action m = do output ← action (may_load k m); ok (output, save k output m)

-- `Item::load`
abbrev pub load_item : {V : Type 0} → Item V → Outcome StdError V
load_item none = err not_found
load_item (some v) = ok v
