-- ===== src/Snapshot.antt =====
-- `SnapshotMap` of packages/storage-plus/src/snapshot.rs over addresses: a map that remembers the
-- values that it held at the start of earlier blocks.
pub mod Changelog
pub mod Heights
mod Tests
use cosmwasm_plus.Prelude.{
  ℕ, Bool, true, false, not, ◌&&◌, Option, none, some, List, [], ◌∷◌, Outcome, ok, err, panic,
  ◌>>=◌, ◌>>◌, fail_if, or_panic, ◌==◌, nat_eq, pair_eq, leb, ltb, if◌then◌else◌, unwrap_or,
  u64_add, ◌-◌,
}
use cosmwasm_plus.Std.{StdError, not_found}
use cosmwasm_plus.Storage
use cosmwasm_plus.Storage.{Map}

pub data Strategy : Type 0 where
  every_block never_snapshot selected : Strategy

-- `primary`, `checkpoints` (how often each height is registered) and `changelog` (by address and
-- height, the old value of a `ChangeSet`)
pub record SnapshotMap (V : Type 0) : Type 0 where
  pub primary : Map ℕ V
  pub checkpoints : Map ℕ ℕ
  pub changelog : Map (ℕ × ℕ) (Option V)
  pub strategy : Strategy

-- the snapshot that comes first: `rest` is the one found further on
abbrev pub earlier {ℓ} : {A : Type ℓ} → ℕ → A → Option (ℕ × A) → Option (ℕ × A)
earlier g old none = some (g, old)
earlier g old (some (g', old')) = if leb g g' then some (g, old) else some (g', old')

-- `changelog.prefix(k).range(start.., Ascending).next()`: the change of `k` at the lowest height
-- from `start` on
unfoldable pub first_since : {V : Type 0} → ℕ → ℕ → Map (ℕ × ℕ) V → Option (ℕ × V)
first_since k start [] = none
first_since k start (((j, g), old) ∷ m) =
    let rest = first_since k start m in if j == k && leb start g then earlier g old rest else rest

-- `checkpoints.range(Descending).next()`: the highest registered height
unfoldable pub last_checkpoint : Map ℕ ℕ → Option ℕ
last_checkpoint [] = none
last_checkpoint ((h, count) ∷ m) =
    let rest = last_checkpoint m in
    elim rest [ none ↦ some h | some h' ↦ if leb h h' then some h' else some h ]

abbrev is_none : {A : Type 0} → Option A → Bool
is_none none = true
is_none (some _) = false

module _ {V : Type 0} where
  unfoldable pub add_checkpoint : ℕ → SnapshotMap V → Option (SnapshotMap V)
  add_checkpoint height s = elim (u64_add (unwrap_or 0 (Storage.may_load height s.checkpoints)) 1) [
    | none ↦ none
    | some count ↦ some (record s { checkpoints = Storage.save height count s.checkpoints })
  ]

  unfoldable pub remove_checkpoint : ℕ → SnapshotMap V → SnapshotMap V
  remove_checkpoint height s =
      let count = unwrap_or 0 (Storage.may_load height s.checkpoints) in
      if leb count 1
      then record s { checkpoints = Storage.remove height s.checkpoints }
      else record s { checkpoints = Storage.save height (count - 1) s.checkpoints }

  unfoldable pub should_checkpoint_selected : ℕ → SnapshotMap V → Bool
  should_checkpoint_selected k s = elim (last_checkpoint s.checkpoints) [
    | none ↦ false
    | some height ↦ is_none (first_since k height s.changelog)
  ]

  abbrev by_strategy : Strategy → ℕ → SnapshotMap V → Bool
  by_strategy Strategy.every_block k s = true
  by_strategy Strategy.never_snapshot k s = false
  by_strategy Strategy.selected k s = should_checkpoint_selected k s

  abbrev pub should_checkpoint : ℕ → SnapshotMap V → Bool
  should_checkpoint k s = by_strategy s.strategy k s

  unfoldable pub write_change : ℕ → ℕ → SnapshotMap V → SnapshotMap V
  write_change k height s = elim (Storage.may_load (k, height) s.changelog) [
    | some _ ↦ s
    | none ↦ record s {
      changelog = Storage.save (k, height) (Storage.may_load k s.primary) s.changelog;
    }
  ]

  unfoldable pub save : ℕ → V → ℕ → SnapshotMap V → SnapshotMap V
  unfolding write_change
  save k v height s =
      let s' = if should_checkpoint k s then write_change k height s else s in
      record s' { primary = Storage.save k v s'.primary }

  unfoldable pub remove : ℕ → ℕ → SnapshotMap V → SnapshotMap V
  unfolding write_change
  remove k height s =
      let s' = if should_checkpoint k s then write_change k height s else s in
      record s' { primary = Storage.remove k s'.primary }

  unfoldable pub may_load : ℕ → SnapshotMap V → Option V
  may_load k s = Storage.may_load k s.primary

  unfoldable pub load : ℕ → SnapshotMap V → Outcome StdError V
  load k s = Storage.load k s.primary

  -- the test of `assert_checkpointed`
  abbrev has_checkpoint : Strategy → ℕ → SnapshotMap V → Bool
  has_checkpoint Strategy.every_block height s = true
  has_checkpoint Strategy.never_snapshot height s = false
  has_checkpoint Strategy.selected height s = not (is_none (Storage.may_load height s.checkpoints))

  abbrev pub assert_checkpointed : ℕ → SnapshotMap V → Outcome StdError (Unit {0})
  assert_checkpointed height s = fail_if (not (has_checkpoint s.strategy height s)) not_found

  -- the value at a height that is checkpointed
  unfoldable pub snapshot_at : ℕ → ℕ → SnapshotMap V → Option V
  snapshot_at k height s = elim (first_since k height s.changelog) [
    | none ↦ Storage.may_load k s.primary
    | some (_, old) ↦ old
  ]

  unfoldable pub may_load_at_height : ℕ → ℕ → SnapshotMap V → Outcome StdError (Option V)
  unfolding snapshot_at
  may_load_at_height k height s = do assert_checkpointed height s; ok (snapshot_at k height s)

  -- the saved value, and the map
  unfoldable pub update :
      {E : Type 0}
      → ℕ
      → ℕ
      → (Option V → Outcome E V)
      → SnapshotMap V
      → Outcome E (V × SnapshotMap V)
  unfolding may_load save
  update k height action s = do output ← action (may_load k s); ok (output, save k output height s)
