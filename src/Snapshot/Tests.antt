-- ===== src/Snapshot/Tests.antt =====
-- A map of two blocks: address 7 is set in block 5, again in block 9, and read before and after.
use cosmwasm_plus.Prelude.{ℕ, ◌≡◌, refl, none, some, [], ok, nat_eq}
use cosmwasm_plus.Snapshot.{
  SnapshotMap, Strategy, first_since, save, remove, snapshot_at, may_load_at_height, write_change,
  last_checkpoint, should_checkpoint_selected,
}
use cosmwasm_plus.Storage
use cosmwasm_plus.Snapshot.Heights.{IsUpTo}

abbrev empty : SnapshotMap ℕ
empty = record { primary = []; checkpoints = []; changelog = []; strategy = Strategy.every_block }

abbrev written : SnapshotMap ℕ
unfolding save remove write_change
written = remove 8 9 (save 7 30 9 (save 8 4 5 (save 7 20 5 empty)))

before_test : snapshot_at 7 5 written ≡ none
unfolding save remove write_change snapshot_at Storage.save Storage.remove Storage.may_load
    first_since
before_test = refl

between_test : snapshot_at 7 6 written ≡ some 20
unfolding save remove write_change snapshot_at Storage.save Storage.remove Storage.may_load
    first_since
between_test = refl

at_change_test : may_load_at_height 8 9 written ≡ ok (some 4)
unfolding save remove write_change may_load_at_height Storage.save Storage.remove Storage.may_load
    first_since
at_change_test = refl

removed_test : snapshot_at 8 10 written ≡ none
unfolding save remove write_change snapshot_at Storage.save Storage.remove Storage.may_load
    first_since
removed_test = refl

-- With selected heights a change is noted only after a checkpoint.
selected_test :
    snapshot_at 7 5 (save 7 30 9 (save 7 20 5 (record empty { strategy = Strategy.selected })))
    ≡ some 30
unfolding save write_change snapshot_at Storage.save Storage.may_load first_since last_checkpoint
    should_checkpoint_selected
selected_test = refl

empty-IsUpTo : IsUpTo 9 empty
unfolding Storage.may_load
empty-IsUpTo = record { every_block = refl; past = λ k g old e. cc }
