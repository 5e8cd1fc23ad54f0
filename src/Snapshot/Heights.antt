-- ===== src/Snapshot/Heights.antt =====
-- Reads of the snapshot map at a height, before and after a write.
use cosmwasm_plus.Prelude.{
  ℕ, ◌≤◌, ◌<◌, ◌≡◌, refl, ◌&&◌, Option, none, some, ◌==◌, nat_eq, pair_eq, ltb, if◌then◌else◌,
  arith, Option-cases, sym, ◌⊎◌, inl, inr, Bool-cases, pair_beq, nat_beq_iff, pair_beq_iff,
}
use cosmwasm_plus.Storage
use cosmwasm_plus.Storage.{Map}
use cosmwasm_plus.Storage.Laws.{may_load-save, may_load-remove}
use cosmwasm_plus.Snapshot.{
  SnapshotMap, Strategy, first_since, save, remove, may_load, snapshot_at, write_change,
  should_checkpoint,
}
use cosmwasm_plus.Snapshot.Changelog.{first_since_stored, first_since-save, first_since_reaches}

module _ {V : Type 0} where
  -- A map that snapshots every block, and has no change later than `now`.
  pub record IsUpTo (now : ℕ) (s : SnapshotMap V) : Type 0 where
    pub every_block : s.strategy ≡ Strategy.every_block
    pub past : (k g : ℕ) (old : Option V) → Storage.may_load (k, g) s.changelog ≡ some old → g ≤ now

  pub later-IsUpTo :
      (now later : ℕ) (s : SnapshotMap V) → now ≤ later → IsUpTo now s → IsUpTo later s
  later-IsUpTo now later s h u = record {
    every_block = u.every_block;
    past = λ k g old e. omega (arith, u.past k g old e);
  }

  -- No change is found after `now`.
  first_since-none :
      (now : ℕ) (s : SnapshotMap V) (j h : ℕ)
      → IsUpTo now s
      → now < h
      → first_since j h s.changelog ≡ none
  first_since-none now s j h u after = elim (Option-cases (first_since j h s.changelog)) [
    | inl nothing ↦ nothing
    | inr ((g, old), found) ↦
        let (from, (w, stored)) = first_since_stored j h s.changelog g old found in
        absurd (omega (arith, u.past j g w stored))
  ]

  -- The map with a first change of `k` in block `now`.
  abbrev noted : ℕ → ℕ → SnapshotMap V → SnapshotMap V
  noted k now s = record s {
    changelog = Storage.save (k, now) (Storage.may_load k s.primary) s.changelog;
  }

  noted-IsUpTo : (k now : ℕ) (s : SnapshotMap V) → IsUpTo now s → IsUpTo now (noted k now s)
  noted-IsUpTo k now s u = record {
    every_block = u.every_block;
    past = λ j g old e. elim (Bool-cases (pair_beq (j, g) (k, now))) [
      | inl here ↦ ground (arith, pair_beq_iff (j, g) (k, now))
      | inr other ↦
          u.past j g old (
            ground
              (arith, may_load-save (k, now) (j, g) (Storage.may_load k s.primary) s.changelog))
    ];
  }

  -- The noted change is the last one, so a read up to `now` finds what it found before.
  noted_read :
      (k now : ℕ) (s : SnapshotMap V) (j h : ℕ)
      → IsUpTo now s
      → Storage.may_load (k, now) s.changelog ≡ none
      → snapshot_at j h (noted k now s) ≡ snapshot_at j h s
  unfolding snapshot_at
  noted_read k now s j h u fresh =
      let added = first_since-save k now j h (Storage.may_load k s.primary) s.changelog fresh in
      elim (Option-cases (first_since j h s.changelog)) [
        | inl nothing ↦ ground (arith, nat_beq_iff k j)
        | inr ((g, old), found) ↦
            let (from, (w, stored)) = first_since_stored j h s.changelog g old found in
            let bound = u.past j g w stored in ground (arith, nat_beq_iff k j)
      ]

  write_change-cases :
      (k now : ℕ) (s : SnapshotMap V)
      → ((old : Option V) × (Storage.may_load (k, now) s.changelog ≡ some old)
          × (write_change k now s ≡ s))
        ⊎ (Storage.may_load (k, now) s.changelog ≡ none) × (write_change k now s ≡ noted k now s)
  unfolding write_change
  write_change-cases k now s = elim (Option-cases (Storage.may_load (k, now) s.changelog)) [
    | inr (old, stored) ↦ inl (old, stored, rw (write_change, stored))
    | inl fresh ↦ inr (fresh, rw (write_change, fresh))
  ]

  pub write_change-IsUpTo :
      (k now : ℕ) (s : SnapshotMap V) → IsUpTo now s → IsUpTo now (write_change k now s)
  write_change-IsUpTo k now s u = elim (write_change-cases k now s) [
    | inl (_, _, same) ↦ rw same u
    | inr (_, is_noted) ↦ rw is_noted (noted-IsUpTo k now s u)
  ]

  pub write_change_read :
      (k now : ℕ) (s : SnapshotMap V) (j h : ℕ)
      → IsUpTo now s
      → snapshot_at j h (write_change k now s) ≡ snapshot_at j h s
  write_change_read k now s j h u = elim (write_change-cases k now s) [
    | inl (_, _, same) ↦ rw same
    | inr (fresh, is_noted) ↦ rw is_noted (noted_read k now s j h u fresh)
  ]

  pub write_change_reaches :
      (k now : ℕ) (s : SnapshotMap V) (h : ℕ)
      → h ≤ now
      → (first : ℕ × Option V) × (first_since k h (write_change k now s).changelog ≡ some first)
  write_change_reaches k now s h le = elim (write_change-cases k now s) [
    | inl (old, stored, same) ↦ rw same (first_since_reaches k now h s.changelog old stored le)
    | inr (fresh, is_noted) ↦ rw is_noted (
        first_since_reaches k now h (noted k now s).changelog (Storage.may_load k s.primary)
          (ground
            (arith, may_load-save (k, now) (k, now) (Storage.may_load k s.primary) s.changelog))
          le)
  ]

  pub write_change-primary :
      (k now : ℕ) (s : SnapshotMap V) → (write_change k now s).primary ≡ s.primary
  write_change-primary k now s = elim (write_change-cases k now s) [
    | inl (_, _, same) ↦ rw same refl
    | inr (_, is_noted) ↦ rw is_noted refl
  ]

  pub save-primary :
      (k : ℕ) (v : V) (now : ℕ) (s : SnapshotMap V)
      → (save k v now s).primary ≡ Storage.save k v s.primary
  unfolding save
  save-primary k v now s = elim (Bool-cases (should_checkpoint k s)) [
    | inl noting ↦ rw (noting, write_change-primary k now s) refl
    | inr skipped ↦ rw skipped refl
  ]

  pub remove-primary :
      (k now : ℕ) (s : SnapshotMap V) → (remove k now s).primary ≡ Storage.remove k s.primary
  unfolding remove
  remove-primary k now s = elim (Bool-cases (should_checkpoint k s)) [
    | inl noting ↦ rw (noting, write_change-primary k now s) refl
    | inr skipped ↦ rw skipped refl
  ]

  -- When the value of `k` changes with a change noted, reads up to `now` find the change.
  replaced_read :
      (k : ℕ) (o : Option V) (now : ℕ) (t : SnapshotMap V) (p : Map ℕ V) (j h : ℕ)
      → IsUpTo now t
      → (Storage.may_load j p ≡ (if j == k then o else Storage.may_load j t.primary))
      → (h ≤ now → (first : ℕ × Option V) × (first_since k h t.changelog ≡ some first))
      → snapshot_at j h (record t { primary = p })
        ≡ (if k == j && ltb now h then o else snapshot_at j h t)
  unfolding snapshot_at
  replaced_read k o now t p j h u reads reaches = elim (Bool-cases (ltb now h)) [
    | inl after ↦
        let nothing = first_since-none now t j h u (ground arith) in
        ground (arith, nat_beq_iff k j, nat_beq_iff j k)
    | inr before ↦
        let (first, found) = reaches (ground arith) in
        ground (arith, nat_beq_iff k j, nat_beq_iff j k)
  ]

  replaced_reads :
      (k : ℕ) (o : Option V) (now : ℕ) (s : SnapshotMap V) (p : Map ℕ V)
      → IsUpTo now s
      → ((j : ℕ)
          → Storage.may_load j p
            ≡ (if j == k then o else Storage.may_load j (write_change k now s).primary))
      → IsUpTo now (record (write_change k now s) { primary = p })
        × ((j h : ℕ)
            → snapshot_at j h (record (write_change k now s) { primary = p })
              ≡ (if k == j && ltb now h then o else snapshot_at j h s))
  replaced_reads k o now s p u reads =
      let t = write_change-IsUpTo k now s u in
      (
        record { every_block = t.every_block; past = t.past },
        λ j h. rw (sym (write_change_read k now s j h u)) (
            replaced_read k o now (write_change k now s) p j h t (reads j)
              (write_change_reaches k now s h)),
      )

  save-eq :
      (k : ℕ) (v : V) (now : ℕ) (s : SnapshotMap V)
      → IsUpTo now s
      → save k v now s ≡ record (write_change k now s) {
        primary = Storage.save k v (write_change k now s).primary;
      }
  unfolding save
  save-eq k v now s u = rw u.every_block refl

  remove-eq :
      (k now : ℕ) (s : SnapshotMap V)
      → IsUpTo now s
      → remove k now s ≡ record (write_change k now s) {
        primary = Storage.remove k (write_change k now s).primary;
      }
  unfolding remove
  remove-eq k now s u = rw u.every_block refl

  -- In a map that snapshots every block and has no later change than the block `now`, saving a
  -- value in the block leaves every read at a height up to `now` as it was, and a read at a later
  -- height gives the value for its key and what it gave for other keys. The map still snapshots
  -- every block and has no later change.
  pub snapshot_at-save :
      (k : ℕ) (v : V) (now : ℕ) (s : SnapshotMap V)
      → IsUpTo now s
      → IsUpTo now (save k v now s)
        × ((j h : ℕ)
            → snapshot_at j h (save k v now s)
              ≡ (if k == j && ltb now h then some v else snapshot_at j h s))
  snapshot_at-save k v now s u = rw (save-eq k v now s u) (
      replaced_reads k (some v) now s (Storage.save k v (write_change k now s).primary) u
        (λ j. may_load-save k j v (write_change k now s).primary))

  -- The same of a removal: it leaves every read at a height up to the block, and a read at a later
  -- height gives nothing for the key that was removed.
  pub snapshot_at-remove :
      (k now : ℕ) (s : SnapshotMap V)
      → IsUpTo now s
      → IsUpTo now (remove k now s)
        × ((j h : ℕ)
            → snapshot_at j h (remove k now s)
              ≡ (if k == j && ltb now h then none else snapshot_at j h s))
  snapshot_at-remove k now s u = rw (remove-eq k now s u) (
      replaced_reads k none now s (Storage.remove k (write_change k now s).primary) u
        (λ j. may_load-remove k j (write_change k now s).primary))

  -- In a map that snapshots every block, a read at a height after its last change gives the
  -- present value.
  pub snapshot_at-may_load :
      (now : ℕ) (s : SnapshotMap V) (j h : ℕ)
      → IsUpTo now s
      → now < h
      → snapshot_at j h s ≡ may_load j s
  unfolding snapshot_at may_load
  snapshot_at-may_load now s j h u after =
      let nothing = first_since-none now s j h u after in ground arith
