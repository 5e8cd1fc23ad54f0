-- ===== src/Cw4/Diffs.antt =====
-- The changes that cw4-group tells its hooks.
use cosmwasm_plus.Prelude.{
  ℕ, ◌≡◌, ◌∙◌, sym, ap, refl, Option, none, some, List, [], ◌∷◌, ◌++◌, ok, arith, inl, inr, ◌⊎◌,
  map, unwrap_or, if◌then◌else◌, ◌==◌, nat_eq,
}
use cosmwasm_plus.Std.{Std}
use cosmwasm_plus.Storage.Laws.{may_load-save, may_load-remove}
use cosmwasm_plus.Snapshot.{SnapshotMap, save, remove, may_load}
use cosmwasm_plus.Snapshot.Heights.{save-primary, remove-primary}
use cosmwasm_plus.Cw4.{
  State, Env, ExecuteMsg, Response, Member, MemberDiff, add_members, remove_members, execute,
}
use cosmwasm_plus.Cw4.Steps.{
  update_members_steps, execute-cases, add_members_steps, remove_members_steps,
}

-- The weight of `j` that a hook knows, after the diffs: it takes each one in turn.
abbrev pub replay : ℕ → List MemberDiff → Option ℕ → Option ℕ
replay j [] known = known
replay j (d ∷ diffs) known = replay j diffs (if j == d.key then d.new else known)

replay-append :
    (j : ℕ) (ds es : List MemberDiff) (known : Option ℕ)
    → replay j (ds ++ es) known ≡ replay j es (replay j ds known)
replay-append j [] es known = refl
replay-append j (d ∷ ds) es known = replay-append j ds es (if j == d.key then d.new else known)

saved_read :
    (k w now : ℕ) (s : SnapshotMap ℕ) (j : ℕ)
    → may_load j (save k w now s) ≡ (if j == k then some w else may_load j s)
unfolding may_load
saved_read k w now s j = rw (save-primary k w now s) (may_load-save k j w s.primary)

removed_read :
    (k now : ℕ) (s : SnapshotMap ℕ) (j : ℕ)
    → may_load j (remove k now s) ≡ (if j == k then none else may_load j s)
unfolding may_load
removed_read k now s j = rw (remove-primary k now s) (may_load-remove k j s.primary)

module _ ⦃api : Std⦄ where
  add_members-replay :
      (now : ℕ) (add : List Member) (total : ℕ) (members : SnapshotMap ℕ) (total' : ℕ)
      (members' : SnapshotMap ℕ) (diffs : List MemberDiff) (j : ℕ)
      → add_members now add total members ≡ ok (total', members', diffs)
      → replay j diffs (may_load j members) ≡ may_load j members'
  unfolding add_members
  add_members-replay now [] total members total' members' diffs j p =
      let same_members : members' ≡ members = ground arith in
      let nothing : diffs ≡ [] = ground arith in rw (same_members, nothing) refl
  add_members-replay now (a ∷ add) total members total' members' diffs j p =
      let (_, total1, rest, _, _, e, e') = add_members_steps now a add total members p in
      let further =
        add_members-replay now add total1 (save a.addr a.weight now members) total' members' rest j
          e in
      rw e' (ap (replay j rest) (sym (saved_read a.addr a.weight now members j)) ∙ further)

  remove_members-replay :
      (now : ℕ) (drop : List ℕ) (total : ℕ) (members : SnapshotMap ℕ) (total' : ℕ)
      (members' : SnapshotMap ℕ) (diffs : List MemberDiff) (j : ℕ)
      → remove_members now drop total members ≡ ok (total', members', diffs)
      → replay j diffs (may_load j members) ≡ may_load j members'
  unfolding remove_members
  remove_members-replay now [] total members total' members' diffs j p =
      let same_members : members' ≡ members = ground arith in
      let nothing : diffs ≡ [] = ground arith in rw (same_members, nothing) refl
  remove_members-replay now (k ∷ drop) total members total' members' diffs j p =
      elim (remove_members_steps now k drop total members p) [
        | inl (_, e) ↦ remove_members-replay now drop total members total' members' diffs j e
        | inr (_, total1, rest, _, _, e, e') ↦
            let further =
              remove_members-replay now drop total1 (remove k now members) total' members' rest j
                e in
            rw e' (ap (replay j rest) (sym (removed_read k now members j)) ∙ further)
      ]

  -- A message that succeeds either leaves the members and tells nobody, or tells each hook, in the
  -- order of the hooks, the same diffs, and these bring the weight of every address from what it was
  -- to what it is.
  pub execute_tells :
      (env : Env) (msg : ExecuteMsg) (s s' : State) (r : Response)
      → execute env msg s ≡ ok (s', r)
      → ((s'.members ≡ s.members) × (r ≡ []))
        ⊎ ((diff : List MemberDiff) × (r
              ≡ map (λ h. record { contract_addr = h; diffs = diff }) (unwrap_or [] s'.hooks))
            × ((j : ℕ) → replay j diff (may_load j s.members) ≡ may_load j s'.members))
  execute_tells env msg s s' r e = elim (execute-cases env msg s e).1 [
    | inl (_, same_members, silent) ↦ inl (same_members, silent)
    | inr (add, drop, diff, done, told) ↦
        let now = env.block.height in
        let (
          _,
          (total, _, (total1, members1, added, e1, (total2, members2, removed, e2, e', is_diff))),
        ) =
          update_members_steps env.block.height env.sender add drop s done in
        inr (
          diff,
          told,
          λ j.
              rw
                (
                  e',
                  is_diff,
                  replay-append j added removed (may_load j s.members),
                  add_members-replay now add total s.members total1 members1 added j e1,
                )
                (remove_members-replay now drop total1 members1 total2 members2 removed j e2),
        )
  ]
