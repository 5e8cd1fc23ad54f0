-- ===== src/Cw4/Total.antt =====
-- The total weight of a cw4-group and the weights of its members.
use cosmwasm_plus.Prelude.{
  ℕ, ◌+◌, ◌≡◌, ◌∙◌, refl, some, List, [], ◌∷◌, ok, nat_eq, arith, inl, inr, unwrap_or, u64_add,
  u64_sub, u64_mod, ◌<◌,
}
use cosmwasm_plus.Std.{Std}
use cosmwasm_plus.Storage.Laws.{sum, sum-save}
use cosmwasm_plus.Storage.Distinct.{IsDistinct, save-IsDistinct, remove-IsDistinct, sum-remove}
use cosmwasm_plus.Snapshot.{SnapshotMap, save, remove, may_load}
use cosmwasm_plus.Snapshot.Heights.{save-primary, remove-primary}
use cosmwasm_plus.Cw4.{
  State, Env, ExecuteMsg, Response, Member, MemberDiff, add_members, remove_members, execute,
}
use cosmwasm_plus.Cw4.Steps.{
  update_members_steps, execute-cases, add_members_steps, remove_members_steps,
}

-- A total of the weights in `members` and `excess` more, within u64.
abbrev pub IsTotal : ℕ → ℕ → SnapshotMap ℕ → Type 0
IsTotal excess total members =
    IsDistinct members.primary × (total ≡ sum members.primary + excess) × (total < u64_mod)

module _ ⦃api : Std⦄ where
  save-IsTotal :
      (excess total left total' k w height : ℕ) (members : SnapshotMap ℕ)
      → IsTotal excess total members
      → u64_sub total (unwrap_or 0 (may_load k members)) ≡ some left
      → u64_add left w ≡ some total'
      → IsTotal excess total' (save k w height members)
  unfolding may_load
  save-IsTotal excess total left total' k w height members (d, t, b) e e' =
      rw (save-primary k w height members) (
        save-IsDistinct k w members.primary d,
        ground (arith, sum-save k w members.primary),
        ground arith,
      )

  remove-IsTotal :
      (excess total total' k w height : ℕ) (members : SnapshotMap ℕ)
      → IsTotal excess total members
      → may_load k members ≡ some w
      → u64_sub total w ≡ some total'
      → IsTotal excess total' (remove k height members)
  unfolding may_load
  remove-IsTotal excess total total' k w height members (d, t, b) found e =
      rw (remove-primary k height members) (
        remove-IsDistinct k members.primary d,
        ground (arith, sum-remove k members.primary d),
        ground arith,
      )

  add_members-IsTotal :
      (excess height : ℕ) (add : List Member) (total : ℕ) (members : SnapshotMap ℕ) (total' : ℕ)
      (members' : SnapshotMap ℕ) (diffs : List MemberDiff)
      → IsTotal excess total members
      → add_members height add total members ≡ ok (total', members', diffs)
      → IsTotal excess total' members'
  unfolding add_members
  add_members-IsTotal excess height [] total members total' members' diffs t p =
      let same : total' ≡ total = ground arith in
      let same_members : members' ≡ members = ground arith in rw (same, same_members) t
  add_members-IsTotal excess height (a ∷ add) total members total' members' diffs t p =
      let (left, total1, rest, e1, e2, e3, _) = add_members_steps height a add total members p in
      add_members-IsTotal excess height add total1 (save a.addr a.weight height members) total'
        members' rest (save-IsTotal excess total left total1 a.addr a.weight height members t e1 e2)
        e3

  remove_members-IsTotal :
      (excess height : ℕ) (drop : List ℕ) (total : ℕ) (members : SnapshotMap ℕ) (total' : ℕ)
      (members' : SnapshotMap ℕ) (diffs : List MemberDiff)
      → IsTotal excess total members
      → remove_members height drop total members ≡ ok (total', members', diffs)
      → IsTotal excess total' members'
  unfolding remove_members
  remove_members-IsTotal excess height [] total members total' members' diffs t p =
      let same : total' ≡ total = ground arith in
      let same_members : members' ≡ members = ground arith in rw (same, same_members) t
  remove_members-IsTotal excess height (k ∷ drop) total members total' members' diffs t p =
      elim (remove_members_steps height k drop total members p) [
        | inl (_, e) ↦
            remove_members-IsTotal excess height drop total members total' members' diffs t e
        | inr (weight, total1, rest, found, e1, e2, _) ↦
            remove_members-IsTotal excess height drop total1 (remove k height members) total'
              members' rest (remove-IsTotal excess total total1 k weight height members t found e1)
              e2
      ]

  -- Every successful message keeps the total of the group the sum of the weights of its members and
  -- a fixed excess (none, for a group that was made of different addresses), and within u64.
  pub execute-IsTotal :
      (env : Env) (msg : ExecuteMsg) (excess total : ℕ) (s s' : State) {r : Response}
      → s.total ≡ some total
      → IsTotal excess total s.members
      → execute env msg s ≡ ok (s', r)
      → (total' : ℕ) × (s'.total ≡ some total') × IsTotal excess total' s'.members
  execute-IsTotal env msg excess total s s' stored t e = elim (execute-cases env msg s e).1 [
    | inl (same, same_members, _) ↦ (total, same ∙ stored, rw same_members t)
    | inr (add, drop, diff, done, _) ↦
        let (
          _,
          (total0, stored0, (total1, members1, added, e1, (total2, members2, removed, e2, e', _))),
        ) =
          update_members_steps env.block.height env.sender add drop s done in
        let is_total : total0 ≡ total = ground arith in
        let t1 =
          add_members-IsTotal excess env.block.height add total0 s.members total1 members1 added
            (rw is_total t) e1 in
        rw e' (
          total2,
          refl,
          remove_members-IsTotal excess env.block.height drop total1 members1 total2 members2
              removed t1 e2,
        )
  ]
