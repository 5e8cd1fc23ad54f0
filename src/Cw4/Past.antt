-- ===== src/Cw4/Past.antt =====
-- What cw4-group answers for a past height, which cw3-flex-multisig takes as the voting power.
use cosmwasm_plus.Prelude.{ℕ, ◌≡◌, ◌≤◌, refl, List, [], ◌∷◌, ok, arith, inl, inr, nat_eq}
use cosmwasm_plus.Std.{Std}
use cosmwasm_plus.Snapshot.{SnapshotMap, save, remove, snapshot_at}
use cosmwasm_plus.Snapshot.Heights.{IsUpTo, later-IsUpTo, snapshot_at-save, snapshot_at-remove}
use cosmwasm_plus.Cw4.{
  State, Env, ExecuteMsg, Response, Member, MemberDiff, add_members, remove_members, execute,
}
use cosmwasm_plus.Cw4.Steps.{
  update_members_steps, execute-cases, add_members_steps, remove_members_steps,
}

-- From `s` to `t` no read at a height up to `now` changes, and `t` has no change after `now`.
abbrev pub KeepsPast : ℕ → SnapshotMap ℕ → SnapshotMap ℕ → Type 0
KeepsPast now s t = IsUpTo now t × ((j h : ℕ) → h ≤ now → snapshot_at j h t ≡ snapshot_at j h s)

pub save-KeepsPast :
    (k w now : ℕ) (s t : SnapshotMap ℕ) → KeepsPast now s t → KeepsPast now s (save k w now t)
save-KeepsPast k w now s t (u, keeps) =
    let (u', reads) = snapshot_at-save k w now t u in
    (u', λ j h le. ground (arith, reads j h, keeps j h le))

pub remove-KeepsPast :
    (k now : ℕ) (s t : SnapshotMap ℕ) → KeepsPast now s t → KeepsPast now s (remove k now t)
remove-KeepsPast k now s t (u, keeps) =
    let (u', reads) = snapshot_at-remove k now t u in
    (u', λ j h le. ground (arith, reads j h, keeps j h le))

module _ ⦃api : Std⦄ where
  add_members-KeepsPast :
      (now : ℕ) (s : SnapshotMap ℕ) (add : List Member) (total : ℕ) (members : SnapshotMap ℕ)
      (total' : ℕ) (members' : SnapshotMap ℕ) (diffs : List MemberDiff)
      → KeepsPast now s members
      → add_members now add total members ≡ ok (total', members', diffs)
      → KeepsPast now s members'
  unfolding add_members
  add_members-KeepsPast now s [] total members total' members' diffs t p =
      let same_members : members' ≡ members = ground arith in rw same_members t
  add_members-KeepsPast now s (a ∷ add) total members total' members' diffs t p =
      let (_, total1, rest, _, _, e, _) = add_members_steps now a add total members p in
      add_members-KeepsPast now s add total1 (save a.addr a.weight now members) total' members' rest
        (save-KeepsPast a.addr a.weight now s members t) e

  remove_members-KeepsPast :
      (now : ℕ) (s : SnapshotMap ℕ) (drop : List ℕ) (total : ℕ) (members : SnapshotMap ℕ)
      (total' : ℕ) (members' : SnapshotMap ℕ) (diffs : List MemberDiff)
      → KeepsPast now s members
      → remove_members now drop total members ≡ ok (total', members', diffs)
      → KeepsPast now s members'
  unfolding remove_members
  remove_members-KeepsPast now s [] total members total' members' diffs t p =
      let same_members : members' ≡ members = ground arith in rw same_members t
  remove_members-KeepsPast now s (k ∷ drop) total members total' members' diffs t p =
      elim (remove_members_steps now k drop total members p) [
        | inl (_, e) ↦ remove_members-KeepsPast now s drop total members total' members' diffs t e
        | inr (_, total1, rest, _, _, e, _) ↦
            remove_members-KeepsPast now s drop total1 (remove k now members) total' members' rest
              (remove-KeepsPast k now s members t) e
      ]

  -- A message that succeeds in a block, in a group whose members last changed in the block or
  -- before, leaves the weight of every address at every height up to the block as it was, and the
  -- members have no change after the block.
  pub execute-KeepsPast :
      (env : Env) (msg : ExecuteMsg) (last : ℕ) (s s' : State) {r : Response}
      → IsUpTo last s.members
      → last ≤ env.block.height
      → execute env msg s ≡ ok (s', r)
      → KeepsPast env.block.height s.members s'.members
  execute-KeepsPast env msg last s s' u le e =
      let start : KeepsPast env.block.height s.members s.members =
        (later-IsUpTo last env.block.height s.members le u, λ j h _. refl) in
      elim (execute-cases env msg s e).1 [
        | inl (_, same_members, _) ↦ rw same_members start
        | inr (add, drop, diff, done, _) ↦
            let (
              _,
              (total, _, (total1, members1, added, e1, (total2, members2, removed, e2, e', _))),
            ) =
              update_members_steps env.block.height env.sender add drop s done in
            rw e' (
              remove_members-KeepsPast env.block.height s.members drop total1 members1 total2
                members2 removed
                (add_members-KeepsPast env.block.height s.members add total s.members total1
                  members1 added start e1)
                e2)
      ]
