-- ===== src/Stake/Past.antt =====
-- What cw4-stake answers for a past height.
use cosmwasm_plus.Prelude.{ℕ, ◌≡◌, ◌≤◌, refl, Option, none, some, List, ok, inl, inr, nat_eq}
use cosmwasm_plus.Std.{Std}
use cosmwasm_plus.Storage
use cosmwasm_plus.Snapshot.{SnapshotMap}
use cosmwasm_plus.Snapshot.Heights.{IsUpTo, later-IsUpTo}
use cosmwasm_plus.Cw4.{HookMsg}
use cosmwasm_plus.Cw4.Past.{KeepsPast, save-KeepsPast, remove-KeepsPast}
use cosmwasm_plus.Stake.{Config, State, Env, ExecuteMsg, Response, set_member, execute}
use cosmwasm_plus.Stake.Steps.{Follows, bond_steps, unbond_steps, claim_steps, bonds, execute-cases}

set_member-KeepsPast :
    (k : ℕ) (new : Option ℕ) (now : ℕ) (s t : SnapshotMap ℕ)
    → KeepsPast now s t
    → KeepsPast now s (set_member k new now t)
set_member-KeepsPast k none now s t keeps = remove-KeepsPast k now s t keeps
set_member-KeepsPast k (some w) now s t keeps = save-KeepsPast k w now s t keeps

Follows-KeepsPast :
    (sender new_stake : ℕ) (cfg : Config) (now : ℕ) (s s' : State) (calls : List HookMsg)
    → KeepsPast now s.members s.members
    → Follows sender new_stake cfg now s s' calls
    → KeepsPast now s.members s'.members
Follows-KeepsPast sender new_stake cfg now s s' calls start (new, _, change) = elim change [
  | inl (_, same, _) ↦ rw same start
  | inr (total, total', _, _, _, made, _) ↦
      rw made (set_member-KeepsPast sender new now s.members s.members start)
]

module _ ⦃api : Std⦄ where
  -- A message that succeeds in a block, on members that last changed in the block or before, leaves
  -- the weight of every address at every height up to the block as it was, and the members have no
  -- change after the block.
  pub old_reads_stay :
      (env : Env) (msg : ExecuteMsg) (last : ℕ) (s s' : State) (r : Response)
      → IsUpTo last s.members
      → last ≤ env.block.height
      → execute env msg s ≡ ok (s', r)
      → KeepsPast env.block.height s.members s'.members
  old_reads_stay env msg last s s' r u le p =
      let start : KeepsPast env.block.height s.members s.members =
        (later-IsUpTo last env.block.height s.members le u, λ j h _. refl) in
      elim (execute-cases env msg s s' r p) [
        | inl (_, (_, _, _, _, same_members, _)) ↦ rw same_members start
        | inr (inl (sender, e)) ↦
            let (cfg, _, new_stake, _, _, _, _, follows) =
              bond_steps env.block (bonds env msg) sender s s' r e in
            Follows-KeepsPast sender new_stake cfg env.block.height
              (record s { stake = Storage.save sender new_stake s.stake }) s' r.calls start follows
        | inr (inr (inl (tokens, _, e))) ↦
            let (cfg, new_stake, _, claims, _, _, _, _, _, follows) =
              unbond_steps env tokens s s' r e in
            Follows-KeepsPast env.sender new_stake cfg env.block.height
              (record s { stake = Storage.save env.sender new_stake s.stake; claims = claims }) s'
              r.calls start follows
        | inr (inr (inr (_, e))) ↦
            let (_, _, _, _, _, _, made, _) = claim_steps env s s' r e in rw made start
      ]
