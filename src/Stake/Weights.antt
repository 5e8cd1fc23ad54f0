-- ===== src/Stake/Weights.antt =====
-- The weights of the members of cw4-stake, their total, and the stakes that they follow.
use cosmwasm_plus.Prelude.{
  ℕ, ◌+◌, ◌<◌, ◌≤◌, ◌≡◌, refl, Option, none, some, List, ok, ◌==◌, nat_eq, arith, unwrap_or, inl,
  inr, if◌then◌else◌, u64_mod, ◌∙◌, Bool-cases, nat_beq_iff, sym, ap, ◌↔◌, ◌/◌, ◌%◌,
}
use cosmwasm_plus.Std.{Std}
use cosmwasm_plus.Storage
use cosmwasm_plus.Storage.Laws.{
  sum, sum-save, balance_of, balance_of-save, may_load-save, may_load-remove,
}
use cosmwasm_plus.Storage.Distinct.{IsDistinct, save-IsDistinct, remove-IsDistinct, sum-remove}
use cosmwasm_plus.Snapshot.{SnapshotMap, may_load}
use cosmwasm_plus.Snapshot.Heights.{save-primary, remove-primary}
use cosmwasm_plus.Cw4.{HookMsg}
use cosmwasm_plus.Stake.{Config, State, Env, ExecuteMsg, Response, calc_weight, set_member, execute}
use cosmwasm_plus.Stake.Steps.{Follows, bond_steps, unbond_steps, claim_steps, bonds, execute-cases}

set_member_read :
    (k : ℕ) (new : Option ℕ) (now j : ℕ) (t : SnapshotMap ℕ)
    → may_load j (set_member k new now t) ≡ (if j == k then new else may_load j t)
unfolding may_load
set_member_read k none now j t = rw (remove-primary k now t) (may_load-remove k j t.primary)
set_member_read k (some w) now j t = rw (save-primary k w now t) (may_load-save k j w t.primary)

set_member-sum :
    (k : ℕ) (new : Option ℕ) (now : ℕ) (t : SnapshotMap ℕ)
    → IsDistinct t.primary
    → IsDistinct (set_member k new now t).primary
      × (sum (set_member k new now t).primary + unwrap_or 0 (may_load k t)
          ≡ sum t.primary + unwrap_or 0 new)
unfolding may_load
set_member-sum k none now t d =
    rw (remove-primary k now t)
      (remove-IsDistinct k t.primary d, ground (arith, sum-remove k t.primary d))
set_member-sum k (some w) now t d =
    rw (save-primary k w now t) (save-IsDistinct k w t.primary d, sum-save k w t.primary)

-- Every address has the weight of its stake (none, below the minimal bond), and the total is the sum
-- of the weights, within u64. Each member is stored once.
pub record IsInStep (cfg : Config) (s : State) : Type 0 where
  pub positive : 1 ≤ cfg.min_bond
  pub stored : s.config ≡ some cfg
  pub distinct : IsDistinct s.members.primary
  pub total_of : s.total ≡ some (sum s.members.primary)
  pub fits : sum s.members.primary < u64_mod
  pub weighs : (a : ℕ) → calc_weight (balance_of a s.stake) cfg ≡ some (may_load a s.members)

weighs_after :
    (sender new_stake : ℕ) (cfg : Config) (s : State) (new : Option ℕ) (m : SnapshotMap ℕ)
    → IsInStep cfg s
    → calc_weight new_stake cfg ≡ some new
    → ((j : ℕ) → may_load j m ≡ (if j == sender then new else may_load j s.members))
    → (a : ℕ)
    → calc_weight (balance_of a (Storage.save sender new_stake s.stake)) cfg ≡ some (may_load a m)
weighs_after sender new_stake cfg s new m i weight reads a =
    rw (balance_of-save sender a new_stake s.stake, reads a)
      (elim (Bool-cases (a == sender)) [
        | inl here ↦ rw here weight
        | inr other ↦ rw other (i.weighs a)
      ])

-- A new stake of one address, with its weight brought in step.
Follows-IsInStep :
    (sender new_stake : ℕ) (cfg : Config) (height : ℕ) (s t s' : State) (calls : List HookMsg)
    → IsInStep cfg s
    → t.config ≡ s.config
    → t.total ≡ s.total
    → t.members ≡ s.members
    → t.stake ≡ Storage.save sender new_stake s.stake
    → Follows sender new_stake cfg height t s' calls
    → IsInStep cfg s'
Follows-IsInStep sender new_stake cfg height s t s' calls i c tot mem st (new, weight, change) =
    elim change [
      | inl (same, made, _) ↦
          let before : may_load sender s.members ≡ new = rw (sym mem) same in
          rw made (record {
            positive = i.positive;
            stored = c ∙ i.stored;
            distinct = rw mem i.distinct;
            total_of = rw mem (tot ∙ i.total_of);
            fits = rw mem i.fits;
            weighs =
                rw (st, mem)
                  (weighs_after sender new_stake cfg s new s.members i weight
                    (λ j. ground (arith, nat_beq_iff j sender)));
          })
      | inr (total, total', held, adds, small, made, _) ↦
          let (distinct, sums) = set_member-sum sender new height s.members i.distinct in
          let is_total : total ≡ sum s.members.primary = ground (arith, i.total_of) in
          let adds' : total' + unwrap_or 0 (may_load sender s.members) ≡ total + unwrap_or 0 new =
            rw (sym mem) adds in
          let is_sum : total' ≡ sum (set_member sender new height s.members).primary =
            omega arith in
          rw (made, mem)
            (record {
              positive = i.positive;
              stored = c ∙ i.stored;
              distinct = distinct;
              total_of = ap some is_sum;
              fits = omega arith;
              weighs = rw st (
                  weighs_after sender new_stake cfg s new (set_member sender new height s.members) i
                    weight (λ j. set_member_read sender new height j s.members));
            })
    ]

module _ ⦃api : Std⦄ where
  -- Every successful message keeps each address at the weight of its stake, the total at the sum of
  -- the weights and within u64, and each member stored once.
  pub execute-IsInStep :
      (cfg : Config) (env : Env) (msg : ExecuteMsg) (s s' : State) (r : Response)
      → IsInStep cfg s
      → execute env msg s ≡ ok (s', r)
      → IsInStep cfg s'
  execute-IsInStep cfg env msg s s' r i p = elim (execute-cases env msg s s' r p) [
    | inl (_, (same_config, same_stake, _, same_total, same_members, _)) ↦ record {
      positive = i.positive;
      stored = same_config ∙ i.stored;
      distinct = rw same_members i.distinct;
      total_of = rw same_members (same_total ∙ i.total_of);
      fits = rw same_members i.fits;
      weighs = rw (same_members, same_stake) i.weighs;
    }
    | inr (inl (sender, e)) ↦
        let (cfg', tokens, new_stake, stored, _, _, _, follows) =
          bond_steps env.block (bonds env msg) sender s s' r e in
        let same_cfg : cfg' ≡ cfg = ground (arith, i.stored) in
        Follows-IsInStep sender new_stake cfg env.block.height s
          (record s { stake = Storage.save sender new_stake s.stake }) s' r.calls i refl refl refl
          refl (rw (sym same_cfg) follows)
    | inr (inr (inl (tokens, is, e))) ↦
        let (cfg', new_stake, release_at, claims, stored, _, _, _, _, follows) =
          unbond_steps env tokens s s' r e in
        let same_cfg : cfg' ≡ cfg = ground (arith, i.stored) in
        Follows-IsInStep env.sender new_stake cfg env.block.height s
          (record s { stake = Storage.save env.sender new_stake s.stake; claims = claims }) s'
          r.calls i refl refl refl refl (rw (sym same_cfg) follows)
    | inr (inr (inr (is, e))) ↦
        let (release, claims, cfg', _, _, _, made, _) = claim_steps env s s' r e in
        rw made (record {
          positive = i.positive;
          stored = i.stored;
          distinct = i.distinct;
          total_of = i.total_of;
          fits = i.fits;
          weighs = i.weighs;
        })
  ]

cut_lem : (q : ℕ) → (q % u64_mod ≤ q) × ((q % u64_mod ≡ q) ↔ (q < u64_mod))
cut_lem q = (omega arith, ((λ e. omega arith), λ e. omega arith))

-- A stake of at least the minimal bond, in a contract with a positive number of tokens per weight,
-- has a weight: at most the quotient of the two, and equal to it exactly when the quotient is less
-- than 2 ^ 64.
pub calc_weight_bounds :
    (stake : ℕ) (cfg : Config)
    → cfg.min_bond ≤ stake
    → 0 < cfg.tokens_per_weight
    → (w : ℕ) × (calc_weight stake cfg ≡ some (some w))
      × (w ≤ stake / cfg.tokens_per_weight)
      × ((w ≡ stake / cfg.tokens_per_weight) ↔ (stake / cfg.tokens_per_weight < u64_mod))
unfolding calc_weight
calc_weight_bounds stake cfg enough positive =
    let (most, equal) = cut_lem (stake / cfg.tokens_per_weight) in
    (
      (stake / cfg.tokens_per_weight) % u64_mod,
      ground (arith, nat_beq_iff cfg.tokens_per_weight 0),
      most,
      equal,
    )
