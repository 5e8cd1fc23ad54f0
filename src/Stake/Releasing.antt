-- ===== src/Stake/Releasing.antt =====
-- When the tokens of cw4-stake are paid out, and to whom.
use cosmwasm_plus.Prelude.{
  ℕ, ◌+◌, ◌<◌, ◌≤◌, ◌≡◌, refl, true, false, none, some, List, [], ◌∷◌, ◌++◌, ok, err, ◌==◌, nat_eq,
  arith, inl, inr, if◌then◌else◌, u128_mod, ◌∙◌, Bool-cases, nat_beq_iff, ◌⊎◌,
}
use cosmwasm_plus.Std.{Std, BlockInfo}
use cosmwasm_plus.Storage
use cosmwasm_plus.Storage.Laws.{may_load-save}
use cosmwasm_plus.Expiration.{Expiration, is_expired, after}
use cosmwasm_plus.Expiration.Live.{is_expired_lem}
use cosmwasm_plus.Controllers.Claims.{Claim, create_claim, pay, partition, claim_tokens}
use cosmwasm_plus.Controllers.Claims.Paying.{owed, live_claims, claims_of, claim_tokens_splits}
use cosmwasm_plus.Stake.{
  ContractError, nothing_to_claim, Config, State, Env, ExecuteMsg, Response, claim, release_to,
  execute_unbond, execute_claim, execute,
}
use cosmwasm_plus.Stake.Bonded.{Follows-backing}
use cosmwasm_plus.Stake.Steps.{bond_steps, unbond_steps, claim_steps, bonds, execute-cases}

-- The amounts of the claims that have expired.
abbrev pub due : BlockInfo → List Claim → ℕ
due block [] = 0
due block (c ∷ claims) = (if is_expired c.release_at block then c.amount else 0) + due block claims

pub due-le-owed : (block : BlockInfo) (claims : List Claim) → due block claims ≤ owed claims
due-le-owed block [] = omega arith
due-le-owed block (c ∷ claims) = ground (arith, due-le-owed block claims)

due-append :
    (block : BlockInfo) (claims : List Claim) (c : Claim)
    → is_expired c.release_at block ≡ true
    → c.amount ≤ due block (claims ++ (c ∷ []))
due-append block [] c e = ground arith
due-append block (d ∷ claims) c e = ground (arith, due-append block claims c e)

module _ ⦃api : Std⦄ where
  pay_uncapped :
      (block : BlockInfo) (to_send : ℕ) (c : Claim)
      → to_send + (if is_expired c.release_at block then c.amount else 0) < u128_mod
      → pay block none to_send c
        ≡ some (
          is_expired c.release_at block,
          to_send + (if is_expired c.release_at block then c.amount else 0),
        )
  unfolding pay
  pay_uncapped block to_send c fits = ground (arith, api.uint_add_lem to_send c.amount)

  partition_uncapped :
      (block : BlockInfo) (claims : List Claim) (to_send : ℕ)
      → to_send + due block claims < u128_mod
      → partition block none to_send claims
        ≡ ok (to_send + due block claims, live_claims block claims)
  unfolding partition
  partition_uncapped block [] to_send fits = ground arith
  partition_uncapped block (c ∷ claims) to_send fits =
      let first = if is_expired c.release_at block then c.amount else 0 in
      ground (
        arith,
        is_expired_lem c.release_at block,
        pay_uncapped block to_send c (omega arith),
        partition_uncapped block claims (to_send + first) (omega arith),
      )

  -- Where the contract is configured and the claims of the sender that have expired come to less
  -- than 2 ^ 128, a claim is refused if they come to nothing; otherwise it pays the sender their
  -- sum in the token of the contract, and leaves the sender those that have not expired, and
  -- everything else as it was.
  pub execute_claim_lem :
      (env : Env) (s : State) (cfg : Config)
      → s.config ≡ some cfg
      → due env.block (claims_of env.sender s.claims) < u128_mod
      → execute_claim env s ≡ (
          if due env.block (claims_of env.sender s.claims) == 0
          then err nothing_to_claim
          else ok (
            record s {
              claims =
                  Storage.save env.sender
                    (live_claims env.block (claims_of env.sender s.claims))
                    s.claims;
            },
            record {
              calls = [];
              payments =
                  release_to env.sender cfg.denom (due env.block (claims_of env.sender s.claims))
                  ∷ [];
            },
          ))
  unfolding execute_claim claim_tokens
  execute_claim_lem env s cfg stored fits =
      let cs = claims_of env.sender s.claims in
      let parts : partition env.block none 0 cs ≡ ok (due env.block cs, live_claims env.block cs) =
        ground (arith, partition_uncapped env.block cs 0 (omega arith)) in
      rw (parts, stored)
        (elim (Bool-cases (due env.block (claims_of env.sender s.claims) == 0)) [
          | inl zero ↦ ground arith
          | inr more ↦ ground arith
        ])

  -- Tokens that were unbonded can be claimed as soon as the unbonding period is over: after an
  -- `Unbond` of some tokens, in every block in which the time that the period gives has come, a
  -- `Claim` of the same sender succeeds and pays the sender at least those tokens, provided that the
  -- claims of the sender come to less than 2 ^ 128.
  pub unbond_can_be_claimed :
      (env later : Env) (cfg : Config) (tokens : ℕ) (release_at : Expiration) (s s' : State)
      (r : Response)
      → s.config ≡ some cfg
      → 0 < tokens
      → execute_unbond env tokens s ≡ ok (s', r)
      → after {E = ContractError} cfg.unbonding_period env.block ≡ ok release_at
      → later.sender ≡ env.sender
      → is_expired release_at later.block ≡ true
      → owed (claims_of env.sender s'.claims) < u128_mod
      → (n : ℕ) × (s'' : State) × (tokens ≤ n)
        × (execute_claim later s'
            ≡ ok (s'', record { calls = []; payments = release_to later.sender cfg.denom n ∷ [] }))
  unfolding create_claim
  unbond_can_be_claimed env later cfg tokens release_at s s' r stored some_tokens p ends same over
        fits =
      let (cfg', new_stake, release_at', claims, stored', _, ends', created, _, follows) =
        unbond_steps env tokens s s' r p in
      let same_cfg : cfg' ≡ cfg = ground arith in
      let (_, same_claims, same_config) =
        Follows-backing env.sender new_stake cfg' env.block.height
          (record s { stake = Storage.save env.sender new_stake s.stake; claims = claims }) s'
          r.calls follows in
      let c : Claim = record { amount = tokens; release_at = release_at } in
      let list = claims_of env.sender s.claims ++ (c ∷ []) in
      let is_release : release_at' ≡ release_at = ground arith in
      let made : claims ≡ Storage.save env.sender list s.claims = ground arith in
      let has : claims_of later.sender s'.claims ≡ list =
        rw (same_claims, made, same)
          (ground (arith, may_load-save env.sender env.sender list s.claims)) in
      let pays = due-append later.block (claims_of env.sender s.claims) c over in
      let cs = claims_of later.sender s'.claims in
      let enough : tokens ≤ due later.block cs = rw has pays in
      let fits' : owed cs < u128_mod = rw same fits in
      let small : due later.block cs < u128_mod = omega (arith, due-le-owed later.block cs) in
      let nonzero : (due later.block cs == 0) ≡ false =
        ground (arith, nat_beq_iff (due later.block cs) 0) in
      let all = execute_claim_lem later s' cfg (same_config ∙ stored) small in
      (
        due later.block cs,
        record s' { claims = Storage.save later.sender (live_claims later.block cs) s'.claims },
        enough,
        rw (all, nonzero) refl,
      )

  -- A successful message that pays is a `Claim`. It pays its sender once, more than nothing and in
  -- the token of the contract; what is paid and what the sender is still owed add up to what the
  -- sender was owed, the claims that have not expired stay as they were and in their order, and so do
  -- those of other addresses.
  pub claim_pays :
      (env : Env) (msg : ExecuteMsg) (s s' : State) (r : Response)
      → execute env msg s ≡ ok (s', r)
      → (r.payments ≡ [])
        ⊎ (msg ≡ claim)
          × ((n : ℕ) × (cfg : Config) × (s.config ≡ some cfg)
              × (r.payments ≡ release_to env.sender cfg.denom n ∷ [])
              × (0 < n)
              × (n + owed (claims_of env.sender s'.claims) ≡ owed (claims_of env.sender s.claims))
              × (live_claims env.block (claims_of env.sender s'.claims)
                  ≡ live_claims env.block (claims_of env.sender s.claims))
              × ((other : ℕ)
                  → (other == env.sender) ≡ false
                  → claims_of other s'.claims ≡ claims_of other s.claims))
  claim_pays env msg s s' r p = elim (execute-cases env msg s s' r p) [
    | inl (_, (_, _, _, _, _, quiet)) ↦ inl (rw quiet refl)
    | inr (inl (sender, e)) ↦
        let (_, _, _, _, _, _, unpaid, _) = bond_steps env.block (bonds env msg) sender s s' r e in
        inl unpaid
    | inr (inr (inl (tokens, is, e))) ↦
        let (_, _, _, _, _, _, _, _, unpaid, _) = unbond_steps env tokens s s' r e in inl unpaid
    | inr (inr (inr (is, e))) ↦
        let (n, claims, cfg, released, some_tokens, stored, made, pays) =
          claim_steps env s s' r e in
        let (total, same, _, _, others) =
          claim_tokens_splits env.sender env.block none s.claims claims n released in
        rw (made, pays) (inr (is, (n, cfg, stored, refl, some_tokens, total, same, others)))
  ]
