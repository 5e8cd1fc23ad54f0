-- ===== src/Stake/Steps.antt =====
-- What a successful message of cw4-stake has done.
use cosmwasm_plus.Prelude.{
  ℕ, ◌+◌, ◌<◌, ◌≡◌, refl, true, Option, none, some, List, [], ◌∷◌, ok, nat_eq, arith, u64_add,
  u64_sub, u64_mod, unwrap_or, ◌⊎◌, Option-cases, inl, inr, ok-cases, Bool-cases, map, nat_beq_iff,
}
use cosmwasm_plus.Std.{Std, BlockInfo}
use cosmwasm_plus.Storage
use cosmwasm_plus.Storage.Laws.{balance_of}
use cosmwasm_plus.Pagination.{maybe_addr}
use cosmwasm_plus.Snapshot.{may_load}
use cosmwasm_plus.Expiration.{Expiration, after}
use cosmwasm_plus.Controllers.Admin.{execute_update_admin}
use cosmwasm_plus.Controllers.Claims.{Claims, create_claim, claim_tokens}
use cosmwasm_plus.Controllers.Hooks.{execute_add_hook, execute_remove_hook}
use cosmwasm_plus.Funds.{Balance, native_balance, cw20_balance}
use cosmwasm_plus.Cw4.{HookMsg}
use cosmwasm_plus.Cw4.Steps.{prepare_hooks_lem}
use cosmwasm_plus.Stake.{
  ContractError, Config, State, Env, bond_received, ExecuteMsg, Response, silent, same_weight,
  calc_weight, bonded_amount, set_member, update_membership, release_to, execute_bond,
  execute_receive, execute_unbond, execute_claim, execute, bond, unbond, claim, update_admin,
  add_hook, remove_hook, receive,
}

same_weight_lem : (v w : Option ℕ) → same_weight v w ≡ true → v ≡ w
same_weight_lem none none h = refl
same_weight_lem none (some w) h = cc
same_weight_lem (some v) none h = cc
same_weight_lem (some v) (some w) h = ground arith

-- The weight and the total of `s`, brought in step with a stake of `sender`: nothing changes, or
-- the new weight is written and the total follows it within u64.
abbrev pub Follows : ℕ → ℕ → Config → ℕ → State → State → List HookMsg → Type 0
Follows sender new_stake cfg height s s' calls =
    (new : Option ℕ) × (calc_weight new_stake cfg ≡ some new)
    × (((may_load sender s.members ≡ new) × (s' ≡ s) × (calls ≡ []))
        ⊎ ((total : ℕ) × (total' : ℕ) × (s.total ≡ some total)
            × (total' + unwrap_or 0 (may_load sender s.members) ≡ total + unwrap_or 0 new)
            × (total' < u64_mod)
            × (s' ≡ record s {
              members = set_member sender new height s.members;
              total = some total';
            })
            × (calls
                ≡ map
                    (λ h. record {
                      contract_addr = h;
                      diffs =
                          record { key = sender; old = may_load sender s.members; new = new } ∷ [];
                    })
                    (unwrap_or [] s.hooks))))

pub update_membership_steps :
    (sender new_stake : ℕ) (cfg : Config) (height : ℕ) (s : State) {s' : State}
    {calls : List HookMsg}
    → update_membership sender new_stake cfg height s ≡ ok (s', calls)
    → Follows sender new_stake cfg height s s' calls
unfolding update_membership
update_membership_steps sender new_stake cfg height s p =
    elim (Option-cases (calc_weight new_stake cfg)) [
      | inl divided ↦ absurd (ground arith)
      | inr (new, e) ↦ elim (Bool-cases (same_weight new (may_load sender s.members))) [
        | inl same ↦
            let equal = same_weight_lem new (may_load sender s.members) same in
            (new, e, inl (cc, ground arith, ground arith))
        | inr other ↦ elim (Option-cases s.total) [
          | inl missing ↦ absurd (ground arith)
          | inr (total, e1) ↦ elim (Option-cases (u64_add total (unwrap_or 0 new))) [
            | inl over ↦ absurd (ground arith)
            | inr (more, e2) ↦
                elim (Option-cases (u64_sub more (unwrap_or 0 (may_load sender s.members)))) [
                  | inl under ↦ absurd (ground arith)
                  | inr (total', e3) ↦
                      let told =
                        prepare_hooks_lem
                          (record { key = sender; old = may_load sender s.members; new = new } ∷ [])
                          s.hooks in
                      (
                        new,
                        e,
                        inr (
                          total,
                          total',
                          e1,
                          ground arith,
                          ground arith,
                          ground arith,
                          ground arith,
                        ),
                      )
                ]
          ]
        ]
      ]
    ]

module _ ⦃api : Std⦄ where
  pub bond_steps :
      (block : BlockInfo) (amount : Balance) (sender : ℕ) (s s' : State) (r : Response)
      → execute_bond block amount sender s ≡ ok (s', r)
      → (cfg : Config) × (tokens : ℕ) × (new_stake : ℕ) × (s.config ≡ some cfg)
        × (bonded_amount cfg.denom amount ≡ ok tokens)
        × (new_stake ≡ balance_of sender s.stake + tokens)
        × (r.payments ≡ [])
        × Follows sender new_stake cfg block.height
            (record s { stake = Storage.save sender new_stake s.stake })
            s'
            r.calls
  unfolding execute_bond
  bond_steps block amount sender s s' r p = elim (Option-cases s.config) [
    | inl missing ↦ absurd (ground arith)
    | inr (cfg, e) ↦ elim (ok-cases (bonded_amount cfg.denom amount)) [
      | inr refused ↦ absurd (ground arith)
      | inl (tokens, e1) ↦
          let adds = api.uint_add_lem (balance_of sender s.stake) tokens in
          elim (Option-cases (api.uint_add (balance_of sender s.stake) tokens)) [
            | inl over ↦ absurd (ground arith)
            | inr (new_stake, e2) ↦
                let t : State = record s { stake = Storage.save sender new_stake s.stake } in
                elim (ok-cases (update_membership sender new_stake cfg block.height t)) [
                  | inr failed ↦ absurd (ground arith)
                  | inl ((s1, calls), e3) ↦
                      let ends = update_membership_steps sender new_stake cfg block.height t e3 in
                      let is_state : s' ≡ s1 = ground arith in
                      let is_response : r ≡ record { calls = calls; payments = [] } =
                        ground arith in
                      rw (is_state, is_response)
                        (cfg, tokens, new_stake, e, e1, ground arith, refl, ends)
                ]
          ]
    ]
  ]

  pub unbond_steps :
      (env : Env) (amount : ℕ) (s s' : State) (r : Response)
      → execute_unbond env amount s ≡ ok (s', r)
      → (cfg : Config) × (new_stake : ℕ) × (release_at : Expiration) × (claims : Claims) × (s.config
          ≡ some cfg)
        × (new_stake + amount ≡ balance_of env.sender s.stake)
        × (after {E = ContractError} cfg.unbonding_period env.block ≡ ok release_at)
        × (create_claim env.sender amount release_at s.claims ≡ ok claims)
        × (r.payments ≡ [])
        × Follows env.sender new_stake cfg env.block.height
            (record s { stake = Storage.save env.sender new_stake s.stake; claims = claims })
            s'
            r.calls
  unfolding execute_unbond
  unbond_steps env amount s s' r p =
      let takes = api.checked_sub_lem (balance_of env.sender s.stake) amount in
      elim (Option-cases (api.checked_sub (balance_of env.sender s.stake) amount)) [
        | inl short ↦ absurd (ground arith)
        | inr (new_stake, e) ↦ elim (Option-cases s.config) [
          | inl missing ↦ absurd (ground arith)
          | inr (cfg, e1) ↦
              elim (ok-cases (after {E = ContractError} cfg.unbonding_period env.block)) [
                | inr late ↦ absurd (ground arith)
                | inl (release_at, e2) ↦
                    elim (ok-cases (create_claim env.sender amount release_at s.claims)) [
                      | inr failed ↦ absurd (ground arith)
                      | inl (claims, e3) ↦
                          let t : State = record s {
                            stake = Storage.save env.sender new_stake s.stake;
                            claims = claims;
                          } in
                          elim (ok-cases
                            (update_membership env.sender new_stake cfg env.block.height t)) [
                              | inr failed ↦ absurd (ground arith)
                              | inl ((s1, calls), e4) ↦
                                  let ends =
                                    update_membership_steps env.sender new_stake cfg
                                      env.block.height t e4 in
                                  let is_state : s' ≡ s1 = ground arith in
                                  let is_response : r ≡ record { calls = calls; payments = [] } =
                                    ground arith in
                                  rw (is_state, is_response)
                                    (
                                      cfg,
                                      new_stake,
                                      release_at,
                                      claims,
                                      e1,
                                      ground arith,
                                      e2,
                                      e3,
                                      refl,
                                      ends,
                                    )
                            ]
                    ]
              ]
        ]
      ]

  pub claim_steps :
      (env : Env) (s s' : State) (r : Response)
      → execute_claim env s ≡ ok (s', r)
      → (release : ℕ) × (claims : Claims) × (config : Config) × (claim_tokens env.sender env.block
            none s.claims
          ≡ ok (release, claims))
        × (0 < release)
        × (s.config ≡ some config)
        × (s' ≡ record s { claims = claims })
        × (r ≡ record { calls = []; payments = release_to env.sender config.denom release ∷ [] })
  unfolding execute_claim
  claim_steps env s s' r p = elim (ok-cases (claim_tokens env.sender env.block none s.claims)) [
    | inr failed ↦ absurd (ground arith)
    | inl ((release, claims), e) ↦ elim (Option-cases s.config) [
      | inl missing ↦ absurd (ground arith)
      | inr (config, e1) ↦ (
        release,
        claims,
        config,
        e,
        ground (arith, nat_beq_iff release 0),
        e1,
        ground arith,
        ground arith,
      )
    ]
  ]

-- What a message bonds: the native funds that come with it, or the tokens that the calling cw20
-- contract says it has sent.
abbrev pub bonds : Env → ExecuteMsg → Balance
bonds env bond = native_balance env.funds
bonds env (receive _ amount _) = cw20_balance (record { address = env.sender; amount = amount })
bonds env _ = native_balance []

-- The bonded tokens, the claims and the weights of `s` are those of `s'`, and nobody is told.
abbrev pub Keeps : State → State → Response → Type 0
Keeps s s' r =
    (s'.config ≡ s.config)
    × (s'.stake ≡ s.stake)
    × (s'.claims ≡ s.claims)
    × (s'.total ≡ s.total)
    × (s'.members ≡ s.members)
    × (r ≡ silent)

module _ ⦃api : Std⦄ where
  -- A message keeps the funds and the weights, or it bonds, unbonds or claims.
  pub execute-cases :
      (env : Env) (msg : ExecuteMsg) (s s' : State) (r : Response)
      → execute env msg s ≡ ok (s', r)
      → ((bonds env msg ≡ native_balance []) × Keeps s s' r)
        ⊎ ((sender : ℕ) × (execute_bond env.block (bonds env msg) sender s ≡ ok (s', r)))
        ⊎ ((tokens : ℕ) × (msg ≡ unbond tokens) × (execute_unbond env tokens s ≡ ok (s', r)))
        ⊎ (msg ≡ claim) × (execute_claim env s ≡ ok (s', r))
  unfolding execute execute_receive
  execute-cases env bond s s' r p = inr (inl (env.sender, p))
  execute-cases env (unbond tokens) s s' r p = inr (inr (inl (tokens, refl, p)))
  execute-cases env claim s s' r p = inr (inr (inr (refl, p)))
  execute-cases env (receive sender amount bond_received) s s' r p =
      elim (Option-cases (api.addr_validate sender)) [
        | inl bad ↦ absurd (ground arith)
        | inr (addr, e) ↦ inr (inl (addr, ground arith))
      ]
  execute-cases env (update_admin new_admin) s s' r p = elim (ok-cases (maybe_addr new_admin)) [
    | inr bad ↦ absurd (ground arith)
    | inl (addr, e) ↦ elim (ok-cases (execute_update_admin s.admin env.sender addr)) [
      | inr refused ↦ absurd (ground arith)
      | inl (adm, e1) ↦ inl (refl, ground arith)
    ]
  ]
  execute-cases env (add_hook addr) s s' r p = elim (Option-cases (api.addr_validate addr)) [
    | inl bad ↦ absurd (ground arith)
    | inr (h, e) ↦ elim (ok-cases (execute_add_hook s.admin env.sender h s.hooks)) [
      | inr refused ↦ absurd (ground arith)
      | inl (hooks, e1) ↦ inl (refl, ground arith)
    ]
  ]
  execute-cases env (remove_hook addr) s s' r p = elim (Option-cases (api.addr_validate addr)) [
    | inl bad ↦ absurd (ground arith)
    | inr (h, e) ↦ elim (ok-cases (execute_remove_hook s.admin env.sender h s.hooks)) [
      | inr refused ↦ absurd (ground arith)
      | inl (hooks, e1) ↦ inl (refl, ground arith)
    ]
  ]
