-- ===== src/Stake/Bonded.antt =====
-- The tokens that cw4-stake holds for its members, gets and pays out.
use cosmwasm_plus.Prelude.{
  ℕ, ◌+◌, ◌≡◌, refl, none, some, List, [], ◌∷◌, ◌++◌, ok, ◌==◌, nat_eq, arith, inl, inr,
  if◌then◌else◌, nat_beq_iff, ok-cases, ◌∙◌, ◌⊎◌, Bool-cases, ap, sym,
}
use cosmwasm_plus.Std.{Std, BlockInfo}
use cosmwasm_plus.Storage
use cosmwasm_plus.Storage.Laws.{sum, sum-save, may_load-save}
use cosmwasm_plus.Storage.Weights.{weight, weight-save}
use cosmwasm_plus.Expiration.{Expiration}
use cosmwasm_plus.Controllers.Claims.{Claim, Claims, create_claim, partition, claim_tokens}
use cosmwasm_plus.Controllers.Claims.Paying.{owed, claims_of, claim_tokens_splits}
use cosmwasm_plus.Funds.{
  Payment, Balance, native_balance, cw20_balance, Denom, native_denom, cw20_denom,
}
use cosmwasm_plus.Funds.Assets.{Asset, coin_of, token_of, asset_of, in_funds, paid, no_funds}
use cosmwasm_plus.Cw4.{HookMsg}
use cosmwasm_plus.Stake.{
  Config, State, Env, ExecuteMsg, Response, must_pay_funds, bonded_amount, release_to, execute_bond,
  execute_unbond, execute_claim, execute,
}
use cosmwasm_plus.Stake.Steps.{Follows, bond_steps, unbond_steps, claim_steps, bonds, execute-cases}

-- What all claims come to.
abbrev pub claimed : Claims → ℕ
claimed claims = weight owed claims

-- What the contract holds for its members: their stakes and their claims.
abbrev pub backing : State → ℕ
backing s = sum s.stake + claimed s.claims

-- An amount of the tokens of a contract, as an amount of an asset.
abbrev pub in_denom : Asset → Denom → ℕ → ℕ
in_denom (coin_of e) (native_denom d) n = if d == e then n else 0
in_denom (token_of t) (cw20_denom a) n = if a == t then n else 0
in_denom _ _ n = 0

-- The asset is the token of the contract, or none of it comes in and none is paid.
abbrev pub IsOnly : Asset → Denom → Balance → List Payment → Type 0
IsOnly x d more payments = (x ≡ asset_of d) ⊎ ((in_funds x more ≡ 0) × (paid x payments ≡ 0))

-- What is of the token of the contract only.
in_denom-other : (x : Asset) (d : Denom) (n : ℕ) → (x ≡ asset_of d) ⊎ (in_denom x d n ≡ 0)
in_denom-other (coin_of e) (native_denom d) n = elim (Bool-cases (d == e)) [
  | inl same ↦ inl (ap coin_of (sym ((nat_beq_iff d e).0 same)))
  | inr other ↦ inr (rw other refl)
]
in_denom-other (coin_of e) (cw20_denom a) n = inr refl
in_denom-other (token_of t) (native_denom d) n = inr refl
in_denom-other (token_of t) (cw20_denom a) n = elim (Bool-cases (a == t)) [
  | inl same ↦ inl (ap token_of (sym ((nat_beq_iff a t).0 same)))
  | inr other ↦ inr (rw other refl)
]

in_denom-add :
    (x : Asset) (d : Denom) (m n : ℕ) → in_denom x d (m + n) ≡ in_denom x d m + in_denom x d n
in_denom-add (coin_of e) (native_denom d) m n = ground arith
in_denom-add (coin_of e) (cw20_denom a) m n = refl
in_denom-add (token_of t) (native_denom d) m n = refl
in_denom-add (token_of t) (cw20_denom a) m n = ground arith

bonded_amount-funds :
    (x : Asset) (d : Denom) (b : Balance) (n : ℕ)
    → bonded_amount d b ≡ ok n
    → in_funds x b ≡ in_denom x d n
unfolding bonded_amount must_pay_funds
bonded_amount-funds x (native_denom d) (native_balance []) n p = absurd (ground arith)
bonded_amount-funds (coin_of e) (native_denom d) (native_balance (c ∷ [])) n p =
    ground (arith, nat_beq_iff c.denom d)
bonded_amount-funds (token_of t) (native_denom d) (native_balance (c ∷ [])) n p = refl
bonded_amount-funds x (native_denom d) (native_balance (_ ∷ _ ∷ _)) n p = absurd (ground arith)
bonded_amount-funds x (native_denom d) (cw20_balance have) n p = absurd (ground arith)
bonded_amount-funds x (cw20_denom a) (native_balance coins) n p = absurd (ground arith)
bonded_amount-funds (coin_of e) (cw20_denom a) (cw20_balance have) n p = refl
bonded_amount-funds (token_of t) (cw20_denom a) (cw20_balance have) n p =
    ground (arith, nat_beq_iff a have.address)

release_to-paid :
    (x : Asset) (to : ℕ) (d : Denom) (n : ℕ) → paid x (release_to to d n ∷ []) ≡ in_denom x d n
release_to-paid (coin_of e) to (native_denom d) n = ground arith
release_to-paid (coin_of e) to (cw20_denom a) n = refl
release_to-paid (token_of t) to (native_denom d) n = refl
release_to-paid (token_of t) to (cw20_denom a) n = ground arith

owed-append : (cs : List Claim) (c : Claim) → owed (cs ++ (c ∷ [])) ≡ owed cs + c.amount
owed-append [] c = omega arith
owed-append (d ∷ cs) c = omega (arith, owed-append cs c)

create_claim-claimed :
    (addr amount : ℕ) (release_at : Expiration) (claims claims' : Claims)
    → create_claim addr amount release_at claims ≡ ok claims'
    → claimed claims' ≡ claimed claims + amount
unfolding create_claim
create_claim-claimed addr amount release_at claims claims' p =
    let c : Claim = record { amount = amount; release_at = release_at } in
    let list = claims_of addr claims ++ (c ∷ []) in
    let made : claims' ≡ Storage.save addr list claims = ground arith in
    rw made
      (ground (arith, weight-save owed addr list claims, owed-append (claims_of addr claims) c))

-- Bringing the weights in step leaves the funds.
pub Follows-backing :
    (sender new_stake : ℕ) (cfg : Config) (height : ℕ) (s s' : State) (calls : List HookMsg)
    → Follows sender new_stake cfg height s s' calls
    → (s'.stake ≡ s.stake) × (s'.claims ≡ s.claims) × (s'.config ≡ s.config)
Follows-backing sender new_stake cfg height s s' calls (new, _, change) = elim change [
  | inl (_, same, _) ↦ rw same (refl, refl, refl)
  | inr (total, total', _, _, _, made, _) ↦ rw made (refl, refl, refl)
]

module _ ⦃api : Std⦄ where
  claim_tokens-claimed :
      (addr : ℕ) (block : BlockInfo) (claims claims' : Claims) (sent : ℕ)
      → claim_tokens addr block none claims ≡ ok (sent, claims')
      → claimed claims' + sent ≡ claimed claims
  unfolding claim_tokens
  claim_tokens-claimed addr block claims claims' sent p =
      elim (ok-cases (partition block none 0 (claims_of addr claims))) [
        | inr failed ↦ absurd (ground arith)
        | inl ((sent', waiting), e) ↦
            let splits = (claim_tokens_splits addr block none claims claims' sent p).0 in
            let made : claims' ≡ Storage.save addr waiting claims = ground arith in
            ground
              (arith, weight-save owed addr waiting claims, may_load-save addr addr waiting claims)
      ]

  -- The configuration stays; of every asset what the contract holds and what it pays add up to what
  -- it held and what came in, and only its own token comes in or is paid.
  abbrev pub Accounts : Asset → Config → Balance → State → State → Response → Type 0
  Accounts x cfg more s s' r =
      (s'.config ≡ some cfg)
      × (in_denom x cfg.denom (backing s') + paid x r.payments
          ≡ in_denom x cfg.denom (backing s) + in_funds x more)
      × IsOnly x cfg.denom more r.payments

  bond-Accounts :
      (x : Asset) (cfg : Config) (block : BlockInfo) (amount : Balance) (sender : ℕ) (s s' : State)
      (r : Response)
      → s.config ≡ some cfg
      → execute_bond block amount sender s ≡ ok (s', r)
      → Accounts x cfg amount s s' r
  bond-Accounts x cfg block amount sender s s' r stored p =
      let (cfg', tokens, new_stake, stored', takes, is_sum, unpaid, follows) =
        bond_steps block amount sender s s' r p in
      let same_cfg : cfg' ≡ cfg = ground arith in
      let (same_stake, same_claims, same_config) =
        Follows-backing sender new_stake cfg' block.height
          (record s { stake = Storage.save sender new_stake s.stake }) s' r.calls follows in
      let saved = sum-save sender new_stake s.stake in
      let grows : backing s' ≡ backing s + tokens = rw (same_stake, same_claims) (omega arith) in
      let came = bonded_amount-funds x cfg'.denom amount tokens takes in
      (
        same_config ∙ stored,
        rw (grows, unpaid, came, same_cfg)
            (omega (arith, in_denom-add x cfg.denom (backing s) tokens)),
        elim (in_denom-other x cfg.denom tokens) [
          | inl is ↦ inl is
          | inr other ↦ inr (rw (came, same_cfg) other, rw unpaid refl)
        ],
      )

  unbond-Accounts :
      (x : Asset) (cfg : Config) (env : Env) (amount : ℕ) (s s' : State) (r : Response)
      → s.config ≡ some cfg
      → execute_unbond env amount s ≡ ok (s', r)
      → Accounts x cfg (native_balance []) s s' r
  unbond-Accounts x cfg env amount s s' r stored p =
      let (cfg', new_stake, release_at, claims, _, splits, _, created, unpaid, follows) =
        unbond_steps env amount s s' r p in
      let (same_stake, same_claims, same_config) =
        Follows-backing env.sender new_stake cfg' env.block.height
          (record s { stake = Storage.save env.sender new_stake s.stake; claims = claims }) s'
          r.calls follows in
      let saved = sum-save env.sender new_stake s.stake in
      let waits = create_claim-claimed env.sender amount release_at s.claims claims created in
      let same : backing s' ≡ backing s = rw (same_stake, same_claims) (omega arith) in
      let nothing : in_funds x (native_balance []) ≡ 0 = no_funds x in
      (same_config ∙ stored, rw (same, unpaid, nothing) refl, inr (nothing, rw unpaid refl))

  claim-Accounts :
      (x : Asset) (cfg : Config) (env : Env) (s s' : State) (r : Response)
      → s.config ≡ some cfg
      → execute_claim env s ≡ ok (s', r)
      → Accounts x cfg (native_balance []) s s' r
  claim-Accounts x cfg env s s' r stored p =
      let (release, claims, cfg', released, _, stored', made, pays) = claim_steps env s s' r p in
      let same_cfg : cfg' ≡ cfg = ground arith in
      let left = claim_tokens-claimed env.sender env.block s.claims claims release released in
      let shrinks : backing s ≡ backing s' + release = rw made (omega arith) in
      let nothing : in_funds x (native_balance []) ≡ 0 = no_funds x in
      let all = release_to-paid x env.sender cfg.denom release in
      (
        rw made stored,
        rw (pays, same_cfg, shrinks, nothing)
            (omega (arith, in_denom-add x cfg.denom (backing s') release)),
        elim (in_denom-other x cfg.denom release) [
          | inl is ↦ inl is
          | inr other ↦ inr (nothing, rw (pays, same_cfg, all) other)
        ],
      )

  -- Of the token of the contract, what the contract holds for its members (their stakes and their
  -- claims) after a successful message and what the message pays add up to what the contract held
  -- and what the message bonds; of any other asset the message bonds nothing and pays nothing. The
  -- configuration stays.
  pub execute-Accounts :
      (x : Asset) (cfg : Config) (env : Env) (msg : ExecuteMsg) (s s' : State) (r : Response)
      → s.config ≡ some cfg
      → execute env msg s ≡ ok (s', r)
      → (s'.config ≡ some cfg)
        × (in_denom x cfg.denom (backing s') + paid x r.payments
            ≡ in_denom x cfg.denom (backing s) + in_funds x (bonds env msg))
        × ((x ≡ asset_of cfg.denom) ⊎ ((in_funds x (bonds env msg) ≡ 0) × (paid x r.payments ≡ 0)))
  execute-Accounts x cfg env msg s s' r stored p = elim (execute-cases env msg s s' r p) [
    | inl (none_bonded, (same_config, same_stake, same_claims, _, _, quiet)) ↦
        let nothing : in_funds x (native_balance []) ≡ 0 = no_funds x in
        (
          same_config ∙ stored,
          rw (quiet, same_stake, same_claims, none_bonded, nothing) refl,
          inr (rw none_bonded nothing, rw quiet refl),
        )
    | inr (inl (sender, e)) ↦ bond-Accounts x cfg env.block (bonds env msg) sender s s' r stored e
    | inr (inr (inl (tokens, is, e))) ↦ rw is (unbond-Accounts x cfg env tokens s s' r stored e)
    | inr (inr (inr (is, e))) ↦ rw is (claim-Accounts x cfg env s s' r stored e)
  ]
