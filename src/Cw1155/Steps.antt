-- ===== src/Cw1155/Steps.antt =====
-- What a successful message of cw1155-base has done: every message but the approvals moves a batch
-- of amounts from an account, to an account, or both.
use cosmwasm_plus.Prelude.{
  ℕ, ◌≡◌, refl, Bool, true, false, Option, none, some, List, [], ◌∷◌, ok, nat_eq, pair_eq, arith,
  Option-cases, ok-cases, inl, inr, nat_beq_iff, if◌then◌else◌,
}
use cosmwasm_plus.Std.{Std}
use cosmwasm_plus.Storage.{Map}
use cosmwasm_plus.Cw1155.{
  State, Env, Batch, ExecuteMsg, Response, check_can_approve, register, execute_transfer_inner,
  transfer_all, mint_all, execute_send_from, execute_mint, execute_burn, execute_batch_send_from,
  execute_batch_mint, execute_batch_burn, execute_approve_all, execute_revoke_all, execute,
  send_from, batch_send_from, mint, batch_mint, burn, batch_burn, approve_all, revoke_all,
}

-- The account that a message takes tokens from, the account that it gives tokens to, and the amounts.
abbrev pub source : ExecuteMsg → Option ℕ
source (send_from from _ _ _ _) = some from
source (batch_send_from from _ _ _) = some from
source (burn from _ _) = some from
source (batch_burn from _) = some from
source _ = none

abbrev pub target : ExecuteMsg → Option ℕ
target (send_from _ to _ _ _) = some to
target (batch_send_from _ to _ _) = some to
target (mint to _ _ _) = some to
target (batch_mint to _ _) = some to
target _ = none

abbrev pub batch_of : ExecuteMsg → Batch
batch_of (send_from _ _ token_id value _) = (token_id, value) ∷ []
batch_of (batch_send_from _ _ batch _) = batch
batch_of (mint _ token_id value _) = (token_id, value) ∷ []
batch_of (batch_mint _ batch _) = batch
batch_of (burn _ token_id value) = (token_id, value) ∷ []
batch_of (batch_burn _ batch) = batch
batch_of _ = []

abbrev pub mints : ExecuteMsg → Bool
mints (mint _ _ _ _) = true
mints (batch_mint _ _ _) = true
mints _ = false

abbrev pub register_all : Batch → Map ℕ (List ℕ) → Map ℕ (List ℕ)
register_all [] tokens = tokens
register_all ((token_id, _) ∷ batch) tokens = register_all batch (register token_id tokens)

module _ ⦃api : Std⦄ where
  one-transfer_all :
      (from to : Option ℕ) (token_id amount : ℕ) (balances : Map (ℕ × ℕ) ℕ) {moved : Map (ℕ × ℕ) ℕ}
      → execute_transfer_inner from to token_id amount balances ≡ ok moved
      → transfer_all from to ((token_id, amount) ∷ []) balances ≡ ok moved
  unfolding transfer_all
  one-transfer_all from to token_id amount balances e = rw e refl

  mint_all_lem :
      (to : ℕ) (batch : Batch) (balances : Map (ℕ × ℕ) ℕ) (tokens : Map ℕ (List ℕ))
      (balances' : Map (ℕ × ℕ) ℕ) (tokens' : Map ℕ (List ℕ))
      → mint_all to batch balances tokens ≡ ok (balances', tokens')
      → (transfer_all none (some to) batch balances ≡ ok balances')
        × (tokens' ≡ register_all batch tokens)
  unfolding mint_all transfer_all
  mint_all_lem to [] balances tokens balances' tokens' p = (ground arith, ground arith)
  mint_all_lem to ((token_id, amount) ∷ batch) balances tokens balances' tokens' p =
      elim (ok-cases (execute_transfer_inner none (some to) token_id amount balances)) [
        | inr failed ↦ absurd (ground arith)
        | inl (more, e) ↦
            let (moved, registered) =
              mint_all_lem to batch more (register token_id tokens) balances' tokens'
                (ground arith) in
            (rw e moved, registered)
      ]

  -- What the message has done to balances and tokens, and who may do so.
  abbrev pub Moves : Env → ExecuteMsg → State → State → Type 0
  Moves env msg s s' =
      (transfer_all (source msg) (target msg) (batch_of msg) s.balances ≡ ok s'.balances)
      × (s'.tokens ≡ (if mints msg then register_all (batch_of msg) s.tokens else s.tokens))
      × ((from : ℕ) → source msg ≡ some from → check_can_approve env.block from env.sender s ≡ true)
      × (mints msg ≡ true → s.minter ≡ some env.sender)

  pub execute_steps :
      (env : Env) (msg : ExecuteMsg) (s s' : State) (r : Response)
      → execute env msg s ≡ ok (s', r)
      → Moves env msg s s'
  unfolding execute execute_send_from execute_mint execute_burn execute_batch_send_from
      execute_batch_mint execute_batch_burn execute_approve_all execute_revoke_all transfer_all
  execute_steps env (send_from from to token_id value msg) s s' r p =
      elim (Option-cases (api.addr_validate from)) [
        | inl bad ↦ absurd (ground arith)
        | inr (a, e) ↦ elim (Option-cases (api.addr_validate to)) [
          | inl bad ↦ absurd (ground arith)
          | inr (b, e1) ↦
              let same = api.addr_validate_lem e in
              let same_to = api.addr_validate_lem e1 in
              elim (ok-cases
                (execute_transfer_inner (some from) (some to) token_id value s.balances)) [
                  | inr failed ↦ absurd (ground arith)
                  | inl (moved, e2) ↦ (
                    ground (
                      arith,
                      one-transfer_all (some from) (some to) token_id value s.balances e2,
                    ),
                    ground arith,
                    (λ f is. ground arith),
                    λ no_mint. absurd (ground arith),
                  )
                ]
        ]
      ]
  execute_steps env (batch_send_from from to batch msg) s s' r p =
      elim (Option-cases (api.addr_validate from)) [
        | inl bad ↦ absurd (ground arith)
        | inr (a, e) ↦ elim (Option-cases (api.addr_validate to)) [
          | inl bad ↦ absurd (ground arith)
          | inr (b, e1) ↦
              let same = api.addr_validate_lem e in
              let same_to = api.addr_validate_lem e1 in
              elim (ok-cases (transfer_all (some from) (some to) batch s.balances)) [
                | inr failed ↦ absurd (ground arith)
                | inl (moved, e2) ↦ (
                  ground arith,
                  ground arith,
                  (λ f is. ground arith),
                  λ no_mint. absurd (ground arith),
                )
              ]
        ]
      ]
  execute_steps env (mint to token_id value msg) s s' r p =
      elim (Option-cases (api.addr_validate to)) [
        | inl bad ↦ absurd (ground arith)
        | inr (b, e) ↦
            let same = api.addr_validate_lem e in
            elim (Option-cases s.minter) [
              | inl missing ↦ absurd (ground arith)
              | inr (minter, e1) ↦
                  elim (ok-cases
                    (execute_transfer_inner none (some to) token_id value s.balances)) [
                      | inr failed ↦ absurd (ground arith)
                      | inl (moved, e2) ↦ (
                        ground
                            (arith, one-transfer_all none (some to) token_id value s.balances e2),
                        ground arith,
                        (λ f is. absurd (ground arith)),
                        λ minting. ground (arith, nat_beq_iff env.sender minter),
                      )
                    ]
            ]
      ]
  execute_steps env (batch_mint to batch msg) s s' r p = elim (Option-cases s.minter) [
    | inl missing ↦ absurd (ground arith)
    | inr (minter, e) ↦ elim (Option-cases (api.addr_validate to)) [
      | inl bad ↦ absurd (ground arith)
      | inr (b, e1) ↦
          let same = api.addr_validate_lem e1 in
          elim (ok-cases (mint_all to batch s.balances s.tokens)) [
            | inr failed ↦ absurd (ground arith)
            | inl ((balances, tokens), e2) ↦
                let (moved, registered) =
                  mint_all_lem to batch s.balances s.tokens balances tokens e2 in
                (
                  ground arith,
                  ground arith,
                  (λ f is. absurd (ground arith)),
                  λ minting. ground (arith, nat_beq_iff env.sender minter),
                )
          ]
    ]
  ]
  execute_steps env (burn from token_id value) s s' r p =
      elim (Option-cases (api.addr_validate from)) [
        | inl bad ↦ absurd (ground arith)
        | inr (a, e) ↦
            let same = api.addr_validate_lem e in
            elim (ok-cases (execute_transfer_inner (some from) none token_id value s.balances)) [
              | inr failed ↦ absurd (ground arith)
              | inl (moved, e2) ↦ (
                ground (arith, one-transfer_all (some from) none token_id value s.balances e2),
                ground arith,
                (λ f is. ground arith),
                λ no_mint. absurd (ground arith),
              )
            ]
      ]
  execute_steps env (batch_burn from batch) s s' r p =
      elim (Option-cases (api.addr_validate from)) [
        | inl bad ↦ absurd (ground arith)
        | inr (a, e) ↦
            let same = api.addr_validate_lem e in
            elim (ok-cases (transfer_all (some from) none batch s.balances)) [
              | inr failed ↦ absurd (ground arith)
              | inl (moved, e2) ↦ (
                ground arith,
                ground arith,
                (λ f is. ground arith),
                λ no_mint. absurd (ground arith),
              )
            ]
      ]
  execute_steps env (approve_all operator expires) s s' r p =
      elim (Option-cases (api.addr_validate operator)) [
        | inl bad ↦ absurd (ground arith)
        | inr (a, e) ↦ (
          ground arith,
          ground arith,
          (λ f is. absurd (ground arith)),
          λ no_mint. absurd (ground arith),
        )
      ]
  execute_steps env (revoke_all operator) s s' r p =
      elim (Option-cases (api.addr_validate operator)) [
        | inl bad ↦ absurd (ground arith)
        | inr (a, e) ↦ (
          ground arith,
          ground arith,
          (λ f is. absurd (ground arith)),
          λ no_mint. absurd (ground arith),
        )
      ]
