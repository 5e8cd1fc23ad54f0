-- ===== src/Cw721/Steps.antt =====
-- What a successful message of cw721-base has done.
use cosmwasm_plus.Prelude.{
  ℕ, ◌≡◌, refl, Option, none, some, List, [], ok, nat_eq, pair_eq, arith, Option-cases, ok-cases,
  inl, inr, ◌⊎◌, unwrap_or, nat_beq_iff,
}
use cosmwasm_plus.Std.{Std}
use cosmwasm_plus.Storage
use cosmwasm_plus.Storage.{Map}
use cosmwasm_plus.Expiration.{Expiration, never}
use cosmwasm_plus.Indexed.{may_load, save, replace}
use cosmwasm_plus.Cw721.{
  TokenInfo, Approval, State, Env, MintMsg, ExecuteMsg, Response, owner_index, increment_tokens,
  check_can_approve, check_can_send, set_approval, execute_mint, transfer_token,
  execute_transfer_nft, execute_send_nft, update_approvals, execute_approve, execute_revoke,
  execute_approve_all, execute_revoke_all, execute, mint, approve, revoke, approve_all, revoke_all,
  transfer_nft, send_nft,
}

-- The token that a message mints.
abbrev pub minted : MintMsg → TokenInfo
minted msg = record {
  owner = msg.owner;
  approvals = [];
  name = msg.name;
  description = unwrap_or [] msg.description;
  image = msg.image;
}

module _ ⦃api : Std⦄ where
  pub mint_steps :
      (env : Env) (msg : MintMsg) (s : State) {s' : State} {r : Response}
      → execute_mint env msg s ≡ ok (s', r)
      → (count : ℕ) × (s.minter ≡ some env.sender)
        × (Storage.may_load msg.token_id s.tokens.primary ≡ none)
        × (increment_tokens s.token_count ≡ some count)
        × (s' ≡ record s {
          tokens =
              replace owner_index msg.token_id
                (some (minted msg))
                (Storage.may_load msg.token_id s.tokens.primary)
                s.tokens;
          token_count = some count;
        })
        × (r ≡ [])
  unfolding execute_mint may_load
  mint_steps env msg s p = elim (Option-cases s.minter) [
    | inl missing ↦ absurd (ground arith)
    | inr (minter, e) ↦ elim (Option-cases (api.addr_validate msg.owner)) [
      | inl bad ↦ absurd (ground arith)
      | inr (owner, e1) ↦
          let same = api.addr_validate_lem e1 in
          elim (Option-cases (Storage.may_load msg.token_id s.tokens.primary)) [
            | inr (old, taken) ↦ absurd (ground arith)
            | inl free ↦ elim (Option-cases (increment_tokens s.token_count)) [
              | inl over ↦ absurd (ground arith)
              | inr (count, e2) ↦ (
                count,
                ground (arith, nat_beq_iff env.sender minter),
                free,
                e2,
                ground arith,
                ground arith,
              )
            ]
          ]
    ]
  ]

  pub transfer_steps :
      (env : Env) (recipient token_id : ℕ) (s : State) {s' : State}
      → transfer_token env recipient token_id s ≡ ok s'
      → (token : TokenInfo) × (Storage.may_load token_id s.tokens.primary ≡ some token)
        × (check_can_send env token s ≡ ok tt)
        × (s' ≡ record s {
          tokens =
              save owner_index token_id
                (record token { owner = recipient; approvals = [] })
                s.tokens;
        })
  unfolding transfer_token
  transfer_steps env recipient token_id s p =
      elim (Option-cases (Storage.may_load token_id s.tokens.primary)) [
        | inl missing ↦ absurd (ground arith)
        | inr (token, e) ↦ elim (ok-cases (check_can_send env token s)) [
          | inr refused ↦ absurd (ground arith)
          | inl (_, e1) ↦ elim (Option-cases (api.addr_validate recipient)) [
            | inl bad ↦ absurd (ground arith)
            | inr (owner, e2) ↦ let same = api.addr_validate_lem e2 in (token, e, e1, ground arith)
          ]
        ]
      ]

  pub approvals_steps :
      (env : Env) (spender token_id : ℕ) (expires : Option Expiration) (s : State) {s' : State}
      → update_approvals env spender token_id expires s ≡ ok s'
      → (token : TokenInfo) × (approvals : List Approval) × (Storage.may_load token_id
            s.tokens.primary
          ≡ some token)
        × (check_can_approve env token s ≡ ok tt)
        × (set_approval env.block spender expires token.approvals ≡ ok approvals)
        × (s' ≡ record s {
          tokens = save owner_index token_id (record token { approvals = approvals }) s.tokens;
        })
  unfolding update_approvals
  approvals_steps env spender token_id expires s p =
      elim (Option-cases (Storage.may_load token_id s.tokens.primary)) [
        | inl missing ↦ absurd (ground arith)
        | inr (token, e) ↦ elim (ok-cases (check_can_approve env token s)) [
          | inr refused ↦ absurd (ground arith)
          | inl (_, e1) ↦ elim (Option-cases (api.addr_validate spender)) [
            | inl bad ↦ absurd (ground arith)
            | inr (addr, e2) ↦
                let same = api.addr_validate_lem e2 in
                elim (ok-cases (set_approval env.block spender expires token.approvals)) [
                  | inr late ↦ absurd (ground arith)
                  | inl (approvals, e3) ↦ (token, approvals, e, e1, e3, ground arith)
                ]
          ]
        ]
      ]

  -- A message transfers a token, changes its approvals, mints one, or leaves the tokens.
  pub execute-cases :
      (env : Env) (msg : ExecuteMsg) (s s' : State) (r : Response)
      → execute env msg s ≡ ok (s', r)
      → ((s'.tokens ≡ s.tokens) × (s'.token_count ≡ s.token_count))
        ⊎ ((m : MintMsg) × (msg ≡ mint m) × (execute_mint env m s ≡ ok (s', r)))
        ⊎ ((recipient : ℕ) × (id : ℕ) × ((msg ≡ transfer_nft recipient id)
              ⊎ ((payload : List ℕ) × (msg ≡ send_nft recipient id payload)))
            × (transfer_token env recipient id s ≡ ok s'))
        ⊎ ((spender : ℕ) × (id : ℕ) × (until : Option Expiration) × (((expires : Option Expiration)
                × (msg ≡ approve spender id expires))
              ⊎ (msg ≡ revoke spender id))
            × (update_approvals env spender id until s ≡ ok s'))
  unfolding execute execute_transfer_nft execute_send_nft execute_approve execute_revoke
      execute_approve_all execute_revoke_all
  execute-cases env (mint m) s s' r p = inr (inl (m, refl, p))
  execute-cases env (transfer_nft recipient id) s s' r p =
      elim (ok-cases (transfer_token env recipient id s)) [
        | inr failed ↦ absurd (ground arith)
        | inl (t, e) ↦ inr (inr (inl (recipient, id, inl refl, ground arith)))
      ]
  execute-cases env (send_nft recipient id payload) s s' r p =
      elim (ok-cases (transfer_token env recipient id s)) [
        | inr failed ↦ absurd (ground arith)
        | inl (t, e) ↦ inr (inr (inl (recipient, id, inr (payload, refl), ground arith)))
      ]
  execute-cases env (approve spender id expires) s s' r p =
      let until = some (unwrap_or never expires) in
      elim (ok-cases (update_approvals env spender id until s)) [
        | inr failed ↦ absurd (ground arith)
        | inl (t, e) ↦ inr (inr (inr (spender, id, until, inl (expires, refl), ground arith)))
      ]
  execute-cases env (revoke spender id) s s' r p =
      elim (ok-cases (update_approvals env spender id none s)) [
        | inr failed ↦ absurd (ground arith)
        | inl (t, e) ↦ inr (inr (inr (spender, id, none, inr refl, ground arith)))
      ]
  execute-cases env (approve_all operator expires) s s' r p =
      elim (Option-cases (api.addr_validate operator)) [
        | inl bad ↦ absurd (ground arith)
        | inr (addr, e) ↦ inl (ground arith)
      ]
  execute-cases env (revoke_all operator) s s' r p =
      elim (Option-cases (api.addr_validate operator)) [
        | inl bad ↦ absurd (ground arith)
        | inr (addr, e) ↦ inl (ground arith)
      ]
