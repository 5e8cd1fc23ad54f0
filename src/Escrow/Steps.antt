-- ===== src/Escrow/Steps.antt =====
-- What a successful call of each handler of cw20-escrow has done.
use cosmwasm_plus.Prelude.{
  ℕ, ◌≡◌, refl, Bool, false, not, ◌&&◌, none, some, List, [], ok, ◌==◌, nat_eq, arith, Option-cases,
  ok-cases, inl, inr,
}
use cosmwasm_plus.Std.{Std}
use cosmwasm_plus.Storage.{may_load, save, remove}
use cosmwasm_plus.Escrow.{
  GenericBalance, Escrow, CreateMsg, State, Env, Response, first_balance, addr_whitelist,
  add_tokens, is_expired, send_tokens, execute_create, execute_top_up, execute_approve,
  execute_refund,
}
use cosmwasm_plus.Funds.{Balance}

module _ ⦃api : Std⦄ where
  pub create_steps :
      (msg : CreateMsg) (balance : Balance) (sender : ℕ) (s : State) {s' : State} {r : Response}
      → execute_create msg balance sender s ≡ ok (s', r)
      → (valid : List ℕ) × (escrow : Escrow) × (may_load msg.id s ≡ none)
        × (escrow.balance ≡ (first_balance balance valid).0)
        × (s' ≡ save msg.id escrow s)
        × (r ≡ [])
  unfolding execute_create
  create_steps msg balance sender s p = elim (ok-cases (addr_whitelist msg)) [
    | inr bad ↦ absurd (ground arith)
    | inl (valid, e) ↦ elim (Option-cases (api.addr_validate msg.arbiter)) [
      | inl bad ↦ absurd (ground arith)
      | inr (arbiter, e1) ↦ elim (Option-cases (api.addr_validate msg.recipient)) [
        | inl bad ↦ absurd (ground arith)
        | inr (recipient, e2) ↦ elim (Option-cases (may_load msg.id s)) [
          | inr (old, taken) ↦ absurd (ground arith)
          | inl free ↦
              let escrow : Escrow = record {
                arbiter = arbiter;
                recipient = recipient;
                source = sender;
                end_height = msg.end_height;
                end_time = msg.end_time;
                balance = (first_balance balance valid).0;
                cw20_whitelist = (first_balance balance valid).1;
              } in
              (valid, escrow, free, refl, ground arith, ground arith)
        ]
      ]
    ]
  ]

  pub top_up_steps :
      (id : ℕ) (balance : Balance) (s : State) {s' : State} {r : Response}
      → execute_top_up id balance s ≡ ok (s', r)
      → (escrow : Escrow) × (more : GenericBalance) × (may_load id s ≡ some escrow)
        × (add_tokens balance escrow.balance ≡ some more)
        × (s' ≡ save id (record escrow { balance = more }) s)
        × (r ≡ [])
  unfolding execute_top_up
  top_up_steps id balance s p = elim (Option-cases (may_load id s)) [
    | inl missing ↦ absurd (ground arith)
    | inr (escrow, e) ↦ elim (Option-cases (add_tokens balance escrow.balance)) [
      | inl over ↦ absurd (ground arith)
      | inr (more, e1) ↦ (escrow, more, e, e1, ground arith, ground arith)
    ]
  ]

  pub approve_steps :
      (env : Env) (id : ℕ) (s : State) {s' : State} {r : Response}
      → execute_approve env id s ≡ ok (s', r)
      → (escrow : Escrow) × (may_load id s ≡ some escrow)
        × (env.sender ≡ escrow.arbiter)
        × (is_expired env.block escrow ≡ some false)
        × (s' ≡ remove id s)
        × (r ≡ send_tokens escrow.recipient escrow.balance)
  unfolding execute_approve
  approve_steps env id s p = elim (Option-cases (may_load id s)) [
    | inl missing ↦ absurd (ground arith)
    | inr (escrow, e) ↦ elim (Option-cases (is_expired env.block escrow)) [
      | inl over ↦ absurd (ground arith)
      | inr (late, e1) ↦ (escrow, e, ground arith, ground arith, ground arith, ground arith)
    ]
  ]

  pub refund_steps :
      (env : Env) (id : ℕ) (s : State) {s' : State} {r : Response}
      → execute_refund env id s ≡ ok (s', r)
      → (escrow : Escrow) × (late : Bool) × (may_load id s ≡ some escrow)
        × (is_expired env.block escrow ≡ some late)
        × ((not late && not (env.sender == escrow.arbiter)) ≡ false)
        × (s' ≡ remove id s)
        × (r ≡ send_tokens escrow.source escrow.balance)
  unfolding execute_refund
  refund_steps env id s p = elim (Option-cases (may_load id s)) [
    | inl missing ↦ absurd (ground arith)
    | inr (escrow, e) ↦ elim (Option-cases (is_expired env.block escrow)) [
      | inl over ↦ absurd (ground arith)
      | inr (late, e1) ↦ (escrow, late, e, e1, ground arith, ground arith, ground arith)
    ]
  ]
