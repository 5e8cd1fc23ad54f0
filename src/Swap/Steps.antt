-- ===== src/Swap/Steps.antt =====
-- What a successful call of each handler of cw20-atomic-swap has done.
use cosmwasm_plus.Prelude.{
  ℕ, ◌≡◌, refl, true, false, none, some, List, [], ok, nat_eq, bytes_eq, bytes_beq_iff, arith,
  Option-cases, ok-cases, inl, inr, ◌⊎◌,
}
use cosmwasm_plus.Std.{Std, BlockInfo}
use cosmwasm_plus.Storage.{may_load, save, remove}
use cosmwasm_plus.Expiration.{is_expired}
use cosmwasm_plus.Funds.{Balance, native_balance, cw20_balance, balance_is_empty}
use cosmwasm_plus.Swap.{
  Hashing, AtomicSwap, CreateMsg, State, Env, create_received, ExecuteMsg, create, release, refund,
  receive, Response, parse_hex_32, send_tokens, execute_create, execute_release, execute_refund,
  execute_receive, execute,
}

module _ (crypto : Hashing) where
  pub release_steps :
      (block : BlockInfo) (id preimage : List ℕ) (s : State) {s' : State} {r : Response}
      → execute_release crypto block id preimage s ≡ ok (s', r)
      → (swap : AtomicSwap) × (bin : List ℕ) × (may_load id s ≡ some swap)
        × (is_expired swap.expires block ≡ false)
        × (parse_hex_32 crypto preimage ≡ ok bin)
        × (crypto.sha256 bin ≡ swap.hash)
        × (s' ≡ remove id s)
        × (r ≡ send_tokens swap.recipient swap.balance)
  unfolding execute_release
  release_steps block id preimage s p = elim (Option-cases (may_load id s)) [
    | inl missing ↦ absurd (ground arith)
    | inr (swap, e) ↦ elim (ok-cases (parse_hex_32 crypto preimage)) [
      | inr bad ↦ absurd (ground arith)
      | inl (bin, e1) ↦ (
        swap,
        bin,
        e,
        ground arith,
        e1,
        ground (arith, bytes_beq_iff (crypto.sha256 bin) swap.hash),
        ground arith,
        ground arith,
      )
    ]
  ]

pub refund_steps :
    (block : BlockInfo) (id : List ℕ) (s : State) {s' : State} {r : Response}
    → execute_refund block id s ≡ ok (s', r)
    → (swap : AtomicSwap) × (may_load id s ≡ some swap)
      × (is_expired swap.expires block ≡ true)
      × (s' ≡ remove id s)
      × (r ≡ send_tokens swap.source swap.balance)
unfolding execute_refund
refund_steps block id s p = elim (Option-cases (may_load id s)) [
  | inl missing ↦ absurd (ground arith)
  | inr (swap, e) ↦ (swap, e, ground arith, ground arith, ground arith)
]

-- What a message puts into a swap: the native funds that come with it, or the tokens that the
-- calling cw20 contract says it has sent.
abbrev pub received : Env → ExecuteMsg → Balance
received env (create _) = native_balance env.funds
received env (receive _ amount _) = cw20_balance (record { address = env.sender; amount = amount })
received env _ = native_balance []

module _ ⦃api : Std⦄ (crypto : Hashing) where
  pub create_steps :
      (block : BlockInfo) (sender : ℕ) (msg : CreateMsg) (balance : Balance) (s : State)
      {s' : State} {r : Response}
      → execute_create crypto block sender msg balance s ≡ ok (s', r)
      → (hash : List ℕ) × (parse_hex_32 crypto msg.hash ≡ ok hash)
        × (may_load msg.id s ≡ none)
        × (balance_is_empty balance ≡ false)
        × (is_expired msg.expires block ≡ false)
        × (s'
            ≡ save msg.id
                (record {
                  hash = hash;
                  recipient = msg.recipient;
                  source = sender;
                  expires = msg.expires;
                  balance = balance;
                })
                s)
        × (r ≡ [])
  unfolding execute_create
  create_steps block sender msg balance s p = elim (ok-cases (parse_hex_32 crypto msg.hash)) [
    | inr bad ↦ absurd (ground arith)
    | inl (hash, e) ↦ elim (Option-cases (api.addr_validate msg.recipient)) [
      | inl bad ↦ absurd (ground arith)
      | inr (recipient, e1) ↦
          let same = api.addr_validate_lem e1 in
          elim (Option-cases (may_load msg.id s)) [
            | inr (old, taken) ↦ absurd (ground arith)
            | inl free ↦ (hash, e, free, ground arith, ground arith, ground arith, ground arith)
          ]
    ]
  ]

  -- A message creates a swap, releases one or refunds one.
  pub execute-cases :
      (env : Env) (msg : ExecuteMsg) (s s' : State) (r : Response)
      → execute crypto env msg s ≡ ok (s', r)
      → ((from : ℕ) × (m : CreateMsg) × (execute_create crypto env.block from m (received env msg) s
            ≡ ok (s', r)))
        ⊎ ((id : List ℕ) × (preimage : List ℕ) × (msg ≡ release id preimage)
            × (execute_release crypto env.block id preimage s ≡ ok (s', r)))
        ⊎ ((id : List ℕ) × (msg ≡ refund id) × (execute_refund env.block id s ≡ ok (s', r)))
  unfolding execute execute_receive
  execute-cases env (create msg) s s' r p = inl (env.sender, msg, p)
  execute-cases env (release id preimage) s s' r p = inr (inl (id, preimage, refl, p))
  execute-cases env (refund id) s s' r p = inr (inr (id, refl, p))
  execute-cases env (receive sender amount (create_received msg)) s s' r p =
      elim (Option-cases (api.addr_validate sender)) [
        | inl bad ↦ absurd (ground arith)
        | inr (from, e) ↦ inl (from, msg, ground arith)
      ]
