-- ===== src/Swap/Funds.antt =====
-- The funds that cw20-atomic-swap holds, gets and pays out.
use cosmwasm_plus.Prelude.{
  ℕ, ◌+◌, ◌≡◌, refl, true, some, List, [], ◌∷◌, ok, nat_eq, bytes_eq, arith, inl, inr, nat_beq_iff,
  Bool-cases,
}
use cosmwasm_plus.Std.{Std}
use cosmwasm_plus.Storage.{may_load, remove}
use cosmwasm_plus.Storage.Distinct.{IsDistinct, save-IsDistinct, remove-IsDistinct}
use cosmwasm_plus.Storage.Weights.{weight, weight-save, weight-remove}
use cosmwasm_plus.Balance.{Coin, is_empty}
use cosmwasm_plus.Balance.Totals.{coins_in}
use cosmwasm_plus.Funds.{Balance, native_balance, cw20_balance, balance_is_empty}
use cosmwasm_plus.Funds.Assets.{Asset, coin_of, token_of, in_funds, paid, no_funds}
use cosmwasm_plus.Swap.{
  Hashing, AtomicSwap, State, Env, ExecuteMsg, Response, message, send_tokens, execute,
}
use cosmwasm_plus.Swap.Steps.{release_steps, refund_steps, create_steps, received, execute-cases}

-- What all swaps hold of an asset.
abbrev pub held : Asset → State → ℕ
held x s = weight (λ swap. in_funds x swap.balance) s

is_empty-coins : (e : ℕ) (coins : List Coin) → is_empty coins ≡ true → coins_in e coins ≡ 0
unfolding is_empty
is_empty-coins e [] p = refl
is_empty-coins e (c ∷ coins) p = ground (arith, is_empty-coins e coins, nat_beq_iff c.amount 0)

balance_is_empty-funds : (x : Asset) (b : Balance) → balance_is_empty b ≡ true → in_funds x b ≡ 0
unfolding balance_is_empty
balance_is_empty-funds (coin_of e) (native_balance coins) p = is_empty-coins e coins p
balance_is_empty-funds (token_of t) (native_balance coins) p = refl
balance_is_empty-funds (coin_of e) (cw20_balance c) p = refl
balance_is_empty-funds (token_of t) (cw20_balance c) p = ground (arith, nat_beq_iff c.amount 0)

sent : (x : Asset) (to : ℕ) (b : Balance) → paid x (message to b) ≡ in_funds x b
sent (coin_of e) to (native_balance coins) = omega arith
sent (token_of t) to (native_balance coins) = refl
sent (coin_of e) to (cw20_balance c) = refl
sent (token_of t) to (cw20_balance c) = omega arith

-- Sending a balance pays all of it.
pub send_tokens-paid : (x : Asset) (to : ℕ) (b : Balance) → paid x (send_tokens to b) ≡ in_funds x b
unfolding send_tokens
send_tokens-paid x to b = elim (Bool-cases (balance_is_empty b)) [
  | inl empty ↦ rw (empty, balance_is_empty-funds x b empty) refl
  | inr full ↦ rw full (sent x to b)
]

pays_out :
    (x : Asset) (id : List ℕ) (to : ℕ) (swap : AtomicSwap) (s : State)
    → IsDistinct s
    → may_load id s ≡ some swap
    → IsDistinct (remove id s)
      × (held x (remove id s) + paid x (send_tokens to swap.balance)
          ≡ held x s + in_funds x (native_balance []))
pays_out x id to swap s d stored =
    let nothing : in_funds x (native_balance []) ≡ 0 = no_funds x in
    (
      remove-IsDistinct id s d,
      ground (
        arith,
        weight-remove (λ swap. in_funds x swap.balance) id s d,
        send_tokens-paid x to swap.balance,
      ),
    )

module _ ⦃api : Std⦄ (crypto : Hashing) where
  -- Of every native token and every cw20 token: what all swaps hold after a successful message, and
  -- what the message pays out, add up to what the swaps held before and what the message puts in.
  -- The swaps keep one entry per id.
  pub swap_conserves :
      (x : Asset) (env : Env) (msg : ExecuteMsg) (s s' : State) (r : Response)
      → IsDistinct s
      → execute crypto env msg s ≡ ok (s', r)
      → IsDistinct s' × (held x s' + paid x r ≡ held x s + in_funds x (received env msg))
  swap_conserves x env msg s s' r d p = elim (execute-cases crypto env msg s s' r p) [
    | inl (from, m, e) ↦
        let (hash, _, free, _, _, made, silent) =
          create_steps crypto env.block from m (received env msg) s e in
        let swap : AtomicSwap = record {
          hash = hash;
          recipient = m.recipient;
          source = from;
          expires = m.expires;
          balance = received env msg;
        } in
        rw (made, silent)
          (
            save-IsDistinct m.id swap s d,
            ground (arith, weight-save (λ swap. in_funds x swap.balance) m.id swap s),
          )
    | inr (inl (id, preimage, is, e)) ↦
        let (swap, bin, stored, _, _, _, made, sends) =
          release_steps crypto env.block id preimage s e in
        rw (is, made, sends) (pays_out x id swap.recipient swap s d stored)
    | inr (inr (id, is, e)) ↦
        let (swap, stored, _, made, sends) = refund_steps env.block id s e in
        rw (is, made, sends) (pays_out x id swap.source swap s d stored)
  ]
