-- ===== src/Escrow/Funds.antt =====
-- The funds that cw20-escrow holds, gets and pays out.
use cosmwasm_plus.Prelude.{
  ℕ, ◌+◌, ◌≡◌, refl, some, List, [], ◌∷◌, ◌++◌, map, ok, nat_eq, arith, Option-cases, inl, inr,
  if◌then◌else◌, nat_beq_iff,
}
use cosmwasm_plus.Std.{Std}
use cosmwasm_plus.Storage.{may_load, remove}
use cosmwasm_plus.Storage.Distinct.{IsDistinct, save-IsDistinct, remove-IsDistinct}
use cosmwasm_plus.Storage.Weights.{weight, weight-save, weight-remove}
use cosmwasm_plus.Balance.{Coin}
use cosmwasm_plus.Balance.Totals.{coin_in, coins_in}
use cosmwasm_plus.Escrow.{
  GenericBalance, Escrow, CreateMsg, State, Env, create_received, top_up_received, ExecuteMsg,
  create, top_up, approve, refund, receive, Response, no_coins, first_balance, add_native,
  add_natives, add_cw20, add_tokens, send_tokens, execute_create, execute_top_up, execute_receive,
  execute,
}
use cosmwasm_plus.Funds.{
  Cw20CoinVerified, Balance, native_balance, cw20_balance, bank_send, cw20_transfer,
}
use cosmwasm_plus.Funds.Assets.{Asset, coin_of, token_of, token_in, tokens_in, in_funds, paid}
use cosmwasm_plus.Escrow.Steps.{create_steps, top_up_steps, approve_steps, refund_steps}

abbrev pub in_balance : Asset → GenericBalance → ℕ
in_balance (coin_of e) b = coins_in e b.native
in_balance (token_of t) b = tokens_in t b.cw20

-- What all escrows hold of an asset.
abbrev pub held : Asset → State → ℕ
held x s = weight (λ escrow. in_balance x escrow.balance) s

-- What a message puts into an escrow: the native funds that come with it, or the tokens that the
-- calling cw20 contract says it has sent.
abbrev pub received : Asset → Env → ExecuteMsg → ℕ
received x env (create _) = in_funds x (native_balance env.funds)
received x env (top_up _) = in_funds x (native_balance env.funds)
received x env (approve _) = 0
received x env (refund _) = 0
received x env (receive _ amount _) =
    in_funds x (cw20_balance (record { address = env.sender; amount = amount }))

paid_transfers :
    (x : Asset) (to : ℕ) (coins : List Cw20CoinVerified)
    → paid x (map (λ c. cw20_transfer c.address to c.amount) coins)
      ≡ in_balance x (record { native = []; cw20 = coins })
paid_transfers (coin_of e) to [] = refl
paid_transfers (coin_of e) to (c ∷ coins) = omega (arith, paid_transfers (coin_of e) to coins)
paid_transfers (token_of t) to [] = refl
paid_transfers (token_of t) to (c ∷ coins) = omega (arith, paid_transfers (token_of t) to coins)

paid_both :
    (x : Asset) (to : ℕ) (coins : List Coin) (tokens : List Cw20CoinVerified)
    → paid x (
        (if no_coins coins then [] else bank_send to coins ∷ [])
        ++ map (λ c. cw20_transfer c.address to c.amount) tokens)
      ≡ in_balance x (record { native = coins; cw20 = tokens })
paid_both x to [] tokens = paid_transfers x to tokens
paid_both (coin_of e) to (c ∷ coins) tokens = omega (arith, paid_transfers (coin_of e) to tokens)
paid_both (token_of t) to (c ∷ coins) tokens = omega (arith, paid_transfers (token_of t) to tokens)

-- Sending tokens out pays all that the balance holds.
send_tokens-paid :
    (x : Asset) (to : ℕ) (b : GenericBalance) → paid x (send_tokens to b) ≡ in_balance x b
unfolding send_tokens
send_tokens-paid (coin_of e) to b = paid_both (coin_of e) to b.native b.cw20
send_tokens-paid (token_of t) to b = paid_both (token_of t) to b.native b.cw20

first_balance-funds :
    (x : Asset) (balance : Balance) (whitelist : List ℕ)
    → in_balance x (first_balance balance whitelist).0 ≡ in_funds x balance
unfolding first_balance
first_balance-funds (coin_of e) (native_balance coins) whitelist = refl
first_balance-funds (token_of t) (native_balance coins) whitelist = refl
first_balance-funds (coin_of e) (cw20_balance token) whitelist = refl
first_balance-funds (token_of t) (cw20_balance token) whitelist = omega arith

module _ ⦃api : Std⦄ where
  add_native-coins :
      (e : ℕ) (token : Coin) (coins coins' : List Coin)
      → add_native token coins ≡ some coins'
      → coins_in e coins' ≡ coins_in e coins + coin_in e token
  unfolding add_native
  add_native-coins e token [] coins' p = ground arith
  add_native-coins e token (c ∷ coins) coins' p = elim (Option-cases (add_native token coins)) [
    | inl over ↦
        ground (arith, api.uint_add_lem c.amount token.amount, nat_beq_iff c.denom token.denom)
    | inr (rest, found) ↦ ground (
      arith,
      api.uint_add_lem c.amount token.amount,
      add_native-coins e token coins rest found,
      nat_beq_iff c.denom token.denom,
    )
  ]

  add_natives-coins :
      (e : ℕ) (tokens coins coins' : List Coin)
      → add_natives tokens coins ≡ some coins'
      → coins_in e coins' ≡ coins_in e coins + coins_in e tokens
  unfolding add_natives
  add_natives-coins e [] coins coins' p = ground arith
  add_natives-coins e (token ∷ tokens) coins coins' p =
      elim (Option-cases (add_native token coins)) [
        | inl over ↦ absurd (ground arith)
        | inr (sum, found) ↦
            let first = add_native-coins e token coins sum found in
            let rest = add_natives-coins e tokens sum coins' (ground arith) in omega arith
      ]

  add_cw20-tokens :
      (t : ℕ) (token : Cw20CoinVerified) (coins coins' : List Cw20CoinVerified)
      → add_cw20 token coins ≡ some coins'
      → tokens_in t coins' ≡ tokens_in t coins + token_in t token
  unfolding add_cw20
  add_cw20-tokens t token [] coins' p = ground arith
  add_cw20-tokens t token (c ∷ coins) coins' p = elim (Option-cases (add_cw20 token coins)) [
    | inl over ↦
        ground (arith, api.uint_add_lem c.amount token.amount, nat_beq_iff c.address token.address)
    | inr (rest, found) ↦ ground (
      arith,
      api.uint_add_lem c.amount token.amount,
      add_cw20-tokens t token coins rest found,
      nat_beq_iff c.address token.address,
    )
  ]

  add_tokens-funds :
      (x : Asset) (balance : Balance) (b more : GenericBalance)
      → add_tokens balance b ≡ some more
      → in_balance x more ≡ in_balance x b + in_funds x balance
  unfolding add_tokens
  add_tokens-funds (coin_of e) (native_balance tokens) b more p =
      elim (Option-cases (add_natives tokens b.native)) [
        | inl over ↦ absurd (ground arith)
        | inr (coins, found) ↦
            let made : more ≡ record b { native = coins } = ground arith in
            rw made (add_natives-coins e tokens b.native coins found)
      ]
  add_tokens-funds (token_of t) (native_balance tokens) b more p =
      elim (Option-cases (add_natives tokens b.native)) [
        | inl over ↦ absurd (ground arith)
        | inr (coins, found) ↦
            let made : more ≡ record b { native = coins } = ground arith in rw made (omega arith)
      ]
  add_tokens-funds (coin_of e) (cw20_balance token) b more p =
      elim (Option-cases (add_cw20 token b.cw20)) [
        | inl over ↦ absurd (ground arith)
        | inr (tokens, found) ↦
            let made : more ≡ record b { cw20 = tokens } = ground arith in rw made (omega arith)
      ]
  add_tokens-funds (token_of t) (cw20_balance token) b more p =
      elim (Option-cases (add_cw20 token b.cw20)) [
        | inl over ↦ absurd (ground arith)
        | inr (tokens, found) ↦
            let made : more ≡ record b { cw20 = tokens } = ground arith in
            rw made (add_cw20-tokens t token b.cw20 tokens found)
      ]

  -- Every step of the funds: the map keeps its keys distinct, and what it holds of an asset and what
  -- is paid out is what it held and what came in.
  abbrev Conserves : Asset → ℕ → State → State → Response → Type 0
  Conserves x more s s' r = held x s' + paid x r ≡ held x s + more

  execute_create-Conserves :
      (x : Asset) (msg : CreateMsg) (balance : Balance) (sender : ℕ) (s s' : State) (r : Response)
      → IsDistinct s
      → execute_create msg balance sender s ≡ ok (s', r)
      → IsDistinct s' × Conserves x (in_funds x balance) s s' r
  execute_create-Conserves x msg balance sender s s' r d p =
      let (valid, escrow, free, funded, made, silent) = create_steps msg balance sender s p in
      let starts : in_balance x escrow.balance ≡ in_funds x balance =
        rw funded (first_balance-funds x balance valid) in
      rw (made, silent)
        (
          save-IsDistinct msg.id escrow s d,
          ground (arith, weight-save (λ escrow. in_balance x escrow.balance) msg.id escrow s),
        )

  execute_top_up-Conserves :
      (x : Asset) (id : ℕ) (balance : Balance) (s s' : State) (r : Response)
      → IsDistinct s
      → execute_top_up id balance s ≡ ok (s', r)
      → IsDistinct s' × Conserves x (in_funds x balance) s s' r
  execute_top_up-Conserves x id balance s s' r d p =
      let (escrow, more, stored, added, made, silent) = top_up_steps id balance s p in
      let grows = add_tokens-funds x balance escrow.balance more added in
      rw (made, silent)
        (
          save-IsDistinct id (record escrow { balance = more }) s d,
          ground (
            arith,
            weight-save (λ escrow. in_balance x escrow.balance) id
                (record escrow { balance = more }) s,
          ),
        )

  send_tokens-Conserves :
      (x : Asset) (id to : ℕ) (escrow : Escrow) (s : State)
      → IsDistinct s
      → may_load id s ≡ some escrow
      → IsDistinct (remove id s) × Conserves x 0 s (remove id s) (send_tokens to escrow.balance)
  send_tokens-Conserves x id to escrow s d stored = (
    remove-IsDistinct id s d,
    ground (
      arith,
      weight-remove (λ escrow. in_balance x escrow.balance) id s d,
      send_tokens-paid x to escrow.balance,
    ),
  )

  -- Of every native token and every cw20 token: what all escrows hold after a successful message,
  -- and what the message pays out, add up to what the escrows held before and what the message puts
  -- in. The escrows keep one entry per id.
  pub execute_conserves :
      (x : Asset) (env : Env) (msg : ExecuteMsg) (s s' : State) (r : Response)
      → IsDistinct s
      → execute env msg s ≡ ok (s', r)
      → IsDistinct s' × (held x s' + paid x r ≡ held x s + received x env msg)
  unfolding execute execute_receive
  execute_conserves x env (create msg) s s' r d p =
      execute_create-Conserves x msg (native_balance env.funds) env.sender s s' r d p
  execute_conserves x env (top_up id) s s' r d p =
      execute_top_up-Conserves x id (native_balance env.funds) s s' r d p
  execute_conserves x env (approve id) s s' r d p =
      let (escrow, stored, _, _, made, sends) = approve_steps env id s p in
      rw (made, sends) (send_tokens-Conserves x id escrow.recipient escrow s d stored)
  execute_conserves x env (refund id) s s' r d p =
      let (escrow, _, stored, _, _, made, sends) = refund_steps env id s p in
      rw (made, sends) (send_tokens-Conserves x id escrow.source escrow s d stored)
  execute_conserves x env (receive sender amount (create_received msg)) s s' r d p =
      elim (Option-cases (api.addr_validate sender)) [
        | inl bad ↦ absurd (ground arith)
        | inr (from, e) ↦
            execute_create-Conserves x msg
              (cw20_balance (record { address = env.sender; amount = amount })) from s s' r d
              (ground arith)
      ]
  execute_conserves x env (receive sender amount (top_up_received id)) s s' r d p =
      execute_top_up-Conserves x id
        (cw20_balance (record { address = env.sender; amount = amount })) s s' r d p
