-- ===== src/Cw20/Genesis.antt =====
-- What `instantiate` of cw20-base leaves: balances, supply, and the accounts that are listed twice.
use Prim.Native.String.{String}
use cosmwasm_plus.Prelude.{
  ℕ, ◌+◌, ◌<◌, ◌≡◌, false, some, List, [], ◌∷◌, ok, nat_eq, pair_eq, u128_mod, arith, Option-cases,
  inl, inr,
}
use cosmwasm_plus.Std.{Std}
use cosmwasm_plus.Storage.Repeats
use cosmwasm_plus.Storage.{Map, save}
use cosmwasm_plus.Storage.Laws.{sum, sum-save}
use cosmwasm_plus.Cw20.Defs.{State, Response, Cw20Coin, InstantiateMsg, TokenInfo, get_cap}
use cosmwasm_plus.Cw20.Execute.{exceeds}
use cosmwasm_plus.Cw20.Instantiate.{create_accounts_from, create_accounts, instantiate}
use cosmwasm_plus.Cw20.Supply.{supply_of, IsValid}

-- The amounts of the rows whose address is listed again further down.
abbrev pub shadowed : List Cw20Coin → ℕ
shadowed = Repeats.shadowed (λ row. row.address) (λ row. row.amount)

abbrev held : List Cw20Coin → Map ℕ ℕ → ℕ
held = Repeats.held (λ row. row.address) (λ row. row.amount)

module _ ⦃api : Std⦄ where
  create_accounts_from-sum :
      (acc : ℕ) (rows : List Cw20Coin) (m : Map ℕ ℕ) (t : ℕ) (m' : Map ℕ ℕ)
      → create_accounts_from acc rows m ≡ ok (t, m')
      → acc < u128_mod
      → (sum m' + shadowed rows + held rows m + acc ≡ sum m + t) × (t < u128_mod)
  unfolding create_accounts_from Repeats.held
  create_accounts_from-sum acc [] m t m' p h = ground arith
  create_accounts_from-sum acc (row ∷ rows) m t m' p h =
      elim (Option-cases (api.addr_validate row.address)) [
        | inl bad ↦ absurd (ground arith)
        | inr (a, good) ↦
            let same = api.addr_validate_lem good in
            ground (
              arith,
              api.uint_add_lem acc row.amount,
              create_accounts_from-sum (acc + row.amount) rows (save row.address row.amount m) t m',
              sum-save row.address row.amount m,
              Repeats.held-save (λ r. r.address) (λ r. r.amount) row.address row.amount rows m,
            )
      ]

  create_accounts-sum :
      (rows : List Cw20Coin) (t : ℕ) (m : Map ℕ ℕ)
      → create_accounts rows [] ≡ ok (t, m)
      → (sum m + shadowed rows ≡ t) × (t < u128_mod)
  unfolding create_accounts
  create_accounts-sum rows t m p = omega (
    arith,
    create_accounts_from-sum 0 rows [] t m p (omega arith),
    Repeats.held-nil (λ row. row.address) (λ row. row.amount) rows,
  )

  -- What a successful `instantiate` has stored.
  instantiate_steps :
      (version : String) (msg : InstantiateMsg) {s : State} {r : Response}
      → instantiate version msg ≡ ok (s, r)
      → (t : TokenInfo) × (s.token_info ≡ some t)
        × (create_accounts msg.initial_balances [] ≡ ok (t.total_supply, s.balances))
        × (exceeds t.total_supply (get_cap t) ≡ false)
        × (s.allowances ≡ [])
        × (r ≡ [])
  unfolding instantiate
  instantiate_steps version msg {s} p = elim (Option-cases s.token_info) [
    | inl missing ↦ absurd (ground arith)
    | inr (t, e) ↦ elim (Option-cases msg.mint) [
      | inl unminted ↦ (t, e, ground arith, ground arith, ground arith, ground arith)
      | inr (m, minted) ↦ (t, e, ground arith, ground arith, ground arith, ground arith)
    ]
  ]

  -- After `instantiate` the balances add up to the total supply less the amounts of the accounts
  -- that are listed again further down: a repeated account keeps only its last amount, while the
  -- supply counts every row.
  pub instantiate-sum :
      (version : String) (msg : InstantiateMsg) (s : State) {r : Response}
      → instantiate version msg ≡ ok (s, r)
      → sum s.balances + shadowed msg.initial_balances ≡ supply_of s.token_info
  instantiate-sum version msg s p =
      let (t, e, made, _, _, _) = instantiate_steps version msg p in
      rw e (create_accounts-sum msg.initial_balances t.total_supply s.balances made).0

  -- A token that is instantiated starts valid: its balances are within the supply, and the supply
  -- is within the cap.
  pub instantiate-IsValid :
      (version : String) (msg : InstantiateMsg) (s : State) {r : Response}
      → instantiate version msg ≡ ok (s, r)
      → IsValid s
  instantiate-IsValid version msg s p =
      let (t, e, made, within, _, _) = instantiate_steps version msg p in
      let (sums, fits) = create_accounts-sum msg.initial_balances t.total_supply s.balances made in
      rw e (omega arith, fits, within)
