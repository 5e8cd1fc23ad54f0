-- ===== src/Balance/Totals.antt =====
-- What adding and subtracting coins does to the amount of every denomination.
use cosmwasm_plus.Prelude.{
  ℕ, ◌+◌, ◌-◌, ◌≡◌, ◌≤◌, ◌<◌, ◌↔◌, refl, Bool, true, ◌&&◌, ltb, some, List, [], ◌∷◌, ok, ◌==◌,
  nat_eq, leb, if◌then◌else◌, arith, Option-cases, inl, inr, Bool-cases, ok-cases, is_ok,
  nat_beq_iff,
}
use cosmwasm_plus.Std.{Std}
use cosmwasm_plus.Balance.{
  Coin, NativeBalance, find, has, set_amount, remove_coin, insert_coin, add_assign, sub, sub_all,
  sub_saturating,
}
use cosmwasm_plus.Balance.Laws.{
  amount_in, is_above, is_sorted, sorted-set_amount, sorted-remove_coin, sorted-insert_coin,
  find-set_amount, find-remove_coin, find-insert_coin,
}

-- The amount of a denomination in one coin, and in some coins.
abbrev pub coin_in : ℕ → Coin → ℕ
coin_in e c = if c.denom == e then c.amount else 0

abbrev pub coins_in : ℕ → List Coin → ℕ
coins_in e [] = 0
coins_in e (c ∷ coins) = coin_in e c + coins_in e coins

coins_in-above :
    (d e : ℕ) (coins : NativeBalance) → is_above d coins ≡ true → e ≤ d → coins_in e coins ≡ 0
coins_in-above d e [] a le = refl
coins_in-above d e (c ∷ coins) a le =
    ground (arith, coins_in-above d e coins, nat_beq_iff c.denom e)

-- In a sorted balance the amount of a denomination is that of its one coin.
amount_in-coins_in :
    (e : ℕ) (coins : NativeBalance) → is_sorted coins ≡ true → amount_in e coins ≡ coins_in e coins
unfolding find
amount_in-coins_in e [] s = refl
amount_in-coins_in e (c ∷ coins) s = elim (Bool-cases (c.denom == e)) [
  | inl here ↦ let rest = coins_in-above c.denom e coins in ground (arith, nat_beq_iff c.denom e)
  | inr other ↦ ground (arith, amount_in-coins_in e coins)
]

-- Every coin has some amount, as the bank asks for.
abbrev pub all_positive : List Coin → Bool
all_positive [] = true
all_positive (c ∷ coins) = ltb 0 c.amount && all_positive coins

module _ ⦃api : Std⦄ where
  -- Adding a coin to a sorted balance adds its amount to its denomination and keeps the others and
  -- the order.
  pub add_assign_adds :
      (other : Coin) (coins coins' : NativeBalance)
      → is_sorted coins ≡ true
      → add_assign other coins ≡ some coins'
      → (is_sorted coins' ≡ true)
        × ((e : ℕ) → amount_in e coins' ≡ amount_in e coins + coin_in e other)
  unfolding add_assign
  add_assign_adds other coins coins' s p = elim (Option-cases (find other.denom coins)) [
    | inl absent ↦
        let made : coins' ≡ insert_coin other coins = ground arith in
        rw made (
          sorted-insert_coin other coins s absent,
          λ e. ground (arith, find-insert_coin other e coins absent, nat_beq_iff other.denom e),
        )
    | inr (c, found) ↦
        let made : coins' ≡ set_amount other.denom (c.amount + other.amount) coins =
          ground (arith, api.uint_add_lem c.amount other.amount) in
        rw made (
          sorted-set_amount other.denom (c.amount + other.amount) coins s,
          λ e. ground (
            arith,
            find-set_amount other.denom (c.amount + other.amount) e coins c found,
            nat_beq_iff other.denom e,
          ),
        )
  ]

  -- Subtracting a coin from a balance succeeds exactly when the balance has it.
  pub sub-has : (other : Coin) (coins : NativeBalance) → is_ok (sub other coins) ≡ has other coins
  unfolding sub has
  sub-has other coins = elim (Option-cases (find other.denom coins)) [
    | inl absent ↦ ground arith
    | inr (c, found) ↦ ground (arith, api.checked_sub_lem c.amount other.amount)
  ]

  -- Subtracting a coin from a sorted balance takes its amount from its denomination, which had it,
  -- and keeps the others and the order.
  pub sub_subtracts :
      (other : Coin) (coins coins' : NativeBalance)
      → is_sorted coins ≡ true
      → sub other coins ≡ ok coins'
      → (is_sorted coins' ≡ true)
        × ((e : ℕ) → amount_in e coins' + coin_in e other ≡ amount_in e coins)
  unfolding sub
  sub_subtracts other coins coins' s p = elim (Option-cases (find other.denom coins)) [
    | inl absent ↦ absurd (ground arith)
    | inr (c, found) ↦
        let covered : other.amount ≤ c.amount =
          ground (arith, api.checked_sub_lem c.amount other.amount) in
        elim (Bool-cases (c.amount - other.amount == 0)) [
          | inl all ↦
              let made : coins' ≡ remove_coin other.denom coins =
                ground (arith, api.checked_sub_lem c.amount other.amount) in
              rw made (
                sorted-remove_coin other.denom coins s,
                λ e.
                    ground
                      (arith, find-remove_coin other.denom e coins s, nat_beq_iff other.denom e),
              )
          | inr some_left ↦
              let made : coins' ≡ set_amount other.denom (c.amount - other.amount) coins =
                ground (arith, api.checked_sub_lem c.amount other.amount) in
              rw made (
                sorted-set_amount other.denom (c.amount - other.amount) coins s,
                λ e. ground (
                  arith,
                  find-set_amount other.denom (c.amount - other.amount) e coins c found,
                  nat_beq_iff other.denom e,
                ),
              )
        ]
  ]

  -- Subtracting some coins from a sorted balance, where it succeeds, takes the sum of their amounts
  -- from every denomination and keeps the order.
  pub sub_all_subtracts :
      (others : List Coin) (coins coins' : NativeBalance)
      → is_sorted coins ≡ true
      → sub_all others coins ≡ ok coins'
      → (is_sorted coins' ≡ true)
        × ((e : ℕ) → amount_in e coins' + coins_in e others ≡ amount_in e coins)
  unfolding sub_all
  sub_all_subtracts [] coins coins' s p =
      let same : coins' ≡ coins = ground arith in rw same (s, λ e. omega arith)
  sub_all_subtracts (other ∷ others) coins coins' s p = elim (ok-cases (sub other coins)) [
    | inr failed ↦ absurd (ground arith)
    | inl (left, e1) ↦
        let (s1, once) = sub_subtracts other coins left s e1 in
        let (s2, more) = sub_all_subtracts others left coins' s1 (ground arith) in
        (s2, λ e. omega (arith, once e, more e))
  ]

  sub_suffices :
      (other : Coin) (coins : NativeBalance)
      → 0 < other.amount
      → other.amount ≤ amount_in other.denom coins
      → (left : NativeBalance) × (sub other coins ≡ ok left)
  unfolding has
  sub_suffices other coins positive held = elim (ok-cases (sub other coins)) [
    | inl done ↦ done
    | inr failed ↦ elim (Option-cases (find other.denom coins)) [
      | inl absent ↦ absurd (ground arith)
      | inr (c, found) ↦ absurd (ground (arith, sub-has other coins))
    ]
  ]

  sub_all_suffices :
      (others : List Coin) (coins : NativeBalance)
      → is_sorted coins ≡ true
      → all_positive others ≡ true
      → ((e : ℕ) → coins_in e others ≤ amount_in e coins)
      → is_ok (sub_all others coins) ≡ true
  unfolding sub_all
  sub_all_suffices [] coins s positive held = refl
  sub_all_suffices (other ∷ others) coins s positive held =
      let here = held other.denom in
      let (left, e) =
        sub_suffices other coins (ground arith)
          (ground (arith, nat_beq_iff other.denom other.denom)) in
      let (s1, once) = sub_subtracts other coins left s e in
      rw e (sub_all_suffices others left s1 (ground arith) (λ d. omega (arith, once d, held d)))

  -- Coins of positive amounts can be subtracted from a sorted balance exactly when, in every
  -- denomination, they come to no more than the balance has.
  pub sub_all_iff :
      (others : List Coin) (coins : NativeBalance)
      → is_sorted coins ≡ true
      → all_positive others ≡ true
      → (is_ok (sub_all others coins) ≡ true) ↔ ((e : ℕ) → coins_in e others ≤ coins_in e coins)
  sub_all_iff others coins s positive = (
    (λ fine e. elim (ok-cases (sub_all others coins)) [
      | inl (left, done) ↦
          omega
            (arith, (sub_all_subtracts others coins left s done).1 e, amount_in-coins_in e coins s)
      | inr failed ↦ absurd (ground arith)
    ]),
    λ held.
        sub_all_suffices others coins s positive
          (λ e. omega (arith, held e, amount_in-coins_in e coins s)),
  )

  -- What `sub_saturating` leaves is sorted, and the denomination loses the amount or all it had.
  pub sub_saturating_subtracts :
      (other : Coin) (coins coins' : NativeBalance)
      → is_sorted coins ≡ true
      → sub_saturating other coins ≡ ok coins'
      → (is_sorted coins' ≡ true)
        × ((e : ℕ) → amount_in e coins' ≡ amount_in e coins - coin_in e other)
  unfolding sub_saturating
  sub_saturating_subtracts other coins coins' s p = elim (Option-cases (find other.denom coins)) [
    | inl absent ↦ absurd (ground arith)
    | inr (c, found) ↦ elim (Bool-cases (leb c.amount other.amount)) [
      | inl all ↦
          let made : coins' ≡ remove_coin other.denom coins = ground arith in
          rw made (
            sorted-remove_coin other.denom coins s,
            λ e. ground (arith, find-remove_coin other.denom e coins s, nat_beq_iff other.denom e),
          )
      | inr some_left ↦
          let made : coins' ≡ set_amount other.denom (c.amount - other.amount) coins =
            ground (arith, api.checked_sub_lem c.amount other.amount) in
          rw made (
            sorted-set_amount other.denom (c.amount - other.amount) coins s,
            λ e. ground (
              arith,
              find-set_amount other.denom (c.amount - other.amount) e coins c found,
              nat_beq_iff other.denom e,
            ),
          )
    ]
  ]
