-- ===== src/Cw1155/Balances.antt =====
-- What the messages of cw1155-base do to the balances, and who may lower one.
use cosmwasm_plus.Prelude.{
  ℕ, ◌+◌, ◌<◌, ◌≡◌, refl, true, Option, none, some, [], ◌∷◌, ok, ◌==◌, nat_eq, pair_eq, arith,
  Option-cases, ok-cases, Bool-cases, inl, inr, ◌⊎◌, nat_beq_iff, pair_beq_iff, if◌then◌else◌,
}
use cosmwasm_plus.Std.{Std, BlockInfo}
use cosmwasm_plus.Expiration.{Expiration}
use cosmwasm_plus.Expiration.Live.{is_live, is_expired_lem}
use cosmwasm_plus.Storage.{Map, save, may_load}
use cosmwasm_plus.Storage.Laws.{balance_of, balance_of-save}
use cosmwasm_plus.Cw1155.{
  State, Env, Batch, ExecuteMsg, Response, check_can_approve, take_from, give_to,
  execute_transfer_inner, transfer_all, execute, send_from, batch_send_from, mint, batch_mint, burn,
  batch_burn, approve_all, revoke_all,
}
use cosmwasm_plus.Cw1155.Steps.{source, target, batch_of, mints, execute_steps}

-- The amount of a token in a batch.
abbrev pub amount_of : ℕ → Batch → ℕ
amount_of id [] = 0
amount_of id ((token_id, amount) ∷ batch) =
    (if token_id == id then amount else 0) + amount_of id batch

-- An amount, for the account that it concerns.
abbrev pub share : Option ℕ → ℕ → ℕ → ℕ
share none a n = 0
share (some b) a n = if b == a then n else 0

nothing : (from to : Option ℕ) (n a : ℕ) → n + share from a 0 ≡ n + share to a 0
nothing none none n a = refl
nothing none (some c) n a = ground arith
nothing (some b) none n a = ground arith
nothing (some b) (some c) n a = ground arith

pub share_is : (o : Option ℕ) (a n : ℕ) → 0 < share o a n → o ≡ some a
share_is none a n h = absurd (omega arith)
share_is (some b) a n h = ground (arith, nat_beq_iff b a)

-- Only a mint gives without taking.
pub is_mint :
    (msg : ExecuteMsg) (a n : ℕ) → source msg ≡ none → 0 < share (target msg) a n → mints msg ≡ true
is_mint (send_from _ _ _ _ _) a n start h = absurd cc
is_mint (batch_send_from _ _ _ _) a n start h = absurd cc
is_mint (burn _ _ _) a n start h = absurd cc
is_mint (batch_burn _ _) a n start h = absurd cc
is_mint (mint _ _ _ _) a n start h = refl
is_mint (batch_mint _ _ _) a n start h = refl
is_mint (approve_all _ _) a n start h = absurd (omega arith)
is_mint (revoke_all _) a n start h = absurd (omega arith)

-- The account is the owner, or an operator to whom the owner has given an approval that has not
-- expired.
abbrev pub MayMove : BlockInfo → (owner account : ℕ) → State → Type 0
MayMove block owner account s =
    (owner ≡ account)
    ⊎ ((ex : Expiration) × (may_load (owner, account) s.approves ≡ some ex)
        × (is_live block ex ≡ true))

may_move :
    (block : BlockInfo) (owner account : ℕ) (s : State)
    → check_can_approve block owner account s ≡ true
    → MayMove block owner account s
unfolding check_can_approve
may_move block owner account s may = elim (Bool-cases (owner == account)) [
  | inl same ↦ inl ((nat_beq_iff owner account).0 same)
  | inr other ↦ elim (Option-cases (may_load (owner, account) s.approves)) [
    | inl nobody ↦ absurd (ground arith)
    | inr (ex, found) ↦ inr (ex, found, ground (arith, is_expired_lem ex block))
  ]
]

module _ ⦃api : Std⦄ where
  take_from_lem :
      (from : Option ℕ) (t v : ℕ) (m m' : Map (ℕ × ℕ) ℕ) (a id : ℕ)
      → take_from from t v m ≡ some m'
      → balance_of (a, id) m' + share from a (if t == id then v else 0) ≡ balance_of (a, id) m
  unfolding take_from
  take_from_lem none t v m m' a id p = ground arith
  take_from_lem (some b) t v m m' a id p =
      let takes = api.checked_sub_lem (balance_of (b, t) m) v in
      elim (Option-cases (api.checked_sub (balance_of (b, t) m) v)) [
        | inl short ↦ absurd (ground arith)
        | inr (left, e) ↦
            let made : m' ≡ save (b, t) left m = ground arith in
            rw made (
              ground (
                arith,
                balance_of-save (b, t) (a, id) left m,
                pair_beq_iff (a, id) (b, t),
                nat_beq_iff b a,
                nat_beq_iff t id,
              ))
      ]

  give_to_lem :
      (to : Option ℕ) (t v : ℕ) (m m' : Map (ℕ × ℕ) ℕ) (a id : ℕ)
      → give_to to t v m ≡ some m'
      → balance_of (a, id) m' ≡ balance_of (a, id) m + share to a (if t == id then v else 0)
  unfolding give_to
  give_to_lem none t v m m' a id p = ground arith
  give_to_lem (some b) t v m m' a id p =
      let gives = api.uint_add_lem (balance_of (b, t) m) v in
      elim (Option-cases (api.uint_add (balance_of (b, t) m) v)) [
        | inl over ↦ absurd (ground arith)
        | inr (sum, e) ↦
            let made : m' ≡ save (b, t) sum m = ground arith in
            rw made (
              ground (
                arith,
                balance_of-save (b, t) (a, id) sum m,
                pair_beq_iff (a, id) (b, t),
                nat_beq_iff b a,
                nat_beq_iff t id,
              ))
      ]

  transfer_inner_lem :
      (from to : Option ℕ) (t v : ℕ) (m m' : Map (ℕ × ℕ) ℕ) (a id : ℕ)
      → execute_transfer_inner from to t v m ≡ ok m'
      → balance_of (a, id) m' + share from a (if t == id then v else 0)
        ≡ balance_of (a, id) m + share to a (if t == id then v else 0)
  unfolding execute_transfer_inner
  transfer_inner_lem from to t v m m' a id p = elim (Option-cases (take_from from t v m)) [
    | inl short ↦ absurd (ground arith)
    | inr (taken, e) ↦ elim (Option-cases (give_to to t v taken)) [
      | inl over ↦ absurd (ground arith)
      | inr (given, e1) ↦
          let less = take_from_lem from t v m taken a id e in
          let more = give_to_lem to t v taken given a id e1 in
          let made : m' ≡ given = ground arith in rw made (omega arith)
    ]
  ]

  share-add : (o : Option ℕ) (a m n : ℕ) → share o a (m + n) ≡ share o a m + share o a n
  share-add none a m n = refl
  share-add (some b) a m n = ground arith

  transfer_all_lem :
      (from to : Option ℕ) (batch : Batch) (m m' : Map (ℕ × ℕ) ℕ) (a id : ℕ)
      → transfer_all from to batch m ≡ ok m'
      → balance_of (a, id) m' + share from a (amount_of id batch)
        ≡ balance_of (a, id) m + share to a (amount_of id batch)
  unfolding transfer_all
  transfer_all_lem from to [] m m' a id p =
      let same : m' ≡ m = ground arith in rw same (nothing from to (balance_of (a, id) m) a)
  transfer_all_lem from to ((t, v) ∷ batch) m m' a id p =
      elim (ok-cases (execute_transfer_inner from to t v m)) [
        | inr failed ↦ absurd (ground arith)
        | inl (moved, e) ↦
            let first = transfer_inner_lem from to t v m moved a id e in
            let rest = transfer_all_lem from to batch moved m' a id (ground arith) in
            let out = share-add from a (if t == id then v else 0) (amount_of id batch) in
            let into = share-add to a (if t == id then v else 0) (amount_of id batch) in omega arith
      ]

  -- After a successful message, the balance of any account in any token, with what the message takes
  -- from the account, is the balance before with what the message gives it: the amounts of the token
  -- in the batch, taken from the source of the message (none, for a mint) and given to its target
  -- (none, for a burn); the approvals move nothing.
  pub execute_moves :
      (env : Env) (msg : ExecuteMsg) (s s' : State) (r : Response) (a id : ℕ)
      → execute env msg s ≡ ok (s', r)
      → balance_of (a, id) s'.balances + share (source msg) a (amount_of id (batch_of msg))
        ≡ balance_of (a, id) s.balances + share (target msg) a (amount_of id (batch_of msg))
  execute_moves env msg s s' r a id p =
      let (moved, _, _, _) = execute_steps env msg s s' r p in
      transfer_all_lem (source msg) (target msg) (batch_of msg) s.balances s'.balances a id moved

  -- A successful message lowers a balance only by the owner of the balance or an operator of the
  -- owner whose approval has not expired, and only as the source of the message; a message that
  -- raises a balance and has no source is sent by the stored minter.
  pub debits_are_authorised :
      (env : Env) (msg : ExecuteMsg) (s s' : State) (r : Response) (a id : ℕ)
      → execute env msg s ≡ ok (s', r)
      → (balance_of (a, id) s'.balances < balance_of (a, id) s.balances
          → (source msg ≡ some a) × MayMove env.block a env.sender s)
        × (balance_of (a, id) s.balances < balance_of (a, id) s'.balances
            → source msg ≡ none
            → s.minter ≡ some env.sender)
  debits_are_authorised env msg s s' r a id p =
      let (moved, _, may, minting) = execute_steps env msg s s' r p in
      let moves = execute_moves env msg s s' r a id p in
      (
        (λ less.
            let is : source msg ≡ some a =
              share_is (source msg) a (amount_of id (batch_of msg)) (omega arith) in
            (is, may_move env.block a env.sender s (may a is))),
        λ more no_source.
            minting (is_mint msg a (amount_of id (batch_of msg)) no_source (omega arith)),
      )
