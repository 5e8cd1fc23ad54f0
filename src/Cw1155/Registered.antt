-- ===== src/Cw1155/Registered.antt =====
-- The tokens of cw1155-base that are in circulation are listed.
use cosmwasm_plus.Prelude.{
  ℕ, ◌<◌, ◌≡◌, true, ◌||◌, Option, none, some, List, [], ◌∷◌, ok, ◌==◌, nat_eq, pair_eq, arith,
  Option-cases, inl, inr, nat_beq_iff, Bool-cases, ltb,
}
use cosmwasm_plus.Std.{Std}
use cosmwasm_plus.Storage.{Map, has}
use cosmwasm_plus.Storage.Laws.{balance_of, may_load-save}
use cosmwasm_plus.Cw1155.{State, Env, Batch, ExecuteMsg, Response, register, execute}
use cosmwasm_plus.Cw1155.Steps.{source, target, batch_of, mints, register_all, execute_steps}
use cosmwasm_plus.Cw1155.Balances.{amount_of, share, share_is, is_mint, execute_moves}

-- An entry for a token exists as long as anyone holds some of it.
abbrev pub IsRegistered : State → Type 0
IsRegistered s = (a id : ℕ) → 0 < balance_of (a, id) s.balances → has id s.tokens ≡ true

has-register :
    (t j : ℕ) (tokens : Map ℕ (List ℕ)) → has j (register t tokens) ≡ (j == t || has j tokens)
unfolding register has
has-register t j tokens = ground (arith, may_load-save t j [] tokens, nat_beq_iff j t)

has-register_all :
    (id : ℕ) (batch : Batch) (tokens : Map ℕ (List ℕ))
    → has id tokens ≡ true
    → has id (register_all batch tokens) ≡ true
has-register_all id [] tokens h = h
has-register_all id ((t, v) ∷ batch) tokens h =
    has-register_all id batch (register t tokens) (ground (arith, has-register t id tokens))

batch-register_all :
    (id : ℕ) (batch : Batch) (tokens : Map ℕ (List ℕ))
    → 0 < amount_of id batch
    → has id (register_all batch tokens) ≡ true
batch-register_all id [] tokens h = absurd (omega arith)
batch-register_all id ((t, v) ∷ batch) tokens h = elim (Bool-cases (t == id)) [
  | inl here ↦
      has-register_all id batch (register t tokens)
        (ground (arith, has-register t id tokens, nat_beq_iff t id, nat_beq_iff id t))
  | inr other ↦ batch-register_all id batch (register t tokens) (ground arith)
]

share-le : (o : Option ℕ) (a n : ℕ) → 0 < share o a n → 0 < n
share-le none a n h = absurd (omega arith)
share-le (some b) a n h = ground arith

module _ ⦃api : Std⦄ where
  -- What was listed stays listed.
  tokens_stay :
      (env : Env) (msg : ExecuteMsg) (s s' : State) (r : Response) (id : ℕ)
      → execute env msg s ≡ ok (s', r)
      → has id s.tokens ≡ true
      → has id s'.tokens ≡ true
  tokens_stay env msg s s' r id p h =
      let (_, same, _, _) = execute_steps env msg s s' r p in
      elim (Bool-cases (mints msg)) [
        | inl minting ↦ rw (same, minting) (has-register_all id (batch_of msg) s.tokens h)
        | inr other ↦ rw (same, other) h
      ]

  -- Every successful message keeps an entry in the list of tokens for each token of which an account
  -- holds some.
  pub execute-IsRegistered :
      (env : Env) (msg : ExecuteMsg) (s s' : State) (r : Response)
      → IsRegistered s
      → execute env msg s ≡ ok (s', r)
      → IsRegistered s'
  execute-IsRegistered env msg s s' r i p a id held =
      let amount = amount_of id (batch_of msg) in
      let (_, same, _, _) = execute_steps env msg s s' r p in
      let moves = execute_moves env msg s s' r a id p in
      elim (Bool-cases (ltb 0 (balance_of (a, id) s.balances))) [
        | inl before ↦ tokens_stay env msg s s' r id p (i a id (ground arith))
        | inr fresh ↦
            let zero : balance_of (a, id) s.balances ≡ 0 = ground arith in
            let comes : 0 < share (target msg) a amount = omega arith in
            let some_of = share-le (target msg) a amount comes in
            elim (Option-cases (source msg)) [
              | inl no_source ↦
                  let minting = is_mint msg a amount no_source comes in
                  rw (same, minting) (batch-register_all id (batch_of msg) s.tokens some_of)
              | inr (f, from) ↦
                  let is_a = share_is (target msg) a amount comes in
                  let theirs = execute_moves env msg s s' r f id p in
                  tokens_stay env msg s s' r id p
                    (i f id (ground (arith, nat_beq_iff f a, nat_beq_iff a f)))
            ]
      ]
