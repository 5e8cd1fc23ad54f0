-- ===== src/Cw1155/Tests.antt =====
-- The account 3 holds 10 of the token 20 and 5 of 21, and has made 4 an operator.
use cosmwasm_plus.Prelude.{
  ℕ, ◌+◌, ◌<◌, ◌≡◌, refl, none, some, [], ◌∷◌, ok, err, nat_eq, pair_eq, arith,
}
use cosmwasm_plus.Std.{overflow}
use cosmwasm_plus.Mock.{mock_std, block}
use cosmwasm_plus.Storage.{may_load, save, has}
use cosmwasm_plus.Storage.Laws.{balance_of}
use cosmwasm_plus.Storage.Range.{sort, between, range, prefix, page_size}
use cosmwasm_plus.Expiration.{never, is_expired}
use cosmwasm_plus.Cw1155.{
  std, unauthorized, State, Env, ExecuteMsg, Response, batch_send_from, batch_receive, mint,
  check_can_approve, register, take_from, give_to, execute_transfer_inner, transfer_all,
  execute_batch_send_from, execute_mint, execute, query_tokens,
}
use cosmwasm_plus.Cw1155.Steps.{source, target, batch_of}
use cosmwasm_plus.Cw1155.Balances.{amount_of, share, MayMove, execute_moves, debits_are_authorised}
use cosmwasm_plus.Cw1155.Registered.{IsRegistered}

abbrev before : State
before = record {
  contract = none;
  minter = some 1;
  balances = ((3, 20), 10) ∷ ((3, 21), 5) ∷ [];
  approves = ((3, 4), never) ∷ [];
  tokens = (20, []) ∷ (21, []) ∷ [];
}

abbrev env : ℕ → Env
env sender = record { sender = sender; block = block }

abbrev sending : ExecuteMsg
sending = batch_send_from 3 6 ((20, 4) ∷ (21, 5) ∷ (20, 1) ∷ []) (some (9 ∷ []))

abbrev after : State
after = record before { balances = ((3, 20), 5) ∷ ((3, 21), 0) ∷ ((6, 20), 5) ∷ ((6, 21), 5) ∷ [] }

abbrev told : Response
told = batch_receive 6 4 (some 3) ((20, 4) ∷ (21, 5) ∷ (20, 1) ∷ []) (9 ∷ []) ∷ []

batch_test : execute (env 4) sending before ≡ ok (after, told)
unfolding execute execute_batch_send_from check_can_approve transfer_all execute_transfer_inner
    take_from give_to is_expired may_load save
batch_test = refl

stranger_test : execute (env 5) sending before ≡ err unauthorized
unfolding execute execute_batch_send_from check_can_approve may_load
stranger_test = refl

-- The whole batch fails where the amounts of one token exceed the balance together.
too_much_test :
    execute (env 4) (batch_send_from 3 6 ((20, 6) ∷ (20, 6) ∷ []) none) before ≡ err (std overflow)
unfolding execute execute_batch_send_from check_can_approve transfer_all execute_transfer_inner
    take_from give_to is_expired may_load save
too_much_test = refl

-- An amount of 0 stays listed for its owner.
listing_test : query_tokens 3 none none after ≡ 20 ∷ 21 ∷ []
unfolding query_tokens range sort between prefix page_size
listing_test = refl

abbrev richer : State
richer = record before {
  balances = ((3, 20), 10) ∷ ((3, 21), 5) ∷ ((8, 22), 7) ∷ [];
  tokens = (20, []) ∷ (21, []) ∷ (22, []) ∷ [];
}

mint_test : execute (env 1) (mint 8 22 7 none) before ≡ ok (richer, [])
unfolding execute execute_mint execute_transfer_inner take_from give_to register may_load save has
mint_test = refl

execute_moves_example :
    balance_of (3, 20) after.balances + share (source sending) 3 (amount_of 20 (batch_of sending))
    ≡ balance_of (3, 20) before.balances
      + share (target sending) 3 (amount_of 20 (batch_of sending))
execute_moves_example = execute_moves (env 4) sending before after told 3 20 batch_test

debits_are_authorised_example :
    (balance_of (3, 20) after.balances < balance_of (3, 20) before.balances
      → (source sending ≡ some 3) × MayMove block 3 4 before)
    × (balance_of (3, 20) before.balances < balance_of (3, 20) after.balances
        → source sending ≡ none
        → before.minter ≡ some 4)
debits_are_authorised_example =
    debits_are_authorised (env 4) sending before after told 3 20 batch_test

before-IsRegistered : IsRegistered before
unfolding may_load has
before-IsRegistered a id held = ground arith
