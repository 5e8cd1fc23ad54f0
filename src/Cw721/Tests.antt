-- ===== src/Cw721/Tests.antt =====
-- The token 20 of the account 3, who has approved 4 for it and made 5 an operator.
use cosmwasm_plus.Prelude.{
  ℕ, ◌≡◌, ◌&&◌, refl, none, some, List, [], ◌∷◌, ok, err, nat_eq, pair_eq, arith, take,
}
use cosmwasm_plus.Mock.{mock_std, block}
use cosmwasm_plus.Storage
use cosmwasm_plus.Storage.Range.{nat_order, sort, between, range, prefix, within, page_size}
use cosmwasm_plus.Pagination.{maybe_addr}
use cosmwasm_plus.Expiration.{Expiration, never, is_expired}
use cosmwasm_plus.Indexed.{load, may_load, save, update, replace, index_save, index_remove, pks}
use cosmwasm_plus.Indexed.Laws.{IsIndexed, listed, numbered}
use cosmwasm_plus.Cw721.{
  unauthorized, TokenInfo, State, Env, MintMsg, owner_index, mint, transfer_nft, check_can_send,
  increment_tokens, num_tokens, execute_mint, transfer_token, execute_transfer_nft, execute,
  query_tokens,
}
use cosmwasm_plus.Cw721.Ownership.{Changes, execute-Changes}
use cosmwasm_plus.Cw721.Enumerable.{IsEnumerable, execute-IsEnumerable, query_tokens_lem}

abbrev token : TokenInfo
token = record {
  owner = 3;
  approvals = record { spender = 4; expires = Expiration.at_height 120 } ∷ [];
  name = 65 ∷ [];
  description = [];
  image = none;
}

abbrev before : State
before = record {
  contract = none;
  contract_info = none;
  minter = some 1;
  token_count = some 1;
  operators = ((3, 5), never) ∷ [];
  tokens = record { primary = (20, token) ∷ []; idx_map = ((3, 20), tt) ∷ [] };
}

abbrev env : ℕ → Env
env sender = record { sender = sender; block = block }

abbrev moved : State
moved = record before {
  tokens = record {
    primary = (20, record token { owner = 6; approvals = [] }) ∷ [];
    idx_map = ((6, 20), tt) ∷ [];
  };
}

transfer_test : execute (env 4) (transfer_nft 6 20) before ≡ ok (moved, [])
unfolding execute execute_transfer_nft transfer_token load may_load check_can_send save replace
    index_save index_remove is_expired Storage.may_load Storage.save Storage.remove
transfer_test = refl

operator_test : execute (env 5) (transfer_nft 6 20) before ≡ ok (moved, [])
unfolding execute execute_transfer_nft transfer_token load may_load check_can_send save replace
    index_save index_remove is_expired Storage.may_load Storage.save Storage.remove
operator_test = refl

again_test : execute (env 4) (transfer_nft 4 20) moved ≡ err unauthorized
unfolding execute execute_transfer_nft transfer_token load may_load check_can_send Storage.may_load
again_test = refl

abbrev minting : MintMsg
minting = record { token_id = 21; owner = 3; name = 66 ∷ []; description = none; image = none }

abbrev two : State
two = record before {
  token_count = some 2;
  tokens = record {
    primary =
        (20, token)
        ∷ (21, record { owner = 3; approvals = []; name = 66 ∷ []; description = []; image = none })
        ∷ [];
    idx_map = ((3, 20), tt) ∷ ((3, 21), tt) ∷ [];
  };
}

mint_test : execute (env 1) (mint minting) before ≡ ok (two, [])
unfolding execute execute_mint update replace index_save may_load increment_tokens Storage.may_load
    Storage.save
mint_test = refl

page_test : query_tokens 3 (some 20) none two ≡ ok (21 ∷ [])
unfolding query_tokens pks range sort between prefix page_size maybe_addr
page_test = refl

execute-Changes_example :
    (t' : TokenInfo) × (Storage.may_load 20 moved.tokens.primary ≡ some t')
    × Changes (env 4) (transfer_nft 6 20) before 20 token t'
unfolding Storage.may_load
execute-Changes_example =
    execute-Changes (env 4) (transfer_nft 6 20) before moved [] 20 token transfer_test refl

one-IsIndexed : IsIndexed owner_index before.tokens
unfolding Storage.may_load
one-IsIndexed = record {
  distinct = (refl, tt);
  distinct_keys = (refl, tt);
  indexed = λ i k. ground arith;
}

one-IsEnumerable : IsEnumerable before
unfolding num_tokens
one-IsEnumerable = record { index = one-IsIndexed; counts = refl }

execute-IsEnumerable_example : IsEnumerable two
execute-IsEnumerable_example =
    execute-IsEnumerable (env 1) (mint minting) before two [] one-IsEnumerable mint_test

query_tokens_lem_example :
    (ids : List ℕ) × (query_tokens 3 (some 5) none before ≡ ok (take (page_size none) ids))
    × ((id : ℕ)
        → listed id ids ≡ (
            within (some 5) none id
            && numbered owner_index 3 (Storage.may_load id before.tokens.primary)))
unfolding maybe_addr
query_tokens_lem_example = query_tokens_lem 3 (some 5) none before one-IsIndexed refl refl
