-- ===== src/Cw721/Enumerable.antt =====
-- The listings of cw721-base: the count, the tokens of an owner, and the pages.
use cosmwasm_plus.Prelude.{
  ℕ, ◌≡◌, refl, ◌&&◌, Option, none, some, List, [], ok, err, nat_eq, pair_eq, arith, inl, inr,
  length, take,
}
use cosmwasm_plus.Std.{Std, invalid_addr}
use cosmwasm_plus.Storage
use cosmwasm_plus.Storage.Laws.{length-save}
use cosmwasm_plus.Storage.Range.{nat_order, within, page_size}
use cosmwasm_plus.Pagination.{maybe_addr}
use cosmwasm_plus.Indexed.{pks, save}
use cosmwasm_plus.Indexed.Laws.{
  IsIndexed, save-IsIndexed, replace-IsIndexed, listed, numbered, pks_lists,
}
use cosmwasm_plus.Cw721.{
  TokenInfo, State, Env, ExecuteMsg, Response, owner_index, num_tokens, increment_tokens,
  query_tokens, query_all_tokens, execute,
}
use cosmwasm_plus.Cw721.Steps.{minted, mint_steps, transfer_steps, approvals_steps, execute-cases}
use cosmwasm_plus.Cw721.Ownership.{save-primary, replace-primary}

-- The index of the owners is right, and the count is the number of the tokens.
pub record IsEnumerable (s : State) : Type 0 where
  pub index : IsIndexed owner_index s.tokens
  pub counts : num_tokens s ≡ length s.tokens.primary

-- A token that is written again.
rewritten :
    (s : State) (id : ℕ) (p q : TokenInfo)
    → IsEnumerable s
    → Storage.may_load id s.tokens.primary ≡ some p
    → IsEnumerable (record s { tokens = save owner_index id q s.tokens })
unfolding num_tokens Storage.has
rewritten s id p q i found = record {
  index = save-IsIndexed owner_index id q s.tokens i.index;
  counts =
      rw (save-primary id q s.tokens) (ground (arith, length-save id q s.tokens.primary, i.counts));
}

module _ ⦃api : Std⦄ where
  -- Every successful message keeps the index of the owners right and the count equal to the number
  -- of the tokens.
  pub execute-IsEnumerable :
      (env : Env) (msg : ExecuteMsg) (s s' : State) (r : Response)
      → IsEnumerable s
      → execute env msg s ≡ ok (s', r)
      → IsEnumerable s'
  unfolding num_tokens increment_tokens Storage.has
  execute-IsEnumerable env msg s s' r i p = elim (execute-cases env msg s s' r p) [
    | inl (same, same_count) ↦ record {
      index = rw same i.index;
      counts = rw (same, same_count) i.counts;
    }
    | inr (inl (m, _, e)) ↦
        let (count, _, free, next, made, _) = mint_steps env m s e in
        rw made (record {
          index = replace-IsIndexed owner_index m.token_id (some (minted m)) s.tokens i.index;
          counts =
              rw
                (replace-primary m.token_id (minted m)
                  (Storage.may_load m.token_id s.tokens.primary) s.tokens)
                (ground (arith, length-save m.token_id (minted m) s.tokens.primary, i.counts));
        })
    | inr (inr (inl (recipient, sent, _, e))) ↦
        let (token, found, _, made) = transfer_steps env recipient sent s e in
        rw made
          (rewritten s sent token (record token { owner = recipient; approvals = [] }) i found)
    | inr (inr (inr (spender, changed, expires, _, e))) ↦
        let (token, approvals, found, _, _, made) =
          approvals_steps env spender changed expires s e in
        rw made (rewritten s changed token (record token { approvals = approvals }) i found)
  ]

  -- Where the index of the owners is right, `query_tokens` with valid addresses gives a page of a
  -- list that holds exactly the tokens of the owner whose id comes after the bound.
  pub query_tokens_lem :
      (owner : ℕ) (start_after limit : Option ℕ) (s : State)
      → IsIndexed owner_index s.tokens
      → api.addr_validate owner ≡ some owner
      → maybe_addr start_after ≡ ok start_after
      → (ids : List ℕ) × (query_tokens owner start_after limit s ≡ ok (take (page_size limit) ids))
        × ((id : ℕ)
            → listed id ids ≡ (
                within start_after none id
                && numbered owner_index owner (Storage.may_load id s.tokens.primary)))
  unfolding query_tokens
  query_tokens_lem owner start_after limit s x good start = (
    pks owner start_after s.tokens,
    rw (start, good) refl,
    λ id. pks_lists owner_index owner id start_after s.tokens x,
  )

  -- The token that the two token listings are to start after is checked as if it were an address:
  -- where the address check refuses its id, both listings fail, whatever they would list.
  pub token_bound_is_refused :
      (owner id : ℕ) (limit : Option ℕ) (s : State)
      → api.addr_validate id ≡ none
      → (query_tokens owner (some id) limit s ≡ err invalid_addr)
        × (query_all_tokens (some id) limit s ≡ err invalid_addr)
  unfolding query_tokens query_all_tokens maybe_addr
  token_bound_is_refused owner id limit s bad = (rw bad refl, rw bad refl)
