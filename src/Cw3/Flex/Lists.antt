-- ===== src/Cw3/Flex/Lists.antt =====
-- The queries of ballots and voters and the paginated queries of
-- contracts/cw3-flex-multisig/src/contract.rs.
use cosmwasm_plus.Prelude.{
  ℕ, Option, none, List, [], ◌∷◌, take, Outcome, ok, ◌>>=◌, or_panic, nat_eq, pair_eq,
}
use cosmwasm_plus.Std.{Std, StdError, BlockInfo}
use cosmwasm_plus.Storage.{load_item, may_load}
use cosmwasm_plus.Storage.Range.{Order, nat_order, range, prefix, page, page_size}
use cosmwasm_plus.Pagination.{valid, maybe_addr}
use cosmwasm_plus.Cw3.Defs.{Proposal, current_status}
use cosmwasm_plus.Cw3.Flex.{Ballot, State, Env}

module _ ⦃api : Std⦄ where
  -- each proposal with the status that it has in this block
  unfoldable pub map_proposals :
      BlockInfo → List (ℕ × Proposal) → Outcome StdError (List (ℕ × Proposal))
  map_proposals block [] = ok []
  map_proposals block ((id, prop) ∷ props) = do
    status ← or_panic (current_status prop block)
    rest ← map_proposals block props
    ok ((id, record prop { status = status }) ∷ rest)

  unfoldable pub list_proposals :
      BlockInfo → Option ℕ → Option ℕ → State → Outcome StdError (List (ℕ × Proposal))
  list_proposals block start_after limit s =
      map_proposals block (page start_after limit s.proposals)

  unfoldable pub reverse_proposals :
      BlockInfo → Option ℕ → Option ℕ → State → Outcome StdError (List (ℕ × Proposal))
  reverse_proposals block start_before limit s =
      map_proposals block
        (take (page_size limit) (range none start_before Order.descending s.proposals))

  unfoldable pub query_vote : ℕ → ℕ → State → Outcome StdError (Option Ballot)
  query_vote proposal_id voter s = do
    voter_addr ← valid voter
    ok (may_load (proposal_id, voter_addr) s.ballots)

  unfoldable pub list_votes : ℕ → Option ℕ → Option ℕ → State → Outcome StdError (List (ℕ × Ballot))
  list_votes proposal_id start_after limit s = do
    start ← maybe_addr start_after
    ok (page start limit (prefix proposal_id s.ballots))

  unfoldable pub query_voter : Env → ℕ → State → Outcome StdError (Option ℕ)
  query_voter env voter s = do
    cfg ← load_item s.config
    voter_addr ← valid voter
    (env.querier cfg.group_addr).is_member voter_addr
