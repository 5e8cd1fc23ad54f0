-- ===== src/Cw3/Fixed/Lists.antt =====
-- The paginated queries of contracts/cw3-fixed-multisig/src/contract.rs.
use cosmwasm_plus.Prelude.{ℕ, Option, none, List, [], ◌∷◌, take, Outcome, ok, ◌>>=◌}
use cosmwasm_plus.Std.{StdError, BlockInfo}
use cosmwasm_plus.Storage.{load_item}
use cosmwasm_plus.Storage.Range.{Order, nat_order, range, prefix, page, page_size}
use cosmwasm_plus.Cw3.Flex.{Ballot}
use cosmwasm_plus.Cw3.Fixed.{Config, Proposal, State, current_status}

-- each proposal with the status that it has in this block
unfoldable pub map_proposals : BlockInfo → List (ℕ × Proposal) → List (ℕ × Proposal)
map_proposals block [] = []
map_proposals block ((id, prop) ∷ props) =
    (id, record prop { status = current_status prop block }) ∷ map_proposals block props

-- The threshold that every answer repeats is given once, as the configuration.
unfoldable pub list_proposals :
    BlockInfo → Option ℕ → Option ℕ → State → Outcome StdError (List (ℕ × Proposal) × Config)
list_proposals block start_after limit s = do
  cfg ← load_item s.config
  ok (map_proposals block (page start_after limit s.proposals), cfg)

unfoldable pub reverse_proposals :
    BlockInfo → Option ℕ → Option ℕ → State → Outcome StdError (List (ℕ × Proposal) × Config)
reverse_proposals block start_before limit s = do
  cfg ← load_item s.config
  let entries = range none start_before Order.descending s.proposals
  ok (map_proposals block (take (page_size limit) entries), cfg)

unfoldable pub list_votes : ℕ → Option ℕ → Option ℕ → State → List (ℕ × Ballot)
list_votes proposal_id start_after limit s = page start_after limit (prefix proposal_id s.ballots)

unfoldable pub list_voters : Option ℕ → Option ℕ → State → List (ℕ × ℕ)
list_voters start_after limit s = page start_after limit s.voters
