-- ===== src/Controllers/Claims.antt =====
-- `Claims` of packages/controllers/src/claim.rs: what an address may take out later.
pub mod Paying
mod Tests
use cosmwasm_plus.Prelude.{
  ℕ, Bool, true, false, not, Option, none, some, List, [], ◌∷◌, ◌++◌, Outcome, ok, err, panic,
  ◌>>=◌, or_panic, ◌==◌, nat_eq, unwrap_or, if◌then◌else◌, ltb,
}
use cosmwasm_plus.Std.{Std, StdError, BlockInfo}
use cosmwasm_plus.Storage.{Map, save, may_load, update}
use cosmwasm_plus.Expiration.{Expiration, is_expired}

pub record Claim : Type 0 where
  pub amount : ℕ
  pub release_at : Expiration

-- the claims of each address, the oldest first
abbrev pub Claims : Type 0
Claims = Map ℕ (List Claim)

unfoldable pub create_claim : ℕ → ℕ → Expiration → Claims → Outcome StdError Claims
unfolding update
create_claim addr amount release_at claims = do
  (_, claims') ←
      update addr
        (λ old. ok (unwrap_or [] old ++ (record { amount = amount; release_at = release_at } ∷ [])))
        claims
  ok claims'

module _ ⦃api : Std⦄ where
  -- `to_send` after one claim, and whether the claim is paid; `none` is an overflow of the sum
  unfoldable pub pay : BlockInfo → Option ℕ → ℕ → Claim → Option (Bool × ℕ)
  pay block cap to_send c =
      if is_expired c.release_at block
      then elim (api.uint_add to_send c.amount) [
        | none ↦ none
        | some sum ↦ elim cap [
          | none ↦ some (true, sum)
          | some limit ↦ if ltb limit sum then some (false, to_send) else some (true, sum)
        ]
      ]
      else some (false, to_send)

  -- `partition`: what is sent at last, and the claims that wait
  unfoldable pub partition :
      BlockInfo → Option ℕ → ℕ → List Claim → Outcome StdError (ℕ × List Claim)
  unfolding pay
  partition block cap to_send [] = ok (to_send, [])
  partition block cap to_send (c ∷ claims) = do
    (paid, to_send') ← or_panic (pay block cap to_send c)
    (sent, waiting) ← partition block cap to_send' claims
    ok (sent, if paid then waiting else c ∷ waiting)

  -- the amount to send, and the claims
  unfoldable pub claim_tokens : ℕ → BlockInfo → Option ℕ → Claims → Outcome StdError (ℕ × Claims)
  claim_tokens addr block cap claims = do
    (to_send, waiting) ← partition block cap 0 (unwrap_or [] (may_load addr claims))
    ok (to_send, save addr waiting claims)

-- `query_claims`
unfoldable pub query_claims : ℕ → Claims → List Claim
query_claims address claims = unwrap_or [] (may_load address claims)
