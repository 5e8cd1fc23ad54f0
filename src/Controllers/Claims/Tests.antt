-- ===== src/Controllers/Claims/Tests.antt =====
-- Three claims of address 7: 50 and 30 have expired, 20 has not.
use cosmwasm_plus.Prelude.{ℕ, ◌≡◌, refl, none, some, [], ◌∷◌, ok, nat_eq}
use cosmwasm_plus.Mock.{mock_std, block}
use cosmwasm_plus.Storage.{save, may_load}
use cosmwasm_plus.Expiration.{Expiration, is_expired}
use cosmwasm_plus.Controllers.Claims.{Claim, Claims, pay, partition, claim_tokens, create_claim}

abbrev claim : ℕ → ℕ → Claim
claim amount height = record { amount = amount; release_at = Expiration.at_height height }

abbrev claims : Claims
claims = (7, claim 50 90 ∷ claim 20 110 ∷ claim 30 100 ∷ []) ∷ []

-- The first claim does not fit under the cap, the last one does.
capped_test :
    claim_tokens 7 block (some 40) claims ≡ ok (30, (7, claim 50 90 ∷ claim 20 110 ∷ []) ∷ [])
unfolding claim_tokens partition pay may_load save is_expired
capped_test = refl

uncapped_test : claim_tokens 7 block none claims ≡ ok (80, (7, claim 20 110 ∷ []) ∷ [])
unfolding claim_tokens partition pay may_load save is_expired
uncapped_test = refl

created_test :
    create_claim 7 5 (Expiration.at_height 120) ((7, claim 20 110 ∷ []) ∷ [])
    ≡ ok ((7, claim 20 110 ∷ claim 5 120 ∷ []) ∷ [])
unfolding create_claim save may_load
created_test = refl
