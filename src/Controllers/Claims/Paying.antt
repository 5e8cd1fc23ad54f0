-- ===== src/Controllers/Claims/Paying.antt =====
-- What `claim_tokens` pays and what it leaves.
use cosmwasm_plus.Prelude.{
  ℕ, ◌+◌, ◌≤◌, ◌≡◌, Bool, true, false, not, ◌||◌, ◌&&◌, Option, none, some, List, [], ◌∷◌, ok, ◌==◌,
  nat_eq, unwrap_or, if◌then◌else◌, leb, arith, refl, Option-cases, ok-cases, inl, inr,
}
use cosmwasm_plus.Std.{Std, BlockInfo}
use cosmwasm_plus.Storage.{save, may_load}
use cosmwasm_plus.Storage.Laws.{may_load-save}
use cosmwasm_plus.Expiration.{is_expired}
use cosmwasm_plus.Expiration.Live.{is_live, is_expired_lem}
use cosmwasm_plus.Controllers.Claims.{Claim, Claims, pay, partition, claim_tokens}

-- The amounts of some claims.
abbrev pub owed : List Claim → ℕ
owed [] = 0
owed (c ∷ claims) = c.amount + owed claims

-- The claims that have not expired, in their order.
abbrev pub live_claims : BlockInfo → List Claim → List Claim
live_claims block [] = []
live_claims block (c ∷ claims) =
    let rest = live_claims block claims in if is_live block c.release_at then c ∷ rest else rest

abbrev pub within : Option ℕ → ℕ → Bool
within none n = true
within (some limit) n = leb n limit

-- No claim of the list that has expired could be paid on top of `sent`.
abbrev pub all_stuck : BlockInfo → Option ℕ → ℕ → List Claim → Bool
all_stuck block cap sent [] = true
all_stuck block cap sent (c ∷ claims) =
    (not (is_expired c.release_at block) || not (within cap (sent + c.amount)))
    && all_stuck block cap sent claims

abbrev pub claims_of : ℕ → Claims → List Claim
claims_of addr claims = unwrap_or [] (may_load addr claims)

module _ ⦃api : Std⦄ where
  -- What one claim does to the sum: it is paid, or it waits and the sum stays.
  pay_lem :
      (block : BlockInfo) (cap : Option ℕ) (to_send : ℕ) (c : Claim) {paid : Bool} {sum : ℕ}
      → pay block cap to_send c ≡ some (paid, sum)
      → (sum ≡ to_send + (if paid then c.amount else 0))
        × ((if paid
              then is_expired c.release_at block && within cap sum
              else (not (is_expired c.release_at block) || not (within cap (to_send + c.amount))))
            ≡ true)
  unfolding pay
  pay_lem block cap to_send c p = ground (arith, api.uint_add_lem to_send c.amount)

  -- A claim that is paid or waits, in front of a list that has been shared out.
  one_more :
      (block : BlockInfo) (cap : Option ℕ) (c : Claim) (paid : Bool) (to_send sum sent : ℕ)
      (rest claims : List Claim)
      → sum ≡ to_send + (if paid then c.amount else 0)
      → (if paid
          then is_expired c.release_at block && within cap sum
          else not (is_expired c.release_at block) || not (within cap (to_send + c.amount)))
        ≡ true
      → sent + owed rest ≡ sum + owed claims
      → live_claims block rest ≡ live_claims block claims
      → sum ≤ sent
      → (within cap sum ≡ true → within cap sent ≡ true)
      → all_stuck block cap sent rest ≡ true
      → (sent + owed (if paid then rest else c ∷ rest) ≡ to_send + owed (c ∷ claims))
        × (live_claims block (if paid then rest else c ∷ rest) ≡ live_claims block (c ∷ claims))
        × (to_send ≤ sent)
        × (within cap to_send ≡ true → within cap sent ≡ true)
        × (all_stuck block cap sent (if paid then rest else c ∷ rest) ≡ true)
  one_more block none c true to_send sum sent rest claims adds why total same more capped stuck =
      ground (arith, is_expired_lem c.release_at block)
  one_more block (some limit) c true to_send sum sent rest claims adds why total same more capped
        stuck =
      ground (arith, is_expired_lem c.release_at block)
  one_more block none c false to_send sum sent rest claims adds why total same more capped stuck =
      ground (arith, is_expired_lem c.release_at block)
  one_more block (some limit) c false to_send sum sent rest claims adds why total same more capped
        stuck =
      ground (arith, is_expired_lem c.release_at block)

  partition_lem :
      (block : BlockInfo) (cap : Option ℕ) (claims : List Claim) (to_send : ℕ) (sent : ℕ)
      (waiting : List Claim)
      → partition block cap to_send claims ≡ ok (sent, waiting)
      → (sent + owed waiting ≡ to_send + owed claims)
        × (live_claims block waiting ≡ live_claims block claims)
        × (to_send ≤ sent)
        × (within cap to_send ≡ true → within cap sent ≡ true)
        × (all_stuck block cap sent waiting ≡ true)
  unfolding partition
  partition_lem block cap [] to_send sent waiting p = ground arith
  partition_lem block cap (c ∷ claims) to_send sent waiting p =
      elim (Option-cases (pay block cap to_send c)) [
        | inl over ↦ absurd (ground arith)
        | inr ((paid, sum), e) ↦ elim (ok-cases (partition block cap sum claims)) [
          | inr failed ↦ absurd (ground arith)
          | inl ((sent', rest), e') ↦
              let (adds, why) = pay_lem block cap to_send c e in
              let (total, same, more, capped, stuck) =
                partition_lem block cap claims sum sent' rest e' in
              let is_sent : sent ≡ sent' = ground arith in
              let is_waiting : waiting ≡ (if paid then rest else c ∷ rest) = ground arith in
              rw (is_sent, is_waiting)
                (one_more block cap c paid to_send sum sent' rest claims adds why total same more
                  capped stuck)
        ]
      ]

  within_zero : (limit : Option ℕ) → within limit 0 ≡ true
  within_zero none = refl
  within_zero (some limit) = ground arith

  -- Paying out splits the claims of the address: what is sent and what it is still owed add up to
  -- what it was owed, the claims that have not expired stay, the sum is within the cap, a claim that
  -- has expired is left only where the sum with it would be past the cap, and the claims of other
  -- addresses stay.
  pub claim_tokens_splits :
      (addr : ℕ) (block : BlockInfo) (cap : Option ℕ) (claims claims' : Claims) (sent : ℕ)
      → claim_tokens addr block cap claims ≡ ok (sent, claims')
      → (sent + owed (claims_of addr claims') ≡ owed (claims_of addr claims))
        × (live_claims block (claims_of addr claims') ≡ live_claims block (claims_of addr claims))
        × (within cap sent ≡ true)
        × (all_stuck block cap sent (claims_of addr claims') ≡ true)
        × ((other : ℕ) → (other == addr) ≡ false → claims_of other claims' ≡ claims_of other claims)
  unfolding claim_tokens
  claim_tokens_splits addr block cap claims claims' sent p =
      elim (ok-cases (partition block cap 0 (claims_of addr claims))) [
        | inr failed ↦ absurd (ground arith)
        | inl ((sent', waiting), e) ↦
            let (total, same, _, capped, stuck) =
              partition_lem block cap (claims_of addr claims) 0 sent' waiting e in
            let is_sent : sent ≡ sent' = ground arith in
            let is_saved : claims' ≡ save addr waiting claims = ground arith in
            let here : claims_of addr (save addr waiting claims) ≡ waiting =
              ground (arith, may_load-save addr addr waiting claims) in
            rw (is_sent, is_saved, here)
              (
                omega arith,
                same,
                capped (within_zero cap),
                stuck,
                λ other apart. ground (arith, may_load-save addr other waiting claims),
              )
      ]
