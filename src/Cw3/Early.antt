-- ===== src/Cw3/Early.antt =====
-- The verdict of `is_passed` before the end of the voting, and the verdicts after it.
use cosmwasm_plus.Prelude.{ℕ, ◌+◌, ◌-◌, ◌≤◌, ◌≡◌, ◌↔◌, Bool, true, false, some, arith, ap}
use cosmwasm_plus.Std.{Std, BlockInfo}
use cosmwasm_plus.Expiration.{is_expired}
use cosmwasm_plus.Cw3.Defs.{
  Threshold, absolute_count, absolute_percentage, threshold_quorum, Votes, Proposal, is_passed,
}
use cosmwasm_plus.Cw3.Needed.{needed_mono}
use cosmwasm_plus.Cw3.Passing.{tally, meets, IsCounted, is_passed-meets}

-- `v'` has the votes of `v` and perhaps more.
pub record Extends (v v' : Votes) : Type 0 where
  pub more_yes : v.yes_weight ≤ v'.yes_weight
  pub more_no : v.no_weight ≤ v'.no_weight
  pub more_abstain : v.abstain_weight ≤ v'.abstain_weight
  pub more_veto : v.veto_weight ≤ v'.veto_weight

-- What is met early stays met by every further vote, until the end and at the end.
meets_stays :
    (t : Threshold) (w : ℕ) (v v' : Votes) (is_over : Bool)
    → Extends v v'
    → tally v' ≤ w
    → meets t w v false ≡ true
    → meets t w v' is_over ≡ true
meets_stays (absolute_count n) w v v' is_over e h m = ground arith
meets_stays (absolute_percentage p) w v v' is_over e h m =
    ground (arith, needed_mono (w - v'.abstain_weight) (w - v.abstain_weight) p (omega arith))
meets_stays (threshold_quorum t q) w v v' true e h m =
    ground
      (arith, needed_mono (tally v' - v'.abstain_weight) (w - v.abstain_weight) t (omega arith))
meets_stays (threshold_quorum t q) w v v' false e h m =
    ground (arith, needed_mono (w - v'.abstain_weight) (w - v.abstain_weight) t (omega arith))

-- all that have not voted vote no
abbrev pub rest_no : ℕ → Votes → Votes
rest_no w v = record v { no_weight = v.no_weight + (w - tally v) }

-- If the votes as they are and with all others against are enough at the end, they are enough now.
meets_now :
    (t : Threshold) (w : ℕ) (v : Votes)
    → tally v ≤ w
    → meets t w v true ≡ true
    → meets t w (rest_no w v) true ≡ true
    → meets t w v false ≡ true
meets_now (absolute_count n) w v h m m' = m
meets_now (absolute_percentage p) w v h m m' = m
meets_now (threshold_quorum t q) w v h m m' =
    let full : tally (rest_no w v) ≡ w = omega arith in ground arith

module _ ⦃api : Std⦄ where
  is_passed_at :
      (p : Proposal) (block : BlockInfo) (is_over : Bool)
      → IsCounted p.threshold p.total_weight p.votes
      → is_expired p.expires block ≡ is_over
      → (is_passed p block ≡ some true) ↔ (meets p.threshold p.total_weight p.votes is_over ≡ true)
  is_passed_at p block is_over c e =
      let same = is_passed-meets p block c in
      let at_block = ap (meets p.threshold p.total_weight p.votes) e in
      (λ h. ground arith, λ h. ground arith)

  -- While voting goes on, `is_passed` says yes exactly when the proposal passes at its end whatever
  -- further votes are cast, within the total weight: the end is any block in which it has expired.
  pub is_passed_early_iff :
      (p : Proposal) (now end : BlockInfo)
      → IsCounted p.threshold p.total_weight p.votes
      → is_expired p.expires now ≡ false
      → is_expired p.expires end ≡ true
      → (is_passed p now ≡ some true) ↔ (
          (v : Votes)
          → Extends p.votes v
          → tally v ≤ p.total_weight
          → is_passed (record p { votes = v }) end ≡ some true)
  is_passed_early_iff p now end c open_now over =
      let now_iff = is_passed_at p now false c open_now in
      let end_iff = λ (v : Votes) (h : tally v ≤ p.total_weight).
        is_passed_at (record p { votes = v }) end true
          (record { reachable = c.reachable; fits = c.fits; within = h }) over in
      (
        λ early v e h.
            (end_iff v h).1
              (meets_stays p.threshold p.total_weight p.votes v true e h (now_iff.0 early)),
        λ all. now_iff.1 (
            meets_now p.threshold p.total_weight p.votes c.within
              ((end_iff p.votes c.within).0 (all p.votes (omega arith) c.within))
              ((end_iff (rest_no p.total_weight p.votes) (omega arith)).0
                (all (rest_no p.total_weight p.votes) (omega arith) (omega arith)))),
      )
