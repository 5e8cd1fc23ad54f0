-- ===== src/Cw3/Fixed/Genesis.antt =====
-- What `instantiate` of cw3-fixed-multisig leaves: the voters and their total weight.
use Prim.Native.String.{String}
use cosmwasm_plus.Prelude.{
  ℕ, ◌+◌, ◌<◌, ◌≤◌, ◌≡◌, some, List, [], ◌∷◌, ok, nat_eq, pair_eq, u64_mod, arith, Option-cases,
  ok-cases, inl, inr, nat_beq_iff,
}
use cosmwasm_plus.Std.{Std}
use cosmwasm_plus.Storage.{Map, save, may_load}
use cosmwasm_plus.Storage.Repeats
use cosmwasm_plus.Storage.Laws.{sum, sum-save}
use cosmwasm_plus.Expiration.{Duration}
use cosmwasm_plus.Cw3.Fixed.{Config, State, Response, Voter, sum_weights, add_voters, instantiate}
use cosmwasm_plus.Cw3.Fixed.Sound.{IsSound}

-- The weights of the voters whose address is listed again further down.
abbrev pub shadowed : List Voter → ℕ
shadowed = Repeats.shadowed (λ v. v.addr) (λ v. v.weight)

abbrev held : List Voter → Map ℕ ℕ → ℕ
held = Repeats.held (λ v. v.addr) (λ v. v.weight)

abbrev listed : List Voter → ℕ
listed [] = 0
listed (v ∷ voters) = v.weight + listed voters

sum_weights_lem :
    (acc : ℕ) (voters : List Voter) (t : ℕ)
    → sum_weights acc voters ≡ some t
    → acc < u64_mod
    → (t ≡ acc + listed voters) × (t < u64_mod)
unfolding sum_weights
sum_weights_lem acc [] t p h = ground arith
sum_weights_lem acc (v ∷ voters) t p h = ground (arith, sum_weights_lem (acc + v.weight) voters t)

module _ ⦃api : Std⦄ where
  add_voters-sum :
      (voters : List Voter) (m m' : Map ℕ ℕ)
      → add_voters voters m ≡ ok m'
      → sum m' + shadowed voters + held voters m ≡ sum m + listed voters
  unfolding add_voters Repeats.held
  add_voters-sum [] m m' p = ground arith
  add_voters-sum (v ∷ voters) m m' p = elim (Option-cases (api.addr_validate v.addr)) [
    | inl bad ↦ absurd (ground arith)
    | inr (a, good) ↦
        let same = api.addr_validate_lem good in
        ground (
          arith,
          add_voters-sum voters (save v.addr v.weight m) m',
          sum-save v.addr v.weight m,
          Repeats.held-save (λ r. r.addr) (λ r. r.weight) v.addr v.weight voters m,
        )
  ]

  -- After a successful `instantiate` the state is sound, the required weight is positive and at most
  -- the total weight, and the total weight is, within u64, the weight of the stored voters and the
  -- weights of the rows whose address is listed again further down. These last count towards the
  -- total although nobody can vote with them.
  pub instantiate-total :
      (version : String) (voters : List Voter) (required : ℕ) (period : Duration) (s : State)
      (r : Response)
      → instantiate version voters required period ≡ ok (s, r)
      → (cfg : Config) × (s.config ≡ some cfg)
        × (0 < cfg.required_weight)
        × (cfg.required_weight ≤ cfg.total_weight)
        × (cfg.total_weight < u64_mod)
        × (sum s.voters + shadowed voters ≡ cfg.total_weight)
        × IsSound s
  unfolding instantiate may_load
  instantiate-total version voters required period s r p =
      elim (Option-cases (sum_weights 0 voters)) [
        | inl over ↦ absurd (ground arith)
        | inr (total, e) ↦ elim (ok-cases (add_voters voters [])) [
          | inr bad ↦ absurd (ground arith)
          | inl (saved, e1) ↦
              let (is_sum, small) = sum_weights_lem 0 voters total e (omega arith) in
              let sums = add_voters-sum voters [] saved e1 in
              let cfg : Config = record {
                required_weight = required;
                total_weight = total;
                max_voting_period = period;
              } in
              let is_saved : s.voters ≡ saved = ground arith in
              let no_proposals : s.proposals ≡ [] = ground arith in
              let no_ballots : s.ballots ≡ [] = ground arith in
              (
                cfg,
                ground arith,
                ground (arith, nat_beq_iff required 0),
                ground arith,
                small,
                ground (arith, Repeats.held-nil (λ r. r.addr) (λ r. r.weight) voters),
                record {
                  proposals = rw no_proposals (λ id q found. absurd cc);
                  ballots = rw no_ballots (λ key b found. absurd cc);
                },
              )
        ]
      ]
