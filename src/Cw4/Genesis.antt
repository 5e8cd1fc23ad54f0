-- ===== src/Cw4/Genesis.antt =====
-- What `instantiate` of cw4-group leaves: members, total, and the addresses that are listed twice.
use Prim.Native.String.{String}
use cosmwasm_plus.Prelude.{
  ℕ, ◌+◌, ◌<◌, ◌≡◌, refl, Option, some, List, [], ◌∷◌, ok, nat_eq, pair_eq, u64_add, u64_mod, arith,
  Option-cases, ok-cases, inl, inr,
}
use cosmwasm_plus.Std.{Std, BlockInfo}
use cosmwasm_plus.Storage
use cosmwasm_plus.Storage.Repeats
use cosmwasm_plus.Storage.{Map}
use cosmwasm_plus.Storage.Laws.{sum, sum-save}
use cosmwasm_plus.Storage.Distinct.{IsDistinct, save-IsDistinct}
use cosmwasm_plus.Snapshot.{SnapshotMap, save}
use cosmwasm_plus.Snapshot.Heights.{save-primary, IsUpTo, snapshot_at-save}
use cosmwasm_plus.Cw4.{
  State, Response, Member, create_members, create, instantiate, no_members, validate_option,
}
use cosmwasm_plus.Cw4.Total.{IsTotal}

-- The weights of the members whose address is listed again further down.
abbrev pub shadowed : List Member → ℕ
shadowed = Repeats.shadowed (λ m. m.addr) (λ m. m.weight)

abbrev held : List Member → Map ℕ ℕ → ℕ
held = Repeats.held (λ m. m.addr) (λ m. m.weight)

module _ ⦃api : Std⦄ where
  create_members-sum :
      (height acc : ℕ) (rows : List Member) (m m' : SnapshotMap ℕ) (t : ℕ)
      → create_members height rows acc m ≡ ok (t, m')
      → acc < u64_mod
      → (sum m'.primary + shadowed rows + held rows m.primary + acc ≡ sum m.primary + t)
        × (t < u64_mod)
  unfolding create_members Repeats.held
  create_members-sum height acc [] m m' t p h =
      let same : m' ≡ m = ground arith in
      let same_total : t ≡ acc = ground arith in rw (same, same_total) (omega arith, h)
  create_members-sum height acc (row ∷ rows) m m' t p h =
      elim (Option-cases (api.addr_validate row.addr)) [
        | inl bad ↦ absurd (ground arith)
        | inr (a, good) ↦
            let same = api.addr_validate_lem good in
            ground (
              arith,
              create_members-sum height (acc + row.weight) rows (save row.addr row.weight height m)
                  m' t,
              save-primary row.addr row.weight height m,
              sum-save row.addr row.weight m.primary,
              Repeats.held-save (λ r. r.addr) (λ r. r.weight) row.addr row.weight rows m.primary,
            )
      ]

  create_members_keep :
      (height : ℕ) (rows : List Member) (acc : ℕ) (m m' : SnapshotMap ℕ) (t : ℕ)
      → create_members height rows acc m ≡ ok (t, m')
      → IsDistinct m.primary
      → IsUpTo height m
      → IsDistinct m'.primary × IsUpTo height m'
  unfolding create_members
  create_members_keep height [] acc m m' t p d u =
      let same : m' ≡ m = ground arith in rw same (d, u)
  create_members_keep height (row ∷ rows) acc m m' t p d u =
      elim (Option-cases (api.addr_validate row.addr)) [
        | inl bad ↦ absurd (ground arith)
        | inr (a, good) ↦
            let same = api.addr_validate_lem good in
            elim (Option-cases (u64_add acc row.weight)) [
              | inl over ↦ absurd (ground arith)
              | inr (acc', e) ↦
                  create_members_keep height rows acc' (save row.addr row.weight height m) m' t
                    (ground arith)
                    (rw (save-primary row.addr row.weight height m)
                      (save-IsDistinct row.addr row.weight m.primary d))
                    (snapshot_at-save row.addr row.weight height m u).0
            ]
      ]

  no_members-IsUpTo : (height : ℕ) → IsUpTo height no_members
  unfolding Storage.may_load
  no_members-IsUpTo height = record { every_block = refl; past = λ k g old e. cc }

  instantiate_steps :
      (version : String) (block : BlockInfo) (adm : Option ℕ) (members : List Member) {s : State}
      {r : Response}
      → instantiate version block adm members ≡ ok (s, r)
      → (total : ℕ) × (s.total ≡ some total)
        × (create_members block.height members 0 no_members ≡ ok (total, s.members))
  unfolding instantiate create
  instantiate_steps version block adm members p = elim (ok-cases (validate_option adm)) [
    | inr bad ↦ absurd (ground arith)
    | inl (admin, e) ↦ elim (ok-cases (create_members block.height members 0 no_members)) [
      | inr failed ↦ absurd (ground arith)
      | inl ((total, saved), e') ↦ (total, ground arith, ground arith)
    ]
  ]

  -- After `instantiate` in a block the total is the sum of the weights of the members and of the
  -- rows whose address is listed again further down, and the members have no change after the block.
  pub instantiate-IsTotal :
      (version : String) (block : BlockInfo) (adm : Option ℕ) (members : List Member) (s : State)
      (r : Response)
      → instantiate version block adm members ≡ ok (s, r)
      → (total : ℕ) × (s.total ≡ some total)
        × IsTotal (shadowed members) total s.members
        × IsUpTo block.height s.members
  instantiate-IsTotal version block adm members s r p =
      let (total, stored, made) = instantiate_steps version block adm members p in
      let (sums, bound) =
        create_members-sum block.height 0 members no_members s.members total made (omega arith) in
      let (d, u) =
        create_members_keep block.height members 0 no_members s.members total made tt
          (no_members-IsUpTo block.height) in
      (
        total,
        stored,
        (d, omega (arith, Repeats.held-nil (λ m. m.addr) (λ m. m.weight) members), bound),
        u,
      )
