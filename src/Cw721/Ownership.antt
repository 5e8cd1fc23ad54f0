-- ===== src/Cw721/Ownership.antt =====
-- Who can change a token of cw721-base, and how.
use cosmwasm_plus.Prelude.{
  ℕ, ◌≡◌, refl, true, Option, Option-cases, some, List, [], ◌∷◌, ok, ◌==◌, nat_eq, pair_eq, arith,
  inl, inr, ◌⊎◌, Bool-cases, nat_beq_iff,
}
use cosmwasm_plus.Std.{Std, BlockInfo}
use cosmwasm_plus.Expiration.{Expiration}
use cosmwasm_plus.Expiration.Live.{is_live, is_expired_lem}
use cosmwasm_plus.Storage
use cosmwasm_plus.Storage.Laws.{may_load-save}
use cosmwasm_plus.Indexed.{IndexedMap, save, replace}
use cosmwasm_plus.Cw721.{
  Approval, TokenInfo, State, Env, approved, approve, revoke, ExecuteMsg, Response, owner_index,
  check_can_approve, check_can_send, transfer_nft, send_nft, execute,
}
use cosmwasm_plus.Cw721.Steps.{minted, mint_steps, transfer_steps, approvals_steps, execute-cases}

pub save-primary :
    (id : ℕ) (t : TokenInfo) (tokens : IndexedMap TokenInfo)
    → (save owner_index id t tokens).primary ≡ Storage.save id t tokens.primary
unfolding save replace
save-primary id t tokens = refl

pub replace-primary :
    (id : ℕ) (t : TokenInfo) (old : Option TokenInfo) (tokens : IndexedMap TokenInfo)
    → (replace owner_index id (some t) old tokens).primary ≡ Storage.save id t tokens.primary
unfolding replace
replace-primary id t old tokens = refl

-- Some approval is for the account and has not expired.
abbrev pub HasApproval : BlockInfo → (account : ℕ) → List Approval → Type 0
HasApproval block account [] = ⊥
HasApproval block account (apr ∷ rest) =
    ((apr.spender ≡ account) × (is_live block apr.expires ≡ true)) ⊎ HasApproval block account rest

-- The account is an operator of the owner, and that has not expired.
abbrev pub IsOperator : BlockInfo → (owner account : ℕ) → State → Type 0
IsOperator block owner account s =
    (ex : Expiration) × (Storage.may_load (owner, account) s.operators ≡ some ex)
    × (is_live block ex ≡ true)

-- The sender may change the approvals of a token: as its owner or as an operator of the owner.
abbrev pub MayApprove : Env → TokenInfo → State → Type 0
MayApprove env t s = (t.owner ≡ env.sender) ⊎ IsOperator env.block t.owner env.sender s

-- The sender may transfer a token: also by an approval.
abbrev pub MaySend : Env → TokenInfo → State → Type 0
MaySend env t s = MayApprove env t s ⊎ HasApproval env.block env.sender t.approvals

approved-HasApproval :
    (env : Env) (approvals : List Approval)
    → approved env approvals ≡ true
    → HasApproval env.block env.sender approvals
approved-HasApproval env [] is = absurd cc
approved-HasApproval env (apr ∷ rest) is = elim (Bool-cases (approved env rest)) [
  | inl later ↦ inr (approved-HasApproval env rest later)
  | inr none_later ↦
      inl (ground (arith, nat_beq_iff apr.spender env.sender, is_expired_lem apr.expires env.block))
]

check_can_approve_lem :
    (env : Env) (t : TokenInfo) (s : State) → check_can_approve env t s ≡ ok tt → MayApprove env t s
unfolding check_can_approve
check_can_approve_lem env t s may = elim (Bool-cases (t.owner == env.sender)) [
  | inl same ↦ inl ((nat_beq_iff t.owner env.sender).0 same)
  | inr other ↦ elim (Option-cases (Storage.may_load (t.owner, env.sender) s.operators)) [
    | inl nobody ↦ absurd (ground arith)
    | inr (ex, found) ↦ inr (ex, found, ground (arith, is_expired_lem ex env.block))
  ]
]

check_can_send_lem :
    (env : Env) (t : TokenInfo) (s : State) → check_can_send env t s ≡ ok tt → MaySend env t s
unfolding check_can_send check_can_approve
check_can_send_lem env t s may = elim (Bool-cases (approved env t.approvals)) [
  | inl by_approval ↦ inr (approved-HasApproval env t.approvals by_approval)
  | inr unapproved ↦ inl (check_can_approve_lem env t s (ground arith))
]

module _ ⦃api : Std⦄ where
  -- The token `id` goes from `t` to `t'`: it stays, or the sender, who may send it, transfers it to
  -- the recipient of the message, without approvals, or the message approves or revokes and the
  -- sender, who may approve, changes its approvals.
  abbrev pub Changes : Env → ExecuteMsg → State → ℕ → TokenInfo → TokenInfo → Type 0
  Changes env msg s id t t' =
      (t' ≡ t)
      ⊎ (MaySend env t s
          × ((recipient : ℕ) × ((msg ≡ transfer_nft recipient id)
                ⊎ ((payload : List ℕ) × (msg ≡ send_nft recipient id payload)))
              × (t' ≡ record t { owner = recipient; approvals = [] })))
      ⊎ (MayApprove env t s
          × ((spender : ℕ) × (((expires : Option Expiration) × (msg ≡ approve spender id expires))
                ⊎ (msg ≡ revoke spender id)))
          × (t' ≡ record t { approvals = t'.approvals }))

  -- A write of `q` at `id`, seen at any token.
  written :
      (env : Env) (msg : ExecuteMsg) (s : State) (id j : ℕ) (p q t : TokenInfo)
      → Storage.may_load id s.tokens.primary ≡ some p
      → Changes env msg s id p q
      → Storage.may_load j s.tokens.primary ≡ some t
      → (t' : TokenInfo) × (Storage.may_load j (Storage.save id q s.tokens.primary) ≡ some t')
        × Changes env msg s j t t'
  written env msg s id j p q t found change stored = elim (Bool-cases (j == id)) [
    | inl here ↦
        let at_id : j ≡ id = (nat_beq_iff j id).0 here in
        let same : t ≡ p = ground arith in
        (q, ground (arith, may_load-save id j q s.tokens.primary), rw (at_id, same) change)
    | inr other ↦ (t, ground (arith, may_load-save id j q s.tokens.primary), inl refl)
  ]

  -- After a successful message every token is still there, with its name, description and image. It
  -- is as it was, or it is the token that the message transfers, the sender may send it (as its
  -- owner, or by an approval or as an operator of the owner, not expired), and it belongs to the
  -- recipient and has no approvals, or it is the token that the message approves or revokes, the
  -- sender may approve (as its owner or as an operator, not expired), and only its approvals have
  -- changed.
  pub execute-Changes :
      (env : Env) (msg : ExecuteMsg) (s s' : State) (r : Response) (id : ℕ) (t : TokenInfo)
      → execute env msg s ≡ ok (s', r)
      → Storage.may_load id s.tokens.primary ≡ some t
      → (t' : TokenInfo) × (Storage.may_load id s'.tokens.primary ≡ some t')
        × Changes env msg s id t t'
  execute-Changes env msg s s' r id t p stored = elim (execute-cases env msg s s' r p) [
    | inl (same, _) ↦ rw same (t, stored, inl refl)
    | inr (inl (m, is, e)) ↦
        let (count, _, free, _, made, _) = mint_steps env m s e in
        (
          t,
          rw
              (
                made,
                replace-primary m.token_id (minted m) (Storage.may_load m.token_id s.tokens.primary)
                    s.tokens,
              )
              (ground (
                arith,
                may_load-save m.token_id id (minted m) s.tokens.primary,
                nat_beq_iff id m.token_id,
              )),
          inl refl,
        )
    | inr (inr (inl (recipient, sent, is, e))) ↦
        let (token, found, may, made) = transfer_steps env recipient sent s e in
        let q : TokenInfo = record token { owner = recipient; approvals = [] } in
        rw (made, save-primary sent q s.tokens)
          (written env msg s sent id token q t found
            (inr (inl (check_can_send_lem env token s may, (recipient, is, refl)))) stored)
    | inr (inr (inr (spender, changed, expires, is, e))) ↦
        let (token, approvals, found, may, _, made) =
          approvals_steps env spender changed expires s e in
        let q : TokenInfo = record token { approvals = approvals } in
        rw (made, save-primary changed q s.tokens)
          (written env msg s changed id token q t found
            (inr (inr (check_can_approve_lem env token s may, (spender, is), refl))) stored)
  ]
