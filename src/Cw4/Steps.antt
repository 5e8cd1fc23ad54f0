-- ===== src/Cw4/Steps.antt =====
-- What a successful message of cw4-group has done.
use cosmwasm_plus.Prelude.{
  ℕ, ◌≡◌, refl, true, Option, none, some, List, [], ◌∷◌, ◌++◌, ok, nat_eq, nat_beq_iff, arith,
  u64_add, u64_sub, unwrap_or, ◌⊎◌, Option-cases, inl, inr, ok-cases, map,
}
use cosmwasm_plus.Std.{Std}
use cosmwasm_plus.Controllers.Admin.{Admin, is_admin, assert_admin, execute_update_admin}
use cosmwasm_plus.Controllers.Hooks.{
  Hooks, add_hook, remove_hook, prepare_hooks, execute_add_hook, execute_remove_hook,
}
use cosmwasm_plus.Snapshot.{SnapshotMap, save, remove, may_load}
use cosmwasm_plus.Cw4.{
  State, Env, ExecuteMsg, Response, Member, MemberDiff, add_members, remove_members, update_members,
  execute_update_members, execute, validate_option, into_cosmos_msg,
}

assert_admin_steps :
    (admin : Admin) (caller : ℕ) → assert_admin admin caller ≡ ok tt → admin ≡ some (some caller)
unfolding assert_admin
assert_admin_steps none caller p = cc
assert_admin_steps (some none) caller p = cc
assert_admin_steps (some (some owner)) caller p = ground arith

update_admin_steps :
    (admin : Admin) (sender : ℕ) (new_admin : Option ℕ) {admin' : Admin}
    → execute_update_admin admin sender new_admin ≡ ok admin'
    → admin ≡ some (some sender)
unfolding execute_update_admin
update_admin_steps admin sender new_admin p = elim (ok-cases (assert_admin admin sender)) [
  | inr refused ↦ absurd (ground arith)
  | inl (tt, e) ↦ assert_admin_steps admin sender e
]

add_hook_steps :
    (admin : Admin) (sender addr : ℕ) (hooks : Hooks) {hooks' : Hooks}
    → execute_add_hook admin sender addr hooks ≡ ok hooks'
    → (admin ≡ some (some sender)) × (add_hook addr hooks ≡ ok hooks')
unfolding execute_add_hook
add_hook_steps admin sender addr hooks p = elim (ok-cases (assert_admin admin sender)) [
  | inr refused ↦ absurd (ground arith)
  | inl (tt, e) ↦ (assert_admin_steps admin sender e, ground arith)
]

remove_hook_steps :
    (admin : Admin) (sender addr : ℕ) (hooks : Hooks) {hooks' : Hooks}
    → execute_remove_hook admin sender addr hooks ≡ ok hooks'
    → (admin ≡ some (some sender)) × (remove_hook addr hooks ≡ ok hooks')
unfolding execute_remove_hook
remove_hook_steps admin sender addr hooks p = elim (ok-cases (assert_admin admin sender)) [
  | inr refused ↦ absurd (ground arith)
  | inl (tt, e) ↦ (assert_admin_steps admin sender e, ground arith)
]

-- Telling the hooks makes one message for each of them, in their order.
pub prepare_hooks_lem :
    (diff : List MemberDiff) (hooks : Hooks)
    → prepare_hooks (into_cosmos_msg diff) hooks
      ≡ ok (map (λ h. record { contract_addr = h; diffs = diff }) (unwrap_or [] hooks))
unfolding prepare_hooks
prepare_hooks_lem diff none = refl
prepare_hooks_lem diff (some []) = refl
prepare_hooks_lem diff (some (h ∷ hooks)) = rw (prepare_hooks_lem diff (some hooks)) refl

module _ ⦃api : Std⦄ where
  pub update_members_steps :
      (height sender : ℕ) (add : List Member) (drop : List ℕ) (s : State) {s' : State}
      {diff : List MemberDiff}
      → update_members height sender add drop s ≡ ok (s', diff)
      → (s.admin ≡ some (some sender))
        × ((total : ℕ) × (s.total ≡ some total)
            × ((total1 : ℕ) × (members1 : SnapshotMap ℕ) × (added : List MemberDiff) × (add_members
                    height add total s.members
                  ≡ ok (total1, members1, added))
                × ((total2 : ℕ) × (members2 : SnapshotMap ℕ) × (removed : List MemberDiff)
                    × (remove_members height drop total1 members1 ≡ ok (total2, members2, removed))
                    × (s' ≡ record s { total = some total2; members = members2 })
                    × (diff ≡ added ++ removed))))
  unfolding update_members
  update_members_steps height sender add drop s p = elim (ok-cases (assert_admin s.admin sender)) [
    | inr refused ↦ absurd (ground arith)
    | inl (tt, e0) ↦ elim (Option-cases s.total) [
      | inl missing ↦ absurd (ground arith)
      | inr (total, e1) ↦ elim (ok-cases (add_members height add total s.members)) [
        | inr failed ↦ absurd (ground arith)
        | inl ((total1, members1, added), e2) ↦
            elim (ok-cases (remove_members height drop total1 members1)) [
              | inr failed ↦ absurd (ground arith)
              | inl ((total2, members2, removed), e3) ↦ (
                assert_admin_steps s.admin sender e0,
                (
                  total,
                  e1,
                  (
                    total1,
                    members1,
                    added,
                    e2,
                    (total2, members2, removed, e3, ground arith, ground arith),
                  ),
                ),
              )
            ]
      ]
    ]
  ]

  -- Only `update_members` changes the members or their total, and only it sends messages.
  pub execute-cases :
      (env : Env) (msg : ExecuteMsg) (s : State) {s' : State} {r : Response}
      → execute env msg s ≡ ok (s', r)
      → (s.admin ≡ some (some env.sender))
        × (((s'.total ≡ s.total) × (s'.members ≡ s.members) × (r ≡ []))
            ⊎ ((add : List Member) × (drop : List ℕ) × (diff : List MemberDiff) × (update_members
                    env.block.height env.sender add drop s
                  ≡ ok (s', diff))
                × (r
                    ≡ map
                        (λ h. record { contract_addr = h; diffs = diff })
                        (unwrap_or [] s'.hooks))))
  unfolding execute execute_update_members
  execute-cases env (ExecuteMsg.update_admin new_admin) s p =
      elim (ok-cases (validate_option new_admin)) [
        | inr bad ↦ absurd (ground arith)
        | inl (valid, e) ↦ elim (ok-cases (execute_update_admin s.admin env.sender valid)) [
          | inr refused ↦ absurd (ground arith)
          | inl (adm, e') ↦ (
            update_admin_steps s.admin env.sender valid e',
            inl (ground arith, ground arith, ground arith),
          )
        ]
      ]
  execute-cases env (ExecuteMsg.update_members_msg drop add) s p =
      elim (ok-cases (update_members env.block.height env.sender add drop s)) [
        | inr failed ↦ absurd (ground arith)
        | inl ((s1, diff), e) ↦
            let told = prepare_hooks_lem diff s1.hooks in
            (
              (update_members_steps env.block.height env.sender add drop s e).0,
              inr (add, drop, diff, ground arith, ground arith),
            )
      ]
  execute-cases env (ExecuteMsg.add_hook addr) s p = elim (Option-cases (api.addr_validate addr)) [
    | inl bad ↦ absurd (ground arith)
    | inr (valid, e) ↦ elim (ok-cases (execute_add_hook s.admin env.sender valid s.hooks)) [
      | inr refused ↦ absurd (ground arith)
      | inl (hooks, e') ↦ (
        (add_hook_steps s.admin env.sender valid s.hooks e').0,
        inl (ground arith, ground arith, ground arith),
      )
    ]
  ]
  execute-cases env (ExecuteMsg.remove_hook addr) s p =
      elim (Option-cases (api.addr_validate addr)) [
        | inl bad ↦ absurd (ground arith)
        | inr (valid, e) ↦ elim (ok-cases (execute_remove_hook s.admin env.sender valid s.hooks)) [
          | inr refused ↦ absurd (ground arith)
          | inl (hooks, e') ↦ (
            (remove_hook_steps s.admin env.sender valid s.hooks e').0,
            inl (ground arith, ground arith, ground arith),
          )
        ]
      ]

  pub add_members_steps :
      (height : ℕ) (a : Member) (add : List Member) (total : ℕ) (members : SnapshotMap ℕ)
      {total' : ℕ} {members' : SnapshotMap ℕ} {diffs : List MemberDiff}
      → add_members height (a ∷ add) total members ≡ ok (total', members', diffs)
      → (left : ℕ) × (total1 : ℕ) × (rest : List MemberDiff) × (u64_sub total
            (unwrap_or 0 (may_load a.addr members))
          ≡ some left)
        × (u64_add left a.weight ≡ some total1)
        × (add_members height add total1 (save a.addr a.weight height members)
            ≡ ok (total', members', rest))
        × (diffs
            ≡ record { key = a.addr; old = may_load a.addr members; new = some a.weight } ∷ rest)
  unfolding add_members
  add_members_steps height a add total members p = elim (Option-cases (api.addr_validate a.addr)) [
    | inl bad ↦ absurd (ground arith)
    | inr (addr, e) ↦
        let same = api.addr_validate_lem e in
        elim (Option-cases (u64_sub total (unwrap_or 0 (may_load a.addr members)))) [
          | inl under ↦ absurd (ground arith)
          | inr (left, e1) ↦ elim (Option-cases (u64_add left a.weight)) [
            | inl over ↦ absurd (ground arith)
            | inr (total1, e2) ↦
                elim (ok-cases
                  (add_members height add total1 (save a.addr a.weight height members))) [
                    | inr failed ↦ absurd (ground arith)
                    | inl ((total2, members2, rest), e3) ↦
                        (left, total1, rest, e1, e2, ground arith, ground arith)
                  ]
          ]
        ]
  ]

  pub remove_members_steps :
      (height k : ℕ) (drop : List ℕ) (total : ℕ) (members : SnapshotMap ℕ) {total' : ℕ}
      {members' : SnapshotMap ℕ} {diffs : List MemberDiff}
      → remove_members height (k ∷ drop) total members ≡ ok (total', members', diffs)
      → ((may_load k members ≡ none)
          × (remove_members height drop total members ≡ ok (total', members', diffs)))
        ⊎ ((weight : ℕ) × (total1 : ℕ) × (rest : List MemberDiff) × (may_load k members
              ≡ some weight)
            × (u64_sub total weight ≡ some total1)
            × (remove_members height drop total1 (remove k height members)
                ≡ ok (total', members', rest))
            × (diffs ≡ record { key = k; old = some weight; new = none } ∷ rest))
  unfolding remove_members
  remove_members_steps height k drop total members p = elim (Option-cases (api.addr_validate k)) [
    | inl bad ↦ absurd (ground arith)
    | inr (addr, e) ↦
        let same = api.addr_validate_lem e in
        elim (Option-cases (may_load k members)) [
          | inl missing ↦ inl (missing, ground arith)
          | inr (weight, e1) ↦ elim (Option-cases (u64_sub total weight)) [
            | inl under ↦ absurd (ground arith)
            | inr (total1, e2) ↦
                elim (ok-cases (remove_members height drop total1 (remove k height members))) [
                  | inr failed ↦ absurd (ground arith)
                  | inl ((total2, members2, rest), e3) ↦
                      inr (weight, total1, rest, e1, e2, ground arith, ground arith)
                ]
          ]
        ]
  ]

  -- Every successful message is sent by the admin that the group has stored.
  pub execute_is_by_admin :
      (env : Env) (msg : ExecuteMsg) (s s' : State) (r : Response)
      → execute env msg s ≡ ok (s', r)
      → is_admin s.admin env.sender ≡ ok true
  unfolding is_admin
  execute_is_by_admin env msg s s' r e =
      let stored = (execute-cases env msg s e).0 in
      ground (arith, nat_beq_iff env.sender env.sender)
