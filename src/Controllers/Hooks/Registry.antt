-- ===== src/Controllers/Hooks/Registry.antt =====
-- The registered hooks as a set: what adding and removing one does.
use cosmwasm_plus.Prelude.{
  ℕ, ◌≡◌, refl, Bool, true, false, not, ◌&&◌, ◌||◌, none, some, List, [], ◌∷◌, ◌++◌, ok, ◌==◌,
  nat_eq, unwrap_or, arith, Option-cases, inl, inr, Bool-cases,
}
use cosmwasm_plus.Controllers.Hooks.{Hooks, registered, remove_first, add_hook, remove_hook}

-- No address is registered twice.
abbrev pub is_unique : List ℕ → Bool
is_unique [] = true
is_unique (h ∷ hooks) = not (registered h hooks) && is_unique hooks

registered-append :
    (j addr : ℕ) (hooks : List ℕ)
    → registered j (hooks ++ (addr ∷ [])) ≡ (addr == j || registered j hooks)
registered-append j addr [] = ground arith
registered-append j addr (h ∷ hooks) = ground (arith, registered-append j addr hooks)

is_unique-append :
    (addr : ℕ) (hooks : List ℕ)
    → registered addr hooks ≡ false
    → is_unique hooks ≡ true
    → is_unique (hooks ++ (addr ∷ [])) ≡ true
is_unique-append addr [] absent u = refl
is_unique-append addr (h ∷ hooks) absent u =
    ground (arith, is_unique-append addr hooks, registered-append h addr hooks)

remove_first-append :
    (addr : ℕ) (hooks : List ℕ)
    → registered addr hooks ≡ false
    → remove_first addr (hooks ++ (addr ∷ [])) ≡ some hooks
remove_first-append addr [] absent = ground arith
remove_first-append addr (h ∷ hooks) absent = ground (arith, remove_first-append addr hooks)

remove_first_lem :
    (addr : ℕ) (hooks left : List ℕ) (j : ℕ)
    → is_unique hooks ≡ true
    → remove_first addr hooks ≡ some left
    → (is_unique left ≡ true)
      × (registered addr hooks ≡ true)
      × (registered j left ≡ (registered j hooks && not (addr == j)))
remove_first_lem addr [] left j u p = cc
remove_first_lem addr (h ∷ hooks) left j u p = elim (Bool-cases (h == addr)) [
  | inl here ↦
      let same : h ≡ addr = ground arith in
      let tail : left ≡ hooks = ground arith in
      rw tail (
        ground arith,
        ground arith,
        elim (Bool-cases (addr == j)) [
          | inl at_j ↦ let same' : j ≡ addr = ground arith in rw same' (ground arith)
          | inr apart ↦ ground arith
        ],
      )
  | inr other ↦ elim (Option-cases (remove_first addr hooks)) [
    | inl missing ↦ absurd (ground arith)
    | inr (rest, e) ↦
        let is_left : left ≡ h ∷ rest = ground arith in
        rw is_left (
          ground (arith, remove_first_lem addr hooks rest h (ground arith) e),
          ground (arith, remove_first_lem addr hooks rest j (ground arith) e),
          ground (arith, remove_first_lem addr hooks rest j (ground arith) e),
        )
  ]
]

-- Adding an address to hooks that are registered once each registers it and nothing else, once.
pub add_hook-registered :
    (addr : ℕ) (hooks hooks' : Hooks) (j : ℕ)
    → is_unique (unwrap_or [] hooks) ≡ true
    → add_hook addr hooks ≡ ok hooks'
    → (is_unique (unwrap_or [] hooks') ≡ true)
      × (registered j (unwrap_or [] hooks') ≡ (addr == j || registered j (unwrap_or [] hooks)))
unfolding add_hook
add_hook-registered addr hooks hooks' j u p =
    let absent : registered addr (unwrap_or [] hooks) ≡ false = ground arith in
    let added : hooks' ≡ some (unwrap_or [] hooks ++ (addr ∷ [])) = ground arith in
    rw added (
      is_unique-append addr (unwrap_or [] hooks) absent u,
      registered-append j addr (unwrap_or [] hooks),
    )

-- Removing an address from hooks that are registered once each takes out the address, which was
-- registered, and nothing else.
pub remove_hook-registered :
    (addr : ℕ) (hooks hooks' : Hooks) (j : ℕ)
    → is_unique (unwrap_or [] hooks) ≡ true
    → remove_hook addr hooks ≡ ok hooks'
    → (is_unique (unwrap_or [] hooks') ≡ true)
      × (registered addr (unwrap_or [] hooks) ≡ true)
      × (registered j (unwrap_or [] hooks')
          ≡ (registered j (unwrap_or [] hooks) && not (addr == j)))
unfolding remove_hook
remove_hook-registered addr none hooks' j u p = cc
remove_hook-registered addr (some hooks) hooks' j u p =
    elim (Option-cases (remove_first addr hooks)) [
      | inl missing ↦ absurd (ground arith)
      | inr (left, e) ↦
          let removed : hooks' ≡ some left = ground arith in
          rw removed (remove_first_lem addr hooks left j u e)
    ]

-- Removing the address that was just added gives back the hooks, as a stored list.
pub remove_hook-add_hook :
    (addr : ℕ) (hooks hooks' : Hooks)
    → add_hook addr hooks ≡ ok hooks'
    → remove_hook addr hooks' ≡ ok (some (unwrap_or [] hooks))
unfolding add_hook remove_hook
remove_hook-add_hook addr hooks hooks' p =
    let absent : registered addr (unwrap_or [] hooks) ≡ false = ground arith in
    let added : hooks' ≡ some (unwrap_or [] hooks ++ (addr ∷ [])) = ground arith in
    rw added (ground (arith, remove_first-append addr (unwrap_or [] hooks)))
