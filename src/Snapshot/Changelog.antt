-- ===== src/Snapshot/Changelog.antt =====
-- The change that `first_since` finds, and how a new entry moves it.
use cosmwasm_plus.Prelude.{
  ℕ, ◌≤◌, ◌≡◌, false, ◌&&◌, Option, none, some, [], ◌∷◌, ◌==◌, nat_eq, pair_eq, leb, ltb,
  if◌then◌else◌, arith, Option-cases, inl, inr, Bool-cases, pair_beq,
}
use cosmwasm_plus.Storage
use cosmwasm_plus.Storage.{Map}
use cosmwasm_plus.Snapshot.{first_since}

module _ {V : Type 0} where
  -- Of two changes at different heights the lower one counts.
  abbrev pub or_earlier : ℕ → V → Option (ℕ × V) → Option (ℕ × V)
  or_earlier g old none = some (g, old)
  or_earlier g old (some (g', old')) = if ltb g g' then some (g, old) else some (g', old')

  first_since_from :
      (k start : ℕ) (m : Map (ℕ × ℕ) V) (g : ℕ) (old : V)
      → first_since k start m ≡ some (g, old)
      → start ≤ g
  unfolding first_since
  first_since_from k start [] g old h = cc
  first_since_from k start (((j, i), w) ∷ m) g old h =
      ground (arith, first_since_from k start m g old)

  further :
      (k start : ℕ) (m : Map (ℕ × ℕ) V) (j i : ℕ) (w : V) (g : ℕ) (old : V)
      → pair_beq (k, g) (j, i) ≡ false
      → first_since k start (((j, i), w) ∷ m) ≡ some (g, old)
      → first_since k start m ≡ some (g, old)
  unfolding first_since
  further k start m j i w g old other h = ground arith

  pub first_since_stored :
      (k start : ℕ) (m : Map (ℕ × ℕ) V) (g : ℕ) (old : V)
      → first_since k start m ≡ some (g, old)
      → (start ≤ g) × ((w : V) × (Storage.may_load (k, g) m ≡ some w))
  unfolding first_since Storage.may_load
  first_since_stored k start [] g old h = cc
  first_since_stored k start (((j, i), w) ∷ m) g old h =
      elim (Bool-cases (pair_beq (k, g) (j, i))) [
        | inl here ↦ (first_since_from k start (((j, i), w) ∷ m) g old h, (w, rw here))
        | inr other ↦
            let (from, (v, found)) =
              first_since_stored k start m g old (further k start m j i w g old other h) in
            (from, (v, rw (other, found)))
      ]

  pub first_since-save :
      (k g j start : ℕ) (old : V) (m : Map (ℕ × ℕ) V)
      → Storage.may_load (k, g) m ≡ none
      → first_since j start (Storage.save (k, g) old m) ≡ (
          if k == j && leb start g
          then or_earlier g old (first_since j start m)
          else first_since j start m)
  unfolding first_since Storage.may_load Storage.save
  first_since-save k g j start old [] h = ground arith
  first_since-save k g j start old (((i, g'), w) ∷ m) h =
      ground (arith, first_since-save k g j start old m)

  -- A stored change is found from every height up to its own.
  pub first_since_reaches :
      (k g h : ℕ) (m : Map (ℕ × ℕ) V) (w : V)
      → Storage.may_load (k, g) m ≡ some w
      → h ≤ g
      → (first : ℕ × V) × (first_since k h m ≡ some first)
  unfolding first_since Storage.may_load
  first_since_reaches k g h [] w stored le = cc
  first_since_reaches k g h (((j, i), v) ∷ m) w stored le =
      elim (Option-cases (first_since k h (((j, i), v) ∷ m))) [
        | inr found ↦ found
        | inl nothing ↦ elim (Bool-cases (pair_beq (k, g) (j, i))) [
          | inl here ↦ absurd (ground (arith, Option-cases (first_since k h m)))
          | inr other ↦
              let (first, found) = first_since_reaches k g h m w (ground arith) le in
              absurd (ground arith)
        ]
      ]
