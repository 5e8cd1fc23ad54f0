-- ===== src/Storage/Repeats.antt =====
-- Lists of rows with an address and a number that are written one after the other into a map: of an
-- address that is listed twice the last row stays.
use cosmwasm_plus.Prelude.{
  ℕ, ◌+◌, ◌≡◌, refl, Bool, false, List, [], ◌∷◌, ◌||◌, ◌==◌, nat_eq, if◌then◌else◌, arith,
}
use cosmwasm_plus.Storage.{Map, may_load, save}
use cosmwasm_plus.Storage.Laws.{balance_of, balance_of-save}

module _ {Row : Type 0} (address amount : Row → ℕ) where
  -- whether a row with the address is listed
  abbrev pub is_listed : ℕ → List Row → Bool
  is_listed a [] = false
  is_listed a (row ∷ rows) = a == address row || is_listed a rows

  -- The numbers of the rows whose address is listed again further down.
  abbrev pub shadowed : List Row → ℕ
  shadowed [] = 0
  shadowed (row ∷ rows) = (if is_listed (address row) rows then amount row else 0) + shadowed rows

  -- What the listed addresses, each counted once, hold in `m`.
  unfoldable pub held : List Row → Map ℕ ℕ → ℕ
  held [] m = 0
  held (row ∷ rows) m =
      (if is_listed (address row) rows then 0 else balance_of (address row) m) + held rows m

  pub held-save :
      (a v : ℕ) (rows : List Row) (m : Map ℕ ℕ)
      → held rows (save a v m) + (if is_listed a rows then balance_of a m else 0)
        ≡ held rows m + (if is_listed a rows then v else 0)
  unfolding held
  held-save a v [] m = refl
  held-save a v (row ∷ rows) m =
      ground (arith, held-save a v rows m, balance_of-save a (address row) v m)

  pub held-nil : (rows : List Row) → held rows [] ≡ 0
  unfolding held may_load
  held-nil [] = refl
  held-nil (row ∷ rows) = ground (arith, held-nil rows)
