-- ===== src/Prelude/Results.antt =====
-- How a call ends: with a value, with an error (`Err`), or by a panic (an arithmetic overflow in
-- the release profile, `unwrap` of `None`). A call that does not end with `ok` has no new state,
-- since the runtime reverts it.
use mathlib.Core.Path.{◌≡◌, refl}
use mathlib.Core.Logic.{◌⊎◌, inl, inr}
use mathlib.Core.Bool.{Bool, true, false}
use mathlib.Core.Option.{Option, none, some}

pub data Outcome {ℓ κ} (E : Type ℓ) (A : Type κ) : Type (ℓ ⊔ κ) where
  ok : A → Outcome E A
  err : E → Outcome E A
  panic : Outcome E A

infixl 5 ◌>>=◌
abbrev pub ◌>>=◌ : {E A B : Type 0} → Outcome E A → (A → Outcome E B) → Outcome E B
panic >>= next = panic
err reason >>= next = err reason
ok value >>= next = next value

infixl 5 ◌>>◌
abbrev pub ◌>>◌ : {E B : Type 0} → Outcome E (Unit {0}) → Outcome E B → Outcome E B
panic >> rest = panic
err reason >> rest = err reason
ok _ >> rest = rest

-- `?` at another error type, and `map_err`
abbrev pub map_err : {E F A : Type 0} → (E → F) → Outcome E A → Outcome F A
map_err f (ok a) = ok a
map_err f (err e) = err (f e)
map_err f panic = panic

-- `if c { return Err(e); }`
abbrev pub fail_if : {E : Type 0} → Bool → E → Outcome E (Unit {0})
fail_if true e = err e
fail_if false e = ok tt

-- `ok_or`
abbrev pub ok_or : {E A : Type 0} → Option A → E → Outcome E A
ok_or none e = err e
ok_or (some a) e = ok a

-- an operation that panics where it has no result
abbrev pub or_panic : {E A : Type 0} → Option A → Outcome E A
or_panic none = panic
or_panic (some a) = ok a

pub Outcome-cases :
    {E A : Type 0} (m : Outcome E A)
    → ((a : A) × (m ≡ ok a)) ⊎ ((e : E) × (m ≡ err e)) ⊎ (m ≡ panic)
Outcome-cases (ok a) = inl (a, refl)
Outcome-cases (err e) = inr (inl (e, refl))
Outcome-cases panic = inr (inr refl)

abbrev pub is_ok : {E A : Type 0} → Outcome E A → Bool
is_ok (ok a) = true
is_ok _ = false

pub ok-cases : {E A : Type 0} (m : Outcome E A) → ((a : A) × (m ≡ ok a)) ⊎ (is_ok m ≡ false)
ok-cases (ok a) = inl (a, refl)
ok-cases (err e) = inr refl
ok-cases panic = inr refl

-- The state that a call leaves: a call that fails is reverted.
abbrev pub settle : {E S R : Type 0} → S → Outcome E (S × R) → S
settle s (ok (s', _)) = s'
settle s (err _) = s
settle s panic = s

-- A property of the state that a call keeps where it succeeds, it keeps.
pub settle-keeps :
    {E S R : Type 0} (P : S → Type 0) (s : S) (m : Outcome E (S × R))
    → P s
    → ((s' : S) (r : R) → m ≡ ok (s', r) → P s')
    → P (settle s m)
settle-keeps P s (ok (s', r)) before after = after s' r refl
settle-keeps P s (err e) before after = before
settle-keeps P s panic before after = before
