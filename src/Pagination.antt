-- ===== src/Pagination.antt =====
-- `maybe_addr` of packages/cw0/src/pagination.rs, and the check of one address that it makes.
use cosmwasm_plus.Prelude.{ℕ, Option, none, some, Outcome, ok, ◌>>=◌, ok_or}
use cosmwasm_plus.Std.{Std, StdError, invalid_addr}

module _ ⦃api : Std⦄ where
  -- `api.addr_validate(&addr)?`
  abbrev pub valid : ℕ → Outcome StdError ℕ
  valid addr = ok_or (api.addr_validate addr) invalid_addr

  unfoldable pub maybe_addr : Option ℕ → Outcome StdError (Option ℕ)
  maybe_addr none = ok none
  maybe_addr (some human) = do addr ← valid human; ok (some addr)
