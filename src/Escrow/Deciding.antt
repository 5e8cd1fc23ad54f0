-- ===== src/Escrow/Deciding.antt =====
-- Who can pay an escrow out, to whom and when.
use cosmwasm_plus.Prelude.{ℕ, ◌*◌, ◌≤◌, ◌<◌, ◌≡◌, none, some, panic, arith, ◌⊎◌, nat_eq, u64_mod}
use cosmwasm_plus.Std.{Std, BlockInfo}
use cosmwasm_plus.Storage.{may_load, remove}
use cosmwasm_plus.Escrow.{
  Escrow, State, Env, approve, refund, Response, is_expired, send_tokens, execute_approve,
  execute_refund, execute,
}

-- An end of the escrow is over: the block is above the end height, or its time, in nanoseconds, is
-- after the end time, in seconds.
abbrev pub HasEnded : BlockInfo → Escrow → Type 0
HasEnded block escrow =
    ((end : ℕ) × (escrow.end_height ≡ some end) × (end < block.height))
    ⊎ ((end : ℕ) × (escrow.end_time ≡ some end) × (end * 1_000_000_000 < block.time))

-- No end of the escrow is over.
abbrev pub IsRunning : BlockInfo → Escrow → Type 0
IsRunning block escrow =
    ((end : ℕ) → escrow.end_height ≡ some end → block.height ≤ end)
    × ((end : ℕ) → escrow.end_time ≡ some end → block.time ≤ end * 1_000_000_000)

module _ ⦃api : Std⦄ where
  -- The escrow `id` is paid to the recipient by its arbiter while no end is over, or to the source by
  -- its arbiter or once an end is over, and it is gone.
  abbrev pub PaysOut : Env → ℕ → Escrow → State → State → Response → Type 0
  PaysOut env id escrow s s' r =
      (may_load id s ≡ some escrow)
      × (s' ≡ remove id s)
      × (((r ≡ send_tokens escrow.recipient escrow.balance)
            × (env.sender ≡ escrow.arbiter)
            × IsRunning env.block escrow)
          ⊎ ((r ≡ send_tokens escrow.source escrow.balance)
              × ((env.sender ≡ escrow.arbiter) ⊎ HasEnded env.block escrow)))

  -- An escrow without an end height, whose end time in nanoseconds is past u64, cannot be paid out:
  -- every refund panics, and every approval of the arbiter.
  pub far_end_is_locked :
      (env : Env) (id end : ℕ) (escrow : Escrow) (s : State)
      → may_load id s ≡ some escrow
      → escrow.end_height ≡ none
      → escrow.end_time ≡ some end
      → u64_mod ≤ end * 1_000_000_000
      → (execute env (refund id) s ≡ panic)
        × (env.sender ≡ escrow.arbiter → execute env (approve id) s ≡ panic)
  unfolding execute execute_refund execute_approve is_expired
  far_end_is_locked env id end escrow s stored no_height ends far =
      (ground (arith, api.from_seconds_lem end), λ by. ground (arith, api.from_seconds_lem end))
