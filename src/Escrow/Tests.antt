-- ===== src/Escrow/Tests.antt =====
-- An escrow of 100 of the token 2 and 30 of the cw20 token 60, with the arbiter 1.
use Prim.Native.Nat.{ℕ}
use cosmwasm_plus.Prelude.{◌≡◌, ◌+◌, refl, none, some, [], ◌∷◌, ok, err, nat_eq}
use cosmwasm_plus.Mock.{mock_std, block}
use cosmwasm_plus.Storage.{may_load, save, remove}
use cosmwasm_plus.Storage.Distinct.{IsDistinct}
use cosmwasm_plus.Escrow.{
  expired, not_in_whitelist, Escrow, State, Env, approve, receive, top_up_received, Response,
  add_cw20, add_tokens, is_expired, send_tokens, execute_top_up, execute_approve, execute_receive,
  execute,
}
use cosmwasm_plus.Funds.{bank_send, cw20_transfer, balance_is_empty}
use cosmwasm_plus.Escrow.Funds.{held, received, execute_conserves}
use cosmwasm_plus.Funds.Assets.{coin_of, paid}

abbrev escrow : Escrow
escrow = record {
  arbiter = 1;
  recipient = 4;
  source = 5;
  end_height = some 100;
  end_time = none;
  balance = record {
    native = record { denom = 2; amount = 100 } ∷ [];
    cw20 = record { address = 60; amount = 30 } ∷ [];
  };
  cw20_whitelist = 60 ∷ [];
}

abbrev escrows : State
escrows = (8, escrow) ∷ []

abbrev env : ℕ → Env
env sender = record { sender = sender; block = block; funds = [] }

abbrev payment : Response
payment = bank_send 4 (record { denom = 2; amount = 100 } ∷ []) ∷ cw20_transfer 60 4 30 ∷ []

approve_test : execute (env 1) (approve 8) escrows ≡ ok ([], payment)
unfolding execute execute_approve is_expired send_tokens remove may_load
approve_test = refl

late_test :
    execute (record (env 1) { block = record block { height = 101 } }) (approve 8) escrows
    ≡ err expired
unfolding execute execute_approve is_expired may_load
late_test = refl

top_up_test :
    execute (env 60) (receive 5 7 (top_up_received 8)) escrows
    ≡ ok (
      (
        8,
        record escrow {
          balance = record escrow.balance { cw20 = record { address = 60; amount = 37 } ∷ [] };
        },
      )
          ∷ [],
      [],
    )
unfolding execute execute_receive execute_top_up balance_is_empty add_tokens add_cw20 save may_load
top_up_test = refl

foreign_test : execute (env 61) (receive 5 7 (top_up_received 8)) escrows ≡ err not_in_whitelist
unfolding execute execute_receive execute_top_up balance_is_empty may_load
foreign_test = refl

escrows-IsDistinct : IsDistinct escrows
unfolding may_load
escrows-IsDistinct = (refl, tt)

execute_conserves_example :
    IsDistinct {K = ℕ} {V = Escrow} []
    × (held (coin_of 2) [] + paid (coin_of 2) payment
        ≡ held (coin_of 2) escrows + received (coin_of 2) (env 1) (approve 8))
execute_conserves_example =
    execute_conserves (coin_of 2) (env 1) (approve 8) escrows [] payment escrows-IsDistinct
      approve_test

abbrev far : Escrow
far = record escrow { end_height = none; end_time = some 20_000_000_000 }
