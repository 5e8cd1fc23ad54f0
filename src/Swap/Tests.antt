-- ===== src/Swap/Tests.antt =====
-- Swaps with a toy hash: texts decode to themselves, and a digest adds 1 to the first byte.
use cosmwasm_plus.Prelude.{
  ℕ, ◌+◌, ◌≡◌, refl, true, false, some, List, [], ◌∷◌, ok, err, nat_eq, bytes_eq, ◌⊎◌,
  if◌then◌else◌,
}
use cosmwasm_plus.Mock.{mock_std, block}
use cosmwasm_plus.Storage.{may_load, remove, save}
use cosmwasm_plus.Storage.Distinct.{IsDistinct}
use cosmwasm_plus.Expiration.{Expiration, is_expired}
use cosmwasm_plus.Balance.{is_empty}
use cosmwasm_plus.Funds.{native_balance, balance_is_empty, bank_send}
use cosmwasm_plus.Funds.Assets.{coin_of, in_funds, paid}
use cosmwasm_plus.Swap.{
  Hashing, AtomicSwap, CreateMsg, State, Env, create, release, refund, Response, expired,
  not_expired, already_exists, invalid_id, parse_hex_32, is_valid_name, send_tokens, execute_create,
  execute_release, execute_refund, execute,
}
use cosmwasm_plus.Swap.Steps.{received}
use cosmwasm_plus.Swap.Funds.{held, swap_conserves}
use cosmwasm_plus.Swap.Deciding.{swap_pays, one_way_out, release-create}

abbrev toy : Hashing
toy = record {
  hex_decode = λ text. some text;
  sha256 = λ bytes. elim bytes [ [] ↦ [] | b ∷ rest ↦ (b + 1) ∷ rest ];
}

-- 31 zeros
abbrev zeros : List ℕ
zeros =
    0 ∷ 0 ∷ 0 ∷ 0 ∷ 0 ∷ 0 ∷ 0 ∷ 0 ∷ 0 ∷ 0 ∷ 0 ∷ 0 ∷ 0 ∷ 0 ∷ 0 ∷ 0 ∷ 0 ∷ 0 ∷ 0 ∷ 0 ∷ 0 ∷ 0 ∷ 0 ∷ 0
    ∷ 0 ∷ 0 ∷ 0 ∷ 0 ∷ 0 ∷ 0 ∷ 0 ∷ []

abbrev key : List ℕ
key = 7 ∷ zeros

abbrev locked : List ℕ
locked = 8 ∷ zeros

abbrev id : List ℕ
id = 115 ∷ 119 ∷ 97 ∷ []

abbrev making : CreateMsg
making = record { id = id; hash = locked; recipient = 4; expires = Expiration.at_height 110 }

abbrev env : Env
env = record { sender = 3; block = block; funds = record { denom = 2; amount = 50 } ∷ [] }

abbrev swaps : State
swaps =
    (
      id,
      record {
        hash = locked;
        recipient = 4;
        source = 3;
        expires = Expiration.at_height 110;
        balance = native_balance env.funds;
      },
    )
    ∷ []

abbrev swap : AtomicSwap
swap = record {
  hash = locked;
  recipient = 4;
  source = 3;
  expires = Expiration.at_height 110;
  balance = native_balance env.funds;
}

create_test : execute toy env (create making) [] ≡ ok (swaps, [])
unfolding execute execute_create is_valid_name balance_is_empty is_empty parse_hex_32 is_expired
    save may_load
create_test = refl

twice_test : execute toy env (create making) swaps ≡ err already_exists
unfolding execute execute_create is_valid_name balance_is_empty is_empty parse_hex_32 is_expired
    save may_load
twice_test = refl

short_test : execute toy env (create (record making { id = 115 ∷ [] })) [] ≡ err invalid_id
unfolding execute execute_create is_valid_name
short_test = refl

abbrev payment : Response
payment = bank_send 4 (record { denom = 2; amount = 50 } ∷ []) ∷ []

release_test : execute toy env (release id key) swaps ≡ ok ([], payment)
unfolding execute execute_release balance_is_empty is_empty parse_hex_32 is_expired remove may_load
    send_tokens
release_test = refl

early_test : execute toy env (refund id) swaps ≡ err not_expired
unfolding execute execute_refund is_expired may_load
early_test = refl

swaps-IsDistinct : IsDistinct swaps
unfolding may_load
swaps-IsDistinct = (refl, tt)

swap_conserves_example :
    IsDistinct {K = List ℕ} {V = AtomicSwap} []
    × (held (coin_of 2) [] + paid (coin_of 2) payment
        ≡ held (coin_of 2) swaps + in_funds (coin_of 2) (received env (release id key)))
swap_conserves_example =
    swap_conserves toy (coin_of 2) env (release id key) swaps [] payment swaps-IsDistinct
      release_test

swap_pays_example :
    (payment ≡ [])
    ⊎ ((i : List ℕ) × (w : AtomicSwap) × (may_load i swaps ≡ some w)
        × ([] ≡ remove i swaps)
        × (((payment ≡ send_tokens w.recipient w.balance)
              × (is_expired w.expires block ≡ false)
              × ((preimage : List ℕ) × (bin : List ℕ) × (release id key ≡ release i preimage)
                  × (parse_hex_32 toy preimage ≡ ok bin)
                  × (toy.sha256 bin ≡ w.hash)))
            ⊎ (payment ≡ send_tokens w.source w.balance)
              × (is_expired w.expires block ≡ true)
              × (release id key ≡ refund i)))
swap_pays_example = swap_pays toy env (release id key) swaps [] payment release_test

one_way_out_example :
    (execute toy env (release id key) swaps ≡ (
      if is_expired swap.expires block
      then err expired
      else ok (remove id swaps, send_tokens 4 swap.balance)))
    × (execute toy env (refund id) swaps ≡ (
        if is_expired swap.expires block
        then ok (remove id swaps, send_tokens 3 swap.balance)
        else err not_expired))
unfolding parse_hex_32 may_load
one_way_out_example = one_way_out toy env id key key swap swaps refl refl refl

made_test : execute_create toy block 3 making (native_balance env.funds) [] ≡ ok (swaps, [])
unfolding execute_create is_valid_name balance_is_empty is_empty parse_hex_32 is_expired save
    may_load
made_test = refl

release-create_example :
    execute_release toy block id key swaps ≡ ok ([], send_tokens 4 (native_balance env.funds))
unfolding parse_hex_32 is_expired
release-create_example =
    release-create toy block block 3 making (native_balance env.funds) key key locked [] swaps []
      made_test refl refl refl refl
