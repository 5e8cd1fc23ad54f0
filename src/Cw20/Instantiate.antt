-- ===== src/Cw20/Instantiate.antt =====
-- `instantiate` of contracts/cw20-base/src/contract.rs, and `InstantiateMsg::validate` of msg.rs.
use Prim.Native.String.{String}
use cosmwasm_plus.Prelude.{
  ℕ, Bool, true, false, Option, none, some, List, [], ◌∷◌, Outcome, ok, ◌>>=◌, ◌>>◌, fail_if, ok_or,
  or_panic, not, ◌&&◌, ◌||◌, nat_eq, ◌==◌, ltb, if◌then◌else◌, length,
}
use cosmwasm_plus.Std.{Std, StdError, generic_err, invalid_addr}
use cosmwasm_plus.Storage.{Map, save}
use cosmwasm_plus.Cw2.{set_contract_version}
use cosmwasm_plus.Cw20.Defs.{MinterData, cap_of, State, Cw20Coin, InstantiateMsg, Response}
use cosmwasm_plus.Cw20.Execute.{exceeds}

abbrev pub is_valid_name : List ℕ → Bool
is_valid_name bytes = if ltb (length bytes) 3 || ltb 50 (length bytes) then false else true

-- a byte of the symbol that is refused
abbrev is_bad_byte : ℕ → Bool
is_bad_byte byte = not (byte == 45) && (ltb byte 65 || ltb 90 byte) && (ltb byte 97 || ltb 122 byte)

-- the loop of `is_valid_symbol`
abbrev pub valid_bytes : List ℕ → Bool
valid_bytes [] = true
valid_bytes (byte ∷ bytes) = not (is_bad_byte byte) && valid_bytes bytes

abbrev pub is_valid_symbol : List ℕ → Bool
is_valid_symbol bytes =
    if ltb (length bytes) 3 || ltb 12 (length bytes) then false else valid_bytes bytes

unfoldable pub validate : InstantiateMsg → Outcome StdError (Unit {0})
validate msg = do
  fail_if (not (is_valid_name msg.name))
      (generic_err "Name is not in the expected format (3-50 UTF-8 bytes)")
  fail_if (not (is_valid_symbol msg.symbol))
      (generic_err "Ticker symbol is not in expected format [a-zA-Z\\-]{3,12}")
  fail_if (ltb 18 msg.decimals) (generic_err "Decimals must not exceed 18")
  ok tt

module _ ⦃api : Std⦄ where
  -- the loop of `create_accounts`, over its `total_supply` and what it has stored
  unfoldable pub create_accounts_from : ℕ → List Cw20Coin → Map ℕ ℕ → Outcome StdError (ℕ × Map ℕ ℕ)
  create_accounts_from total_supply [] balances = ok (total_supply, balances)
  create_accounts_from total_supply (row ∷ rows) balances = do
    address ← ok_or (api.addr_validate row.address) invalid_addr
    total_supply' ← or_panic (api.uint_add total_supply row.amount)
    create_accounts_from total_supply' rows (save address row.amount balances)

  unfoldable pub create_accounts : List Cw20Coin → Map ℕ ℕ → Outcome StdError (ℕ × Map ℕ ℕ)
  unfolding create_accounts_from
  create_accounts accounts balances = create_accounts_from 0 accounts balances

  -- `match msg.mint { Some(m) => …, None => None }`
  abbrev validate_minter : Option MinterData → Outcome StdError (Option MinterData)
  validate_minter none = ok none
  validate_minter (some m) = do
    minter ← ok_or (api.addr_validate m.minter) invalid_addr
    ok (some (record { minter = minter; cap = m.cap }))

  -- `version` is CARGO_PKG_VERSION of the build; the storage is that of a new contract.
  unfoldable pub instantiate : String → InstantiateMsg → Outcome StdError (State × Response)
  unfolding set_contract_version
  instantiate version msg = do
    validate msg
    (total_supply, balances) ← create_accounts msg.initial_balances []
    fail_if (exceeds total_supply (cap_of msg.mint)) (generic_err "Initial supply greater than cap")
    mint ← validate_minter msg.mint
    ok (
      record {
        contract = set_contract_version "crates.io:cw20-base" version;
        token_info = some (record {
          name = msg.name;
          symbol = msg.symbol;
          decimals = msg.decimals;
          total_supply = total_supply;
          mint = mint;
        });
        balances = balances;
        allowances = [];
      },
      [],
    )
