-- ===== src/Contracts.antt =====
-- The Solidity contracts: ethereum/smart-contract/contracts. An address is a number below 2 ^ 160
-- and 0 is the zero address; a `bytes32` and a `uint256` are numbers. A call that reverts is an
-- error, and leaves the state that it was given.
pub mod BitMask
pub mod Access
pub mod Context
pub mod Forwarder
pub mod Flags
pub mod Charges
pub mod Gateway
pub mod Gated
pub mod Composed
pub mod Tests
use Prim.Native.String.{String}
use on_chain_identity_gatewa.Common.{
  ℕ, ◌+◌, ◌^◌, ◌<◌, ◌==◌, ◌≡◌, refl, ltb, Bool, true, false, if◌then◌else◌, Result, ok, err, arith,
}

abbrev pub Address : Type 0
Address = ℕ

-- `m[key] = value` of a mapping
abbrev pub put {ℓ} : {A : Type ℓ} → ℕ → A → (ℕ → A) → ℕ → A
put key value m k = if k == key then value else m k

-- `enum TokenState` of interfaces/IGatewayToken.sol
pub data TokenState : Type 0 where
  active frozen revoked : TokenState

-- The custom errors, with their arguments, and the reverts of code that the contracts call.
pub data Revert : Type 0 where
  missing_account : Revert
  not_contract : (account : ℕ) → Revert
  not_super_admin : (account : ℕ) → Revert
  unauthorized : (account domain role : ℕ) → Revert
  no_self_admin_removal : Revert
  renounce_not_for_self : (role account : ℕ) → Revert
  invalid_signer : (signer expected : ℕ) → Revert
  tx_already_seen : Revert
  tx_too_old : (block tolerance : ℕ) → Revert
  flag_already_exists flag_not_supported : (flag : ℕ) → Revert
  incorrect_variable_length : (expected actual : ℕ) → Revert
  index_already_used : (index : ℕ) → Revert
  incorrect_value : (actual expected : ℕ) → Revert
  incorrect_allowance : (actual expected : ℕ) → Revert
  transfer_failed : (value : ℕ) → Revert
  empty_network_name : Revert
  network_already_exists network_does_not_exist not_dao_governed : (network : ℕ) → Revert
  token_does_not_exist : (token_id : ℕ) → Revert
  token_inactive : (token_id : ℕ) (allow_expired : Bool) → Revert
  invalid_state : (token_id : ℕ) (actual expected : TokenState) → Revert
  transfer_disabled : Revert
  invalid_gateway_token : (contract : ℕ) → Revert
  zero_contract_address : Revert
  overflow : Revert
  reverted : (reason : String) → Revert

-- Checked arithmetic on `uint256`: a sum that does not fit reverts.
unfoldable pub checked_add : ℕ → ℕ → Result Revert ℕ
checked_add a b = if ltb (a + b) (2 ^ 256) then ok (a + b) else err overflow

pub checked_add-ok : (a b c : ℕ) → checked_add a b ≡ ok c → c ≡ a + b
unfolding checked_add
checked_add-ok a b c h = ground arith

pub checked_add_fits : (a b : ℕ) → a + b < 2 ^ 256 → checked_add a b ≡ ok (a + b)
unfolding checked_add
checked_add_fits a b h = ground arith
