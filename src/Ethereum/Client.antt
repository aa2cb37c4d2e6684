-- ===== src/Ethereum/Client.antt =====
-- `GatewayTsInternal`: ethereum/gateway-eth-ts/src/service/GatewayTsInternal.ts.
pub mod Writes
use Prim.Native.String.{String}
use text.Mathlib.Text.{◌==◌ as str_eq}
use on_chain_identity_gatewa.Common.{
  ℕ, zero, suc, ◌+◌, ◌==◌, Option, none, some, Bool, true, false, not, ◌&&◌, List, [], ◌∷◌, length,
  Result, ok, err, if◌then◌else◌, ltb,
}
use on_chain_identity_gatewa.Common.Int.{ℤ, pos, negsuc}
use on_chain_identity_gatewa.Common.Io.{Io, ◌>>=◌, return, throw, lift}
use on_chain_identity_gatewa.Ethereum.{
  EthError, multiple_tokens, no_tokens, Value, undefined, number, flag, Overrides, with_property,
  Ramda, Charge, ChargeType, none_type, eth, erc20, null_charge, zero_address, Write, RawToken,
  Contract,
}
use on_chain_identity_gatewa.Ethereum
use on_chain_identity_gatewa.Ethereum.Utils.{get_expiration_time, or_default}

-- `TokenData`; `state` is the number of the contract.
pub record TokenData : Type 0 where
  pub owner : String
  pub token_id : ℕ
  pub state : ℕ
  pub expiration : ℕ
  pub bitmask : ℕ

-- A value that JavaScript takes for true.
abbrev pub truthy : Option Value → Bool
truthy none = false
truthy (some undefined) = false
truthy (some (number n)) = not (n == 0)
truthy (some (flag b)) = b

abbrev eth_value : Charge → ChargeType → Value
eth_value charge eth = number charge.value
eth_value charge _ = undefined

abbrev or_null_address : Option String → String
or_null_address none = zero_address
or_null_address (some a) = if str_eq a "" then zero_address else a

module _ (ramda : Ramda) {World O : Type 0} (contract : Contract World O) (options : Overrides)
    (date_now : ℕ) where
  abbrev pub Call : Type 0 → Type 0
  Call = Io World EthError

  unfoldable pub overrides : Overrides
  overrides = ramda.omit ("tolerateMultipleTokens" ∷ []) options

  -- `payableOverrides`
  unfoldable pub payable_overrides : Charge → Overrides
  unfolding overrides
  payable_overrides charge = with_property "value" (eth_value charge charge.charge_type) overrides

  -- `readOnlyOverrides`
  unfoldable pub read_only_overrides : Overrides
  unfolding overrides
  read_only_overrides =
      ramda.omit ("gasPrice" ∷ "maxFeePerGas" ∷ "maxPriorityFeePerGas" ∷ []) overrides

  unfoldable pub get_token_ids_by_owner_and_network : String → ℕ → Bool → Call (List ℕ)
  unfolding read_only_overrides
  get_token_ids_by_owner_and_network owner network only_active =
      contract.get_token_ids_by_owner_and_network owner network only_active read_only_overrides

  abbrev pub checked : Bool → List ℕ → Result EthError ℕ
  checked tolerate [] = err no_tokens
  checked tolerate (id ∷ ids) =
      if ltb 1 (length (id ∷ ids)) && not tolerate then err multiple_tokens else ok id

  -- `checkedGetTokenId`
  unfoldable pub checked_get_token_id : String → ℕ → Bool → Call ℕ
  unfolding read_only_overrides
  checked_get_token_id owner network only_active = do
    token_ids ←
        contract.get_token_ids_by_owner_and_network owner network only_active read_only_overrides
    lift (checked (truthy (options "tolerateMultipleTokens")) token_ids)

  unfoldable pub create_network :
      (name : String) (network : ℕ) (dao_governed : Bool) (dao_manager : Option String) → Call O
  unfolding overrides
  create_network name network dao_governed dao_manager =
      contract.write
        (Ethereum.Write.create_network network name dao_governed (or_null_address dao_manager))
        overrides

  unfoldable pub rename_network : (name : String) (network : ℕ) → Call O
  unfolding overrides
  rename_network name network =
      contract.write (Ethereum.Write.rename_network network name) overrides

  unfoldable pub add_gatekeeper : (gatekeeper : String) (network : ℕ) → Call O
  unfolding overrides
  add_gatekeeper gatekeeper network =
      contract.write (Ethereum.Write.add_gatekeeper gatekeeper network) overrides

  unfoldable pub remove_gatekeeper : (gatekeeper : String) (network : ℕ) → Call O
  unfolding overrides
  remove_gatekeeper gatekeeper network =
      contract.write (Ethereum.Write.remove_gatekeeper gatekeeper network) overrides

  unfoldable pub add_network_authority : (authority : String) (network : ℕ) → Call O
  unfolding overrides
  add_network_authority authority network =
      contract.write (Ethereum.Write.add_network_authority authority network) overrides

  unfoldable pub remove_network_authority : (authority : String) (network : ℕ) → Call O
  unfolding overrides
  remove_network_authority authority network =
      contract.write (Ethereum.Write.remove_network_authority authority network) overrides

  unfoldable pub set_network_feature : (feature_bitmask network : ℕ) → Call O
  unfolding overrides
  set_network_feature feature_bitmask network =
      contract.write (Ethereum.Write.set_network_features network feature_bitmask) overrides

  -- `expiry > 0 ? getExpirationTime(expiry) : 0`
  abbrev pub issue_expiration : ℤ → Result EthError ℕ
  issue_expiration (pos zero) = ok 0
  issue_expiration (pos (suc n)) = get_expiration_time date_now (some (pos (suc n)))
  issue_expiration (negsuc n) = ok 0

  unfoldable pub issue :
      (owner : String) (network : ℕ) → Option ℤ → Option ℕ → Option Charge → Call O
  unfolding payable_overrides
  issue owner network expiry bitmask charge = do
    expiration_time ← lift (issue_expiration (or_default (pos 0) expiry))
    let paid = or_default null_charge charge
    contract.write (Ethereum.Write.mint owner network expiration_time (or_default 0 bitmask) paid)
        (payable_overrides paid)

  unfoldable pub revoke : (owner : String) (network : ℕ) → Call O
  unfolding checked_get_token_id overrides
  revoke owner network = do
    token_id ← checked_get_token_id owner network false
    contract.write (Ethereum.Write.revoke token_id) overrides

  unfoldable pub burn : (owner : String) (network : ℕ) → Call O
  unfolding checked_get_token_id overrides
  burn owner network = do
    token_id ← checked_get_token_id owner network false
    contract.write (Ethereum.Write.burn token_id) overrides

  unfoldable pub freeze : (owner : String) (network : ℕ) → Call O
  unfolding checked_get_token_id overrides
  freeze owner network = do
    token_id ← checked_get_token_id owner network false
    contract.write (Ethereum.Write.freeze token_id) overrides

  unfoldable pub unfreeze : (owner : String) (network : ℕ) → Call O
  unfolding checked_get_token_id overrides
  unfreeze owner network = do
    token_id ← checked_get_token_id owner network false
    contract.write (Ethereum.Write.unfreeze token_id) overrides

  unfoldable pub refresh : (owner : String) (network : ℕ) → Option ℤ → Option Charge → Call O
  unfolding checked_get_token_id payable_overrides
  refresh owner network expiry charge = do
    token_id ← checked_get_token_id owner network false
    expiration_time ← lift (get_expiration_time date_now expiry)
    let paid = or_default null_charge charge
    contract.write (Ethereum.Write.set_expiration token_id expiration_time paid)
        (payable_overrides paid)

  unfoldable pub set_bitmask : (owner : String) (network bitmask : ℕ) → Call O
  unfolding checked_get_token_id overrides
  set_bitmask owner network bitmask = do
    token_id ← checked_get_token_id owner network false
    contract.write (Ethereum.Write.set_bitmask token_id bitmask) overrides

  unfoldable pub verify : String → ℕ → Call Bool
  unfolding read_only_overrides
  verify owner network = contract.verify_token owner network read_only_overrides

  unfoldable pub get_gatekeeper_network : ℕ → Call String
  unfolding read_only_overrides
  get_gatekeeper_network network = contract.get_network network read_only_overrides

  unfoldable pub is_gatekeeper : String → ℕ → Call Bool
  is_gatekeeper authority network = contract.is_gatekeeper authority network

  abbrev token_data : ℕ → RawToken → TokenData
  token_data token_id raw = record {
    owner = raw.owner;
    token_id = token_id;
    state = raw.state;
    expiration = raw.expiration;
    bitmask = raw.bitmask;
  }

  -- `const [tokenId] = …; if (!tokenId) return null;`
  abbrev pub first_id : List ℕ → Option ℕ
  first_id [] = none
  first_id (id ∷ ids) = if id == 0 then none else some id

  abbrev read_data : Option ℕ → Call (Option TokenData)
  read_data none = return none
  read_data (some id) =
      contract.get_token id read_only_overrides >>= λ raw. return (some (token_data id raw))

  unfoldable pub get_token : String → ℕ → Call (Option TokenData)
  unfolding get_token_ids_by_owner_and_network read_only_overrides
  get_token owner network = do
    token_ids ← get_token_ids_by_owner_and_network owner network false
    read_data (first_id token_ids)
