-- ===== src/Ethereum.antt =====
-- The Ethereum client library: ethereum/gateway-eth-ts/src. A contract object is a parameter: the
-- reads that it answers, and for each write what it gives back (a response, or a transaction to
-- sign). Bigints that the source compares with 0 are integers, and other numbers are naturals.
pub mod Utils
pub mod Client
pub mod Reads
pub mod Forwarder
pub mod Tests
use Prim.Native.String.{String}
use text.Mathlib.Text.{◌==◌ as str_eq}
use on_chain_identity_gatewa.Common.{
  ℕ, ◌≡◌, Option, none, some, Bool, true, false, List, [], ◌∷◌, any, if◌then◌else◌,
}
use on_chain_identity_gatewa.Common.Io.{Io}

pub data EthError : Type 0 where
  multiple_tokens no_tokens negative_expiration not_a_function call_failed : EthError
  invalid_charge_type gas_limit_type : EthError

-- The value of a property of an options object.
pub data Value : Type 0 where
  undefined : Value
  number : ℕ → Value
  flag : Bool → Value

-- An options object, by its properties.
abbrev pub Overrides : Type 0
Overrides = String → Option Value

-- `{ ...o, [name]: v }`
abbrev pub with_property : String → Value → Overrides → Overrides
with_property name v o key = if str_eq key name then some v else o key

-- ramda's `omit`, which leaves out the named properties and keeps the others.
pub record Ramda : Type 0 where
  pub omit : List String → Overrides → Overrides
  pub omit_lem :
      (names : List String) (o : Overrides) (key : String)
      → omit names o key ≡ (if any (str_eq key) names then none else o key)

-- `enum ChargeType`
pub data ChargeType : Type 0 where
  none_type eth erc20 : ChargeType

-- `Charge`
pub record Charge : Type 0 where
  pub value : ℕ
  pub charge_type : ChargeType
  pub token : String
  pub recipient : String
  pub token_sender : String

abbrev pub zero_address : String
zero_address = "0x0000000000000000000000000000000000000000"

-- `NULL_CHARGE`
abbrev pub null_charge : Charge
null_charge = record {
  value = 0;
  charge_type = none_type;
  token = zero_address;
  recipient = zero_address;
  token_sender = zero_address;
}

-- A call of one of the write methods of the GatewayToken contract, with its arguments.
pub data Write : Type 0 where
  create_network :
      (network : ℕ) (name : String) (dao_governed : Bool) (dao_manager : String) → Write
  rename_network : (network : ℕ) (name : String) → Write
  add_gatekeeper remove_gatekeeper : (gatekeeper : String) (network : ℕ) → Write
  add_network_authority remove_network_authority : (authority : String) (network : ℕ) → Write
  set_network_features : (network mask : ℕ) → Write
  mint : (to : String) (network expiration mask : ℕ) → Charge → Write
  set_expiration : (token_id timestamp : ℕ) → Charge → Write
  freeze unfreeze revoke burn : (token_id : ℕ) → Write
  set_bitmask : (token_id mask : ℕ) → Write

-- The name of the method: `WriteOps`
abbrev pub op_name : Write → String
op_name (create_network _ _ _ _) = "createNetwork"
op_name (rename_network _ _) = "renameNetwork"
op_name (add_gatekeeper _ _) = "addGatekeeper"
op_name (remove_gatekeeper _ _) = "removeGatekeeper"
op_name (add_network_authority _ _) = "addNetworkAuthority"
op_name (remove_network_authority _ _) = "removeNetworkAuthority"
op_name (set_network_features _ _) = "setNetworkFeatures"
op_name (mint _ _ _ _ _) = "mint"
op_name (set_expiration _ _ _) = "setExpiration"
op_name (freeze _) = "freeze"
op_name (unfreeze _) = "unfreeze"
op_name (revoke _) = "revoke"
op_name (burn _) = "burn"
op_name (set_bitmask _ _) = "setBitmask"

-- What the contract's `getToken` answers, less the id.
pub record RawToken : Type 0 where
  pub owner : String
  pub state : ℕ
  pub expiration : ℕ
  pub bitmask : ℕ

-- A contract object, whose writes give an `O`.
pub record Contract (World O : Type 0) : Type 0 where
  pub write : Write → Overrides → Io World EthError O
  pub get_token_ids_by_owner_and_network :
      String → ℕ → Bool → Overrides → Io World EthError (List ℕ)
  pub get_token : ℕ → Overrides → Io World EthError RawToken
  pub get_network : ℕ → Overrides → Io World EthError String
  pub verify_token : String → ℕ → Overrides → Io World EthError Bool
  pub is_gatekeeper : String → ℕ → Io World EthError Bool
