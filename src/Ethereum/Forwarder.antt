-- ===== src/Ethereum/Forwarder.antt =====
-- Meta-transactions: ethereum/gateway-eth-ts/src/service/GatewayTsForwarder.ts, GatewayTsTransaction.ts,
-- src/utils/metatx.ts and the lists of names in src/utils/types.ts.
pub mod Charged
pub mod Laws
use Prim.Native.String.{String}
use text.Mathlib.Text.{◌==◌ as str_eq}
use on_chain_identity_gatewa.Common.{
  ℕ, ◌==◌, ◌≡◌, Option, none, some, Bool, true, false, not, List, [], ◌∷◌, any, Result, ok, err,
  if◌then◌else◌,
}
use on_chain_identity_gatewa.Common.Int.{ℤ}
use on_chain_identity_gatewa.Common.Io.{Io, ◌>>=◌, return, throw, lift}
use on_chain_identity_gatewa.Ethereum.{
  EthError, not_a_function, gas_limit_type, Value, undefined, number, flag, Overrides, Ramda,
  Charge, ChargeType, eth, erc20, none_type, Write, op_name, Contract,
}
use on_chain_identity_gatewa.Ethereum.Client.{issue, refresh, truthy}

-- The fields of a populated transaction that the source touches.
pub record Populated : Type 0 where
  pub from_address : Option String
  pub to_address : String
  pub call_data : String
  pub value : Option ℕ
  pub gas_limit : Option ℕ

-- `Input` of metatx.ts, where `value` may be left out
pub record Input : Type 0 where
  pub from_address : String
  pub to_address : String
  pub call_data : String
  pub value : Option ℕ
  pub gas : ℕ

-- `ForwardRequest`
pub record ForwardRequest : Type 0 where
  pub from_address : String
  pub to_address : String
  pub call_data : String
  pub value : ℕ
  pub gas : ℕ
  pub nonce : String

-- `EIP712TypedData`, as far as it varies: the domain's chain and contract, and the message
pub record TypedData : Type 0 where
  pub domain_name : String
  pub domain_version : String
  pub chain_id : ℕ
  pub verifying_contract : String
  pub message : ForwardRequest

-- `mappedOpNames`
abbrev pub mapped_op_names : List String
mapped_op_names =
    "createNetwork" ∷ "renameNetwork" ∷ "addGatekeeper" ∷ "removeGatekeeper" ∷ "addNetworkAuthority"
    ∷ "removeNetworkAuthority" ∷ "mint" ∷ "setExpiration" ∷ "freeze" ∷ "unfreeze" ∷ "revoke"
    ∷ "burn" ∷ "setBitmask" ∷ []

-- What ethers gives: the signer, the two contracts, and populating a call of each. Populating a call
-- takes its value from the overrides.
pub record Ethers (World : Type 0) : Type 0 where
  pub populate : Write → Overrides → Io World EthError Populated
  pub populate_value :
      (call : Write) (o : Overrides) (n : ℕ) (s s' : World) (t : Populated)
      → o "value" ≡ some (number n)
      → populate call o s ≡ (ok t, s')
      → t.value ≡ some n
  pub wallet_address : Io World EthError String
  pub to_address : Io World EthError String
  pub get_nonce : String → Io World EthError String
  pub chain_id : Io World EthError ℕ
  pub forwarder_address : Io World EthError String
  pub sign_typed_data : TypedData → Io World EthError String
  pub populate_execute : ForwardRequest → (signature : String) → Io World EthError Populated

-- A value or gas limit that JavaScript takes for true.
abbrev pub nonzero : Option ℕ → Option ℕ
nonzero none = none
nonzero (some n) = if n == 0 then none else some n

abbrev pub or_number : ℕ → Option ℕ → ℕ
or_number d none = d
or_number d (some n) = n

abbrev pub default_gas_limit : ℕ
default_gas_limit = 500000

-- `options.gasLimit || DEFAULT_GAS_LIMIT`, of a number
abbrev pub gas_limit_or_default : Option Value → ℕ
gas_limit_or_default (some (number n)) = or_number default_gas_limit (nonzero (some n))
gas_limit_or_default _ = default_gas_limit

-- `forwarderOptions` of `GatewayTs`: a gas limit that is true must be a number
unfoldable pub forwarder_options : Overrides → Result EthError Overrides
forwarder_options options = elim (options "gasLimit") [
  | none ↦ ok options
  | some undefined ↦ ok options
  | some (number n) ↦ ok options
  | some (flag b) ↦ if b then err gas_limit_type else ok options
]

module _ {World : Type 0} (ethers : Ethers World) where
  -- `buildRequest`: `{ value: 0, nonce, ...input }`
  unfoldable pub build_request : Input → Io World EthError ForwardRequest
  build_request input = do
    nonce ← ethers.get_nonce input.from_address
    return (record {
      from_address = input.from_address;
      to_address = input.to_address;
      call_data = input.call_data;
      value = or_number 0 input.value;
      gas = input.gas;
      nonce = nonce;
    })

  -- `buildTypedData` with `getMetaTxTypeData`
  unfoldable pub build_typed_data : ForwardRequest → Io World EthError TypedData
  build_typed_data request = do
    chain_id ← ethers.chain_id
    verifying_contract ← ethers.forwarder_address
    return (record {
      domain_name = "FlexibleNonceForwarder";
      domain_version = "0.0.1";
      chain_id = chain_id;
      verifying_contract = verifying_contract;
      message = request;
    })

  -- `signMetaTxRequest`
  unfoldable pub sign_meta_tx_request : Input → Io World EthError (ForwardRequest × String)
  unfolding build_request build_typed_data
  sign_meta_tx_request input = do
    request ← build_request input
    to_sign ← build_typed_data request
    signature ← ethers.sign_typed_data to_sign
    return (request, signature)

  -- The object that `toMetaTx` signs.
  abbrev pub input_of : (default_gas : ℕ) → Populated → (from_address to_address : String) → Input
  input_of default_gas t from_address to_address = record {
    from_address = from_address;
    to_address = to_address;
    call_data = t.call_data;
    value = nonzero t.value;
    gas = or_number default_gas (nonzero t.gas_limit);
  }

  -- `toMetaTx`, on a method of the contract and its arguments
  unfoldable pub to_meta_tx : (default_gas : ℕ) → Write → Overrides → Io World EthError Populated
  unfolding sign_meta_tx_request
  to_meta_tx default_gas call o = do
    populated ← ethers.populate call o
    from_address ← ethers.wallet_address
    to_address ← ethers.to_address
    signed ← sign_meta_tx_request (input_of default_gas populated from_address to_address)
    forwarded ← ethers.populate_execute signed.0 signed.1
    return (record forwarded { from_address = none })

  -- The write methods of the object that the constructors of `GatewayTsForwarder` and
  -- `GatewayTsTransaction` build: those of `mappedOpNames`, and no others.
  abbrev pub mapped_write :
      (Write → Overrides → Io World EthError Populated)
      → Write
      → Overrides
      → Io World EthError Populated
  mapped_write wrap call o s =
      if any (str_eq (op_name call)) mapped_op_names then wrap call o s else (err not_a_function, s)

  -- The constructor of `GatewayTsForwarder`, and of `GatewayTsTransaction`; a read is the contract's.
  unfoldable pub forwarder_contract :
      Overrides → Contract World Populated → Contract World Populated
  unfolding to_meta_tx
  forwarder_contract options reads = record reads {
    write = mapped_write (to_meta_tx (gas_limit_or_default (options "gasLimit")));
  }

  unfoldable pub transaction_contract : Contract World Populated → Contract World Populated
  transaction_contract reads = record reads { write = mapped_write ethers.populate }

  abbrev with_value : Charge → ChargeType → Populated → Populated
  with_value charge eth t = record t { value = some charge.value }
  with_value charge erc20 t = t
  with_value charge none_type t = t

  -- `if (charge?.chargeType === ChargeType.ETH) tx.value = charge.value`
  abbrev pub set_value : Option Charge → Populated → Populated
  set_value none t = t
  set_value (some charge) t = with_value charge charge.charge_type t

  module _ (ramda : Ramda) (options : Overrides) (reads : Contract World Populated)
      (date_now : ℕ) where
    unfoldable pub forwarder_issue :
        (owner : String) (network : ℕ)
        → Option ℤ
        → Option ℕ
        → Option Charge
        → Io World EthError Populated
    unfolding forwarder_contract
    forwarder_issue owner network expiry bitmask charge = do
      tx ←
          issue ramda (forwarder_contract options reads) options date_now owner network expiry
            bitmask charge
      return (set_value charge tx)

    unfoldable pub forwarder_refresh :
        (owner : String) (network : ℕ) → Option ℤ → Option Charge → Io World EthError Populated
    unfolding forwarder_contract
    forwarder_refresh owner network expiry charge = do
      tx ←
          refresh ramda (forwarder_contract options reads) options date_now owner network expiry
            charge
      return (set_value charge tx)
