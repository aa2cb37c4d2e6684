-- ===== src/Solana/Token.antt =====
-- A gateway token as the client sees it: `class GatewayToken` of solana/gateway-ts/src/types,
-- `GatewayTokenData` and `GatewayTokenState` of src/lib/GatewayTokenData.ts, the `Enum` base class
-- of src/lib/solanaBorsh.ts, and `dataToGatewayToken` of src/lib/util.ts. Times are whole seconds
-- from 0 on; `Date.now()` is an argument, in milliseconds.
pub mod Laws
use Prim.Native.String.{String}
use text.Mathlib.Text.{◌==◌ as str_eq}
use on_chain_identity_gatewa.Common.{
  ℕ, suc, ◌/◌, Option, none, some, Bool, true, false, not, ◌&&◌, Result, ok, err, List, [], ◌∷◌,
  ltb, ◌==◌, length, any, if◌then◌else◌,
}
use on_chain_identity_gatewa.Common.Results.{◌>>=◌}
use on_chain_identity_gatewa.Solana.Web3.{Web3}

-- What these functions throw: `Enum`'s constructor, `fromGatewayTokenState`, and `BN.toNumber` on
-- a number that is not exact; `decode_error` is borsh's, on bytes that are no account.
pub data TokenError : Type 0 where
  single_value unrecognised_state inexact_number decode_error : TokenError

-- `enum State`
pub data State : Type 0 where
  active revoked frozen : State

-- `state === State.ACTIVE`, `state !== State.REVOKED`
abbrev pub is_active : State → Bool
is_active active = true
is_active _ = false

abbrev pub is_revoked : State → Bool
is_revoked revoked = true
is_revoked _ = false

-- A number that JavaScript takes for true: neither missing nor 0.
abbrev pub truthy : Option ℕ → Bool
truthy none = false
truthy (some n) = not (n == 0)

-- `!!a && now > a`
abbrev pub past : ℕ → Option ℕ → Bool
past now none = false
past now (some t) = not (t == 0) && ltb t now

pub record GatewayToken (K : Type 0) : Type 0 where
  pub issuing_gatekeeper : K
  pub gatekeeper_network : K
  pub owner : K
  pub state : State
  pub public_key : K
  pub program_id : K
  pub expiry_time : Option ℕ

-- `expiryTime || this.expiryTime`
pub or_else : Option ℕ → Option ℕ → Option ℕ
or_else a b = if truthy a then a else b

module _ {K : Type 0} where
  unfoldable pub has_expired : ℕ → GatewayToken K → Bool
  has_expired date_now t = past (date_now / 1000) t.expiry_time

  unfoldable pub is_valid : ℕ → GatewayToken K → Bool
  unfolding has_expired
  is_valid date_now t = is_active t.state && not (has_expired date_now t)

  pub update : State → Option ℕ → GatewayToken K → GatewayToken K
  unfolding or_else
  update state expiry_time t = record t {
    state = state;
    expiry_time = or_else expiry_time t.expiry_time;
  }

-- `class GatewayTokenState extends Enum`: a property for each variant, and the variant's name.
pub record GatewayTokenState : Type 0 where
  pub has_active : Bool
  pub has_frozen : Bool
  pub has_revoked : Bool
  pub enum : String

abbrev last_key : String → List String → String
last_key name [] = name
last_key name (key ∷ keys) = last_key key keys

abbrev has_key : List String → String → Bool
has_key keys name = any (λ key. str_eq key name) keys

-- The constructor, on the property names of the object that it is given. Each is assigned; then
-- there must be exactly one, and `enum` becomes the last.
pub make_state : List String → Result TokenError GatewayTokenState
make_state keys =
    if length keys == 1
    then ok (record {
      has_active = has_key keys "active";
      has_frozen = has_key keys "frozen";
      has_revoked = has_key keys "revoked";
      enum = last_key "" keys;
    })
    else err single_value

unfoldable pub from_gateway_token_state : GatewayTokenState → Result TokenError State
from_gateway_token_state s =
    if s.has_active
    then ok active
    else if s.has_revoked
    then ok revoked
    else if s.has_frozen
    then ok frozen
    else err unrecognised_state

-- The fields that borsh assigns; the keys are byte arrays, and `expiry` is a `BN`.
pub record GatewayTokenData : Type 0 where
  pub version : ℕ
  pub parent_gateway_token : Option (List ℕ)
  pub owner : List ℕ
  pub owner_identity : Option (List ℕ)
  pub gatekeeper_network : List ℕ
  pub issuing_gatekeeper : List ℕ
  pub state : GatewayTokenState
  pub expiry : Option ℕ

module _ (w : Web3) where
  open w use {PublicKey, of_bytes, program_id, to_number}

  -- `data.expiry?.toNumber()`
  expiry_number : Option ℕ → Result TokenError (Option ℕ)
  expiry_number none = ok none
  expiry_number (some bn) = elim (to_number bn) [ none ↦ err inexact_number | some n ↦ ok (some n) ]

  unfoldable pub data_to_gateway_token :
      GatewayTokenData → PublicKey → Result TokenError (GatewayToken PublicKey)
  unfolding expiry_number from_gateway_token_state
  data_to_gateway_token d public_key = do
    state ← from_gateway_token_state d.state
    expiry_time ← expiry_number d.expiry
    ok (record {
      issuing_gatekeeper = of_bytes d.issuing_gatekeeper;
      gatekeeper_network = of_bytes d.gatekeeper_network;
      owner = of_bytes d.owner;
      state = state;
      public_key = public_key;
      program_id = program_id;
      expiry_time = expiry_time;
    })
