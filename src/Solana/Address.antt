-- ===== src/Solana/Address.antt =====
-- Derived addresses, and the existence checks that rest on them: the functions of
-- solana/gateway-ts/src/lib/util.ts with `NetworkFeature` of src/lib/GatewayNetworkData.ts, and
-- `featureExists` of src/index.ts.
use Prim.Native.String.{String}
use text.Mathlib.Text.{◌==◌ as str_eq}
use on_chain_identity_gatewa.Common.{
  Option, none, some, Bool, false, Result, ok, [], ◌∷◌, if◌then◌else◌,
}
use on_chain_identity_gatewa.Common.Results.{◌>>=◌}
use on_chain_identity_gatewa.Solana.Web3.{Web3, utf8, Account, Connection}
use on_chain_identity_gatewa.Solana.Seed.{JsNumber, SeedError, padded_seed}

abbrev pub gatekeeper_nonce_seed_string : String
gatekeeper_nonce_seed_string = "gatekeeper"

abbrev pub gateway_token_address_seed : String
gateway_token_address_seed = "gateway"

-- `class NetworkFeature extends Enum`, with its one variant.
pub data NetworkFeature : Type 0 where
  user_token_expiry : NetworkFeature

-- `feature.enum`
abbrev pub enum_of : NetworkFeature → String
enum_of user_token_expiry = "userTokenExpiry"

unfoldable pub map_enum_to_feature_name : String → String
map_enum_to_feature_name name = if str_eq name "userTokenExpiry" then "expire" else name

module _ (w : Web3) where
  open w use {PublicKey, equals, to_buffer, find_program_address, program_id}

  unfoldable pub gatekeeper_account_address : PublicKey → PublicKey → PublicKey
  gatekeeper_account_address authority network =
      find_program_address
        (to_buffer authority ∷ to_buffer network ∷ utf8 gatekeeper_nonce_seed_string ∷ [])
        program_id

  -- `getGatewayTokenAddressForOwnerAndGatekeeperNetwork`
  unfoldable pub gateway_token_address :
      PublicKey → PublicKey → JsNumber → Result SeedError PublicKey
  gateway_token_address owner network index = do
    seed ← padded_seed index
    ok (
        find_program_address
          (to_buffer owner ∷ utf8 gateway_token_address_seed ∷ seed ∷ to_buffer network ∷ [])
          program_id)

  unfoldable pub feature_account_address : NetworkFeature → PublicKey → PublicKey
  unfolding map_enum_to_feature_name
  feature_account_address feature network =
      find_program_address
        (to_buffer network ∷ utf8 (map_enum_to_feature_name (enum_of feature)) ∷ []) program_id

  -- `account != null && PROGRAM_ID.equals(account.owner)`
  abbrev owned_by_program : Option (Account PublicKey) → Bool
  owned_by_program none = false
  owned_by_program (some account) = equals program_id account.owner

  pub gatekeeper_exists : Connection PublicKey → PublicKey → PublicKey → Bool
  gatekeeper_exists connection authority network =
      owned_by_program (connection.get_account_info (gatekeeper_account_address authority network))

  pub feature_exists : Connection PublicKey → NetworkFeature → PublicKey → Bool
  feature_exists connection feature network =
      owned_by_program (connection.get_account_info (feature_account_address feature network))
