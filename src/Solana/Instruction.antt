-- ===== src/Solana/Instruction.antt =====
-- The instruction builders of solana/gateway-ts/src/lib/instruction.ts. An instruction's data is
-- what its class and the borsh schema say, the number of its variant and its fields; the bytes
-- are borsh's.
pub mod Wire
pub mod Accounts
pub mod Client
use Prim.Native.String.{String}
use text.Mathlib.Text.{◌==◌ as str_eq}
use on_chain_identity_gatewa.Common.{
  ℕ, suc, Option, none, some, Bool, true, false, List, [], ◌∷◌, ◌++◌, if◌then◌else◌,
}
use on_chain_identity_gatewa.Solana.Web3.{Web3}
use on_chain_identity_gatewa.Solana.Address.{
  NetworkFeature, enum_of, user_token_expiry, feature_account_address,
}

-- `AccountMeta`
pub record AccountMeta (K : Type 0) : Type 0 where
  pub pubkey : K
  pub is_signer : Bool
  pub is_writable : Bool

-- A field as borsh writes it: optional eight bytes, an optional or plain `u64`, the number of an
-- enum's variant, or 32 bytes of a key.
pub data Field (K : Type 0) : Type 0 where
  opt_seed : Option (List ℕ) → Field K
  opt_u64 : Option ℕ → Field K
  u64 : ℕ → Field K
  variant : ℕ → Field K
  bytes32 : K → Field K

-- The number of the variant, and the fields in the schema's order.
pub record Message (K : Type 0) : Type 0 where
  pub number : ℕ
  pub fields : List (Field K)

-- `TransactionInstruction`
pub record TransactionInstruction (K : Type 0) : Type 0 where
  pub keys : List (AccountMeta K)
  pub program_id : K
  pub message : Message K

-- `class GatewayInstruction extends Enum`, and the state in `SetState`, which has one of three names.
pub data GatewayInstruction (K : Type 0) : Type 0 where
  add_gatekeeper : GatewayInstruction K
  issue : Option (List ℕ) → Option ℕ → GatewayInstruction K
  set_state : String → GatewayInstruction K
  update_expiry : ℕ → GatewayInstruction K
  revoke_gatekeeper : GatewayInstruction K
  add_feature_to_network : NetworkFeature → GatewayInstruction K
  remove_feature_from_network : NetworkFeature → GatewayInstruction K
  expire_token : Option (List ℕ) → K → GatewayInstruction K
  burn_token : GatewayInstruction K

-- The place of a name in a schema's `values`, from `k` on.
abbrev position : ℕ → String → List String → ℕ
position k name [] = k
position k name (v ∷ vs) = if str_eq v name then k else position (suc k) name vs

-- `SCHEMA.set(GatewayTokenState, …)` and `SCHEMA.set(NetworkFeature, …)`
abbrev pub state_values : List String
state_values = "active" ∷ "frozen" ∷ "revoked" ∷ []

abbrev pub feature_values : List String
feature_values = "userTokenExpiry" ∷ []

-- `SCHEMA.set(GatewayInstruction, …)`
abbrev pub instruction_values : List String
instruction_values =
    "addGatekeeper" ∷ "issue" ∷ "setState" ∷ "updateExpiry" ∷ "revokeGatekeeper"
    ∷ "addFeatureToNetwork" ∷ "removeFeatureFromNetwork" ∷ "expireToken" ∷ "burnToken" ∷ []

module _ {K : Type 0} where
  -- `instruction.enum`: the name of the one property
  abbrev pub instruction_name : GatewayInstruction K → String
  instruction_name add_gatekeeper = "addGatekeeper"
  instruction_name (issue _ _) = "issue"
  instruction_name (set_state _) = "setState"
  instruction_name (update_expiry _) = "updateExpiry"
  instruction_name revoke_gatekeeper = "revokeGatekeeper"
  instruction_name (add_feature_to_network _) = "addFeatureToNetwork"
  instruction_name (remove_feature_from_network _) = "removeFeatureFromNetwork"
  instruction_name (expire_token _ _) = "expireToken"
  instruction_name burn_token = "burnToken"

  -- The `fields` of the variants' schemas.
  abbrev pub instruction_fields : GatewayInstruction K → List (Field K)
  instruction_fields (issue seed expire_time) = opt_seed seed ∷ opt_u64 expire_time ∷ []
  instruction_fields (set_state state) = variant (position 0 state state_values) ∷ []
  instruction_fields (update_expiry expire_time) = u64 expire_time ∷ []
  instruction_fields (add_feature_to_network f) =
      variant (position 0 (enum_of f) feature_values) ∷ []
  instruction_fields (remove_feature_from_network f) =
      variant (position 0 (enum_of f) feature_values) ∷ []
  instruction_fields (expire_token padding network) = opt_seed padding ∷ bytes32 network ∷ []
  instruction_fields _ = []

  unfoldable pub encode : GatewayInstruction K → Message K
  encode i = record {
    number = position 0 (instruction_name i) instruction_values;
    fields = instruction_fields i;
  }

  abbrev signer : K → Bool → AccountMeta K
  signer k writable = record { pubkey = k; is_signer = true; is_writable = writable }

  abbrev plain : K → Bool → AccountMeta K
  plain k writable = record { pubkey = k; is_signer = false; is_writable = writable }

  -- `getStateChangeAccountMeta`
  abbrev pub state_change_account_meta : (token authority account : K) → List (AccountMeta K)
  state_change_account_meta token authority account =
      plain token true ∷ signer authority false ∷ plain account false ∷ []

module _ (w : Web3) where
  open w use {PublicKey, program_id, system_program_id, sysvar_rent}

  abbrev build :
      List (AccountMeta PublicKey) → GatewayInstruction PublicKey → TransactionInstruction PublicKey
  build keys i = record { keys = keys; program_id = program_id; message = encode i }

  unfoldable pub make_add_gatekeeper :
      (payer account authority network : PublicKey) → TransactionInstruction PublicKey
  unfolding encode
  make_add_gatekeeper payer account authority network =
      build
        (signer payer true
          ∷ plain account true
          ∷ plain authority false
          ∷ signer network false
          ∷ plain sysvar_rent false
          ∷ plain system_program_id false
          ∷ [])
        add_gatekeeper

  unfoldable pub make_revoke_gatekeeper :
      (funds_to account authority network : PublicKey) → TransactionInstruction PublicKey
  unfolding encode
  make_revoke_gatekeeper funds_to account authority network =
      build
        (plain funds_to true
          ∷ plain account true
          ∷ plain authority false
          ∷ signer network false
          ∷ [])
        revoke_gatekeeper

  unfoldable pub make_issue :
      (token payer account owner authority network : PublicKey)
      → Option (List ℕ)
      → Option ℕ
      → TransactionInstruction PublicKey
  unfolding encode
  make_issue token payer account owner authority network seed expire_time =
      build
        (signer payer true
          ∷ plain token true
          ∷ plain owner false
          ∷ plain account false
          ∷ signer authority false
          ∷ plain network false
          ∷ plain sysvar_rent false
          ∷ plain system_program_id false
          ∷ [])
        (issue seed expire_time)

  unfoldable pub make_revoke :
      (token authority account : PublicKey) → TransactionInstruction PublicKey
  unfolding encode
  make_revoke token authority account =
      build (state_change_account_meta token authority account) (set_state "revoked")

  unfoldable pub make_freeze :
      (token authority account : PublicKey) → TransactionInstruction PublicKey
  unfolding encode
  make_freeze token authority account =
      build (state_change_account_meta token authority account) (set_state "frozen")

  unfoldable pub make_unfreeze :
      (token authority account : PublicKey) → TransactionInstruction PublicKey
  unfolding encode
  make_unfreeze token authority account =
      build (state_change_account_meta token authority account) (set_state "active")

  unfoldable pub make_update_expiry :
      (token authority account : PublicKey) → ℕ → TransactionInstruction PublicKey
  unfolding encode
  make_update_expiry token authority account expire_time =
      build (plain token true ∷ signer authority false ∷ plain account false ∷ [])
        (update_expiry expire_time)

  unfoldable pub make_add_feature_to_network :
      (payer network : PublicKey) → NetworkFeature → TransactionInstruction PublicKey
  unfolding encode
  make_add_feature_to_network payer network feature =
      build
        (signer payer true
          ∷ signer network false
          ∷ plain (feature_account_address w feature network) true
          ∷ plain system_program_id false
          ∷ [])
        (add_feature_to_network feature)

  unfoldable pub make_remove_feature_from_network :
      (payer network : PublicKey) → NetworkFeature → TransactionInstruction PublicKey
  unfolding encode
  make_remove_feature_from_network payer network feature =
      build
        (signer payer true
          ∷ signer network false
          ∷ plain (feature_account_address w feature network) true
          ∷ plain system_program_id false
          ∷ [])
        (remove_feature_from_network feature)

  unfoldable pub make_expire_token :
      (token owner network : PublicKey) → TransactionInstruction PublicKey
  unfolding encode
  make_expire_token token owner network =
      build
        (plain token true
          ∷ signer owner true
          ∷ plain (feature_account_address w user_token_expiry network) false
          ∷ [])
        (expire_token none network)

  unfoldable pub make_burn :
      (token authority account recipient : PublicKey) → TransactionInstruction PublicKey
  unfolding encode
  make_burn token authority account recipient =
      build (state_change_account_meta token authority account ++ plain recipient true ∷ [])
        burn_token
