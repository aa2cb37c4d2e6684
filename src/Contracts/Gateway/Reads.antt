-- ===== src/Contracts/Gateway/Reads.antt =====
-- GatewayToken.sol: what the contract answers about its tokens.
use Prim.Native.String.{String}
use on_chain_identity_gatewa.Common.{
  ℕ, zero, suc, ◌+◌, ◌==◌, Bool, true, false, not, List, [], ◌∷◌, Result, ok, if◌then◌else◌, length,
}
use on_chain_identity_gatewa.Common.Results.{◌>>=◌, ◌>>◌}
use on_chain_identity_gatewa.Contracts.{Address, Revert, TokenState}
use on_chain_identity_gatewa.Contracts.Access.{has_role}
use on_chain_identity_gatewa.Contracts.Gateway.{
  Base, RoleHashes, Gateway, Env, exists_and_active, check_token_exists,
}

-- What `getToken` answers, where the identity is always empty.
pub record TokenInfo : Type 0 where
  pub owner : Address
  pub state : TokenState
  pub expiration : ℕ
  pub bitmask : ℕ

module _ {Tokens : Type 0} (base : Base Tokens) (hashes : RoleHashes) where
  -- Whether a token is among those that the loop of `_getTokenIdsByOwnerAndNetwork` keeps.
  unfoldable pub wanted :
      Env
      → (network : ℕ) → (only_active : Bool) → (token_id : ℕ) → Gateway Tokens
      → Result Revert Bool
  wanted env network only_active token_id s = do
    slot ← base.slot_of token_id s.tokens
    if not (slot == network)
        then ok false
        else if not only_active
        then ok true
        else exists_and_active base hashes env token_id false s

  -- The loop, for the next `rest` tokens from the index `i` on.
  unfoldable pub token_ids_loop :
      Env
      → (rest i : ℕ) → Address
      → (network : ℕ) → (only_active : Bool) → Gateway Tokens
      → Result Revert (List ℕ)
  token_ids_loop env zero i owner network only_active s = ok []
  token_ids_loop env (suc rest) i owner network only_active s = do
    token_id ← base.token_of_owner_by_index owner i s.tokens
    keeps ← wanted env network only_active token_id s
    found ← token_ids_loop env rest (i + 1) owner network only_active s
    ok (if keeps then token_id ∷ found else found)

  -- `getTokenIdsByOwnerAndNetwork`, with `_getTokenIdsByOwnerAndNetwork`
  unfoldable pub get_token_ids_by_owner_and_network :
      Env → Address → (network : ℕ) → (only_active : Bool) → Gateway Tokens → Result Revert (List ℕ)
  get_token_ids_by_owner_and_network env owner network only_active s = do
    count ← base.balance_of owner s.tokens
    token_ids_loop env count 0 owner network only_active s

  -- `verifyToken(owner, network)`
  unfoldable pub verify_token : Env → Address → (network : ℕ) → Gateway Tokens → Result Revert Bool
  verify_token env owner network s = do
    token_ids ← get_token_ids_by_owner_and_network env owner network true s
    ok (not (length token_ids == 0))

  -- `verifyToken(tokenId)`
  abbrev pub verify_token_id : Env → (token_id : ℕ) → Gateway Tokens → Result Revert Bool
  verify_token_id env token_id s = exists_and_active base hashes env token_id false s

  -- `getExpiration`
  abbrev pub get_expiration : (token_id : ℕ) → Gateway Tokens → Result Revert ℕ
  get_expiration token_id s = do
    check_token_exists base hashes token_id s
    ok (s.expirations token_id)

  -- `getToken`
  unfoldable pub get_token : (token_id : ℕ) → Gateway Tokens → Result Revert TokenInfo
  get_token token_id s = do
    owner ← base.owner_of token_id s.tokens
    ok (record {
      owner = owner;
      state = s.token_states token_id;
      expiration = s.expirations token_id;
      bitmask = s.bitmasks token_id;
    })

-- `transfersRestricted`
abbrev pub transfers_restricted : Bool
transfers_restricted = true

-- `_isApprovedOrOwner`, by which the base contract allows a transfer
abbrev pub is_approved_or_owner : (account : Address) (token_id : ℕ) → Bool
is_approved_or_owner account token_id = false

module _ {Tokens : Type 0} where
  -- `getNetwork`
  abbrev pub get_network : (network : ℕ) → Gateway Tokens → String
  get_network network s = s.networks network

  -- `getIssuingGatekeeper`
  abbrev pub get_issuing_gatekeeper : (token_id : ℕ) → Gateway Tokens → Address
  get_issuing_gatekeeper token_id s = s.issuing_gatekeepers token_id

  -- `getTokenBitmask`
  abbrev pub get_token_bitmask : (token_id : ℕ) → Gateway Tokens → ℕ
  get_token_bitmask token_id s = s.bitmasks token_id

  -- `isGatekeeper`
  abbrev pub is_gatekeeper :
      RoleHashes → (gatekeeper : Address) (network : ℕ) → Gateway Tokens → Bool
  is_gatekeeper hashes gatekeeper network s =
      has_role hashes.gatekeeper_role network gatekeeper s.access

  -- `isNetworkAuthority`
  abbrev pub is_network_authority :
      RoleHashes → (authority : Address) (network : ℕ) → Gateway Tokens → Bool
  is_network_authority hashes authority network s =
      has_role hashes.network_authority_role network authority s.access
