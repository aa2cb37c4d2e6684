-- ===== src/Contracts/Gateway.antt =====
-- GatewayToken.sol and TokenBitMask.sol: the state of the gateway token contract, its checks and its
-- reads. The tokens themselves, with their owners and slots, are those of the ERC3525 base contract.
pub mod Reads
pub mod Tokens
pub mod Networks
pub mod Calls
pub mod Verify
pub mod Minting
pub mod Lifecycle
pub mod Transfer
pub mod Effects
pub mod Authority
pub mod Outsiders
pub mod SuperAdmins
pub mod NewNetwork
use Prim.Native.String.{String}
use on_chain_identity_gatewa.Common.{
  ℕ, zero, suc, ◌+◌, ◌<◌, ◌==◌, leb, ◌≡◌, ◌≢◌, ◌⊎◌, Bool, true, false, not, ◌&&◌, List, [], ◌∷◌,
  Result, ok, err, if◌then◌else◌, length,
}
use on_chain_identity_gatewa.Common.Results.{◌>>=◌, ◌>>◌}
use on_chain_identity_gatewa.Contracts.{
  Address, put, Revert, TokenState, active, frozen, revoked, token_inactive, token_does_not_exist,
  transfer_disabled,
}
use on_chain_identity_gatewa.Contracts.BitMask.{check_bit}
use on_chain_identity_gatewa.Contracts.Access.{Access, check_role, has_role}
use on_chain_identity_gatewa.Contracts.Context.{Message, Trusted, msg_sender}
use on_chain_identity_gatewa.Contracts.Charges.{Charge}

-- The ERC3525 base contract: a slot for each token, which is its gatekeeper network.
pub record Base (Tokens : Type 0) : Type 0 where
  pub mint : (to : Address) (slot value : ℕ) → Tokens → Result Revert (ℕ × Tokens)
  pub burn : (token_id : ℕ) → Tokens → Result Revert Tokens
  pub exists : (token_id : ℕ) → Tokens → Bool
  pub slot_of : (token_id : ℕ) → Tokens → Result Revert ℕ
  pub owner_of : (token_id : ℕ) → Tokens → Result Revert Address
  pub balance_of : Address → Tokens → Result Revert ℕ
  pub token_of_owner_by_index : Address → (index : ℕ) → Tokens → Result Revert ℕ
  -- The ids that have been given out; none is given out again.
  pub issued : (token_id : ℕ) → Tokens → Bool
  pub set_metadata_descriptor : Address → Tokens → Tokens
  pub described :
      (descriptor : Address) (t : Tokens) (token_id : ℕ)
      → (exists token_id (set_metadata_descriptor descriptor t) ≡ exists token_id t)
        × (issued token_id (set_metadata_descriptor descriptor t) ≡ issued token_id t)
        × (slot_of token_id (set_metadata_descriptor descriptor t) ≡ slot_of token_id t)
        × (owner_of token_id (set_metadata_descriptor descriptor t) ≡ owner_of token_id t)
  pub slot_of_exists :
      (token_id : ℕ) (t : Tokens) → exists token_id t ≡ true → (n : ℕ) × (slot_of token_id t ≡ ok n)
  pub owner_of_exists :
      (token_id : ℕ) (t : Tokens)
      → exists token_id t ≡ true
      → (a : Address) × (owner_of token_id t ≡ ok a) × (a ≢ 0)
  pub exists_issued :
      (token_id : ℕ) (t : Tokens) → exists token_id t ≡ true → issued token_id t ≡ true
  pub slot_of_ok :
      (token_id : ℕ) (t : Tokens) (n : ℕ) → slot_of token_id t ≡ ok n → exists token_id t ≡ true
  pub owned :
      (a : Address) (n index : ℕ) (t : Tokens)
      → balance_of a t ≡ ok n
      → index < n
      → (token_id : ℕ) × (token_of_owner_by_index a index t ≡ ok token_id)
        × (owner_of token_id t ≡ ok a)
        × (exists token_id t ≡ true)
  pub minted :
      (to : Address) (slot value : ℕ) (t : Tokens) (token_id : ℕ) (t' : Tokens)
      → mint to slot value t ≡ ok (token_id, t')
      → (issued token_id t ≡ false)
        × (exists token_id t' ≡ true)
        × (owner_of token_id t' ≡ ok to)
        × (slot_of token_id t' ≡ ok slot)
        × ((other : ℕ)
            → other ≢ token_id
            → (issued other t' ≡ issued other t)
              × (exists other t' ≡ exists other t)
              × (slot_of other t' ≡ slot_of other t)
              × (owner_of other t' ≡ owner_of other t))
  pub burned :
      (token_id : ℕ) (t t' : Tokens)
      → burn token_id t ≡ ok t'
      → (exists token_id t' ≡ false)
        × (issued token_id t' ≡ issued token_id t)
        × ((other : ℕ)
            → other ≢ token_id
            → (issued other t' ≡ issued other t)
              × (exists other t' ≡ exists other t)
              × (slot_of other t' ≡ slot_of other t)
              × (owner_of other t' ≡ owner_of other t))

-- `keccak256` of the names of the three roles.
pub record RoleHashes : Type 0 where
  pub dao_manager_role : ℕ
  pub gatekeeper_role : ℕ
  pub network_authority_role : ℕ
  pub distinct :
      (dao_manager_role ≢ gatekeeper_role)
      × (dao_manager_role ≢ network_authority_role)
      × (gatekeeper_role ≢ network_authority_role)
  pub nonzero : (dao_manager_role ≢ 0) × (gatekeeper_role ≢ 0) × (network_authority_role ≢ 0)

-- The other contracts: the charge handler at an address, called with a value, and whether there is a
-- contract at an address.
pub record Outside (World : Type 0) : Type 0 where
  pub handle_charge :
      (handler : Address) (value : ℕ) → Charge → (network : ℕ) → World → Result Revert World
  pub is_contract : Address → World → Bool

-- The contract's state.
pub record Gateway (Tokens : Type 0) : Type 0 where
  pub tokens : Tokens
  pub access : Access
  pub trusted_forwarders : Trusted
  pub is_network_dao_governed : ℕ → Bool
  pub token_states : ℕ → TokenState
  pub expirations : ℕ → ℕ
  pub networks : ℕ → String
  pub issuing_gatekeepers : ℕ → Address
  pub network_features : ℕ → ℕ
  pub charge_handler : Address
  pub flags_storage : Address
  pub bitmasks : ℕ → ℕ

-- The call that a transaction makes: `msg` and the block's time.
pub record Env : Type 0 where
  pub message : Message
  pub value : ℕ
  pub timestamp : ℕ

abbrev pub is_active : TokenState → Bool
is_active active = true
is_active _ = false

-- `NetworkFeature`
abbrev pub remove_gatekeeper_invalidates_tokens : ℕ
remove_gatekeeper_invalidates_tokens = 0

module _ {Tokens : Type 0} where
  -- `_msgSender`
  abbrev pub sender_of : Env → Gateway Tokens → Address
  sender_of env s = msg_sender s.trusted_forwarders env.message

  -- `_checkSenderRole`
  abbrev pub check_sender_role :
      Env → (role network : ℕ) → Gateway Tokens → Result Revert (Unit {0})
  check_sender_role env role network s = check_role role network (sender_of env s) s.access

  -- `networkHasFeature`
  abbrev pub network_has_feature : (network feature : ℕ) → Gateway Tokens → Bool
  network_has_feature network feature s = check_bit (s.network_features network) feature

  module _ (base : Base Tokens) (hashes : RoleHashes) where
    -- `_checkGatekeeper`
    abbrev pub check_gatekeeper : Env → (network : ℕ) → Gateway Tokens → Result Revert (Unit {0})
    check_gatekeeper env network s = check_sender_role env hashes.gatekeeper_role network s

    -- `_existsAndActive`
    unfoldable pub exists_and_active :
        Env → (token_id : ℕ) → (allow_expired : Bool) → Gateway Tokens → Result Revert Bool
    exists_and_active env token_id allow_expired s =
        if not (is_active (s.token_states token_id)) then ok false else (do
          network ← base.slot_of token_id s.tokens
          if network_has_feature network remove_gatekeeper_invalidates_tokens s
                && (not (s.issuing_gatekeepers token_id == 0)
                    && not (
                        has_role hashes.gatekeeper_role network (s.issuing_gatekeepers token_id)
                          s.access))
              then ok false
              else (do
                owner ← base.owner_of token_id s.tokens
                if not (s.expirations token_id == 0) && not allow_expired
                    then ok (not (owner == 0) && leb env.timestamp (s.expirations token_id))
                    else ok (not (owner == 0))))

    -- `_checkActiveToken`
    unfoldable pub check_active_token :
        Env → (token_id : ℕ) → (allow_expired : Bool) → Gateway Tokens → Result Revert (Unit {0})
    check_active_token env token_id allow_expired s = do
      good ← exists_and_active env token_id allow_expired s
      if good then ok tt else err (token_inactive token_id allow_expired)

    -- `_checkTokenExists`
    abbrev pub check_token_exists : (token_id : ℕ) → Gateway Tokens → Result Revert (Unit {0})
    check_token_exists token_id s =
        if not (base.exists token_id s.tokens) then err (token_does_not_exist token_id) else ok tt
