-- ===== src/Contracts/Gateway/Tokens.antt =====
-- GatewayToken.sol: the calls that change a gateway token. A call that charges also changes the
-- world of the other contracts.
use on_chain_identity_gatewa.Common.{ℕ, ltb, Bool, true, false, not, Result, ok, err, if◌then◌else◌}
use on_chain_identity_gatewa.Common.Results.{◌>>=◌, ◌>>◌}
use on_chain_identity_gatewa.Contracts.{
  Address, put, Revert, TokenState, active, frozen, revoked, transfer_disabled, invalid_state,
}
use on_chain_identity_gatewa.Contracts.Charges.{Charge}
use on_chain_identity_gatewa.Contracts.Gateway.{
  Base, RoleHashes, Outside, Gateway, Env, sender_of, check_sender_role, check_gatekeeper,
  check_active_token, check_token_exists,
}

abbrev pub is_frozen : TokenState → Bool
is_frozen frozen = true
is_frozen _ = false

-- `_tokenStates[tokenId] = state`
abbrev pub set_state :
    {Tokens : Type 0} → (token_id : ℕ) → TokenState → Gateway Tokens → Gateway Tokens
set_state token_id state s = record s { token_states = put token_id state s.token_states }

-- `_setBitMask`
abbrev pub set_bit_mask : {Tokens : Type 0} → (token_id mask : ℕ) → Gateway Tokens → Gateway Tokens
set_bit_mask token_id mask s = record s { bitmasks = put token_id mask s.bitmasks }

-- `approve`, in both of its forms
abbrev pub approve : {A : Type 0} → Result Revert A
approve = err transfer_disabled

module _ {Tokens : Type 0} (base : Base Tokens) (hashes : RoleHashes) where
  -- `burn`
  unfoldable pub burn : Env → (token_id : ℕ) → Gateway Tokens → Result Revert (Gateway Tokens)
  burn env token_id s = do
    network ← base.slot_of token_id s.tokens
    check_gatekeeper base hashes env network s
    tokens ← base.burn token_id s.tokens
    ok (record s { tokens = tokens })

  -- `revoke`
  unfoldable pub revoke : Env → (token_id : ℕ) → Gateway Tokens → Result Revert (Gateway Tokens)
  revoke env token_id s = do
    network ← base.slot_of token_id s.tokens
    check_gatekeeper base hashes env network s
    ok (set_state token_id revoked s)

  -- `freeze`, with `_freeze`
  unfoldable pub freeze : Env → (token_id : ℕ) → Gateway Tokens → Result Revert (Gateway Tokens)
  freeze env token_id s = do
    network ← base.slot_of token_id s.tokens
    check_gatekeeper base hashes env network s
    check_active_token base hashes env token_id true s
    ok (set_state token_id frozen s)

  -- `unfreeze`, with `_unfreeze`
  unfoldable pub unfreeze : Env → (token_id : ℕ) → Gateway Tokens → Result Revert (Gateway Tokens)
  unfreeze env token_id s = do
    network ← base.slot_of token_id s.tokens
    check_gatekeeper base hashes env network s
    check_token_exists base hashes token_id s
    if not (is_frozen (s.token_states token_id))
        then err (invalid_state token_id (s.token_states token_id) frozen)
        else ok (set_state token_id active s)

  -- `setBitmask`
  unfoldable pub set_bitmask :
      Env → (token_id mask : ℕ) → Gateway Tokens → Result Revert (Gateway Tokens)
  set_bitmask env token_id mask s = do
    network ← base.slot_of token_id s.tokens
    check_sender_role env hashes.gatekeeper_role network s
    ok (set_bit_mask token_id mask s)

  -- The checks and effects of `mint`, before the charge.
  unfoldable pub mint_effects :
      Env
      → (to : Address) (network expiration mask : ℕ) → Gateway Tokens
      → Result Revert (ℕ × Gateway Tokens)
  mint_effects env to network expiration mask s = do
    check_gatekeeper base hashes env network s
    (token_id, tokens) ← base.mint to network 1 s.tokens
    ok (
      token_id,
      record s {
        tokens = tokens;
        expirations =
            if ltb 0 expiration then put token_id expiration s.expirations else s.expirations;
        bitmasks = if ltb 0 mask then put token_id mask s.bitmasks else s.bitmasks;
        issuing_gatekeepers = put token_id (sender_of env s) s.issuing_gatekeepers;
      },
    )

  -- The checks and effects of `setExpiration`, before the charge: `_setExpiration`
  unfoldable pub set_expiration_effects :
      Env → (token_id timestamp : ℕ) → Gateway Tokens → Result Revert (ℕ × Gateway Tokens)
  set_expiration_effects env token_id timestamp s = do
    network ← base.slot_of token_id s.tokens
    check_gatekeeper base hashes env network s
    check_active_token base hashes env token_id true s
    ok (network, record s { expirations = put token_id timestamp s.expirations })

  module _ {World : Type 0} (outside : Outside World) where
    -- `mint`
    unfoldable pub mint :
        Env
        → (to : Address) (network expiration mask : ℕ) → Charge
        → Gateway Tokens × World
        → Result Revert (Gateway Tokens × World)
    mint env to network expiration mask charge (s, w) = do
      (token_id, s') ← mint_effects env to network expiration mask s
      w' ← outside.handle_charge s'.charge_handler env.value charge network w
      ok (s', w')

    -- `setExpiration`
    unfoldable pub set_expiration :
        Env
        → (token_id timestamp : ℕ) → Charge
        → Gateway Tokens × World
        → Result Revert (Gateway Tokens × World)
    set_expiration env token_id timestamp charge (s, w) = do
      (network, s') ← set_expiration_effects env token_id timestamp s
      w' ← outside.handle_charge s'.charge_handler env.value charge network w
      ok (s', w')
