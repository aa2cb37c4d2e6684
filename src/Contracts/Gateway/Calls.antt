-- ===== src/Contracts/Gateway/Calls.antt =====
-- GatewayToken.sol as a state machine: every external function of the contract and of its access
-- control that changes its state. Those that the ERC3525 base contract adds are not among them.
use Prim.Native.String.{String}
use on_chain_identity_gatewa.Common.{ℕ, Bool, List, [], ◌∷◌, Result, ok, err}
use on_chain_identity_gatewa.Common.Results.{◌>>=◌}
use on_chain_identity_gatewa.Contracts.{Address, Revert}
use on_chain_identity_gatewa.Contracts.Access.{
  Access, renounce_role, set_super_admin, revoke_super_admin,
}
use on_chain_identity_gatewa.Contracts.Charges.{Charge}
use on_chain_identity_gatewa.Contracts.Gateway.{Base, RoleHashes, Outside, Gateway, Env, sender_of}
use on_chain_identity_gatewa.Contracts.Gateway.Tokens.{
  burn, revoke, freeze, unfreeze, set_bitmask, mint, set_expiration,
}
use on_chain_identity_gatewa.Contracts.Gateway.Networks.{
  with_access, set_metadata_descriptor, add_forwarder_call, remove_forwarder_call,
  update_flags_storage, update_charge_handler, grant_call, revoke_call, add_gatekeeper,
  remove_gatekeeper, add_network_authority, remove_network_authority, set_network_features,
  rename_network, create_network, transfer_dao_manager,
}

pub data Call : Type 0 where
  call_mint : (to : Address) (network expiration mask : ℕ) → Charge → Call
  call_set_expiration : (token_id timestamp : ℕ) → Charge → Call
  call_burn call_revoke call_freeze call_unfreeze : (token_id : ℕ) → Call
  call_set_bitmask : (token_id mask : ℕ) → Call
  call_create_network :
      (network : ℕ) (name : String) (dao_governed : Bool) (dao_manager : Address) → Call
  call_rename_network : (network : ℕ) (name : String) → Call
  call_add_gatekeeper call_remove_gatekeeper : (gatekeeper : Address) (network : ℕ) → Call
  call_add_network_authority call_remove_network_authority :
      (authority : Address) (network : ℕ) → Call
  call_set_network_features : (network mask : ℕ) → Call
  call_transfer_dao_manager : (previous new_manager : Address) (network : ℕ) → Call
  call_grant_role call_revoke_role call_renounce_role :
      (role network : ℕ) (account : Address) → Call
  call_set_super_admin call_revoke_super_admin : (account : Address) → Call
  call_add_forwarder call_remove_forwarder : (forwarder : Address) → Call
  call_update_flags_storage call_update_charge_handler : (contract : Address) → Call
  call_set_metadata_descriptor : (descriptor : Address) → Call

module _ {Tokens World : Type 0} (base : Base Tokens) (hashes : RoleHashes)
    (outside : Outside World) where
  abbrev pub State : Type 0
  State = Gateway Tokens × World

  -- A call that leaves the world as it is.
  abbrev pub inside : Result Revert (Gateway Tokens) → World → Result Revert State
  inside r w = do s ← r; ok (s, w)

  -- A call that changes the roles only.
  abbrev pub on_access : Gateway Tokens → Result Revert Access → Result Revert (Gateway Tokens)
  on_access s r = do access ← r; ok (with_access s access)

  unfoldable pub run_call : Env → Call → State → Result Revert State
  run_call env (call_mint to network expiration mask charge) s =
      mint base hashes outside env to network expiration mask charge s
  run_call env (call_set_expiration token_id timestamp charge) s =
      set_expiration base hashes outside env token_id timestamp charge s
  run_call env (call_burn token_id) (s, w) = inside (burn base hashes env token_id s) w
  run_call env (call_revoke token_id) (s, w) = inside (revoke base hashes env token_id s) w
  run_call env (call_freeze token_id) (s, w) = inside (freeze base hashes env token_id s) w
  run_call env (call_unfreeze token_id) (s, w) = inside (unfreeze base hashes env token_id s) w
  run_call env (call_set_bitmask token_id mask) (s, w) =
      inside (set_bitmask base hashes env token_id mask s) w
  run_call env (call_create_network network name dao_governed dao_manager) (s, w) =
      inside (create_network hashes outside env network name dao_governed dao_manager w s) w
  run_call env (call_rename_network network name) (s, w) =
      inside (rename_network hashes env network name s) w
  run_call env (call_add_gatekeeper gatekeeper network) (s, w) =
      inside (add_gatekeeper hashes env gatekeeper network s) w
  run_call env (call_remove_gatekeeper gatekeeper network) (s, w) =
      inside (remove_gatekeeper hashes env gatekeeper network s) w
  run_call env (call_add_network_authority authority network) (s, w) =
      inside (add_network_authority hashes env authority network s) w
  run_call env (call_remove_network_authority authority network) (s, w) =
      inside (remove_network_authority hashes env authority network s) w
  run_call env (call_set_network_features network mask) (s, w) =
      inside (set_network_features hashes env network mask s) w
  run_call env (call_transfer_dao_manager previous new_manager network) (s, w) =
      inside (transfer_dao_manager hashes outside env previous new_manager network w s) w
  run_call env (call_grant_role role network account) (s, w) =
      inside (grant_call env role network account s) w
  run_call env (call_revoke_role role network account) (s, w) =
      inside (revoke_call env role network account s) w
  run_call env (call_renounce_role role network account) (s, w) =
      inside (on_access s (renounce_role (sender_of env s) role network account s.access)) w
  run_call env (call_set_super_admin account) (s, w) =
      inside (on_access s (set_super_admin (sender_of env s) account s.access)) w
  run_call env (call_revoke_super_admin account) (s, w) =
      inside (on_access s (revoke_super_admin (sender_of env s) account s.access)) w
  run_call env (call_add_forwarder forwarder) (s, w) = inside (add_forwarder_call env forwarder s) w
  run_call env (call_remove_forwarder forwarder) (s, w) =
      inside (remove_forwarder_call env forwarder s) w
  run_call env (call_update_flags_storage contract) (s, w) =
      inside (update_flags_storage env contract s) w
  run_call env (call_update_charge_handler contract) (s, w) =
      inside (update_charge_handler env contract s) w
  run_call env (call_set_metadata_descriptor descriptor) (s, w) =
      inside (set_metadata_descriptor base env descriptor s) w

  abbrev pub commit : State → Result Revert State → State
  commit s (ok s') = s'
  commit s (err e) = s

  -- Calls one after the other; one that reverts changes nothing.
  unfoldable pub run : List (Env × Call) → State → State
  run [] s = s
  run ((env, call) ∷ calls) s = run calls (commit s (run_call env call s))
