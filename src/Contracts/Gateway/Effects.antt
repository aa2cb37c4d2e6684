-- ===== src/Contracts/Gateway/Effects.antt =====
-- What one call of GatewayToken.sol does to the roles and to the networks.
use Prim.Native.String.{String}
use on_chain_identity_gatewa.Common.{
  ℕ, ◌≡◌, ◌≢◌, refl, ◌⊎◌, inl, inr, Bool, true, false, Result, ok, arith,
}
use on_chain_identity_gatewa.Common.Results.{>>=-eq-ok}
use on_chain_identity_gatewa.Contracts.{Address, put, Revert}
use on_chain_identity_gatewa.Contracts.Access.{
  Access, has_role, get_role_admin, is_super_admin, grant, remove, grant_role, revoke_role,
}
use on_chain_identity_gatewa.Contracts.Access.Laws.{
  grant_role-ok, revoke_role-ok, renounce_role-ok, set_super_admin-ok, revoke_super_admin-ok,
}
use on_chain_identity_gatewa.Contracts.Gateway.{Base, RoleHashes, Outside, Gateway, Env, sender_of}
use on_chain_identity_gatewa.Contracts.Gateway.Tokens.{
  burn, revoke, freeze, unfreeze, set_bitmask, mint_effects, set_expiration_effects, mint,
  set_expiration,
}
use on_chain_identity_gatewa.Contracts.Gateway.Networks.{
  is_empty, dao_roles, authority_roles, set_metadata_descriptor, add_forwarder_call,
  remove_forwarder_call, update_flags_storage, update_charge_handler, grant_call, revoke_call,
  set_network_features, rename_network, create_network,
}
use on_chain_identity_gatewa.Contracts.Gateway.Transfer.{Transfers, transfer_dao_manager-ok}
use on_chain_identity_gatewa.Contracts.Gateway.Calls.{
  Call, call_create_network, call_add_gatekeeper, call_remove_gatekeeper,
  call_add_network_authority, call_remove_network_authority, call_transfer_dao_manager,
  call_grant_role, call_revoke_role, call_renounce_role, call_set_super_admin,
  call_revoke_super_admin, State, run_call, inside, on_access,
}

-- The call gives up a role.
abbrev pub is_renounce : Call → Bool
is_renounce (call_renounce_role _ _ _) = true
is_renounce _ = false

-- The ways in which a call by `sender` changes the roles `a` to `b`, where the networks have the
-- given names; only a call that is a renouncement renounces.
pub data Effect (hashes : RoleHashes) (renouncement : Bool) (sender : Address)
    (networks after : ℕ → String) (a b : Access) : Type 0 where
  keeps : b ≡ a → Effect hashes renouncement sender networks after a b
  grants :
      (role network : ℕ) (account : Address)
      → has_role (get_role_admin role network a) network sender a ≡ true
      → b ≡ grant role network account a
      → Effect hashes renouncement sender networks after a b
  removes :
      (role network : ℕ) (account : Address)
      → has_role (get_role_admin role network a) network sender a ≡ true
      → b ≡ remove role network account a
      → Effect hashes renouncement sender networks after a b
  renounces :
      (role network : ℕ)
      → renouncement ≡ true
      → b ≡ remove role network sender a
      → Effect hashes renouncement sender networks after a b
  sets_super :
      (account : Address)
      → is_super_admin sender a ≡ true
      → b ≡ record a { super_admins = put account true a.super_admins }
      → Effect hashes renouncement sender networks after a b
  revokes_super :
      (account : Address)
      → is_super_admin sender a ≡ true
      → account ≢ sender
      → b ≡ record a { super_admins = put account false a.super_admins }
      → Effect hashes renouncement sender networks after a b
  creates :
      (network : ℕ) (account : Address)
      → is_empty (networks network) ≡ true
      → is_empty (after network) ≡ false
      → (b ≡ dao_roles hashes network account a)
        ⊎ ((account ≡ sender) × (b ≡ authority_roles hashes network sender a))
      → Effect hashes renouncement sender networks after a b
  transfers :
      (previous new_manager : Address) (network : ℕ)
      → has_role hashes.dao_manager_role network previous a ≡ true
      → Transfers hashes sender previous new_manager network a b
      → Effect hashes renouncement sender networks after a b

module _ {Tokens World : Type 0} (base : Base Tokens) (hashes : RoleHashes)
    (outside : Outside World) where
  abbrev Does : Bool → Env → Gateway Tokens → Gateway Tokens → Type 0
  Does own env s s' = Effect hashes own (sender_of env s) s.networks s'.networks s.access s'.access

  create_network-Does :
      (env : Env) (network : ℕ) (name : String) (dao : Bool) (manager : Address) (w : World)
      (s s' : Gateway Tokens)
      → create_network hashes outside env network name dao manager w s ≡ ok s'
      → Does false env s s'
  unfolding create_network
  create_network-Does env network name true manager w s s' h =
      creates network manager (ground arith) (ground arith) (inl (ground arith))
  create_network-Does env network name false manager w s s' h =
      creates network (sender_of env s) (ground arith) (ground arith) (inr (refl, ground arith))

  grant_call-Does :
      (env : Env) (role network : ℕ) (account : Address) (s s' : Gateway Tokens)
      → grant_call env role network account s ≡ ok s'
      → Does false env s s'
  unfolding grant_call
  grant_call-Does env role network account s s' h =
      let (a, e, h1) = >>=-eq-ok (grant_role (sender_of env s) role network account s.access) _ h in
      let (allowed, done) = grant_role-ok (sender_of env s) role network account s.access a e in
      grants role network account allowed (ground arith)

  revoke_call-Does :
      (env : Env) (role network : ℕ) (account : Address) (s s' : Gateway Tokens)
      → revoke_call env role network account s ≡ ok s'
      → Does false env s s'
  unfolding revoke_call
  revoke_call-Does env role network account s s' h =
      let (a, e, h1) =
        >>=-eq-ok (revoke_role (sender_of env s) role network account s.access) _ h in
      let (allowed, done) = revoke_role-ok (sender_of env s) role network account s.access a e in
      removes role network account allowed (ground arith)

  inside-ok :
      (r : Result Revert (Gateway Tokens)) (w : World) (s' : State base hashes outside)
      → inside base hashes outside r w ≡ ok s'
      → r ≡ ok s'.0
  inside-ok r w s' h = ground arith

  on_access-ok :
      (s s' : Gateway Tokens) (r : Result Revert Access)
      → on_access base hashes outside s r ≡ ok s'
      → r ≡ ok s'.access
  on_access-ok s s' r h = ground arith

  -- A call that leaves the roles.
  quiet :
      (env : Env) (call : Call) (s s' : State base hashes outside)
      → run_call base hashes outside env call s ≡ ok s'
      → (s'.0.access ≡ s.0.access) ⊎ Does (is_renounce call) env s.0 s'.0
  unfolding run_call mint mint_effects set_expiration set_expiration_effects burn revoke freeze
      unfreeze set_bitmask rename_network set_network_features add_forwarder_call
      remove_forwarder_call update_flags_storage update_charge_handler set_metadata_descriptor
  quiet env (call_create_network network name dao manager) s s' h =
      inr (create_network-Does env network name dao manager s.1 s.0 s'.0 (inside-ok _ _ s' h))
  quiet env (call_add_gatekeeper gatekeeper network) s s' h =
      inr (
        grant_call-Does env hashes.gatekeeper_role network gatekeeper s.0 s'.0 (inside-ok _ _ s' h))
  quiet env (call_remove_gatekeeper gatekeeper network) s s' h =
      inr (
        revoke_call-Does env hashes.gatekeeper_role network gatekeeper s.0 s'.0
          (inside-ok _ _ s' h))
  quiet env (call_add_network_authority authority network) s s' h = inr (
      grant_call-Does env hashes.network_authority_role network authority s.0 s'.0
        (inside-ok _ _ s' h))
  quiet env (call_remove_network_authority authority network) s s' h = inr (
      revoke_call-Does env hashes.network_authority_role network authority s.0 s'.0
        (inside-ok _ _ s' h))
  quiet env (call_grant_role role network account) s s' h =
      inr (grant_call-Does env role network account s.0 s'.0 (inside-ok _ _ s' h))
  quiet env (call_revoke_role role network account) s s' h =
      inr (revoke_call-Does env role network account s.0 s'.0 (inside-ok _ _ s' h))
  quiet env (call_transfer_dao_manager previous new_manager network) s s' h =
      let (held, t, _) =
        transfer_dao_manager-ok hashes outside env previous new_manager network s.1 s.0 s'.0
          (inside-ok _ _ s' h) in
      inr (transfers previous new_manager network held t)
  quiet env (call_renounce_role role network account) s s' h =
      let (self, e) =
        renounce_role-ok (sender_of env s.0) role network account s.0.access s'.0.access
          (on_access-ok s.0 s'.0 _ (inside-ok _ _ s' h)) in
      inr (renounces role network refl (rw self at e))
  quiet env (call_set_super_admin account) s s' h =
      let (admin, e) =
        set_super_admin-ok (sender_of env s.0) account s.0.access s'.0.access
          (on_access-ok s.0 s'.0 _ (inside-ok _ _ s' h)) in
      inr (sets_super account admin e)
  quiet env (call_revoke_super_admin account) s s' h =
      let (admin, other, e) =
        revoke_super_admin-ok (sender_of env s.0) account s.0.access s'.0.access
          (on_access-ok s.0 s'.0 _ (inside-ok _ _ s' h)) in
      inr (revokes_super account admin other e)
  quiet env _ s s' h = inl (ground arith)

  pub run_call-Effect :
      (env : Env) (call : Call) (s s' : State base hashes outside)
      → run_call base hashes outside env call s ≡ ok s'
      → Effect hashes
          (is_renounce call)
          (sender_of env s.0)
          s.0.networks
          s'.0.networks
          s.0.access
          s'.0.access
  run_call-Effect env call s s' h = elim (quiet env call s s' h) [ inl e ↦ keeps e | inr d ↦ d ]

  -- A network that has a name keeps one.
  pub run_call-named :
      (env : Env) (call : Call) (s s' : State base hashes outside) (n : ℕ)
      → run_call base hashes outside env call s ≡ ok s'
      → is_empty (s.0.networks n) ≡ false
      → is_empty (s'.0.networks n) ≡ false
  unfolding run_call mint mint_effects set_expiration set_expiration_effects burn revoke freeze
      unfreeze set_bitmask rename_network set_network_features add_forwarder_call create_network
      grant_call revoke_call remove_forwarder_call update_flags_storage update_charge_handler
      set_metadata_descriptor
  run_call-named env (call_transfer_dao_manager previous new_manager network) s s' n h p =
      let (held, t, e) =
        transfer_dao_manager-ok hashes outside env previous new_manager network s.1 s.0 s'.0
          (inside-ok _ _ s' h) in
      rw e p
  run_call-named env call s s' n h p = ground arith
