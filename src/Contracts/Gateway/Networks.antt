-- ===== src/Contracts/Gateway/Networks.antt =====
-- GatewayToken.sol: gatekeeper networks, their roles and features, and what the super admins set.
use Prim.Native.String.{String}
use text.Mathlib.Text.{◌==◌ as str_eq}
use on_chain_identity_gatewa.Common.{
  ℕ, ◌==◌, Bool, true, false, not, List, Result, ok, err, if◌then◌else◌,
}
use on_chain_identity_gatewa.Common.Lists.{any}
use on_chain_identity_gatewa.Common.Results.{◌>>=◌, ◌>>◌}
use on_chain_identity_gatewa.Contracts.{
  Address, put, Revert, active, missing_account, not_contract, unauthorized, empty_network_name,
  network_already_exists, network_does_not_exist, not_dao_governed,
}
use on_chain_identity_gatewa.Contracts.Access.{
  Access, check_role, check_admin, has_role, grant, grant_role, revoke_role, set_role_admin,
}
use on_chain_identity_gatewa.Contracts.Context.{
  trust_all, no_forwarders, add_forwarder, remove_forwarder,
}
use on_chain_identity_gatewa.Contracts.Gateway.{
  Base, RoleHashes, Outside, Gateway, Env, sender_of, check_sender_role,
}

abbrev pub is_empty : String → Bool
is_empty name = str_eq name ""

module _ (hashes : RoleHashes) where
  open hashes use {dao_manager_role, gatekeeper_role, network_authority_role}

  -- The roles of a new network that a DAO governs.
  abbrev pub dao_roles : (network : ℕ) (dao_manager : Address) → Access → Access
  dao_roles network dao_manager a = set_role_admin dao_manager_role network dao_manager_role (
      set_role_admin gatekeeper_role network dao_manager_role (
        set_role_admin network_authority_role network dao_manager_role (
          grant network_authority_role network dao_manager
            (grant dao_manager_role network dao_manager a))))

  -- The roles of any other new network.
  abbrev pub authority_roles : (network : ℕ) (authority : Address) → Access → Access
  authority_roles network authority a =
      set_role_admin gatekeeper_role network network_authority_role (
        set_role_admin network_authority_role network network_authority_role
          (grant network_authority_role network authority a))

module _ {Tokens : Type 0} where
  abbrev pub with_access : Gateway Tokens → Access → Gateway Tokens
  with_access s access = record s { access = access }

  -- `initialize`, of a contract whose state is all 0
  unfoldable pub initialize :
      (no_tokens : Tokens)
      → (super_admin flags_storage charge_handler : Address) → (trusted_forwarders : List Address)
      → Result Revert (Gateway Tokens)
  initialize no_tokens super_admin flags_storage charge_handler trusted_forwarders =
      if super_admin == 0
      then err missing_account
      else if flags_storage == 0
      then err missing_account
      else if charge_handler == 0
      then err missing_account
      else if any (λ forwarder. forwarder == 0) trusted_forwarders
      then err missing_account
      else ok (record {
        tokens = no_tokens;
        access = record {
          members = λ _ _ _. false;
          admin_role = λ _ _. 0;
          super_admins = put super_admin true (λ _. false);
        };
        trusted_forwarders = trust_all trusted_forwarders no_forwarders;
        is_network_dao_governed = λ _. false;
        token_states = λ _. active;
        expirations = λ _. 0;
        networks = λ _. "";
        issuing_gatekeepers = λ _. 0;
        network_features = λ _. 0;
        charge_handler = charge_handler;
        flags_storage = flags_storage;
        bitmasks = λ _. 0;
      })

  -- `onlySuperAdmin`
  abbrev pub only_super_admin : Env → Gateway Tokens → Result Revert (Unit {0})
  only_super_admin env s = check_admin (sender_of env s) s.access

  -- `setMetadataDescriptor`
  unfoldable pub set_metadata_descriptor :
      Base Tokens → Env → Address → Gateway Tokens → Result Revert (Gateway Tokens)
  set_metadata_descriptor base env descriptor s = do
    only_super_admin env s
    ok (record s { tokens = base.set_metadata_descriptor descriptor s.tokens })

  -- `addForwarder`
  unfoldable pub add_forwarder_call :
      Env → Address → Gateway Tokens → Result Revert (Gateway Tokens)
  add_forwarder_call env forwarder s = do
    only_super_admin env s
    ok (record s { trusted_forwarders = add_forwarder forwarder s.trusted_forwarders })

  -- `removeForwarder`
  unfoldable pub remove_forwarder_call :
      Env → Address → Gateway Tokens → Result Revert (Gateway Tokens)
  remove_forwarder_call env forwarder s = do
    only_super_admin env s
    ok (record s { trusted_forwarders = remove_forwarder forwarder s.trusted_forwarders })

  -- `updateFlagsStorage`
  unfoldable pub update_flags_storage :
      Env → Address → Gateway Tokens → Result Revert (Gateway Tokens)
  update_flags_storage env flags_storage s = do
    only_super_admin env s
    if flags_storage == 0
        then err missing_account
        else ok (record s { flags_storage = flags_storage })

  -- `updateChargeHandler`
  unfoldable pub update_charge_handler :
      Env → Address → Gateway Tokens → Result Revert (Gateway Tokens)
  update_charge_handler env charge_handler s = do
    only_super_admin env s
    ok (record s { charge_handler = charge_handler })

  -- `grantRole` and `revokeRole`, as calls of this contract
  unfoldable pub grant_call :
      Env → (role network : ℕ) → Address → Gateway Tokens → Result Revert (Gateway Tokens)
  grant_call env role network account s = do
    access ← grant_role (sender_of env s) role network account s.access
    ok (with_access s access)

  unfoldable pub revoke_call :
      Env → (role network : ℕ) → Address → Gateway Tokens → Result Revert (Gateway Tokens)
  revoke_call env role network account s = do
    access ← revoke_role (sender_of env s) role network account s.access
    ok (with_access s access)

  module _ (hashes : RoleHashes) where
    open hashes use {dao_manager_role, gatekeeper_role, network_authority_role}

    -- `addGatekeeper`
    abbrev pub add_gatekeeper :
        Env → (gatekeeper : Address) (network : ℕ) → Gateway Tokens → Result Revert (Gateway Tokens)
    add_gatekeeper env gatekeeper network s = grant_call env gatekeeper_role network gatekeeper s

    -- `removeGatekeeper`
    abbrev pub remove_gatekeeper :
        Env → (gatekeeper : Address) (network : ℕ) → Gateway Tokens → Result Revert (Gateway Tokens)
    remove_gatekeeper env gatekeeper network s =
        revoke_call env gatekeeper_role network gatekeeper s

    -- `addNetworkAuthority`
    abbrev pub add_network_authority :
        Env → (authority : Address) (network : ℕ) → Gateway Tokens → Result Revert (Gateway Tokens)
    add_network_authority env authority network s =
        grant_call env network_authority_role network authority s

    -- `removeNetworkAuthority`
    abbrev pub remove_network_authority :
        Env → (authority : Address) (network : ℕ) → Gateway Tokens → Result Revert (Gateway Tokens)
    remove_network_authority env authority network s =
        revoke_call env network_authority_role network authority s

    -- `setNetworkFeatures`
    unfoldable pub set_network_features :
        Env → (network mask : ℕ) → Gateway Tokens → Result Revert (Gateway Tokens)
    set_network_features env network mask s = do
      check_sender_role env network_authority_role network s
      ok (record s { network_features = put network mask s.network_features })

    -- `renameNetwork`
    unfoldable pub rename_network :
        Env → (network : ℕ) (name : String) → Gateway Tokens → Result Revert (Gateway Tokens)
    rename_network env network name s =
        if is_empty name
        then err empty_network_name
        else if is_empty (s.networks network)
        then err (network_does_not_exist network)
        else if not (has_role network_authority_role network (sender_of env s) s.access)
        then err (unauthorized (sender_of env s) network network_authority_role)
        else ok (record s { networks = put network name s.networks })

    module _ {World : Type 0} (outside : Outside World) where
      -- `createNetwork`
      unfoldable pub create_network :
          Env
          → (network : ℕ) (name : String) (dao_governed : Bool) (dao_manager : Address) → World
          → Gateway Tokens
          → Result Revert (Gateway Tokens)
      create_network env network name dao_governed dao_manager w s =
          if is_empty name
          then err empty_network_name
          else if not (is_empty (s.networks network))
          then err (network_already_exists network)
          else if dao_governed
          then (if dao_manager == 0
              then err missing_account
              else if not (outside.is_contract dao_manager w)
              then err (not_contract dao_manager)
              else ok (record s {
                networks = put network name s.networks;
                is_network_dao_governed = put network true s.is_network_dao_governed;
                access = dao_roles hashes network dao_manager s.access;
              }))
          else ok (record s {
            networks = put network name s.networks;
            access = authority_roles hashes network (sender_of env s) s.access;
          })

      -- `transferDAOManager`
      unfoldable pub transfer_dao_manager :
          Env
          → (previous new_manager : Address) (network : ℕ) → World
          → Gateway Tokens
          → Result Revert (Gateway Tokens)
      transfer_dao_manager env previous new_manager network w s =
          let sender = sender_of env s in
          (do
            if not (s.is_network_dao_governed network)
                then err (not_dao_governed network)
                else ok tt
            check_role dao_manager_role network previous s.access
            if new_manager == 0 then err missing_account else ok tt
            if not (outside.is_contract new_manager w)
                then err (not_contract new_manager)
                else ok tt
            a1 ← grant_role sender dao_manager_role network new_manager s.access
            a2 ← grant_role sender network_authority_role network new_manager a1
            a3 ← grant_role sender gatekeeper_role network new_manager a2
            a4 ← revoke_role sender gatekeeper_role network previous a3
            a5 ← revoke_role sender network_authority_role network previous a4
            a6 ← revoke_role sender dao_manager_role network previous a5
            ok (with_access s a6))
