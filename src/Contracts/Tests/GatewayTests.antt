-- ===== src/Contracts/Tests/GatewayTests.antt =====
-- GatewayToken.sol on a network with an authority, a gatekeeper and a holder of tokens.
use on_chain_identity_gatewa.Common.{
  some, ◌||◌, ◌==◌, leb, ℕ, ◌==◌, ltb, ◌≡◌, refl, inl, inr, true, false, not, ◌&&◌, ◌||◌, List, [],
  ◌∷◌, Result, ok, err, arith,
}
use on_chain_identity_gatewa.Contracts.{Address, put, Revert, active, frozen, revoked}
use on_chain_identity_gatewa.Contracts.Access.{
  has_role, grant, remove, grant_role, revoke_role, set_role_admin,
}
use on_chain_identity_gatewa.Contracts.Context.{no_forwarders, msg_sender, trust_all}
use on_chain_identity_gatewa.Contracts.Charges.{Charge}
use on_chain_identity_gatewa.Contracts.BitMask.{check_bit}
use on_chain_identity_gatewa.Contracts.Gateway.{
  RoleHashes, Outside, Gateway, Env, sender_of, exists_and_active, check_active_token,
}
use on_chain_identity_gatewa.Contracts.Gateway.Reads.{
  get_token_ids_by_owner_and_network, verify_token, wanted, token_ids_loop,
}
use on_chain_identity_gatewa.Contracts.Gateway.Tokens.{revoke, freeze, unfreeze, mint_effects, mint}
use on_chain_identity_gatewa.Contracts.Gateway.Networks.{
  initialize, dao_roles, authority_roles, create_network, grant_call, transfer_dao_manager,
}
use on_chain_identity_gatewa.Contracts.Gateway.Calls.{
  call_renounce_role, Call, call_mint, call_freeze, call_unfreeze, call_revoke, call_create_network,
  call_add_gatekeeper, call_add_network_authority, call_revoke_super_admin, State, run_call, run,
}
use on_chain_identity_gatewa.Contracts.Gateway.Lifecycle.{moved, run_call-moved, revoked_forever}
use on_chain_identity_gatewa.Contracts.Gateway.Outsiders.{gives_up, run_outsiders}
use on_chain_identity_gatewa.Contracts.Gateway.Authority.{Leaves}
use on_chain_identity_gatewa.Contracts.Gateway.SuperAdmins.{HasSuperAdmin, run-HasSuperAdmin}
use on_chain_identity_gatewa.Contracts.Gateway.NewNetwork.{Founded, create_network_founds}
use on_chain_identity_gatewa.Contracts.Gateway.Transfer.{transfer_dao_manager_lem}
use on_chain_identity_gatewa.Contracts.Gateway.Minting.{Records, mint_verifies}
use on_chain_identity_gatewa.Contracts.Gateway.Verify.{
  InForce, verify_token_sound, verify_token_complete,
}
use on_chain_identity_gatewa.Contracts.Gated.{Gate, gated, gated-InForce}
use on_chain_identity_gatewa.Contracts.Tests.Ledger.{Ledger, ledger, no_tokens}
use on_chain_identity_gatewa.Ethereum.{none_type}

abbrev pub hashes : RoleHashes
hashes = record {
  dao_manager_role = 11;
  gatekeeper_role = 12;
  network_authority_role = 13;
  distinct = (omega arith, omega arith, omega arith);
  nonzero = (omega arith, omega arith, omega arith);
}

abbrev pub outside : Outside Unit
outside = record { handle_charge = λ _ _ _ _ w. ok w; is_contract = λ a _. a == 50 }

-- A call by an account, at a time.
abbrev pub by : Address → (time : ℕ) → Env
by a time = record { message = record { sender = a; data_bytes = [] }; value = 0; timestamp = time }

abbrev free : Charge
free = record { value = 0; charge_type = none_type; token = 0; token_sender = 0; recipient = 0 }

abbrev pub start : Gateway Ledger
start = record {
  tokens = no_tokens;
  access = record {
    members = λ _ _ _. false;
    admin_role = λ _ _. 0;
    super_admins = put 9 true (λ _. false);
  };
  trusted_forwarders = no_forwarders;
  is_network_dao_governed = λ _. false;
  token_states = λ _. active;
  expirations = λ _. 0;
  networks = λ _. "";
  issuing_gatekeepers = λ _. 0;
  network_features = λ _. 0;
  charge_handler = 7;
  flags_storage = 8;
  bitmasks = λ _. 0;
}

start_lem : initialize no_tokens 9 8 7 [] ≡ ok start
unfolding initialize trust_all
start_lem = refl

-- Account 20 founds network 5 and makes 30 a gatekeeper.
abbrev pub founding : List (Env × Call)
founding =
    (by 20 1, call_create_network 5 "five" false 0) ∷ (by 20 2, call_add_gatekeeper 30 5) ∷ []

abbrev issuing : List (Env × Call)
issuing =
    (by 20 1, call_create_network 5 "five" false 0)
    ∷ (by 20 2, call_add_gatekeeper 30 5)
    ∷ (by 30 3, call_mint 40 5 100 6 free)
    ∷ []

abbrev revoking : List (Env × Call)
revoking =
    (by 20 1, call_create_network 5 "five" false 0)
    ∷ (by 20 2, call_add_gatekeeper 30 5)
    ∷ (by 30 3, call_mint 40 5 100 6 free)
    ∷ (by 30 4, call_freeze 1)
    ∷ (by 30 5, call_revoke 1)
    ∷ []

abbrev tries : List (Env × Call)
tries = (by 30 6, call_unfreeze 1) ∷ (by 30 7, call_freeze 1) ∷ []

abbrev pub after : List (Env × Call) → State ledger hashes outside
after calls = run ledger hashes outside calls (start, tt)

revoked_lem : (after revoking).0.token_states 1 ≡ revoked
unfolding run run_call create_network grant_call grant_role grant set_role_admin mint mint_effects
    freeze check_active_token exists_and_active check_bit revoke msg_sender
revoked_lem = refl

revoked_forever_example :
    let end = (run ledger hashes outside tries (after revoking)).0 in
    (end.token_states 1 ≡ revoked)
    × (exists_and_active ledger hashes (by 0 8) 1 false end ≡ ok false)
    × ((e : Revert) × (freeze ledger hashes (by 0 8) 1 end ≡ err e))
    × ((e : Revert) × (unfreeze ledger hashes (by 0 8) 1 end ≡ err e))
revoked_forever_example =
    revoked_forever ledger hashes outside tries (after revoking) 1 (by 0 8) false revoked_lem

-- Account 66 tries to take the network over.
abbrev attacks : List (Env × Call)
attacks =
    (by 66 8, call_add_network_authority 66 5)
    ∷ (by 66 9, call_add_gatekeeper 66 5)
    ∷ (by 66 10, call_create_network 5 "mine" false 0)
    ∷ (by 30 11, call_renounce_role hashes.gatekeeper_role 5 30)
    ∷ []

run_outsiders_example :
    Leaves hashes 5
      (λ x. gives_up ledger hashes outside 5 x attacks (after founding))
      (after founding).0.access
      (run ledger hashes outside attacks (after founding)).0.access
unfolding run run_call create_network grant_call grant_role grant set_role_admin msg_sender
run_outsiders_example =
    run_outsiders ledger hashes outside attacks (after founding) 5 refl (refl, refl)
      (refl, (refl, (refl, (refl, tt))))

run-HasSuperAdmin_example :
    HasSuperAdmin ledger hashes outside
      (run ledger hashes outside ((by 9 1, call_revoke_super_admin 9) ∷ []) (start, tt)).0
run-HasSuperAdmin_example =
    run-HasSuperAdmin ledger hashes outside ((by 9 1, call_revoke_super_admin 9) ∷ []) (start, tt)
      (9, refl)

abbrev pub founded : Gateway Ledger
founded = (after founding).0

abbrev founded_six : Gateway Ledger
founded_six = record founded {
  networks = put 6 "six" founded.networks;
  access = authority_roles hashes 6 21 founded.access;
}

create_network_founds_example :
    Founded hashes false 6 0 (sender_of (by 21 3) founded) founded_six.access
unfolding run run_call create_network grant_call grant_role grant set_role_admin msg_sender
create_network_founds_example =
    create_network_founds ledger hashes outside no_tokens 9 8 7 [] start tt tt founding (by 21 3) 6
      "six" false 0 founded_six start_lem refl

-- Network 5, governed by the DAO whose manager is the contract 49.
abbrev dao_state : Gateway Ledger
dao_state = record start {
  networks = put 5 "five" start.networks;
  is_network_dao_governed = put 5 true start.is_network_dao_governed;
  access = dao_roles hashes 5 49 start.access;
}

abbrev dao_moved : Gateway Ledger
dao_moved = record dao_state {
  access = remove 11 5 49 (
      remove 13 5 49
        (remove 12 5 49 (grant 12 5 50 (grant 13 5 50 (grant 11 5 50 dao_state.access)))));
}

transfer_dao_manager_lem_example :
    (has_role 11 5 50 dao_moved.access
      ≡ (not (50 == 49) && (50 == 50 || has_role 11 5 50 dao_state.access)))
    × (has_role 13 5 50 dao_moved.access
        ≡ (not (50 == 49) && (50 == 50 || has_role 13 5 50 dao_state.access)))
    × (has_role 12 5 50 dao_moved.access
        ≡ (not (50 == 49) && (50 == 50 || has_role 12 5 50 dao_state.access)))
unfolding transfer_dao_manager grant_role revoke_role grant remove set_role_admin msg_sender
transfer_dao_manager_lem_example =
    transfer_dao_manager_lem hashes outside (by 49 1) 49 50 5 tt dao_state dao_moved refl 50

abbrev issued_state : State ledger hashes outside
issued_state = after issuing

mint_verifies_example :
    (id : ℕ) × (ltb id founded.tokens.next ≡ false)
    × Records ledger hashes outside (by 30 3) 40 5 100 6 id founded issued_state.0
    × (exists_and_active ledger hashes (by 30 3) id false issued_state.0
        ≡ ok (100 == 0 || leb 3 100))
unfolding run run_call create_network grant_call grant_role grant set_role_admin msg_sender mint
    mint_effects
mint_verifies_example =
    mint_verifies ledger hashes outside no_tokens 9 8 7 [] start tt founding (by 30 3) 40 5 100 6
      free issued_state start_lem refl

verified_lem : verify_token ledger hashes (by 0 50) 40 5 (after issuing).0 ≡ ok true
unfolding run run_call create_network grant_call grant_role grant set_role_admin msg_sender mint
    mint_effects verify_token get_token_ids_by_owner_and_network token_ids_loop wanted
    exists_and_active check_bit
verified_lem = refl

verify_token_sound_example :
    (id : ℕ) × (ledger.owner_of id (after issuing).0.tokens ≡ ok 40)
    × (ledger.slot_of id (after issuing).0.tokens ≡ ok 5)
    × InForce ledger hashes (by 0 50) id false (after issuing).0
verify_token_sound_example =
    verify_token_sound ledger hashes (by 0 50) 40 5 (after issuing).0 verified_lem

verify_token_complete_example :
    verify_token ledger hashes (by 0 100) 40 5 (after issuing).0 ≡ ok true
unfolding run run_call create_network grant_call grant_role grant set_role_admin msg_sender mint
    mint_effects check_bit
verify_token_complete_example =
    verify_token_complete ledger hashes (by 0 100) 40 5 (after issuing).0 1 0 1 refl (omega arith)
      refl refl (refl, inr (inr (omega arith)), 5, refl, inl refl)

abbrev gate : Gate
gate = record { gateway_token_contract = 70; gatekeeper_network = 5 }

gated-InForce_example :
    (◌≡◌ {A = Result Revert ℕ} (ok 1) (ok 1))
    × (id : ℕ) × (ledger.owner_of id (after issuing).0.tokens ≡ ok 40)
    × (ledger.slot_of id (after issuing).0.tokens ≡ ok 5)
    × InForce ledger hashes (by 0 50) id false (after issuing).0
unfolding run run_call create_network grant_call grant_role grant set_role_admin msg_sender mint
    mint_effects verify_token get_token_ids_by_owner_and_network token_ids_loop wanted
    exists_and_active check_bit gated
gated-InForce_example =
    gated-InForce ledger hashes gate (λ _. (after issuing).0) (by 0 50) no_forwarders
      (record { sender = 40; data_bytes = [] }) (ok 1) 1 refl

abbrev frozen_state : State ledger hashes outside
frozen_state =
    (record issued_state.0 { token_states = put 1 frozen issued_state.0.token_states }, tt)

run_call-moved_example :
    moved ledger hashes outside (call_freeze 1) 1 active ≡ some (frozen_state.0.token_states 1)
unfolding run_call freeze exists_and_active check_active_token msg_sender run mint mint_effects
    grant_call grant_role create_network set_role_admin grant check_bit
run_call-moved_example =
    run_call-moved ledger hashes outside (by 30 4) (call_freeze 1) issued_state frozen_state 1 refl
