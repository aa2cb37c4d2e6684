-- ===== src/Contracts/Gateway/Lifecycle.antt =====
-- The states of a gateway token of GatewayToken.sol, over any sequence of calls.
use on_chain_identity_gatewa.Common.{
  Option, none, some, ◌==◌, if◌then◌else◌, ℕ, ◌≡◌, ◌≢◌, refl, sym, ◌∙◌, inl, inr, Bool, false, List,
  [], ◌∷◌, ok, err, arith,
}
use on_chain_identity_gatewa.Common.Results.{Result-cases}
use on_chain_identity_gatewa.Contracts.{Revert, TokenState, active, frozen, revoked}
use on_chain_identity_gatewa.Contracts.Gateway.{
  Base, RoleHashes, Outside, Gateway, Env, exists_and_active, check_active_token,
}
use on_chain_identity_gatewa.Contracts.Gateway.Tokens.{
  burn, revoke, freeze, unfreeze, set_bitmask, mint_effects, set_expiration_effects, mint,
  set_expiration,
}
use on_chain_identity_gatewa.Contracts.Gateway.Networks.{
  set_metadata_descriptor, add_forwarder_call, remove_forwarder_call, update_flags_storage,
  update_charge_handler, grant_call, revoke_call, set_network_features, rename_network,
  create_network, transfer_dao_manager,
}
use on_chain_identity_gatewa.Contracts.Gateway.Calls.{
  Call, call_freeze, call_unfreeze, call_revoke, State, run_call, run, commit,
}

-- The changes of a token's state in one call.
infix 40 ◌⟶◌ ◌⟶*◌
pub data ◌⟶◌ : TokenState → TokenState → Type 0 where
  stays : {t : TokenState} → t ⟶ t
  freezes : active ⟶ frozen
  unfreezes : frozen ⟶ active
  revokes : {t : TokenState} → t ⟶ revoked

pub data ◌⟶*◌ : TokenState → TokenState → Type 0 where
  here : {t : TokenState} → t ⟶* t
  step : {t u v : TokenState} → t ⟶ u → u ⟶* v → t ⟶* v

revoked-⟶ : {t u : TokenState} → t ⟶ u → t ≡ revoked → u ≡ revoked
revoked-⟶ stays h = h
revoked-⟶ freezes h = cc
revoked-⟶ unfreezes h = cc
revoked-⟶ revokes h = refl

revoked-⟶* : {t u : TokenState} → t ⟶* u → t ≡ revoked → u ≡ revoked
revoked-⟶* here h = h
revoked-⟶* (step p q) h = revoked-⟶* q (revoked-⟶ p h)

active≢revoked : active ≢ revoked
active≢revoked h = cc

frozen≢revoked : frozen ≢ revoked
frozen≢revoked h = cc

-- What freezing makes of a token's state, and unfreezing.
abbrev pub frozen_from : TokenState → Option TokenState
frozen_from active = some frozen
frozen_from _ = none

abbrev pub active_from : TokenState → Option TokenState
active_from frozen = some active
active_from _ = none

ruleset edges = (stays, freezes, unfreezes, revokes)

module _ {Tokens World : Type 0} (base : Base Tokens) (hashes : RoleHashes)
    (outside : Outside World) where
  run_call-⟶ :
      (env : Env) (call : Call) (s s' : State base hashes outside) (id : ℕ)
      → run_call base hashes outside env call s ≡ ok s'
      → s.0.token_states id ⟶ s'.0.token_states id
  unfolding run_call mint mint_effects set_expiration set_expiration_effects burn revoke freeze
      unfreeze set_bitmask create_network rename_network set_network_features transfer_dao_manager
      grant_call revoke_call add_forwarder_call remove_forwarder_call update_flags_storage
      update_charge_handler set_metadata_descriptor check_active_token exists_and_active
  run_call-⟶ env call s s' id h = grind (arith, edges)

  -- What each call that does not revert does to a token's state, and where it does not revert: it
  -- freezes its own token, which is active, unfreezes its own, which is frozen, revokes its own, and
  -- leaves every other token, as every other call does.
  abbrev pub moved : Call → (token_id : ℕ) → TokenState → Option TokenState
  moved (call_freeze i) id t = if i == id then frozen_from t else some t
  moved (call_unfreeze i) id t = if i == id then active_from t else some t
  moved (call_revoke i) id t = if i == id then some revoked else some t
  moved _ id t = some t

  -- Every call of the contract that does not revert changes the states of the tokens as the diagram
  -- says: freezing makes its token frozen, which was active before; unfreezing makes its token active,
  -- which was frozen; revoking makes its token revoked; and no call changes the state of any other token.
  pub run_call-moved :
      (env : Env) (call : Call) (s s' : State base hashes outside) (id : ℕ)
      → run_call base hashes outside env call s ≡ ok s'
      → moved call id (s.0.token_states id) ≡ some (s'.0.token_states id)
  unfolding run_call mint mint_effects set_expiration set_expiration_effects burn revoke freeze
      unfreeze set_bitmask create_network rename_network set_network_features transfer_dao_manager
      grant_call revoke_call add_forwarder_call remove_forwarder_call update_flags_storage
      update_charge_handler set_metadata_descriptor check_active_token exists_and_active
  run_call-moved env call s s' id h = ground arith

  commit-⟶ :
      (env : Env) (call : Call) (s : State base hashes outside) (id : ℕ)
      → s.0.token_states id
        ⟶ (commit base hashes outside s (run_call base hashes outside env call s)).0.token_states id
  commit-⟶ env call s id = elim (Result-cases (run_call base hashes outside env call s)) [
    | inl (s1, e) ↦ rw e (run_call-⟶ env call s s1 id e)
    | inr (x, e) ↦ rw e stays
  ]

  -- Over any calls by any senders, a token's state follows the diagram: an active token is frozen, a
  -- frozen one unfrozen, and any is revoked.
  pub run-⟶* :
      (calls : List (Env × Call)) (s : State base hashes outside) (id : ℕ)
      → s.0.token_states id ⟶* (run base hashes outside calls s).0.token_states id
  unfolding run
  run-⟶* [] s id = here
  run-⟶* ((env, call) ∷ calls) s id =
      step (commit-⟶ env call s id)
        (run-⟶* calls (commit base hashes outside s (run_call base hashes outside env call s)) id)

  freeze-ok :
      (env : Env) (id : ℕ) (s s' : Gateway Tokens)
      → freeze base hashes env id s ≡ ok s'
      → s.token_states id ≡ active
  unfolding freeze check_active_token exists_and_active
  freeze-ok env id s s' h = ground arith

  unfreeze-ok :
      (env : Env) (id : ℕ) (s s' : Gateway Tokens)
      → unfreeze base hashes env id s ≡ ok s'
      → s.token_states id ≡ frozen
  unfolding unfreeze
  unfreeze-ok env id s s' h = ground arith

  freeze-revoked :
      (env : Env) (id : ℕ) (s : Gateway Tokens)
      → s.token_states id ≡ revoked
      → (e : Revert) × (freeze base hashes env id s ≡ err e)
  freeze-revoked env id s h = elim (Result-cases (freeze base hashes env id s)) [
    | inl (s', e) ↦ absurd (active≢revoked (sym (freeze-ok env id s s' e) ∙ h))
    | inr found ↦ found
  ]

  unfreeze-revoked :
      (env : Env) (id : ℕ) (s : Gateway Tokens)
      → s.token_states id ≡ revoked
      → (e : Revert) × (unfreeze base hashes env id s ≡ err e)
  unfreeze-revoked env id s h = elim (Result-cases (unfreeze base hashes env id s)) [
    | inl (s', e) ↦ absurd (frozen≢revoked (sym (unfreeze-ok env id s s' e) ∙ h))
    | inr found ↦ found
  ]

  exists_and_active-revoked :
      (env : Env) (id : ℕ) (allow_expired : Bool) (s : Gateway Tokens)
      → s.token_states id ≡ revoked
      → exists_and_active base hashes env id allow_expired s ≡ ok false
  unfolding exists_and_active
  exists_and_active-revoked env id allow_expired s h = rw h refl

  -- A token that is revoked is revoked for good: after any calls by any senders it is still revoked, is
  -- not verified at any time, whether its expiry counts or not, and cannot be frozen or unfrozen.
  pub revoked_forever :
      (calls : List (Env × Call)) (s : State base hashes outside) (id : ℕ) (env : Env)
      (allow_expired : Bool)
      → s.0.token_states id ≡ revoked
      → let end = (run base hashes outside calls s).0 in
        (end.token_states id ≡ revoked)
        × (exists_and_active base hashes env id allow_expired end ≡ ok false)
        × ((e : Revert) × (freeze base hashes env id end ≡ err e))
        × ((e : Revert) × (unfreeze base hashes env id end ≡ err e))
  revoked_forever calls s id env allow_expired h =
      let end = (run base hashes outside calls s).0 in
      let last : end.token_states id ≡ revoked = revoked-⟶* (run-⟶* calls s id) h in
      (
        last,
        exists_and_active-revoked env id allow_expired end last,
        freeze-revoked env id end last,
        unfreeze-revoked env id end last,
      )
