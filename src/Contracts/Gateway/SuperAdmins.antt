-- ===== src/Contracts/Gateway/SuperAdmins.antt =====
-- The super admins of GatewayToken.sol, over any sequence of calls.
use Prim.Native.String.{String}
use on_chain_identity_gatewa.Common.{Bool, ℕ, ◌≡◌, ◌⊎◌, inl, inr, true, List, [], ◌∷◌, arith}
use on_chain_identity_gatewa.Common.Results.{Result-cases}
use on_chain_identity_gatewa.Contracts.{Address}
use on_chain_identity_gatewa.Contracts.Access.{Access, is_super_admin, grant, set_role_admin}
use on_chain_identity_gatewa.Contracts.Access.Laws.{grant_frame, remove_frame}
use on_chain_identity_gatewa.Contracts.Gateway.{Base, RoleHashes, Outside, Gateway, Env, sender_of}
use on_chain_identity_gatewa.Contracts.Gateway.Networks.{dao_roles, authority_roles}
use on_chain_identity_gatewa.Contracts.Gateway.Transfer.{Transfers-frame}
use on_chain_identity_gatewa.Contracts.Gateway.Effects.{
  Effect, keeps, grants, removes, renounces, sets_super, revokes_super, creates, transfers,
  run_call-Effect,
}
use on_chain_identity_gatewa.Contracts.Gateway.Calls.{Call, State, run_call, run, commit}

module _ (hashes : RoleHashes) where
  open hashes use {dao_manager_role, gatekeeper_role, network_authority_role}

  dao_roles-super :
      (n : ℕ) (m : Address) (a : Access) → (dao_roles hashes n m a).super_admins ≡ a.super_admins
  unfolding set_role_admin grant
  dao_roles-super n m a = ground arith

  authority_roles-super :
      (n : ℕ) (m : Address) (a : Access)
      → (authority_roles hashes n m a).super_admins ≡ a.super_admins
  unfolding set_role_admin grant
  authority_roles-super n m a = ground arith

  Effect-super :
      {own : Bool} (sender : Address) (networks after : ℕ → String) (a b : Access) (x : Address)
      → Effect hashes own sender networks after a b
      → is_super_admin x a ≡ true
      → (is_super_admin x b ≡ true) ⊎ (is_super_admin sender b ≡ true)
  Effect-super sender networks after a b x (keeps e) h = inl (rw e h)
  Effect-super sender networks after a b x (grants r n k allowed e) h =
      inl (rw (e, (grant_frame r n k a).1) h)
  Effect-super sender networks after a b x (removes r n k allowed e) h =
      inl (rw (e, (remove_frame r n k a).1) h)
  Effect-super sender networks after a b x (renounces r n _ e) h =
      inl (rw (e, (remove_frame r n sender a).1) h)
  Effect-super sender networks after a b x (sets_super k admin e) h = inl (rw e (ground arith))
  Effect-super sender networks after a b x (revokes_super k admin other e) h =
      inr (rw e (ground arith))
  Effect-super sender networks after a b x (creates n k new named_after (inl e)) h =
      inl (rw (e, dao_roles-super n k a) h)
  Effect-super sender networks after a b x (creates n k new named_after (inr (self, e))) h =
      inl (rw (e, authority_roles-super n sender a) h)
  Effect-super sender networks after a b x (transfers p q n held t) h =
      inl (rw (Transfers-frame hashes sender p q n a b t).1 h)

module _ {Tokens World : Type 0} (base : Base Tokens) (hashes : RoleHashes)
    (outside : Outside World) where
  open hashes use {dao_manager_role, gatekeeper_role, network_authority_role}

  -- Somebody is a super admin.
  abbrev pub HasSuperAdmin : Gateway Tokens → Type 0
  HasSuperAdmin s = (a : Address) × (is_super_admin a s.access ≡ true)

  -- No call makes the contract lose its last super admin: over any calls by any senders, somebody is
  -- one, where somebody was at the start.
  pub run-HasSuperAdmin :
      (calls : List (Env × Call)) (s : State base hashes outside)
      → HasSuperAdmin s.0
      → HasSuperAdmin (run base hashes outside calls s).0
  unfolding run
  run-HasSuperAdmin [] s h = h
  run-HasSuperAdmin ((env, call) ∷ calls) s (a, h) =
      run-HasSuperAdmin calls
        (commit base hashes outside s (run_call base hashes outside env call s))
        (elim (Result-cases (run_call base hashes outside env call s)) [
          | inl (s1, e) ↦
              rw e
                (elim (Effect-super hashes (sender_of env s.0) s.0.networks s1.0.networks s.0.access
                  s1.0.access a (run_call-Effect base hashes outside env call s s1 e) h) [
                    | inl x ↦ (a, x)
                    | inr x ↦ (sender_of env s.0, x)
                  ])
          | inr (x, e) ↦ rw e (a, h)
        ])
