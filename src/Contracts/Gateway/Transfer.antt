-- ===== src/Contracts/Gateway/Transfer.antt =====
-- What `transferDAOManager` of GatewayToken.sol has done where it succeeds.
use on_chain_identity_gatewa.Common.{
  ℕ, ◌==◌, ◌≡◌, refl, sym, ◌∙◌, ap, true, not, ◌&&◌, ◌||◌, ok, err, if◌then◌else◌, arith,
}
use on_chain_identity_gatewa.Common.Results.{>>=-eq-ok}
use on_chain_identity_gatewa.Contracts.{Address, missing_account, not_contract, not_dao_governed}
use on_chain_identity_gatewa.Contracts.Access.{
  Access, check_role, has_role, grant, remove, grant_role, revoke_role,
}
use on_chain_identity_gatewa.Contracts.Access.Laws.{
  grant_lem, remove_lem, grant_role-ok, revoke_role-ok, grant_frame, remove_frame,
}
use on_chain_identity_gatewa.Contracts.Gateway.{RoleHashes, Outside, Gateway, Env, sender_of}
use on_chain_identity_gatewa.Contracts.Gateway.Networks.{with_access, transfer_dao_manager}

granted_at :
    (sender : Address) (role n : ℕ) (account : Address) (a a' : Access)
    → grant_role sender role n account a ≡ ok a'
    → (r : ℕ) (x : Address) → has_role r n x a' ≡ ((r == role && x == account) || has_role r n x a)
granted_at sender role n account a a' h r x =
    rw ((grant_role-ok sender role n account a a' h).1)
      (ground (arith, grant_lem role n r n account x a))

removed_at :
    (sender : Address) (role n : ℕ) (account : Address) (a a' : Access)
    → revoke_role sender role n account a ≡ ok a'
    → (r : ℕ) (x : Address)
    → has_role r n x a' ≡ (not (r == role && x == account) && has_role r n x a)
removed_at sender role n account a a' h r x =
    rw ((revoke_role-ok sender role n account a a' h).1)
      (ground (arith, remove_lem role n r n account x a))

module _ (hashes : RoleHashes) where
  open hashes use {dao_manager_role, gatekeeper_role, network_authority_role}

  -- The six calls of `grantRole` and `revokeRole` that a transfer consists of.
  pub record Transfers (sender previous new_manager : Address) (network : ℕ) (a b : Access)
      : Type 0 where
    pub a1 : Access
    pub a2 : Access
    pub a3 : Access
    pub a4 : Access
    pub a5 : Access
    pub s1 : grant_role sender dao_manager_role network new_manager a ≡ ok a1
    pub s2 : grant_role sender network_authority_role network new_manager a1 ≡ ok a2
    pub s3 : grant_role sender gatekeeper_role network new_manager a2 ≡ ok a3
    pub s4 : revoke_role sender gatekeeper_role network previous a3 ≡ ok a4
    pub s5 : revoke_role sender network_authority_role network previous a4 ≡ ok a5
    pub s6 : revoke_role sender dao_manager_role network previous a5 ≡ ok b

  -- A part of the state that granting and revoking leave.
  pub Transfers-part {κ} :
      {X : Type κ} (network : ℕ) (part : Access → X)
      → ((r : ℕ) (k : Address) (x : Access) → part (grant r network k x) ≡ part x)
      → ((r : ℕ) (k : Address) (x : Access) → part (remove r network k x) ≡ part x)
      → {sender previous new_manager : Address} {a b : Access}
      → Transfers sender previous new_manager network a b
      → part b ≡ part a
  Transfers-part network part g r {sender} {previous} {new_manager} {a} {b} t =
      let e1 = (grant_role-ok sender dao_manager_role network new_manager a t.a1 t.s1).1 in
      let e2 = (grant_role-ok sender network_authority_role network new_manager t.a1 t.a2 t.s2).1 in
      let e3 = (grant_role-ok sender gatekeeper_role network new_manager t.a2 t.a3 t.s3).1 in
      let e4 = (revoke_role-ok sender gatekeeper_role network previous t.a3 t.a4 t.s4).1 in
      let e5 = (revoke_role-ok sender network_authority_role network previous t.a4 t.a5 t.s5).1 in
      let e6 = (revoke_role-ok sender dao_manager_role network previous t.a5 b t.s6).1 in
      ap part e6
      ∙ r dao_manager_role previous t.a5
      ∙ ap part e5
      ∙ r network_authority_role previous t.a4
      ∙ ap part e4
      ∙ r gatekeeper_role previous t.a3
      ∙ ap part e3
      ∙ g gatekeeper_role new_manager t.a2
      ∙ ap part e2
      ∙ g network_authority_role new_manager t.a1
      ∙ ap part e1
      ∙ g dao_manager_role new_manager a

  -- A transfer leaves the admin roles and the super admins.
  pub Transfers-frame :
      (sender previous new_manager : Address) (network : ℕ) (a b : Access)
      → Transfers sender previous new_manager network a b
      → (b.admin_role ≡ a.admin_role) × (b.super_admins ≡ a.super_admins)
  Transfers-frame sender previous new_manager network a b t = (
    Transfers-part network (λ x. x.admin_role) (λ r k x. (grant_frame r network k x).0)
        (λ r k x. (remove_frame r network k x).0) t,
    Transfers-part network (λ x. x.super_admins) (λ r k x. (grant_frame r network k x).1)
        (λ r k x. (remove_frame r network k x).1) t,
  )

  Transfers-role :
      (sender previous new_manager : Address) (network : ℕ) (a b : Access)
      → Transfers sender previous new_manager network a b
      → (r : ℕ) (x : Address)
      → has_role r network x b ≡ (
          not (r == dao_manager_role && x == previous)
          && (not (r == network_authority_role && x == previous)
              && (not (r == gatekeeper_role && x == previous)
                  && ((r == gatekeeper_role && x == new_manager)
                      || ((r == network_authority_role && x == new_manager)
                          || ((r == dao_manager_role && x == new_manager)
                              || has_role r network x a))))))
  Transfers-role sender previous new_manager network a b t r x =
      let u1 = granted_at sender dao_manager_role network new_manager a t.a1 t.s1 r x in
      let u2 = granted_at sender network_authority_role network new_manager t.a1 t.a2 t.s2 r x in
      let u3 = granted_at sender gatekeeper_role network new_manager t.a2 t.a3 t.s3 r x in
      let u4 = removed_at sender gatekeeper_role network previous t.a3 t.a4 t.s4 r x in
      let u5 = removed_at sender network_authority_role network previous t.a4 t.a5 t.s5 r x in
      let u6 = removed_at sender dao_manager_role network previous t.a5 b t.s6 r x in
      rw (u6, u5, u4, u3, u2, u1) refl

module _ {Tokens World : Type 0} (hashes : RoleHashes) (outside : Outside World) where
  open hashes use {dao_manager_role, gatekeeper_role, network_authority_role}

  pub transfer_dao_manager-ok :
      (env : Env) (previous new_manager : Address) (network : ℕ) (w : World) (s s' : Gateway Tokens)
      → transfer_dao_manager hashes outside env previous new_manager network w s ≡ ok s'
      → (has_role dao_manager_role network previous s.access ≡ true)
        × Transfers hashes (sender_of env s) previous new_manager network s.access s'.access
        × (s' ≡ with_access s s'.access)
  unfolding transfer_dao_manager
  transfer_dao_manager-ok env previous new_manager network w s s' h =
      let (_, e1, h1) =
        >>=-eq-ok
          (if not (s.is_network_dao_governed network)
            then err (not_dao_governed network)
            else ok tt)
          _ h in
      let (_, e2, h2) = >>=-eq-ok (check_role dao_manager_role network previous s.access) _ h1 in
      let (_, e3, h3) = >>=-eq-ok (if new_manager == 0 then err missing_account else ok tt) _ h2 in
      let (_, e4, h4) =
        >>=-eq-ok
          (if not (outside.is_contract new_manager w)
            then err (not_contract new_manager)
            else ok tt)
          _ h3 in
      let (a1, s1, h5) =
        >>=-eq-ok (grant_role (sender_of env s) dao_manager_role network new_manager s.access) _
          h4 in
      let (a2, s2, h6) =
        >>=-eq-ok (grant_role (sender_of env s) network_authority_role network new_manager a1) _
          h5 in
      let (a3, s3, h7) =
        >>=-eq-ok (grant_role (sender_of env s) gatekeeper_role network new_manager a2) _ h6 in
      let (a4, s4, h8) =
        >>=-eq-ok (revoke_role (sender_of env s) gatekeeper_role network previous a3) _ h7 in
      let (a5, s5, h9) =
        >>=-eq-ok (revoke_role (sender_of env s) network_authority_role network previous a4) _ h8 in
      let (a6, s6, h10) =
        >>=-eq-ok (revoke_role (sender_of env s) dao_manager_role network previous a5) _ h9 in
      let e : with_access s a6 ≡ s' = cc in
      rw (sym e) (
        ground arith,
        record {
          a1 = a1;
          a2 = a2;
          a3 = a3;
          a4 = a4;
          a5 = a5;
          s1 = s1;
          s2 = s2;
          s3 = s3;
          s4 = s4;
          s5 = s5;
          s6 = s6;
        },
        refl,
      )

  -- After a transfer the new manager holds the three roles, unless it is the previous manager, and the
  -- previous manager holds none of them: a transfer from a manager to itself leaves it without its
  -- roles. No other account's roles change.
  pub transfer_dao_manager_lem :
      (env : Env) (previous new_manager : Address) (network : ℕ) (w : World) (s s' : Gateway Tokens)
      → transfer_dao_manager hashes outside env previous new_manager network w s ≡ ok s'
      → (account : Address)
      → (has_role dao_manager_role network account s'.access ≡ (
          not (account == previous)
          && (account == new_manager || has_role dao_manager_role network account s.access)))
        × (has_role network_authority_role network account s'.access ≡ (
            not (account == previous)
            && (account == new_manager
                || has_role network_authority_role network account s.access)))
        × (has_role gatekeeper_role network account s'.access ≡ (
            not (account == previous)
            && (account == new_manager || has_role gatekeeper_role network account s.access)))
  transfer_dao_manager_lem env previous new_manager network w s s' h account =
      let (held, t, e) = transfer_dao_manager-ok env previous new_manager network w s s' h in
      let role =
        Transfers-role hashes (sender_of env s) previous new_manager network s.access s'.access t in
      (
        ground (arith, hashes.distinct, role dao_manager_role account),
        ground (arith, hashes.distinct, role network_authority_role account),
        ground (arith, hashes.distinct, role gatekeeper_role account),
      )
