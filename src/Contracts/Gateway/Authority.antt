-- ===== src/Contracts/Gateway/Authority.antt =====
-- What an account that is no authority of a network leaves of its roles, in one call of
-- GatewayToken.sol.
use Prim.Native.String.{String}
use on_chain_identity_gatewa.Common.{
  Bool, ◌==◌, ◌&&◌, not, ℕ, ◌≡◌, ◌≢◌, refl, sym, ◌∙◌, ap, ◌⊎◌, true, false, ok, arith,
}
use on_chain_identity_gatewa.Contracts.{Address}
use on_chain_identity_gatewa.Contracts.Access.{
  Access, has_role, get_role_admin, grant, remove, set_role_admin, grant_role, revoke_role,
}
use on_chain_identity_gatewa.Contracts.Access.Laws.{
  grant_lem, remove_lem, grant_role-ok, revoke_role-ok, grant_frame, remove_frame,
}
use on_chain_identity_gatewa.Contracts.Gateway.{RoleHashes}
use on_chain_identity_gatewa.Contracts.Gateway.Networks.{is_empty, dao_roles, authority_roles}
use on_chain_identity_gatewa.Contracts.Gateway.Transfer.{Transfers}
use on_chain_identity_gatewa.Contracts.Gateway.Effects.{
  Effect, keeps, grants, removes, renounces, sets_super, revokes_super, creates, transfers,
}

true≢false : true ≢ false
true≢false h = cc

module _ (hashes : RoleHashes) where
  open hashes use {dao_manager_role, gatekeeper_role, network_authority_role}

  -- The authorities of the network, its gatekeepers and the administration of both are as they were.
  abbrev pub Same : ℕ → Access → Access → Type 0
  Same n a b =
      ((x : Address)
        → has_role network_authority_role n x b ≡ has_role network_authority_role n x a)
      × ((x : Address) → has_role gatekeeper_role n x b ≡ has_role gatekeeper_role n x a)
      × (get_role_admin network_authority_role n b ≡ get_role_admin network_authority_role n a)
      × (get_role_admin gatekeeper_role n b ≡ get_role_admin gatekeeper_role n a)

  -- The authorities of the network and the administration of its roles are as they were, and its
  -- gatekeepers are the ones that there were, less those that the test finds.
  abbrev pub Leaves : ℕ → (Address → Bool) → Access → Access → Type 0
  Leaves n gone a b =
      ((x : Address)
        → has_role network_authority_role n x b ≡ has_role network_authority_role n x a)
      × ((x : Address)
          → has_role gatekeeper_role n x b ≡ (has_role gatekeeper_role n x a && not (gone x)))
      × (get_role_admin network_authority_role n b ≡ get_role_admin network_authority_role n a)
      × (get_role_admin gatekeeper_role n b ≡ get_role_admin gatekeeper_role n a)

  -- The authorities of the network administer its authorities and its gatekeepers.
  abbrev pub IsGoverned : ℕ → Access → Type 0
  IsGoverned n a =
      (get_role_admin network_authority_role n a ≡ network_authority_role)
      × (get_role_admin gatekeeper_role n a ≡ network_authority_role)

  grant-Same :
      (n role network : ℕ) (sender account : Address) (a : Access)
      → IsGoverned n a
      → has_role network_authority_role n sender a ≡ false
      → has_role (get_role_admin role network a) network sender a ≡ true
      → Same n a (grant role network account a)
  grant-Same n role network sender account a g out allowed = (
    λ x. ground (arith, grant_lem role network network_authority_role n account x a),
    λ x. ground (arith, grant_lem role network gatekeeper_role n account x a),
    ap (λ m. m n network_authority_role) (grant_frame role network account a).0,
    ap (λ m. m n gatekeeper_role) (grant_frame role network account a).0,
  )

  remove-Same :
      (n role network : ℕ) (sender account : Address) (a : Access)
      → IsGoverned n a
      → has_role network_authority_role n sender a ≡ false
      → has_role (get_role_admin role network a) network sender a ≡ true
      → Same n a (remove role network account a)
  remove-Same n role network sender account a g out allowed = (
    λ x. ground (arith, remove_lem role network network_authority_role n account x a),
    λ x. ground (arith, remove_lem role network gatekeeper_role n account x a),
    ap (λ m. m n network_authority_role) (remove_frame role network account a).0,
    ap (λ m. m n gatekeeper_role) (remove_frame role network account a).0,
  )

  pub Same-trans : (n : ℕ) (a b c : Access) → Same n a b → Same n b c → Same n a c
  Same-trans n a b c p q = (λ x. q.0 x ∙ p.0 x, λ x. q.1 x ∙ p.1 x, q.2 ∙ p.2, q.3 ∙ p.3)

  pub Same-IsGoverned : (n : ℕ) (a b : Access) → Same n a b → IsGoverned n a → IsGoverned n b
  Same-IsGoverned n a b p g = (p.2 ∙ g.0, p.3 ∙ g.1)

  -- One more step by the same sender.
  grant_role-Same :
      (n role network : ℕ) (sender account : Address) (a x y : Access)
      → IsGoverned n a
      → has_role network_authority_role n sender a ≡ false
      → Same n a x
      → grant_role sender role network account x ≡ ok y
      → Same n a y
  grant_role-Same n role network sender account a x y g out p h =
      let (allowed, e) = grant_role-ok sender role network account x y h in
      rw e (
        Same-trans n a x (grant role network account x) p (
          grant-Same n role network sender account x (Same-IsGoverned n a x p g) (p.0 sender ∙ out)
            allowed))

  revoke_role-Same :
      (n role network : ℕ) (sender account : Address) (a x y : Access)
      → IsGoverned n a
      → has_role network_authority_role n sender a ≡ false
      → Same n a x
      → revoke_role sender role network account x ≡ ok y
      → Same n a y
  revoke_role-Same n role network sender account a x y g out p h =
      let (allowed, e) = revoke_role-ok sender role network account x y h in
      rw e (
        Same-trans n a x (remove role network account x) p (
          remove-Same n role network sender account x (Same-IsGoverned n a x p g) (p.0 sender ∙ out)
            allowed))

  Transfers-Same :
      (n : ℕ) (sender previous new_manager : Address) (network : ℕ) (a b : Access)
      → IsGoverned n a
      → has_role network_authority_role n sender a ≡ false
      → Transfers hashes sender previous new_manager network a b
      → Same n a b
  Transfers-Same n sender p q network a b g out t =
      let p0 : Same n a a = (λ x. refl, λ x. refl, refl, refl) in
      let p1 = grant_role-Same n dao_manager_role network sender q a a t.a1 g out p0 t.s1 in
      let p2 =
        grant_role-Same n network_authority_role network sender q a t.a1 t.a2 g out p1 t.s2 in
      let p3 = grant_role-Same n gatekeeper_role network sender q a t.a2 t.a3 g out p2 t.s3 in
      let p4 = revoke_role-Same n gatekeeper_role network sender p a t.a3 t.a4 g out p3 t.s4 in
      let p5 =
        revoke_role-Same n network_authority_role network sender p a t.a4 t.a5 g out p4 t.s5 in
      revoke_role-Same n dao_manager_role network sender p a t.a5 b g out p5 t.s6

  create-Same :
      (n network : ℕ) (sender account : Address) (a b : Access)
      → network ≢ n
      → (b ≡ dao_roles hashes network account a)
        ⊎ ((account ≡ sender) × (b ≡ authority_roles hashes network sender a))
      → Same n a b
  unfolding set_role_admin grant
  create-Same n network sender account a b other e = ground arith

  -- Giving up a role of one's own takes away that role alone; an account that is no authority gives up
  -- nothing that counts but the role of a gatekeeper.
  pub renounce-Leaves :
      (n role network : ℕ) (sender : Address) (a : Access)
      → has_role network_authority_role n sender a ≡ false
      → Leaves n
          (λ x. network == n && role == gatekeeper_role && x == sender)
          a
          (remove role network sender a)
  renounce-Leaves n role network sender a out = (
    λ x. ground (arith, remove_lem role network network_authority_role n sender x a),
    λ x. ground (arith, remove_lem role network gatekeeper_role n sender x a),
    ap (λ m. m n network_authority_role) (remove_frame role network sender a).0,
    ap (λ m. m n gatekeeper_role) (remove_frame role network sender a).0,
  )

  pub Effect-Same :
      (n : ℕ) (sender : Address) (networks after : ℕ → String) (a b : Access)
      → is_empty (networks n) ≡ false
      → IsGoverned n a
      → has_role network_authority_role n sender a ≡ false
      → Effect hashes false sender networks after a b
      → Same n a b
  Effect-Same n sender networks after a b named g out (keeps e) =
      rw e (λ x. refl, λ x. refl, refl, refl)
  Effect-Same n sender networks after a b named g out (grants r m k allowed e) =
      rw e (grant-Same n r m sender k a g out allowed)
  Effect-Same n sender networks after a b named g out (removes r m k allowed e) =
      rw e (remove-Same n r m sender k a g out allowed)
  Effect-Same n sender networks after a b named g out (renounces r m own e) =
      absurd (true≢false (sym own))
  Effect-Same n sender networks after a b named g out (sets_super k admin e) =
      rw e (λ x. refl, λ x. refl, refl, refl)
  Effect-Same n sender networks after a b named g out (revokes_super k admin other e) =
      rw e (λ x. refl, λ x. refl, refl, refl)
  Effect-Same n sender networks after a b named g out (creates m k new named_after e) =
      create-Same n m sender k a b
        (λ q. true≢false (sym new ∙ ap (λ m. is_empty (networks m)) q ∙ named)) e
  Effect-Same n sender networks after a b named g out (transfers p q m held t) =
      Transfers-Same n sender p q m a b g out t
