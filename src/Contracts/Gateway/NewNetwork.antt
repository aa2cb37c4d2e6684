-- ===== src/Contracts/Gateway/NewNetwork.antt =====
-- A new gatekeeper network of GatewayToken.sol: nobody has a role in it before it is created.
use Prim.Native.String.{String}
use on_chain_identity_gatewa.Common.{
  Bool, ℕ, ◌==◌, ◌≡◌, ◌≢◌, refl, sym, ◌∙◌, ap, ◌⊎◌, inl, inr, Bool, true, false, List, [], ◌∷◌, ok,
  arith,
}
use on_chain_identity_gatewa.Common.Tests.{Bool-cases}
use on_chain_identity_gatewa.Common.Results.{Result-cases}
use on_chain_identity_gatewa.Contracts.{Address, put}
use on_chain_identity_gatewa.Contracts.Access.{
  Access, has_role, get_role_admin, grant, set_role_admin,
}
use on_chain_identity_gatewa.Contracts.Access.Laws.{
  grant_lem, remove_lem, grant_frame, remove_frame,
}
use on_chain_identity_gatewa.Contracts.Gateway.{Base, RoleHashes, Outside, Gateway, Env, sender_of}
use on_chain_identity_gatewa.Contracts.Gateway.Networks.{
  is_empty, initialize, dao_roles, authority_roles, create_network,
}
use on_chain_identity_gatewa.Contracts.Gateway.Transfer.{Transfers-frame, Transfers-part}
use on_chain_identity_gatewa.Contracts.Gateway.Effects.{
  Effect, keeps, grants, removes, renounces, sets_super, revokes_super, creates, transfers,
  run_call-Effect, run_call-named,
}
use on_chain_identity_gatewa.Contracts.Gateway.Calls.{Call, State, run_call, run, commit}

true≢false : true ≢ false
true≢false h = cc

module _ (hashes : RoleHashes) where
  open hashes use {dao_manager_role, gatekeeper_role, network_authority_role}

  -- Nobody has a role in the network, and no role of it has an admin role.
  abbrev pub IsUnused : ℕ → Access → Type 0
  IsUnused n a =
      ((role : ℕ) (x : Address) → has_role role n x a ≡ false)
      × ((role : ℕ) → get_role_admin role n a ≡ 0)

  create-IsUnused :
      (n network : ℕ) (sender account : Address) (a b : Access)
      → network ≢ n
      → (b ≡ dao_roles hashes network account a)
        ⊎ ((account ≡ sender) × (b ≡ authority_roles hashes network sender a))
      → IsUnused n a
      → IsUnused n b
  unfolding set_role_admin grant
  create-IsUnused n network sender account a b other e u =
      (λ role x. ground (arith, u.0 role x), λ role. ground (arith, u.1 role))

  Effect-IsUnused :
      {own : Bool} (n : ℕ) (sender : Address) (networks after : ℕ → String) (a b : Access)
      → Effect hashes own sender networks after a b
      → is_empty (after n) ≡ true
      → IsUnused n a
      → IsUnused n b
  Effect-IsUnused n sender networks after a b (keeps e) empty u = rw e u
  Effect-IsUnused n sender networks after a b (grants r m k allowed e) empty u = rw e (
    λ role x.
        ground (arith, grant_lem r m role n k x a, u.0 role x, u.0 (get_role_admin r m a) sender),
    λ role. ap (λ f. f n role) (grant_frame r m k a).0 ∙ u.1 role,
  )
  Effect-IsUnused n sender networks after a b (removes r m k allowed e) empty u = rw e (
    λ role x. ground (arith, remove_lem r m role n k x a, u.0 role x),
    λ role. ap (λ f. f n role) (remove_frame r m k a).0 ∙ u.1 role,
  )
  Effect-IsUnused n sender networks after a b (renounces r m _ e) empty u = rw e (
    λ role x. ground (arith, remove_lem r m role n sender x a, u.0 role x),
    λ role. ap (λ f. f n role) (remove_frame r m sender a).0 ∙ u.1 role,
  )
  Effect-IsUnused n sender networks after a b (sets_super k admin e) empty u = rw e u
  Effect-IsUnused n sender networks after a b (revokes_super k admin other e) empty u = rw e u
  Effect-IsUnused n sender networks after a b (creates m k new named_after e) empty u =
      create-IsUnused n m sender k a b
        (λ q. true≢false (sym empty ∙ ap (λ i. is_empty (after i)) (sym q) ∙ named_after)) e u
  Effect-IsUnused n sender networks after a b (transfers p q m held t) empty u =
      elim (Bool-cases (m == n)) [
        | inl same ↦ absurd (ground (arith, u.0 dao_manager_role p))
        | inr other ↦ (
          λ role x.
              Transfers-part hashes m (λ y. has_role role n x y)
                (λ r k y. ground (arith, grant_lem r m role n k x y))
                (λ r k y. ground (arith, remove_lem r m role n k x y)) t
              ∙ u.0 role x,
          λ role. ap (λ f. f n role) (Transfers-frame hashes sender p q m a b t).0 ∙ u.1 role,
        )
      ]

  -- Who holds which role of a network that was just created: where a DAO governs it, only its manager is
  -- DAO manager and authority, and the DAO manager's role administers the three; else only the creator
  -- is authority, and the authority's role administers authorities and gatekeepers. Nobody is a
  -- gatekeeper.
  abbrev pub Founded : (dao_governed : Bool) (n : ℕ) (manager creator : Address) → Access → Type 0
  Founded true n manager creator a =
      ((x : Address)
        → (has_role dao_manager_role n x a ≡ (x == manager))
          × (has_role network_authority_role n x a ≡ (x == manager))
          × (has_role gatekeeper_role n x a ≡ false))
      × (get_role_admin dao_manager_role n a ≡ dao_manager_role)
      × (get_role_admin network_authority_role n a ≡ dao_manager_role)
      × (get_role_admin gatekeeper_role n a ≡ dao_manager_role)
  Founded false n manager creator a =
      ((x : Address)
        → (has_role dao_manager_role n x a ≡ false)
          × (has_role network_authority_role n x a ≡ (x == creator))
          × (has_role gatekeeper_role n x a ≡ false))
      × (get_role_admin network_authority_role n a ≡ network_authority_role)
      × (get_role_admin gatekeeper_role n a ≡ network_authority_role)

  dao_roles-Founded :
      (n : ℕ) (manager creator : Address) (a : Access)
      → IsUnused n a
      → Founded true n manager creator (dao_roles hashes n manager a)
  unfolding set_role_admin grant
  dao_roles-Founded n manager creator a u = (
    λ x. (
      ground (arith, hashes.distinct, u.0 dao_manager_role x, u.0 network_authority_role x),
      ground (arith, hashes.distinct, u.0 dao_manager_role x, u.0 network_authority_role x),
      ground (arith, hashes.distinct, u.0 gatekeeper_role x),
    ),
    ground arith,
    ground (arith, hashes.distinct),
    ground (arith, hashes.distinct),
  )

  authority_roles-Founded :
      (n : ℕ) (manager creator : Address) (a : Access)
      → IsUnused n a
      → Founded false n manager creator (authority_roles hashes n creator a)
  unfolding set_role_admin grant
  authority_roles-Founded n manager creator a u = (
    λ x. (
      ground (arith, hashes.distinct, u.0 dao_manager_role x),
      ground (arith, hashes.distinct, u.0 network_authority_role x),
      ground (arith, hashes.distinct, u.0 gatekeeper_role x),
    ),
    ground (arith, hashes.distinct),
    ground (arith, hashes.distinct),
  )

module _ {Tokens World : Type 0} (base : Base Tokens) (hashes : RoleHashes)
    (outside : Outside World) where
  open hashes use {dao_manager_role, gatekeeper_role, network_authority_role}

  -- No network without a name has roles.
  abbrev pub IsClean : Gateway Tokens → Type 0
  IsClean s = (n : ℕ) → is_empty (s.networks n) ≡ true → IsUnused hashes n s.access

  commit-IsClean :
      (env : Env) (call : Call) (s : State base hashes outside)
      → IsClean s.0
      → IsClean (commit base hashes outside s (run_call base hashes outside env call s)).0
  commit-IsClean env call s c = elim (Result-cases (run_call base hashes outside env call s)) [
    | inl (s1, e) ↦ rw e (λ n empty. elim (Bool-cases (is_empty (s.0.networks n))) [
      | inl before ↦
          Effect-IsUnused hashes n (sender_of env s.0) s.0.networks s1.0.networks s.0.access
            s1.0.access (run_call-Effect base hashes outside env call s s1 e) empty (c n before)
      | inr named ↦
          absurd
            (true≢false (sym empty ∙ run_call-named base hashes outside env call s s1 n e named))
    ])
    | inr (x, e) ↦ rw e c
  ]

  run-IsClean :
      (calls : List (Env × Call)) (s : State base hashes outside)
      → IsClean s.0
      → IsClean (run base hashes outside calls s).0
  unfolding run
  run-IsClean [] s c = c
  run-IsClean ((env, call) ∷ calls) s c =
      run-IsClean calls (commit base hashes outside s (run_call base hashes outside env call s))
        (commit-IsClean env call s c)

  initialize-IsClean :
      (no_tokens : Tokens) (admin flags handler : Address) (forwarders : List Address)
      (s : Gateway Tokens)
      → initialize no_tokens admin flags handler forwarders ≡ ok s
      → IsClean s
  unfolding initialize
  initialize-IsClean no_tokens admin flags handler forwarders s h n empty =
      let e : s.access ≡ record {
        members = λ _ _ _. false;
        admin_role = λ _ _. 0;
        super_admins = put admin true (λ _. false);
      } =
        ground arith in
      rw e (λ role x. refl, λ role. refl)

  create_network-Founded :
      (env : Env) (n : ℕ) (name : String) (dao_governed : Bool) (manager : Address) (w : World)
      (s s' : Gateway Tokens)
      → IsClean s
      → create_network hashes outside env n name dao_governed manager w s ≡ ok s'
      → Founded hashes dao_governed n manager (sender_of env s) s'.access
  unfolding create_network
  create_network-Founded env n name true manager w s s' c h =
      let e : s'.access ≡ dao_roles hashes n manager s.access = ground arith in
      rw e (dao_roles-Founded hashes n manager (sender_of env s) s.access (c n (ground arith)))
  create_network-Founded env n name false manager w s s' c h =
      let e : s'.access ≡ authority_roles hashes n (sender_of env s) s.access = ground arith in
      rw e
        (authority_roles-Founded hashes n manager (sender_of env s) s.access (c n (ground arith)))

  -- However the contract was called since its initialization, a new network's roles are held by its
  -- founder alone.
  pub create_network_founds :
      (no_tokens : Tokens) (admin flags handler : Address) (forwarders : List Address)
      (start : Gateway Tokens) (w w' : World) (calls : List (Env × Call)) (env : Env) (n : ℕ)
      (name : String) (dao_governed : Bool) (manager : Address) (s' : Gateway Tokens)
      → initialize no_tokens admin flags handler forwarders ≡ ok start
      → create_network hashes outside env n name dao_governed manager w'
          (run base hashes outside calls (start, w)).0
        ≡ ok s'
      → Founded hashes dao_governed n manager
          (sender_of env (run base hashes outside calls (start, w)).0)
          s'.access
  create_network_founds no_tokens admin flags handler forwarders start w w' calls env n name
        dao_governed manager s' i h =
      create_network-Founded env n name dao_governed manager w'
        (run base hashes outside calls (start, w)).0 s'
        (run-IsClean calls (start, w)
          (initialize-IsClean no_tokens admin flags handler forwarders start i))
        h
