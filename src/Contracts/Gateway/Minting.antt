-- ===== src/Contracts/Gateway/Minting.antt =====
-- A minted token of GatewayToken.sol.
use on_chain_identity_gatewa.Common.{
  Bool, Bool-cases, ◌||◌, ◌==◌, leb, refl, ℕ, ◌≤◌, ltb, ◌≡◌, sym, ◌∙◌, ap, ◌⊎◌, inl, inr, true,
  false, List, [], ◌∷◌, Result, ok, if◌then◌else◌, arith,
}
use on_chain_identity_gatewa.Common.Results.{>>=-eq-ok, Result-cases}
use on_chain_identity_gatewa.Contracts.{Address, put, Revert, active}
use on_chain_identity_gatewa.Contracts.Access.{has_role}
use on_chain_identity_gatewa.Contracts.Charges.{Charge}
use on_chain_identity_gatewa.Contracts.Gateway.{
  Base, RoleHashes, Outside, Gateway, Env, sender_of, check_gatekeeper, exists_and_active,
}
use on_chain_identity_gatewa.Contracts.Gateway.Verify.{exists_and_active_iff}
use on_chain_identity_gatewa.Contracts.Gateway.Tokens.{
  burn, revoke, freeze, unfreeze, set_bitmask, mint_effects, set_expiration_effects, mint,
  set_expiration,
}
use on_chain_identity_gatewa.Contracts.Gateway.Networks.{
  initialize, set_metadata_descriptor, add_forwarder_call, remove_forwarder_call,
  update_flags_storage, update_charge_handler, grant_call, revoke_call, set_network_features,
  rename_network, create_network, transfer_dao_manager,
}
use on_chain_identity_gatewa.Contracts.Gateway.Calls.{
  Call, call_mint, call_burn, call_set_metadata_descriptor, State, run_call, run, commit, inside,
}

-- A test that holds exactly for an expiry that is not over.
same_test :
    (b : Bool) (expiration now : ℕ)
    → ((expiration ≡ 0) ⊎ (now ≤ expiration) → b ≡ true)
    → (b ≡ true → (expiration ≡ 0) ⊎ (now ≤ expiration))
    → b ≡ (expiration == 0 || leb now expiration)
same_test true expiration now f g = elim (g refl) [ inl h ↦ ground arith | inr h ↦ ground arith ]
same_test false expiration now f g = elim (Bool-cases (expiration == 0 || leb now expiration)) [
  | inl h ↦ elim (Bool-cases (expiration == 0)) [
    | inl zero ↦ absurd (ground (arith, f (inl (ground arith))))
    | inr more ↦ absurd (ground (arith, f (inr (ground arith))))
  ]
  | inr h ↦ sym h
]

module _ {Tokens World : Type 0} (base : Base Tokens) (hashes : RoleHashes)
    (outside : Outside World) where
  -- Nothing is recorded yet for an id that was not given out.
  abbrev pub Blank : ℕ → Gateway Tokens → Type 0
  Blank id s = (s.token_states id ≡ active) × (s.expirations id ≡ 0) × (s.bitmasks id ≡ 0)

  abbrev pub IsFresh : Gateway Tokens → Type 0
  IsFresh s = (id : ℕ) → base.issued id s.tokens ≡ false → Blank id s

  -- The id of a token that a call reads the slot of was given out.
  slot_issued :
      (id n : ℕ) (s : Gateway Tokens)
      → base.slot_of id s.tokens ≡ ok n
      → base.issued id s.tokens ≡ true
  slot_issued id n s h = base.exists_issued id s.tokens (base.slot_of_ok id s.tokens n h)

  mint_effects-ok :
      (env : Env) (to : Address) (n e m id : ℕ) (s s' : Gateway Tokens)
      → mint_effects base hashes env to n e m s ≡ ok (id, s')
      → (has_role hashes.gatekeeper_role n (sender_of env s) s.access ≡ true)
        × (t : Tokens) × (base.mint to n 1 s.tokens ≡ ok (id, t))
        × (s' ≡ record s {
          tokens = t;
          expirations = if ltb 0 e then put id e s.expirations else s.expirations;
          bitmasks = if ltb 0 m then put id m s.bitmasks else s.bitmasks;
          issuing_gatekeepers = put id (sender_of env s) s.issuing_gatekeepers;
        })
  unfolding mint_effects
  mint_effects-ok env to n e m id s s' h =
      let (_, e1, h1) = >>=-eq-ok (check_gatekeeper base hashes env n s) _ h in
      let ((i, t), e2, h2) = >>=-eq-ok (base.mint to n 1 s.tokens) _ h1 in
      let same : i ≡ id = cc in
      let minted : base.mint to n 1 s.tokens ≡ ok (id, t) = cc in
      (ground arith, t, minted, ground arith)

  inside-ok' :
      (r : Result Revert (Gateway Tokens)) (w : World) (s' : State base hashes outside)
      → inside base hashes outside r w ≡ ok s'
      → r ≡ ok s'.0
  inside-ok' r w s' h = ground arith

  run_call-Blank :
      (env : Env) (call : Call) (s s' : State base hashes outside) (id : ℕ)
      → run_call base hashes outside env call s ≡ ok s'
      → base.issued id s'.0.tokens ≡ false
      → (base.issued id s.0.tokens ≡ false) × (Blank id s.0 → Blank id s'.0)
  unfolding run_call mint set_expiration set_expiration_effects burn revoke freeze unfreeze
      set_bitmask create_network rename_network set_network_features grant_call revoke_call
      add_forwarder_call remove_forwarder_call update_flags_storage update_charge_handler
      set_metadata_descriptor transfer_dao_manager
  run_call-Blank env (call_mint to n e m c) s s' id h i =
      let ((x, s1), e1, h1) = >>=-eq-ok (mint_effects base hashes env to n e m s.0) _ h in
      let (w1, e2, h2) =
        >>=-eq-ok (outside.handle_charge s1.charge_handler env.value c n s.1) _ h1 in
      let done : s1 ≡ s'.0 = cc in
      let (_, t, minted, made) = mint_effects-ok env to n e m x s.0 s1 e1 in
      let (new, now, own, slot, others) = base.minted to n 1 s.0.tokens x t minted in
      ground (arith, base.exists_issued x t now, others id, sym done ∙ made)
  run_call-Blank env (call_burn x) s s' id h i =
      let (n, e1, h1) = >>=-eq-ok (base.slot_of x s.0.tokens) _ (inside-ok' _ _ _ h) in
      let (_, e2, h2) = >>=-eq-ok (check_gatekeeper base hashes env n s.0) _ h1 in
      let (t, e3, h3) = >>=-eq-ok (base.burn x s.0.tokens) _ h2 in
      let (gone, kept, others) = base.burned x s.0.tokens t e3 in ground (arith, others id)
  run_call-Blank env (call_set_metadata_descriptor x) s s' id h i =
      ground (arith, base.described x s.0.tokens id)
  run_call-Blank env call s s' id h i = grind (arith, slot_issued id)

  commit-IsFresh :
      (env : Env) (call : Call) (s : State base hashes outside)
      → IsFresh s.0
      → IsFresh (commit base hashes outside s (run_call base hashes outside env call s)).0
  commit-IsFresh env call s f = elim (Result-cases (run_call base hashes outside env call s)) [
    | inl (s1, e) ↦
        rw e
          (λ id i. let (before, keeps) = run_call-Blank env call s s1 id e i in keeps (f id before))
    | inr (x, e) ↦ rw e f
  ]

  run-IsFresh :
      (calls : List (Env × Call)) (s : State base hashes outside)
      → IsFresh s.0
      → IsFresh (run base hashes outside calls s).0
  unfolding run
  run-IsFresh [] s f = f
  run-IsFresh ((env, call) ∷ calls) s f =
      run-IsFresh calls (commit base hashes outside s (run_call base hashes outside env call s))
        (commit-IsFresh env call s f)

  initialize-IsFresh :
      (no_tokens : Tokens) (admin flags handler : Address) (forwarders : List Address)
      (s : Gateway Tokens)
      → initialize no_tokens admin flags handler forwarders ≡ ok s
      → IsFresh s
  unfolding initialize
  initialize-IsFresh no_tokens admin flags handler forwarders s h id i = ground arith

  -- What `mint` records of the token that it makes.
  abbrev pub Records :
      Env
      → (to : Address) (network expiration mask id : ℕ) → Gateway Tokens
      → Gateway Tokens
      → Type 0
  Records env to network expiration mask id s s' =
      (base.owner_of id s'.tokens ≡ ok to)
      × (base.slot_of id s'.tokens ≡ ok network)
      × (s'.token_states id ≡ active)
      × (s'.expirations id ≡ expiration)
      × (s'.bitmasks id ≡ mask)
      × (s'.issuing_gatekeepers id ≡ sender_of env s)

  mint-Records :
      (env : Env) (to : Address) (network expiration mask : ℕ) (charge : Charge)
      (s s' : State base hashes outside)
      → IsFresh s.0
      → mint base hashes outside env to network expiration mask charge s ≡ ok s'
      → (id : ℕ) × (base.issued id s.0.tokens ≡ false)
        × (base.exists id s'.0.tokens ≡ true)
        × (has_role hashes.gatekeeper_role network (sender_of env s.0) s'.0.access ≡ true)
        × Records env to network expiration mask id s.0 s'.0
  unfolding mint
  mint-Records env to network expiration mask charge s s' f h =
      let ((id, s1), e1, h1) =
        >>=-eq-ok (mint_effects base hashes env to network expiration mask s.0) _ h in
      let (w1, e2, h2) =
        >>=-eq-ok (outside.handle_charge s1.charge_handler env.value charge network s.1) _ h1 in
      let done : s1 ≡ s'.0 = cc in
      let (allowed, t, minted, made) =
        mint_effects-ok env to network expiration mask id s.0 s1 e1 in
      let (new, now, own, slot, others) = base.minted to network 1 s.0.tokens id t minted in
      rw (sym done ∙ made) (
        id,
        new,
        now,
        allowed,
        (own, slot, (f id new).0, ground (arith, f id new), ground (arith, f id new), ground arith),
      )

  -- However the contract was called since its initialization, `mint` by a gatekeeper that does not
  -- revert makes a token with an id that was never given out, of the owner, network, expiry, mask and
  -- gatekeeper asked for; and at once the token exists and is active exactly if it never expires or
  -- does not expire before the block's time.
  pub mint_verifies :
      (no_tokens : Tokens) (admin flags handler : Address) (forwarders : List Address)
      (start : Gateway Tokens) (w : World) (calls : List (Env × Call)) (env : Env) (to : Address)
      (network expiration mask : ℕ) (charge : Charge) (s' : State base hashes outside)
      → initialize no_tokens admin flags handler forwarders ≡ ok start
      → mint base hashes outside env to network expiration mask charge
          (run base hashes outside calls (start, w))
        ≡ ok s'
      → let before = (run base hashes outside calls (start, w)).0 in
        (id : ℕ) × (base.issued id before.tokens ≡ false)
        × Records env to network expiration mask id before s'.0
        × (exists_and_active base hashes env id false s'.0
            ≡ ok (expiration == 0 || leb env.timestamp expiration))
  mint_verifies no_tokens admin flags handler forwarders start w calls env to network expiration
        mask charge s' i h =
      let s = run base hashes outside calls (start, w) in
      let (id, new, now, allowed, made) =
        mint-Records env to network expiration mask charge s s'
          (run-IsFresh calls (start, w)
            (initialize-IsFresh no_tokens admin flags handler forwarders start i))
          h in
      let (b, found, iff) = exists_and_active_iff base hashes env id false s'.0 now in
      let in_force : (expiration ≡ 0) ⊎ (env.timestamp ≤ expiration) → b ≡ true = λ later.
        iff.1 (made.2, rw made.3 (inr later), network, made.1, inr (inr (rw made.5 allowed))) in
      let later : b ≡ true → (expiration ≡ 0) ⊎ (env.timestamp ≤ expiration) = λ e.
        let (_, in_time, _, _, _) = iff.0 e in
        let over : s'.0.expirations id ≡ expiration = made.3 in ground arith in
      (id, new, made, found ∙ ap ok (same_test b expiration env.timestamp in_force later))
