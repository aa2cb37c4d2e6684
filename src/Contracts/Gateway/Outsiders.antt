-- ===== src/Contracts/Gateway/Outsiders.antt =====
-- Who can change the roles of a gatekeeper network of GatewayToken.sol, over any sequence of calls.
use mathlib.Core.Path.{subst}
use on_chain_identity_gatewa.Common.{
  Bool-cases, ◌==◌, ◌&&◌, ◌||◌, ◌⊎◌, ◌≢◌, ap, arith, ℕ, ◌≡◌, refl, ◌∙◌, inl, inr, Bool, false, List,
  [], ◌∷◌,
}
use on_chain_identity_gatewa.Common.Results.{Result-cases}
use on_chain_identity_gatewa.Contracts.{Address}
use on_chain_identity_gatewa.Contracts.Access.{Access, has_role, remove, renounce_role}
use on_chain_identity_gatewa.Contracts.Gateway.{Base, RoleHashes, Outside, Env, sender_of}
use on_chain_identity_gatewa.Contracts.Gateway.Networks.{is_empty}
use on_chain_identity_gatewa.Contracts.Gateway.Effects.{
  Effect, is_renounce, run_call-Effect, run_call-named,
}
use on_chain_identity_gatewa.Contracts.Gateway.Calls.{
  Call, call_renounce_role, State, run_call, run, commit,
}
use on_chain_identity_gatewa.Contracts.Gateway.Authority.{
  Same, Leaves, IsGoverned, Effect-Same, renounce-Leaves,
}

module _ {Tokens World : Type 0} (base : Base Tokens) (hashes : RoleHashes)
    (outside : Outside World) where
  open hashes use {dao_manager_role, gatekeeper_role, network_authority_role}

  -- None of the calls comes from an account that the test finds.
  abbrev pub NoneFrom : (Address → Bool) → List (Env × Call) → State base hashes outside → Type 0
  NoneFrom p [] s = Unit
  NoneFrom p ((env, call) ∷ calls) s =
      (p (sender_of env s.0) ≡ false)
      × NoneFrom p calls (commit base hashes outside s (run_call base hashes outside env call s))

  -- The call is by the account, and gives up its role as a gatekeeper of the network.
  abbrev pub resigns : ℕ → Address → (sender : Address) → Call → Bool
  resigns n x sender (call_renounce_role role network account) =
      network == n && role == gatekeeper_role && account == x && sender == x
  resigns n x sender _ = false

  -- Among the calls there is one by which the account gives up its role as a gatekeeper.
  abbrev pub gives_up : ℕ → Address → List (Env × Call) → State base hashes outside → Bool
  gives_up n x [] s = false
  gives_up n x ((env, call) ∷ calls) s =
      let rest =
        gives_up n x calls
          (commit base hashes outside s (run_call base hashes outside env call s)) in
      resigns n x (sender_of env s.0) call || rest

  renounce-cases :
      (call : Call)
      → ((role : ℕ) × (network : ℕ) × (account : Address) × (call
            ≡ call_renounce_role role network account))
        ⊎ ((is_renounce call ≡ false)
            × ((n : ℕ) (x sender : Address) → resigns n x sender call ≡ false))
  renounce-cases (call_renounce_role role network account) = inl (role, network, account, refl)
  renounce-cases call = inr (ground arith, λ n x sender. ground arith)

  Same-Leaves :
      (n : ℕ) (gone : Address → Bool) (a b : Access)
      → ((x : Address) → gone x ≡ false)
      → Same hashes n a b
      → Leaves hashes n gone a b
  Same-Leaves n gone a b stay p = (p.0, λ x. ground (arith, stay x, p.1 x), p.2, p.3)

  Leaves-trans :
      (n : ℕ) (p q : Address → Bool) (a b c : Access)
      → Leaves hashes n p a b
      → Leaves hashes n q b c
      → Leaves hashes n (λ x. p x || q x) a c
  Leaves-trans n p q a b c h k =
      (λ x. k.0 x ∙ h.0 x, λ x. ground (arith, h.1 x, k.1 x), k.2 ∙ h.2, k.3 ∙ h.3)

  -- Renouncing for oneself never reverts, and renouncing for another always does.
  renounce_lem :
      (env : Env) (role network : ℕ) (account : Address) (s : State base hashes outside)
      → let next =
          commit base hashes outside s
            (run_call base hashes outside env (call_renounce_role role network account) s) in
        ((account ≡ sender_of env s.0)
          × (next.0.access ≡ remove role network (sender_of env s.0) s.0.access)
          × (next.0.networks ≡ s.0.networks))
        ⊎ ((account ≢ sender_of env s.0) × (next ≡ s))
  unfolding run_call renounce_role
  renounce_lem env role network account s = elim (Bool-cases (account == sender_of env s.0)) [
    | inl self ↦
        let e : account ≡ sender_of env s.0 = ground arith in
        rw self (inl (e, ap (λ x. remove role network x s.0.access) e, refl))
    | inr other ↦ rw other (inr (ground arith, refl))
  ]

  commit-Leaves :
      (env : Env) (call : Call) (s : State base hashes outside) (n : ℕ)
      → is_empty (s.0.networks n) ≡ false
      → IsGoverned hashes n s.0.access
      → has_role network_authority_role n (sender_of env s.0) s.0.access ≡ false
      → let next = commit base hashes outside s (run_call base hashes outside env call s) in
        (is_empty (next.0.networks n) ≡ false)
        × Leaves hashes n (λ x. resigns n x (sender_of env s.0) call) s.0.access next.0.access
  commit-Leaves env call s n named g out = elim (renounce-cases call) [
    | inl (role, network, account, here) ↦ rw here (elim (renounce_lem env role network account s) [
      | inl (self, e, kept) ↦ (
        ground arith,
        rw e (
            let l = renounce-Leaves hashes n role network (sender_of env s.0) s.0.access out in
            (l.0, λ x. ground (arith, l.1 x), l.2, l.3)),
      )
      | inr (other, e) ↦ rw e (named, (λ x. refl, λ x. ground arith, refl, refl))
    ])
    | inr (calm, stay) ↦ elim (Result-cases (run_call base hashes outside env call s)) [
      | inl (s1, e) ↦
          let effect = run_call-Effect base hashes outside env call s s1 e in
          rw e (
            run_call-named base hashes outside env call s s1 n e named,
            Same-Leaves n _ s.0.access s1.0.access (λ x. stay n x (sender_of env s.0))
                (Effect-Same hashes n (sender_of env s.0) s.0.networks s1.0.networks s.0.access
                  s1.0.access named g out
                  (subst
                    (λ own.
                      Effect hashes own (sender_of env s.0) s.0.networks s1.0.networks s.0.access
                        s1.0.access)
                    calm effect)),
          )
      | inr (x, e) ↦ rw e (
        named,
        Same-Leaves n _ s.0.access s.0.access (λ x. stay n x (sender_of env s.0))
            (λ x. refl, λ x. refl, refl, refl),
      )
    ]
  ]

  run-Leaves :
      (calls : List (Env × Call)) (s : State base hashes outside) (n : ℕ) (a : Access)
      → is_empty (s.0.networks n) ≡ false
      → IsGoverned hashes n s.0.access
      → ((x : Address)
          → has_role network_authority_role n x s.0.access ≡ has_role network_authority_role n x a)
      → NoneFrom (λ x. has_role network_authority_role n x a) calls s
      → Leaves hashes n
          (λ x. gives_up n x calls s)
          s.0.access
          (run base hashes outside calls s).0.access
  unfolding run
  run-Leaves [] s n a named g same none = (λ x. refl, λ x. ground arith, refl, refl)
  run-Leaves ((env, call) ∷ calls) s n a named g same none =
      let next = commit base hashes outside s (run_call base hashes outside env call s) in
      let (still, step) = commit-Leaves env call s n named g (same (sender_of env s.0) ∙ none.0) in
      Leaves-trans n (λ x. resigns n x (sender_of env s.0) call) (λ x. gives_up n x calls next)
        s.0.access next.0.access (run base hashes outside calls next).0.access step
        (run-Leaves calls next n a still (step.2 ∙ g.0, step.3 ∙ g.1) (λ x. step.0 x ∙ same x)
          none.1)

  -- Whoever is no authority of a network changes neither its authorities nor who administers its roles,
  -- and neither makes nor unmakes a gatekeeper: over any calls by accounts that are not authorities of a
  -- network that exists and that its authorities administer, the authorities stay as they were, and the
  -- gatekeepers are the ones that there were, less those that have given up their own role.
  pub run_outsiders :
      (calls : List (Env × Call)) (s : State base hashes outside) (n : ℕ)
      → is_empty (s.0.networks n) ≡ false
      → IsGoverned hashes n s.0.access
      → NoneFrom (λ x. has_role network_authority_role n x s.0.access) calls s
      → Leaves hashes n
          (λ x. gives_up n x calls s)
          s.0.access
          (run base hashes outside calls s).0.access
  run_outsiders calls s n named g none = run-Leaves calls s n s.0.access named g (λ x. refl) none
