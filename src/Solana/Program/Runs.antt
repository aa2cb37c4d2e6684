-- ===== src/Solana/Program/Runs.antt =====
-- Runs of the program: any instructions, with any accounts, in any order. One that fails leaves
-- the ledger as it was.
use mathlib.Core.Path.{subst}
use on_chain_identity_gatewa.Common.{
  ◌≡◌, refl, ◌∙◌, ◌⊎◌, inl, inr, true, Result, ok, err, List, [], ◌∷◌, arith,
}
use on_chain_identity_gatewa.Common.Results.{Result-cases}
use on_chain_identity_gatewa.Solana.Web3.{Web3}
use on_chain_identity_gatewa.Solana.Program.{
  TokenState, revoked, active, frozen, TokenAccount, Ledger, Runtime, ProgramError,
  is_valid_state_change,
}
use on_chain_identity_gatewa.Solana.Program.Process.{
  Instruction, add_gatekeeper, issue, set_state, update_expiry, remove_gatekeeper,
  add_feature_to_network, remove_feature_from_network, expire_token, burn_token,
  process_instruction, Accounts,
}
use on_chain_identity_gatewa.Solana.Program.Fate.{Fate, kept, burned, Holds, Succeeds}
use on_chain_identity_gatewa.Solana.Program.History.{
  update_expiry-Fate, set_state-Fate, expire_token-Fate, remove_gatekeeper-Fate,
  remove_feature-Fate, add_gatekeeper-Fate, add_feature-Fate, issue-Fate, burn-Fate,
}

-- The states that may follow one another.
pub data StateReach : TokenState → TokenState → Type 0 where
  here : {s : TokenState} → StateReach s s
  change :
      {s m s' : TokenState} → is_valid_state_change s m ≡ true → StateReach m s' → StateReach s s'

no_change_from_revoked : (s m : TokenState) → s ≡ revoked → is_valid_state_change s m ≡ true → ⊥
unfolding is_valid_state_change
no_change_from_revoked revoked m e h = ground arith
no_change_from_revoked active m e h = cc
no_change_from_revoked frozen m e h = cc

revoked_is_last : {s s' : TokenState} → StateReach s s' → s ≡ revoked → s' ≡ revoked
revoked_is_last here e = e
revoked_is_last (change {s} {m} allowed rest) e = absurd (no_change_from_revoked s m e allowed)

module _ (w : Web3) (r : Runtime w) where
  open w use {PublicKey, system_program_id}

  -- A token that an account of the program holds is, after a successful instruction, there still
  -- with the same owner, network and issuer and in the same state or one that the state may change
  -- to, or its account was closed.
  pub process_instruction-Fate :
      (instruction : Instruction PublicKey) (accounts : Accounts w r) (l l' : Ledger PublicKey)
      (k : PublicKey) (t : TokenAccount PublicKey)
      → Holds w r l k t
      → process_instruction w r instruction accounts l ≡ ok l'
      → Fate w r l' k t
  unfolding process_instruction
  process_instruction-Fate add_gatekeeper as' l l' k t h e =
      add_gatekeeper-Fate w r l l' k t h as' e
  process_instruction-Fate (issue seed x) as' l l' k t h e = issue-Fate w r l l' k t h seed x as' e
  process_instruction-Fate (set_state s) as' l l' k t h e = set_state-Fate w r l l' k t h s as' e
  process_instruction-Fate (update_expiry x) as' l l' k t h e =
      update_expiry-Fate w r l l' k t h x as' e
  process_instruction-Fate remove_gatekeeper as' l l' k t h e =
      remove_gatekeeper-Fate w r l l' k t h as' e
  process_instruction-Fate (expire_token n) as' l l' k t h e =
      expire_token-Fate w r l l' k t h n as' e
  process_instruction-Fate add_feature_to_network as' l l' k t h e =
      add_feature-Fate w r l l' k t h as' e
  process_instruction-Fate remove_feature_from_network as' l l' k t h e =
      remove_feature-Fate w r l l' k t h as' e
  process_instruction-Fate burn_token as' l l' k t h e = burn-Fate w r l l' k t h as' e

  abbrev pub Step : Type 0
  Step = Instruction PublicKey × Accounts w r

  abbrev or_unchanged : Ledger PublicKey → Result ProgramError (Ledger PublicKey) → Ledger PublicKey
  or_unchanged l (ok l') = l'
  or_unchanged l (err e) = l

  abbrev pub after : Step → Ledger PublicKey → Ledger PublicKey
  after (instruction, accounts) l = or_unchanged l (process_instruction w r instruction accounts l)

  abbrev pub run : List Step → Ledger PublicKey → Ledger PublicKey
  run [] l = l
  run (step ∷ steps) l = run steps (after step l)

  -- At some point of the run the account was closed.
  abbrev pub IsClosedOn : PublicKey → List Step → Ledger PublicKey → Type 0
  IsClosedOn k [] l = ⊥
  IsClosedOn k (step ∷ steps) l =
      ((after step l k).owner ≡ system_program_id) ⊎ IsClosedOn k steps (after step l)

  -- The token at the end of a run, against the one at its start.
  pub record Endures (l : Ledger PublicKey) (k : PublicKey) (t : TokenAccount PublicKey)
      : Type 0 where
    pub t' : TokenAccount PublicKey
    pub holds : Holds w r l k t'
    pub same_owner : t'.owner_wallet ≡ t.owner_wallet
    pub same_network : t'.gatekeeper_network ≡ t.gatekeeper_network
    pub same_issuer : t'.issuing_gatekeeper ≡ t.issuing_gatekeeper
    pub states : StateReach t.state t'.state

  after-Fate :
      (step : Step) (l : Ledger PublicKey) (k : PublicKey) (t : TokenAccount PublicKey)
      → Holds w r l k t
      → Fate w r (after step l) k t
  after-Fate (i, as') l k t h = elim (Result-cases (process_instruction w r i as' l)) [
    | inl (l', done) ↦ rw done (process_instruction-Fate i as' l l' k t h done)
    | inr (e, failed) ↦ rw failed (kept t h (refl, refl, refl, inl refl))
  ]

  widen :
      (l : Ledger PublicKey) (k : PublicKey) (t u : TokenAccount PublicKey)
      → Succeeds w r t u
      → Endures l k u
      → Endures l k t
  widen l k t u (owner, network, issuer, moved) e = record {
    t' = e.t';
    holds = e.holds;
    same_owner = e.same_owner ∙ owner;
    same_network = e.same_network ∙ network;
    same_issuer = e.same_issuer ∙ issuer;
    states = elim moved [
      | inl same ↦ subst (λ s. StateReach s e.t'.state) same e.states
      | inr allowed ↦ change allowed e.states
    ];
  }

  -- Over any run a token keeps its owner, network and issuer, and moves through its states only as
  -- they allow, unless its account is closed on the way.
  pub run-Endures :
      (steps : List Step) (l : Ledger PublicKey) (k : PublicKey) (t : TokenAccount PublicKey)
      → Holds w r l k t
      → IsClosedOn k steps l ⊎ Endures (run steps l) k t
  run-Endures [] l k t h = inr (record {
    t' = t;
    holds = h;
    same_owner = refl;
    same_network = refl;
    same_issuer = refl;
    states = here;
  })
  run-Endures (step ∷ steps) l k t h = elim (after-Fate step l k t h) [
    | burned closed ↦ inl (inl closed)
    | kept u h' next ↦ elim (run-Endures steps (after step l) k u h') [
      | inl closed ↦ inl (inr closed)
      | inr still ↦ inr (widen (run steps (after step l)) k t u next still)
    ]
  ]

  -- A revoked token stays revoked, whatever instructions follow, unless its account is closed.
  pub run_revoked :
      (steps : List Step) (l : Ledger PublicKey) (k : PublicKey) (t : TokenAccount PublicKey)
      → Holds w r l k t
      → t.state ≡ revoked
      → IsClosedOn k steps l
        ⊎ ((t' : TokenAccount PublicKey) × Holds w r (run steps l) k t' × (t'.state ≡ revoked))
  run_revoked steps l k t h e = elim (run-Endures steps l k t h) [
    | inl closed ↦ inl closed
    | inr still ↦ inr (still.t', still.holds, revoked_is_last still.states e)
  ]
