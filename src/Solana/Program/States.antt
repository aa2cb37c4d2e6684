-- ===== src/Solana/Program/States.antt =====
-- Changing the state of a token: `set_state` of solana/program/src/processor.rs.
use on_chain_identity_gatewa.Common.{
  ℕ, ◌≡◌, refl, sym, ◌⊎◌, inl, inr, some, true, not, ◌&&◌, ok, List, ◌∷◌, arith, Option-cases,
}
use on_chain_identity_gatewa.Solana.Web3.{Web3}
use on_chain_identity_gatewa.Solana.Program.{
  TokenState, active, frozen, revoked, TokenAccount, Ledger, AccountInfo, Runtime, put,
  is_valid_state_change, verify_gatekeeper_address_and_account, get_gatekeeper_account_address,
}
use on_chain_identity_gatewa.Solana.Program.Process.{process_set_state, issuer_only}
use on_chain_identity_gatewa.Solana.Program.Rules.{
  IsGatekeeper, verify-IsGatekeeper, Stores, store_token-Stores,
}

module _ (w : Web3) (r : Runtime w) where
  open w use {PublicKey, equals, program_id}

  -- What `set_state` requires of the token, the signature and the gatekeeper's account.
  abbrev pub MaySet :
      TokenState
      → (token authority account : AccountInfo PublicKey) → Ledger PublicKey
      → TokenAccount PublicKey
      → Type 0
  MaySet state token authority account l t =
      (r.parse (l token.key).content ≡ some t)
      × (authority.is_signer ≡ true)
      × ((l token.key).owner ≡ program_id)
      × IsGatekeeper w r l account.key authority.key t.gatekeeper_network
      × (is_valid_state_change t.state state ≡ true)
      × ((state ≡ revoked) ⊎ (t.issuing_gatekeeper ≡ authority.key))

  issuer_or_revoked :
      (state : TokenState) (issuer key : PublicKey)
      → not (issuer_only state && not (equals issuer key)) ≡ true
      → (state ≡ revoked) ⊎ (issuer ≡ key)
  issuer_or_revoked active issuer key h = inr (ground (arith, w.equals_iff issuer key))
  issuer_or_revoked frozen issuer key h = inr (ground (arith, w.equals_iff issuer key))
  issuer_or_revoked revoked issuer key h = inl refl

  may_issue :
      (state : TokenState) (issuer key : PublicKey)
      → (state ≡ revoked) ⊎ (issuer ≡ key)
      → not (issuer_only state && not (equals issuer key)) ≡ true
  may_issue active issuer key h = ground (arith, w.equals_iff issuer key)
  may_issue frozen issuer key h = ground (arith, w.equals_iff issuer key)
  may_issue revoked issuer key h = refl

  -- A successful `set_state` was signed by a gatekeeper of the token's network, who is the issuer
  -- unless the token is revoked; the change is one that the states allow, and it writes the new
  -- state and nothing else.
  pub set_state_sound :
      (state : TokenState) (token authority account : AccountInfo PublicKey)
      (rest : List (AccountInfo PublicKey)) (l l' : Ledger PublicKey)
      → process_set_state w r state (token ∷ authority ∷ account ∷ rest) l ≡ ok l'
      → (t : TokenAccount PublicKey) × MaySet state token authority account l t
        × Stores w r l l' token.key (record t { state = state })
  unfolding process_set_state
  set_state_sound state token authority account rest l l' h =
      elim (Option-cases (r.parse (l token.key).content)) [
        | inl no_token ↦ absurd (ground arith)
        | inr (t, parsed) ↦ (
          t,
          (
            parsed,
            ground arith,
            ground (arith, w.equals_iff (l token.key).owner program_id),
            verify-IsGatekeeper w r l account.key authority.key t.gatekeeper_network (ground arith),
            ground arith,
            issuer_or_revoked state t.issuing_gatekeeper authority.key (ground arith),
          ),
          store_token-Stores w r token.key (record t { state = state }) l l' (ground arith),
        )
      ]

  -- Where the requirements hold, and the account has room for the token, `set_state` succeeds.
  pub set_state_complete :
      (state : TokenState) (token authority account : AccountInfo PublicKey)
      (rest : List (AccountInfo PublicKey)) (l : Ledger PublicKey) (t : TokenAccount PublicKey)
      (bytes : List ℕ)
      → MaySet state token authority account l t
      → r.serialize (record t { state = state }) (l token.key).content ≡ some bytes
      → process_set_state w r state (token ∷ authority ∷ account ∷ rest) l
        ≡ ok (put w token.key (record (l token.key) { content = bytes }) l)
  unfolding process_set_state verify_gatekeeper_address_and_account
  set_state_complete state token authority account rest l t bytes
        (parsed, signed, owned, (member, address), allowed, issuer) room =
      let e1 : equals (l token.key).owner program_id ≡ true = (w.equals_iff _ _).1 owned in
      let e2 : equals (l account.key).owner program_id ≡ true = (w.equals_iff _ _).1 member in
      let e3 : equals (get_gatekeeper_account_address w authority.key t.gatekeeper_network)
            account.key
          ≡ true =
        (w.equals_iff _ _).1 (sym address) in
      let e4 : not (issuer_only state && not (equals t.issuing_gatekeeper authority.key)) ≡ true =
        may_issue state t.issuing_gatekeeper authority.key issuer in
      ground arith
