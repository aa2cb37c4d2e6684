-- ===== src/Solana/Program/History.antt =====
-- What any instruction, and any run of instructions, can do to a token.
use on_chain_identity_gatewa.Common.{
  ◌+◌, ◌≡◌, ◌≢◌, refl, Bool-cases, inl, inr, Option, some, ok, List, [], ◌∷◌, arith, Option-cases,
  ℕ,
}
use on_chain_identity_gatewa.Common.Results.{Result-cases}
use on_chain_identity_gatewa.Common.Int.{ℤ, pos, ◌-ℤ◌}
use on_chain_identity_gatewa.Solana.Web3.{Web3, utf8}
use on_chain_identity_gatewa.Solana.Program.{
  TokenState, TokenAccount, Ledger, Runtime, put, token_seeds, gatekeeper_seeds, new_token,
  token_size,
}
use on_chain_identity_gatewa.Solana.Program.Process.{
  process_add_gatekeeper, process_issue, process_set_state, process_update_expiry,
  process_remove_gatekeeper, process_expire_token, process_add_feature_to_network,
  process_remove_feature_from_network, process_burn_token, store_token, create, Accounts,
}
use on_chain_identity_gatewa.Solana.Program.Rules.{store_token-Stores, not_first}
use on_chain_identity_gatewa.Solana.Program.States.{set_state_sound}
use on_chain_identity_gatewa.Solana.Program.Fate.{
  Fate, burned, Holds, IsSame-Fate, Stores-Fate, sweep-Fate, create-IsSame, create-ne,
}

module _ (w : Web3) (r : Runtime w) (l l' : Ledger w.PublicKey) (k : w.PublicKey)
    (t : TokenAccount w.PublicKey) (holds : Holds w r l k t) where
  open w use {PublicKey}

  pub update_expiry-Fate :
      (e : ℤ) (accounts : Accounts w r)
      → process_update_expiry w r e accounts l ≡ ok l'
      → Fate w r l' k t
  unfolding process_update_expiry
  update_expiry-Fate e (token ∷ authority ∷ account ∷ rest) h =
      elim (Option-cases (r.parse (l token.key).content)) [
        | inl no_token ↦ absurd (ground arith)
        | inr (u, parsed) ↦
            Stores-Fate w r l l' token.key k t u (record u { expire_time = some e }) holds parsed
              (store_token-Stores w r token.key (record u { expire_time = some e }) l l'
                (ground arith))
              (refl, refl, refl, inl refl)
      ]
  update_expiry-Fate e [] h = cc
  update_expiry-Fate e (a ∷ []) h = cc
  update_expiry-Fate e (a ∷ b ∷ []) h = cc

  pub set_state-Fate :
      (s : TokenState) (accounts : Accounts w r)
      → process_set_state w r s accounts l ≡ ok l'
      → Fate w r l' k t
  unfolding process_set_state
  set_state-Fate s (token ∷ authority ∷ account ∷ rest) h =
      let (u, (parsed, _, _, _, allowed, _), stored) =
        set_state_sound w r s token authority account rest l l' h in
      Stores-Fate w r l l' token.key k t u (record u { state = s }) holds parsed stored
        (refl, refl, refl, inr allowed)
  set_state-Fate s [] h = cc
  set_state-Fate s (a ∷ []) h = cc
  set_state-Fate s (a ∷ b ∷ []) h = cc

  pub expire_token-Fate :
      (n : PublicKey) (accounts : Accounts w r)
      → process_expire_token w r n accounts l ≡ ok l'
      → Fate w r l' k t
  unfolding process_expire_token
  expire_token-Fate n (token ∷ owner ∷ feature ∷ rest) h =
      elim (Option-cases (r.parse (l token.key).content)) [
        | inl no_token ↦ absurd (ground arith)
        | inr (u, parsed) ↦
            Stores-Fate w r l l' token.key k t u
              (record u { expire_time = some (r.clock -ℤ pos 120) }) holds parsed
              (store_token-Stores w r token.key _ l l' (ground arith)) (refl, refl, refl, inl refl)
      ]
  expire_token-Fate n [] h = cc
  expire_token-Fate n (a ∷ []) h = cc
  expire_token-Fate n (a ∷ b ∷ []) h = cc

  pub remove_gatekeeper-Fate :
      (accounts : Accounts w r) → process_remove_gatekeeper w r accounts l ≡ ok l' → Fate w r l' k t
  unfolding process_remove_gatekeeper
  remove_gatekeeper-Fate (to ∷ from ∷ authority ∷ network ∷ rest) h =
      sweep-Fate w r to.key from.key k l l' t holds (ground arith)
  remove_gatekeeper-Fate [] h = cc
  remove_gatekeeper-Fate (a ∷ []) h = cc
  remove_gatekeeper-Fate (a ∷ b ∷ []) h = cc
  remove_gatekeeper-Fate (a ∷ b ∷ c ∷ []) h = cc

  pub remove_feature-Fate :
      (accounts : Accounts w r)
      → process_remove_feature_from_network w r accounts l ≡ ok l'
      → Fate w r l' k t
  unfolding process_remove_feature_from_network
  remove_feature-Fate (to ∷ network ∷ feature ∷ rest) h =
      sweep-Fate w r to.key feature.key k l l' t holds (ground arith)
  remove_feature-Fate [] h = cc
  remove_feature-Fate (a ∷ []) h = cc
  remove_feature-Fate (a ∷ b ∷ []) h = cc

  pub add_gatekeeper-Fate :
      (accounts : Accounts w r) → process_add_gatekeeper w r accounts l ≡ ok l' → Fate w r l' k t
  unfolding process_add_gatekeeper
  add_gatekeeper-Fate (funder ∷ account ∷ authority ∷ network ∷ system ∷ rest) h =
      IsSame-Fate w r l l' k t holds (
        create-IsSame w r funder.key account.key k 0 (gatekeeper_seeds w authority.key network.key)
          l l' (ground arith) holds.0)
  add_gatekeeper-Fate [] h = cc
  add_gatekeeper-Fate (a ∷ []) h = cc
  add_gatekeeper-Fate (a ∷ b ∷ []) h = cc
  add_gatekeeper-Fate (a ∷ b ∷ c ∷ []) h = cc
  add_gatekeeper-Fate (a ∷ b ∷ c ∷ d ∷ []) h = cc

  pub add_feature-Fate :
      (accounts : Accounts w r)
      → process_add_feature_to_network w r accounts l ≡ ok l'
      → Fate w r l' k t
  unfolding process_add_feature_to_network
  add_feature-Fate (funder ∷ network ∷ feature ∷ system ∷ rest) h = IsSame-Fate w r l l' k t holds (
      create-IsSame w r funder.key feature.key k 0 (w.to_buffer network.key ∷ utf8 "expire" ∷ []) l
        l' (ground arith) holds.0)
  add_feature-Fate [] h = cc
  add_feature-Fate (a ∷ []) h = cc
  add_feature-Fate (a ∷ b ∷ []) h = cc
  add_feature-Fate (a ∷ b ∷ c ∷ []) h = cc

  pub issued-Fate :
      (funder token : PublicKey) (seeds : List (List ℕ)) (l1 : Ledger PublicKey)
      (u : TokenAccount PublicKey)
      → create w r funder token token_size seeds l ≡ ok l1
      → store_token w r token u l1 ≡ ok l'
      → Fate w r l' k t
  issued-Fate funder token seeds l1 u made wrote =
      let (owner, content) = create-IsSame w r funder token k token_size seeds l l1 made holds.0 in
      let (_, _, _, others) = store_token-Stores w r token u l1 l' wrote in
      let other : k ≢ token = create-ne w r funder token k token_size seeds l l1 made holds.0 in
      let e : l' k ≡ l1 k = not_first w r (others k) other in
      IsSame-Fate w r l l' k t holds (rw e owner, rw e content)

  -- The account that is closed, and one that is paid.
  pub deleted-Fate :
      (token recipient : PublicKey) (paid : ℕ)
      → put w token
          (record { owner = w.system_program_id; lamports = 0; content = [] })
          (put w recipient (record (l recipient) { lamports = paid }) l)
        ≡ l'
      → Fate w r l' k t
  deleted-Fate token recipient paid e = elim (Bool-cases (w.equals token k)) [
    | inl closed ↦ burned (ground arith)
    | inr open_still ↦
        IsSame-Fate w r l l' k t holds
          (ground (arith, w.equals_iff recipient k), ground (arith, w.equals_iff recipient k))
  ]

  pub issue-Fate :
      (seed : Option (List ℕ)) (e : Option ℤ) (accounts : Accounts w r)
      → process_issue w r seed e accounts l ≡ ok l'
      → Fate w r l' k t
  unfolding process_issue
  issue-Fate seed e (funder ∷ token ∷ owner ∷ account ∷ authority ∷ network ∷ system ∷ rest) h =
      elim (Result-cases
        (create w r funder.key token.key token_size (token_seeds w owner.key seed network.key) l)) [
          | inr (e', failed) ↦ absurd (ground arith)
          | inl (l1, made) ↦
              issued-Fate funder.key token.key (token_seeds w owner.key seed network.key) l1
                (new_token owner.key network.key authority.key e) made (ground arith)
        ]
  issue-Fate seed e [] h = cc
  issue-Fate seed e (a ∷ []) h = cc
  issue-Fate seed e (a ∷ b ∷ []) h = cc
  issue-Fate seed e (a ∷ b ∷ c ∷ []) h = cc
  issue-Fate seed e (a ∷ b ∷ c ∷ d ∷ []) h = cc
  issue-Fate seed e (a ∷ b ∷ c ∷ d ∷ f ∷ []) h = cc
  issue-Fate seed e (a ∷ b ∷ c ∷ d ∷ f ∷ g ∷ []) h = cc

  pub burn-Fate :
      (accounts : Accounts w r) → process_burn_token w r accounts l ≡ ok l' → Fate w r l' k t
  unfolding process_burn_token
  burn-Fate (token ∷ authority ∷ account ∷ recipient ∷ rest) h =
      elim (Option-cases (r.parse (l token.key).content)) [
        | inl no_token ↦ absurd (ground arith)
        | inr (u, parsed) ↦
            deleted-Fate token.key recipient.key
              ((l recipient.key).lamports + (l token.key).lamports) (ground arith)
      ]
  burn-Fate [] h = cc
  burn-Fate (a ∷ []) h = cc
  burn-Fate (a ∷ b ∷ []) h = cc
  burn-Fate (a ∷ b ∷ c ∷ []) h = cc
