-- ===== src/Solana/Integration/Once.antt =====
-- How the checks of a token fit what the on-chain program does to it: revoking it and expiring it.
use on_chain_identity_gatewa.Common.{
  ◌≡◌, ◌≢◌, ◌⊎◌, inl, inr, Option, none, some, true, false, ok, List, [], ◌∷◌, arith, Option-cases,
}
use on_chain_identity_gatewa.Common.Results.{>>=-eq-ok}
use on_chain_identity_gatewa.Common.Int.{ℤ, pos, negsuc, ◌-ℤ◌}
use on_chain_identity_gatewa.Solana.Web3.{Web3}
use on_chain_identity_gatewa.Solana.Program.{
  TokenAccount, Ledger, Runtime, AccountInfo, revoked, before_now, is_valid, has_expired,
}
use on_chain_identity_gatewa.Solana.Program.Process.{process_instruction, process_expire_token}
use on_chain_identity_gatewa.Solana.Program.Process
use on_chain_identity_gatewa.Solana.Program.Rules.{Stores, store_token-Stores}
use on_chain_identity_gatewa.Solana.Program.Fate.{Holds}
use on_chain_identity_gatewa.Solana.Program.Runs.{Step, run, IsClosedOn, run_revoked}
use on_chain_identity_gatewa.Solana.Integration.{
  VerificationOptions, verify_gateway_token_account_info, verify_gateway_token, Invoke, Eval,
  verify_and_expire_token_with_eval, parse_gateway_token, expire_accounts, as_call, unwrap,
}
use on_chain_identity_gatewa.Solana.Integration.Laws.{
  InTime, verify_account_refuses, verify_gateway_token_iff,
}

before_now_past : (clock : ℤ) → before_now clock (clock -ℤ pos 120) 0 ≡ true
before_now_past (pos n) = ground arith
before_now_past (negsuc n) = ground arith

not-InTime : (clock : ℤ) → (true ≡ false) ⊎ InTime clock (some (clock -ℤ pos 120)) 0 → ⊥
not-InTime clock (inl h) = cc
not-InTime (pos n) (inr h) = ground arith
not-InTime (negsuc n) (inr h) = ground arith

module _ (w : Web3) (r : Runtime w) where
  open w use {PublicKey, equals, program_id}

  -- A token that was revoked is never accepted again, for any owner, network and options, whatever
  -- instructions the program has run since, unless the account was closed on the way.
  pub revoked_refused :
      (steps : List (Step w r)) (l : Ledger PublicKey) (k : PublicKey) (t : TokenAccount PublicKey)
      (owner network : PublicKey) (options : Option VerificationOptions)
      → Holds w r l k t
      → t.state ≡ revoked
      → IsClosedOn w r k steps l
        ⊎ (verify_gateway_token_account_info w r (run w r steps l) k owner network options ≢ ok tt)
  revoked_refused steps l k t owner network options holds state =
      elim (run_revoked w r steps l k t holds state) [
        | inl closed ↦ inl closed
        | inr (u, (_, parsed), still) ↦ inr (
            verify_account_refuses w r (run w r steps l) k owner network options u parsed (λ h.
              let (_, _, active, _) = (verify_gateway_token_iff w r u owner network options).0 h in
              cc))
      ]

  -- What expiring a token takes and leaves: the owner's token of the network, past its time.
  pub expire-Expired :
      (network : PublicKey) (token owner feature : AccountInfo PublicKey) (l l' : Ledger PublicKey)
      → process_expire_token w r network (token ∷ owner ∷ feature ∷ []) l ≡ ok l'
      → (t : TokenAccount PublicKey) × Holds w r l token.key t
        × (t.owner_wallet ≡ owner.key)
        × (t.gatekeeper_network ≡ network)
        × Stores w r l l' token.key (record t { expire_time = some (r.clock -ℤ pos 120) })
  unfolding process_expire_token
  expire-Expired network token owner feature l l' h =
      elim (Option-cases (r.parse (l token.key).content)) [
        | inl no_token ↦ absurd (ground arith)
        | inr (t, parsed) ↦ (
          t,
          ((w.equals_iff (l token.key).owner program_id).0 (ground arith), parsed),
          (w.equals_iff t.owner_wallet owner.key).0 (ground arith),
          (w.equals_iff t.gatekeeper_network network).0 (ground arith),
          store_token-Stores w r token.key _ l l' (ground arith),
        )
      ]

  expired_refused :
      (t : TokenAccount PublicKey) (owner network : PublicKey)
      → verify_gateway_token w r
          (record t { expire_time = some (r.clock -ℤ pos 120) })
          owner
          network
          none
        ≢ ok tt
  unfolding has_expired
  expired_refused t owner network h =
      let (_, _, _, fresh) =
        (verify_gateway_token_iff w r (record t { expire_time = some (r.clock -ℤ pos 120) }) owner
            network none).0
          h in
      not-InTime r.clock fresh

  expired_not_valid :
      (t : TokenAccount PublicKey)
      → is_valid r.clock (record t { expire_time = some (r.clock -ℤ pos 120) }) ≡ false
  unfolding is_valid has_expired
  expired_not_valid t = ground (arith, before_now_past r.clock)

  parsed_lem :
      (l : Ledger PublicKey) (k : PublicKey) (t : TokenAccount PublicKey)
      → as_call (unwrap (parse_gateway_token w r l k)) ≡ ok t
      → r.parse (l k).content ≡ some t
  unfolding parse_gateway_token
  parsed_lem l k t h = elim (Option-cases (r.parse (l k).content)) [
    | inl bad ↦ absurd (ground arith)
    | inr (u, parsed) ↦ ground arith
  ]

  -- What verify_and_expire_token_with_eval checks before it calls the program: the account parses to a
  -- valid token, which the caller's function accepts.
  pub expire-checked :
      (runtime : Invoke w r) (l l' : Ledger PublicKey)
      (gateway_program token owner : AccountInfo PublicKey) (network : PublicKey)
      (feature : AccountInfo PublicKey) (eval_function : Eval w r)
      → verify_and_expire_token_with_eval w r runtime l gateway_program token owner network feature
          eval_function
        ≡ ok l'
      → (t : TokenAccount PublicKey) × (r.parse (l token.key).content ≡ some t)
        × (eval_function t ≡ ok tt)
        × (gateway_program.key ≡ program_id)
        × (is_valid r.clock t ≡ true)
        × (process_instruction w r
              (Process.Instruction.expire_token network)
              (expire_accounts w r token.key owner.key network)
              l
            ≡ ok l')
  unfolding verify_and_expire_token_with_eval
  expire-checked runtime l l' gateway_program token owner network feature eval_function h =
      let (t, opened, h1) =
        >>=-eq-ok (as_call (unwrap (parse_gateway_token w r l token.key))) _ h in
      let (_, evaluated, h2) = >>=-eq-ok (eval_function t) _ h1 in
      (
        t,
        parsed_lem l token.key t opened,
        ground arith,
        (w.equals_iff gateway_program.key program_id).0 (ground arith),
        ground arith,
        runtime.invoke_unchecked_lem (Process.Instruction.expire_token network)
            (expire_accounts w r token.key owner.key network)
            (token ∷ owner ∷ feature ∷ gateway_program ∷ []) l l' (ground arith),
      )

  -- A pass that is used by verify_and_expire_token_with_eval works once. Where the call succeeds, the
  -- account belonged to the gateway program and held a valid token of the owner and the network that the
  -- function of the caller accepted; after it, at the same time, the account is accepted by
  -- verify_gateway_token_account_info with the default options for no owner and network, and no such
  -- call succeeds for it, whatever its accounts and function are.
  pub expire_once :
      (runtime : Invoke w r) (l l' : Ledger PublicKey)
      (gateway_program token owner : AccountInfo PublicKey) (network : PublicKey)
      (feature : AccountInfo PublicKey) (eval_function : Eval w r)
      → verify_and_expire_token_with_eval w r runtime l gateway_program token owner network feature
          eval_function
        ≡ ok l'
      → ((t : TokenAccount PublicKey) × Holds w r l token.key t
          × (t.owner_wallet ≡ owner.key)
          × (t.gatekeeper_network ≡ network)
          × (eval_function t ≡ ok tt)
          × (is_valid r.clock t ≡ true))
        × ((o n : PublicKey) → verify_gateway_token_account_info w r l' token.key o n none ≢ ok tt)
        × ((p o : AccountInfo PublicKey) (n : PublicKey) (f : AccountInfo PublicKey) (e : Eval w r)
              (l'' : Ledger PublicKey)
            → verify_and_expire_token_with_eval w r runtime l' p token o n f e ≢ ok l'')
  unfolding process_instruction
  expire_once runtime l l' gateway_program token owner network feature eval_function h =
      let (t, parsed, evaluated, _, valid, done) =
        expire-checked runtime l l' gateway_program token owner network feature eval_function h in
      let (u, holds, own, net, (after, _, _, _)) = expire-Expired network _ _ _ l l' done in
      let same : u ≡ t = cc in
      (
        (u, holds, own, net, rw same evaluated, rw same valid),
        λ o n. verify_account_refuses w r l' token.key o n none _ after (expired_refused u o n),
        λ p o n f e l'' again.
            let (v, parsed', _, _, valid', _) =
              expire-checked runtime l' l'' p token o n f e again in
            let same' : v ≡ record u { expire_time = some (r.clock -ℤ pos 120) } = cc in
            let stale = expired_not_valid u in cc,
      )
