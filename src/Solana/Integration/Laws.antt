-- ===== src/Solana/Integration/Laws.antt =====
-- What a token must be to pass verify_gateway_token.
use mathlib.Core.Path.{subst}
use on_chain_identity_gatewa.Common.{
  ℕ, ◌+◌, ◌≤◌, Bool, refl, none, ◌⊎◌, ◌≡◌, ◌≢◌, ◌↔◌, inl, inr, Option, some, true, false, ◌&&◌, ok,
  arith, Option-cases,
}
use on_chain_identity_gatewa.Common.Int.{ℤ, pos, negsuc, pos_part, neg_part}
use on_chain_identity_gatewa.Solana.Web3.{Web3}
use on_chain_identity_gatewa.Solana.Program.{
  TokenAccount, Ledger, Runtime, active, has_expired, expired_at, is_valid_state,
}
use on_chain_identity_gatewa.Solana.Integration.{
  VerificationOptions, options_or_default, seconds_or_zero, verify_gateway_token,
  parse_gateway_token, verify_gateway_token_account_info,
}
use on_chain_identity_gatewa.Solana.Program.Fate.{Holds}

-- A token that expires at `time`, if at all, is not more than `tolerance` seconds past it:
-- now ≤ time + tolerance, where a negative part counts on the other side.
abbrev pub InTime : (now : ℤ) → (time : Option ℤ) → (tolerance : ℕ) → Type 0
InTime now none tolerance = Unit
InTime now (some time) tolerance =
    pos_part now + neg_part time ≤ pos_part time + tolerance + neg_part now

expired_late :
    (check : Bool) (now : ℤ) (time : Option ℤ) (tolerance : ℕ)
    → (check && expired_at now time tolerance) ≡ false
    → (check ≡ false) ⊎ InTime now time tolerance
expired_late false now time tolerance h = inl refl
expired_late true now none tolerance h = inr tt
expired_late true (pos n) (some (pos m)) tolerance h = inr (ground arith)
expired_late true (pos n) (some (negsuc m)) tolerance h = inr (ground arith)
expired_late true (negsuc n) (some (pos m)) tolerance h = inr (ground arith)
expired_late true (negsuc n) (some (negsuc m)) tolerance h = inr (ground arith)

in_time :
    (check : Bool) (now : ℤ) (time : Option ℤ) (tolerance : ℕ)
    → (check ≡ false) ⊎ InTime now time tolerance
    → (check && expired_at now time tolerance) ≡ false
in_time false now time tolerance h = refl
in_time true now none tolerance h = refl
in_time true (pos n) (some (pos m)) tolerance h = ground arith
in_time true (pos n) (some (negsuc m)) tolerance h = ground arith
in_time true (negsuc n) (some (pos m)) tolerance h = ground arith
in_time true (negsuc n) (some (negsuc m)) tolerance h = ground arith

module _ (w : Web3) (r : Runtime w) where
  open w use {PublicKey, equals, program_id}

  -- The token is active, of the owner and the network, and, where expiry counts, not expired by more
  -- than the tolerance.
  abbrev pub Accepted :
      TokenAccount PublicKey → PublicKey → PublicKey → VerificationOptions → Type 0
  Accepted t owner network o =
      (t.owner_wallet ≡ owner)
      × (t.gatekeeper_network ≡ network)
      × (t.state ≡ active)
      × ((o.check_expiry ≡ false)
          ⊎ InTime r.clock t.expire_time (seconds_or_zero o.expiry_tolerance_seconds))

  valid_state_active :
      (t : TokenAccount PublicKey) → is_valid_state t.state ≡ true → t.state ≡ active
  valid_state_active t h = ground arith

  -- verify_gateway_token accepts a token exactly if it is active, belongs to the expected owner and
  -- network, and has not expired by more than the tolerance, where the options check expiry.
  pub verify_gateway_token_iff :
      (t : TokenAccount PublicKey) (owner network : PublicKey)
      (options : Option VerificationOptions)
      → (verify_gateway_token w r t owner network options ≡ ok tt)
        ↔ Accepted t owner network (options_or_default options)
  unfolding verify_gateway_token has_expired
  verify_gateway_token_iff t owner network options =
      let o = options_or_default options in
      let tolerance = seconds_or_zero o.expiry_tolerance_seconds in
      (
        λ h. ground (
          arith,
          w.equals_iff owner t.owner_wallet,
          w.equals_iff network t.gatekeeper_network,
          expired_late o.check_expiry r.clock t.expire_time tolerance,
        ),
        λ h. ground (
          arith,
          w.equals_iff owner t.owner_wallet,
          w.equals_iff network t.gatekeeper_network,
          in_time o.check_expiry r.clock t.expire_time tolerance h.3,
        ),
      )

  -- What verify_gateway_token_account_info accepts: an account of the gateway program that parses to a
  -- token, which verify_gateway_token accepts.
  pub verify_account-ok :
      (l : Ledger PublicKey) (key owner network : PublicKey) (options : Option VerificationOptions)
      → verify_gateway_token_account_info w r l key owner network options ≡ ok tt
      → (t : TokenAccount PublicKey) × Holds w r l key t
        × (verify_gateway_token w r t owner network options ≡ ok tt)
  unfolding verify_gateway_token_account_info parse_gateway_token
  verify_account-ok l key owner network options h = elim (Option-cases (r.parse (l key).content)) [
    | inl bad ↦ absurd (ground arith)
    | inr (t, parsed) ↦
        (t, ((w.equals_iff (l key).owner program_id).0 (ground arith), parsed), ground arith)
  ]

  -- An account whose token verify_gateway_token does not accept is not accepted.
  pub verify_account_refuses :
      (l : Ledger PublicKey) (key owner network : PublicKey) (options : Option VerificationOptions)
      (t : TokenAccount PublicKey)
      → r.parse (l key).content ≡ some t
      → verify_gateway_token w r t owner network options ≢ ok tt
      → verify_gateway_token_account_info w r l key owner network options ≢ ok tt
  verify_account_refuses l key owner network options t parsed refused h =
      let (u, (_, same), accepted) = verify_account-ok l key owner network options h in
      let e : u ≡ t = cc in
      refused (subst (λ x. verify_gateway_token w r x owner network options ≡ ok tt) e accepted)
