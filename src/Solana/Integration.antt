-- ===== src/Solana/Integration.antt =====
-- What other programs use to check a gateway token: `Gateway` of solana/program/src/lib.rs, and
-- `Pass` of solana/anchor/src/lib.rs.
pub mod Laws
pub mod Once
use on_chain_identity_gatewa.Common.{
  ℕ, Option, none, some, Bool, true, false, not, ◌&&◌, Result, ok, err, ◌≡◌, List, [], ◌∷◌,
  if◌then◌else◌,
}
use on_chain_identity_gatewa.Common.Results.{◌>>=◌}
use on_chain_identity_gatewa.Common.Int.{ℤ}
use on_chain_identity_gatewa.Solana.Web3.{Web3}
use on_chain_identity_gatewa.Solana.Program.{
  TokenAccount, TokenState, Ledger, AccountInfo, Runtime, ProgramError, is_valid_state, has_expired,
  is_valid, same_state, revoked, get_expire_address_with_seed,
}
use on_chain_identity_gatewa.Solana.Program
use on_chain_identity_gatewa.Solana.Program.Process.{Instruction}
use on_chain_identity_gatewa.Solana.Program.Process

-- `enum GatewayError`, those that are returned here; `panicked` is a failed `unwrap`.
pub data GatewayError : Type 0 where
  incorrect_gatekeeper invalid_owner invalid_token token_revoked expected_revoked_token :
      GatewayError
  incorrect_program_id token_expired panicked : GatewayError

-- A `ProgramError`: a custom one, which is a `GatewayError`, or another.
pub data CallError : Type 0 where
  custom : GatewayError → CallError
  program : ProgramError → CallError

-- `struct VerificationOptions`
pub record VerificationOptions : Type 0 where
  pub check_expiry : Bool
  pub expiry_tolerance_seconds : Option ℕ

abbrev pub default_verification_options : VerificationOptions
default_verification_options = record { check_expiry = true; expiry_tolerance_seconds = some 0 }

abbrev pub options_or_default : Option VerificationOptions → VerificationOptions
options_or_default none = default_verification_options
options_or_default (some options) = options

abbrev pub seconds_or_zero : Option ℕ → ℕ
seconds_or_zero none = 0
seconds_or_zero (some n) = n

abbrev pub as_call : {A : Type 0} → Result GatewayError A → Result CallError A
as_call (ok a) = ok a
as_call (err e) = err (custom e)

-- `unwrap`
abbrev pub unwrap : {A : Type 0} → Result GatewayError A → Result GatewayError A
unwrap (ok a) = ok a
unwrap (err e) = err panicked

module _ {K : Type 0} where
  -- `expect_revoked_gateway_token`
  unfoldable pub expect_revoked_gateway_token : TokenAccount K → Result GatewayError (Unit {0})
  expect_revoked_gateway_token t =
      if not (same_state t.state revoked) then err expected_revoked_token else ok tt

module _ (w : Web3) (r : Runtime w) where
  open w use {PublicKey, equals, program_id}

  -- `verify_gateway_token`
  unfoldable pub verify_gateway_token :
      TokenAccount PublicKey
      → (expected_owner expected_network : PublicKey) → Option VerificationOptions
      → Result GatewayError (Unit {0})
  unfolding has_expired
  verify_gateway_token t expected_owner expected_network options =
      let o = options_or_default options in
      if not (equals expected_owner t.owner_wallet)
      then err invalid_owner
      else if not (equals expected_network t.gatekeeper_network)
      then err incorrect_gatekeeper
      else if not (is_valid_state t.state)
      then err token_revoked
      else if o.check_expiry && has_expired r.clock t (seconds_or_zero o.expiry_tolerance_seconds)
      then err token_expired
      else ok tt

  -- `parse_gateway_token`
  unfoldable pub parse_gateway_token :
      Ledger PublicKey → PublicKey → Result GatewayError (TokenAccount PublicKey)
  parse_gateway_token l key = elim (r.parse (l key).content) [
    | none ↦ err invalid_token
    | some t ↦ ok t
  ]

  -- `expect_revoked_gateway_token_account_info`
  unfoldable pub expect_revoked_gateway_token_account_info :
      Ledger PublicKey → PublicKey → Result GatewayError (Unit {0})
  unfolding parse_gateway_token expect_revoked_gateway_token
  expect_revoked_gateway_token_account_info l key =
      parse_gateway_token l key >>= expect_revoked_gateway_token

  abbrev pub parent_or : PublicKey → Option PublicKey → PublicKey
  parent_or key none = key
  parent_or key (some parent) = parent

  -- `gateway_token_reference`
  unfoldable pub gateway_token_reference :
      Ledger PublicKey → PublicKey → Result GatewayError PublicKey
  unfolding parse_gateway_token
  gateway_token_reference l key = do
    t ← parse_gateway_token l key
    ok (parent_or key t.parent_gateway_token)

  -- `verify_gateway_token_account_info`
  unfoldable pub verify_gateway_token_account_info :
      Ledger PublicKey
      → PublicKey
      → (expected_owner expected_network : PublicKey) → Option VerificationOptions
      → Result GatewayError (Unit {0})
  unfolding parse_gateway_token verify_gateway_token
  verify_gateway_token_account_info l key expected_owner expected_network options =
      if not (equals (l key).owner program_id)
      then err incorrect_program_id
      else (unwrap (parse_gateway_token l key) >>= λ t.
          verify_gateway_token t expected_owner expected_network options)

  abbrev pub Eval : Type 0
  Eval = TokenAccount PublicKey → Result CallError (Unit {0})

  -- `verify_gateway_token_with_eval`
  unfoldable pub verify_gateway_token_with_eval :
      Ledger PublicKey
      → PublicKey
      → (expected_owner expected_network : PublicKey) → Option VerificationOptions
      → Eval
      → Result CallError (Unit {0})
  unfolding parse_gateway_token verify_gateway_token
  verify_gateway_token_with_eval l key expected_owner expected_network options eval_function =
      if not (equals (l key).owner program_id) then err (custom incorrect_program_id) else do
        t ← as_call (unwrap (parse_gateway_token l key))
        _ ← eval_function t
        as_call (verify_gateway_token t expected_owner expected_network options)

  -- `Pass::valid`
  unfoldable pub valid : TokenAccount PublicKey → (recipient pass_type : PublicKey) → Bool
  unfolding verify_gateway_token
  valid t recipient pass_type = elim (verify_gateway_token t recipient pass_type none) [
    | ok _ ↦ true
    | err _ ↦ false
  ]

  -- The accounts that the program's `expire_token` instruction names, as they are when it runs.
  abbrev pub expire_accounts : (token owner network : PublicKey) → List (AccountInfo PublicKey)
  expire_accounts token owner network =
      record { key = token; is_signer = false }
      ∷ record { key = owner; is_signer = true }
      ∷ record { key = get_expire_address_with_seed w r network; is_signer = false }
      ∷ []

  -- `invoke_unchecked` of the runtime: an instruction of the gateway program, the accounts that it
  -- names, and those that the caller passes. Where it succeeds the program has run the instruction on
  -- the accounts that it names.
  pub record Invoke : Type 0 where
    pub invoke_unchecked :
        Instruction PublicKey
        → (named passed : List (AccountInfo PublicKey)) → Ledger PublicKey
        → Result CallError (Ledger PublicKey)
    pub invoke_unchecked_lem :
        (i : Instruction PublicKey) (named passed : List (AccountInfo PublicKey))
        (l l' : Ledger PublicKey)
        → invoke_unchecked i named passed l ≡ ok l'
        → Process.process_instruction w r i named l ≡ ok l'

  -- `verify_and_expire_token_with_eval`
  unfoldable pub verify_and_expire_token_with_eval :
      Invoke
      → Ledger PublicKey
      → (gateway_program gateway_token_info owner : AccountInfo PublicKey)
      → (gatekeeper_network : PublicKey) → (expire_feature_account : AccountInfo PublicKey) → Eval
      → Result CallError (Ledger PublicKey)
  unfolding parse_gateway_token is_valid
  verify_and_expire_token_with_eval runtime l gateway_program gateway_token_info owner
        gatekeeper_network expire_feature_account eval_function =
      do
        t ← as_call (unwrap (parse_gateway_token l gateway_token_info.key))
        _ ← eval_function t
        if not (equals gateway_program.key program_id)
            then err (program Program.ProgramError.incorrect_program_id)
            else if not (is_valid r.clock t)
            then err (custom token_revoked)
            else runtime.invoke_unchecked (Process.Instruction.expire_token gatekeeper_network)
                (expire_accounts gateway_token_info.key owner.key gatekeeper_network)
                (gateway_token_info ∷ owner ∷ expire_feature_account ∷ gateway_program ∷ []) l

  -- `verify_and_expire_token`
  unfoldable pub verify_and_expire_token :
      Invoke
      → Ledger PublicKey
      → (gateway_program gateway_token_info owner : AccountInfo PublicKey)
      → (gatekeeper_network : PublicKey) → (expire_feature_account : AccountInfo PublicKey)
      → Result CallError (Ledger PublicKey)
  unfolding verify_and_expire_token_with_eval
  verify_and_expire_token runtime l gateway_program gateway_token_info owner gatekeeper_network
        expire_feature_account =
      verify_and_expire_token_with_eval runtime l gateway_program gateway_token_info owner
        gatekeeper_network expire_feature_account λ t. ok tt
