-- ===== src/Solana/Tests/IntegrationTests.antt =====
-- Checks of gateway tokens at concrete accounts.
use on_chain_identity_gatewa.Common.{
  ℕ, ◌≡◌, ◌≢◌, refl, ◌⊎◌, ◌↔◌, none, some, true, false, Result, ok, err, List, [], ◌∷◌,
}
use on_chain_identity_gatewa.Common.Int.{pos}
use on_chain_identity_gatewa.Solana.Program.{
  active, revoked, TokenAccount, AccountInfo, Ledger, ProgramError, put, is_valid,
  get_expire_address_with_seed,
}
use on_chain_identity_gatewa.Solana.Program.Process.{
  Instruction, process_instruction, process_expire_token,
}
use on_chain_identity_gatewa.Solana.Program.Process
use on_chain_identity_gatewa.Solana.Program.Fate.{Holds}
use on_chain_identity_gatewa.Solana.Program.Runs.{run, IsClosedOn, Step}
use on_chain_identity_gatewa.Solana.Integration.{
  CallError, program, Invoke, default_verification_options, verify_gateway_token,
  verify_gateway_token_account_info, verify_and_expire_token_with_eval, Eval, parse_gateway_token,
}
use on_chain_identity_gatewa.Solana.Integration.Laws.{verify_gateway_token_iff, Accepted}
use on_chain_identity_gatewa.Solana.Integration.Once.{revoked_refused, expire_once}
use on_chain_identity_gatewa.Solana.Tests.{web3, runtime, token_in, ledger_in, info, write}

verify_gateway_token_iff_example :
    (verify_gateway_token web3 runtime (token_in active) 7 6 none ≡ ok tt)
    ↔ Accepted web3 runtime (token_in active) 7 6 default_verification_options
verify_gateway_token_iff_example = verify_gateway_token_iff web3 runtime (token_in active) 7 6 none

accepts : verify_gateway_token web3 runtime (token_in active) 7 6 none ≡ ok tt
unfolding verify_gateway_token
accepts = refl

abbrev gatekeeper : List (AccountInfo ℕ)
gatekeeper = info 20 false ∷ info 5 true ∷ info 13 false ∷ []

abbrev after_revoked : List (Step web3 runtime)
after_revoked =
    (Process.Instruction.set_state active, gatekeeper)
    ∷ (Process.Instruction.update_expiry (pos 5), gatekeeper)
    ∷ []

revoked_refused_example :
    IsClosedOn web3 runtime 20 after_revoked (ledger_in revoked)
    ⊎ (verify_gateway_token_account_info web3 runtime
          (run web3 runtime after_revoked (ledger_in revoked))
          20
          7
          6
          none
        ≢ ok tt)
revoked_refused_example =
    revoked_refused web3 runtime after_revoked (ledger_in revoked) 20 (token_in revoked) 7 6 none
      (refl, refl) refl

abbrev as_program : {A : Type 0} → Result ProgramError A → Result CallError A
as_program (ok a) = ok a
as_program (err e) = err (program e)

as_program-ok : {A : Type 0} (x : Result ProgramError A) (a : A) → as_program x ≡ ok a → x ≡ ok a
as_program-ok (ok b) a h = cc
as_program-ok (err e) a h = cc

-- A runtime that runs the instruction.
abbrev direct : Invoke web3 runtime
direct = record {
  invoke_unchecked = λ i named passed l. as_program (process_instruction web3 runtime i named l);
  invoke_unchecked_lem = λ i named passed l l' h. as_program-ok _ l' h;
}

-- The address of the network's expiry feature.
abbrev feature : ℕ
feature = 12

feature_address : get_expire_address_with_seed web3 runtime 6 ≡ feature
unfolding get_expire_address_with_seed
feature_address = refl

-- The expiry feature is on.
abbrev before : Ledger ℕ
before = put web3 feature (record (ledger_in active feature) { owner = 1 }) (ledger_in active)

abbrev after : Ledger ℕ
after =
    put web3 20
      (record (before 20) {
        content = write (record (token_in active) { expire_time = some (pos 880) });
      })
      before

abbrev any_token : Eval web3 runtime
any_token t = ok tt

expires :
    verify_and_expire_token_with_eval web3 runtime direct before
      (info 1 false)
      (info 20 false)
      (info 7 true)
      6
      (info feature false)
      any_token
    ≡ ok after
unfolding verify_and_expire_token_with_eval process_instruction process_expire_token
    parse_gateway_token is_valid get_expire_address_with_seed
expires = refl

expire_once_example :
    ((t : TokenAccount ℕ) × Holds web3 runtime before 20 t
      × (t.owner_wallet ≡ 7)
      × (t.gatekeeper_network ≡ 6)
      × (any_token t ≡ ok tt)
      × (is_valid runtime.clock t ≡ true))
    × ((o n : ℕ) → verify_gateway_token_account_info web3 runtime after 20 o n none ≢ ok tt)
    × ((p o : AccountInfo ℕ) (n : ℕ) (f : AccountInfo ℕ) (e : Eval web3 runtime) (l : Ledger ℕ)
        → verify_and_expire_token_with_eval web3 runtime direct after p (info 20 false) o n f e
          ≢ ok l)
expire_once_example =
    expire_once web3 runtime direct before after (info 1 false) (info 20 false) (info 7 true) 6
      (info feature false) any_token expires
