-- ===== src/Solana/Tests/ProgramTests.antt =====
-- Runs of the on-chain program at concrete accounts.
use on_chain_identity_gatewa.Common.{ℕ, ◌≡◌, refl, ◌⊎◌, inr, true, false, ok, List, [], ◌∷◌}
use on_chain_identity_gatewa.Common.Int.{pos}
use on_chain_identity_gatewa.Solana.Program.{
  active, frozen, TokenAccount, AccountInfo, Ledger, put, is_valid_state_change,
  verify_gatekeeper_address_and_account, get_gatekeeper_account_address,
}
use on_chain_identity_gatewa.Solana.Program.Process.{
  Instruction, process_set_state, process_instruction,
}
use on_chain_identity_gatewa.Solana.Program.Process
use on_chain_identity_gatewa.Solana.Program.Rules.{Stores}
use on_chain_identity_gatewa.Solana.Program.States.{MaySet, set_state_sound, set_state_complete}
use on_chain_identity_gatewa.Solana.Program.Runs.{run, IsClosedOn, Endures, run-Endures, Step}
use on_chain_identity_gatewa.Solana.Tests.{web3, runtime, token_in, ledger_in, info, write}

abbrev accounts : List (AccountInfo ℕ)
accounts = info 20 false ∷ info 5 true ∷ info 13 false ∷ []

abbrev steps : List (Step web3 runtime)
steps =
    (Process.Instruction.set_state active, accounts)
    ∷ (Process.Instruction.update_expiry (pos 5), accounts)
    ∷ (Process.Instruction.burn_token, info 9 false ∷ accounts)
    ∷ []

abbrev frozen_ledger : Ledger ℕ
frozen_ledger =
    put web3 20 (record (ledger_in active 20) { content = write (token_in frozen) })
      (ledger_in active)

freezes : process_set_state web3 runtime frozen accounts (ledger_in active) ≡ ok frozen_ledger
unfolding process_set_state verify_gatekeeper_address_and_account get_gatekeeper_account_address
    is_valid_state_change
freezes = refl

run-Endures_example :
    IsClosedOn web3 runtime 20 steps (ledger_in active)
    ⊎ Endures web3 runtime (run web3 runtime steps (ledger_in active)) 20 (token_in active)
run-Endures_example =
    run-Endures web3 runtime steps (ledger_in active) 20 (token_in active) (refl, refl)

runs :
    process_instruction web3 runtime
      (Process.Instruction.set_state frozen)
      accounts
      (ledger_in active)
    ≡ ok frozen_ledger
unfolding process_instruction
runs = freezes

set_state_sound_example :
    (t : TokenAccount ℕ) × MaySet web3 runtime frozen
      (info 20 false)
      (info 5 true)
      (info 13 false)
      (ledger_in active)
      t
    × Stores web3 runtime (ledger_in active) frozen_ledger 20 (record t { state = frozen })
set_state_sound_example =
    set_state_sound web3 runtime frozen (info 20 false) (info 5 true) (info 13 false) []
      (ledger_in active) frozen_ledger freezes

may_freeze :
    MaySet web3 runtime frozen
      (info 20 false)
      (info 5 true)
      (info 13 false)
      (ledger_in active)
      (token_in active)
unfolding get_gatekeeper_account_address is_valid_state_change
may_freeze = (refl, refl, refl, (refl, refl), refl, inr refl)

set_state_complete_example :
    process_set_state web3 runtime frozen accounts (ledger_in active) ≡ ok frozen_ledger
set_state_complete_example =
    set_state_complete web3 runtime frozen (info 20 false) (info 5 true) (info 13 false) []
      (ledger_in active) (token_in active) (write (token_in frozen)) may_freeze refl
