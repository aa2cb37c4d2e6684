-- ===== src/Solana/Tests/ClientTests.antt =====
-- The client library at concrete accounts and tokens.
use on_chain_identity_gatewa.Common.{
  ℕ, ◌<◌, ◌^◌, ◌/◌, ◌≡◌, refl, Option, none, some, true, ok, err, List, [], ◌∷◌, All, length, arith,
}
use on_chain_identity_gatewa.Common.Int.{pos}
use on_chain_identity_gatewa.Solana.Seed.{natural, padded_seed, alloc_size}
use on_chain_identity_gatewa.Solana.Seed.Digits.{of_bytes_from}
use on_chain_identity_gatewa.Solana.Seed.Padding.{padded_seed_below, padded_seed_above}
use on_chain_identity_gatewa.Solana.Token.{GatewayToken, make_state, from_gateway_token_state}
use on_chain_identity_gatewa.Solana.Token
use on_chain_identity_gatewa.Solana.Address.{gatekeeper_account_address}
use on_chain_identity_gatewa.Solana.Program.{
  TokenState, active, frozen, revoked, put, is_valid_state_change,
  get_gateway_token_address_with_seed, get_expire_address_with_seed,
}
use on_chain_identity_gatewa.Solana.Program
use on_chain_identity_gatewa.Solana.Program.Process
use on_chain_identity_gatewa.Solana.Agreement.{is_valid_agrees}
use on_chain_identity_gatewa.Solana.Instruction.{GatewayInstruction, encode}
use on_chain_identity_gatewa.Solana.Instruction
use on_chain_identity_gatewa.Solana.Instruction.Wire.{try_from_message, execute}
use on_chain_identity_gatewa.Solana.Instruction.Client.{try_from_message-encode, sets_state}
use on_chain_identity_gatewa.Solana.Instruction.Accounts.{
  built, calls_freeze, execute-built, WellFormed,
}
use on_chain_identity_gatewa.Solana.Tests.{web3, runtime, token_in, ledger_in}

padded_seed_below_example :
    (seed : List ℕ) × (padded_seed (natural 300) ≡ ok seed)
    × (length seed ≡ 8)
    × (of_bytes_from 0 seed ≡ 300)
    × All (λ d. d < 256) seed
padded_seed_below_example = padded_seed_below 300 (omega arith)

padded_seed_above_example : padded_seed (natural (2 ^ 64)) ≡ err alloc_size
padded_seed_above_example = padded_seed_above (2 ^ 64) (omega arith)

seed_7 : padded_seed (natural 7) ≡ ok (0 ∷ 0 ∷ 0 ∷ 0 ∷ 0 ∷ 0 ∷ 0 ∷ 7 ∷ [])
unfolding padded_seed
seed_7 = refl

abbrev client_token : Token.State → Option ℕ → GatewayToken ℕ
client_token s expiry = record {
  issuing_gatekeeper = 5;
  gatekeeper_network = 6;
  owner = 7;
  state = s;
  public_key = 20;
  program_id = 1;
  expiry_time = expiry;
}

is_valid_agrees_example :
    Token.is_valid 5000 (client_token Token.State.active none)
    ≡ Program.is_valid (pos (5000 / 1000)) (token_in active)
is_valid_agrees_example =
    is_valid_agrees 5000 (client_token Token.State.active none) (token_in active) (refl, refl)
      (λ e. cc)

try_from_message-encode_example :
    try_from_message {K = ℕ} (encode (Instruction.GatewayInstruction.set_state "frozen"))
    ≡ some (Process.Instruction.set_state frozen)
try_from_message-encode_example =
    try_from_message-encode {K = ℕ} (Instruction.GatewayInstruction.set_state "frozen")
      (Process.Instruction.set_state frozen) (sets_state frozen)

execute-built_example :
    WellFormed web3 runtime
      (execute web3 runtime (built web3 runtime (calls_freeze 20 5 13)) (ledger_in active))
execute-built_example = execute-built web3 runtime (calls_freeze 20 5 13) (ledger_in active)

member : (ledger_in active (gatekeeper_account_address web3 5 6)).owner ≡ 1
unfolding gatekeeper_account_address
member = refl

allowed : is_valid_state_change active frozen ≡ true
unfolding is_valid_state_change
allowed = refl
