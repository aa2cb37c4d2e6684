-- ===== src/Solana/Tests/ServiceTests.antt =====
-- The services of the gatekeeper library at a concrete chain.
use on_chain_identity_gatewa.Common.{
  ℕ, suc, ◌≡◌, refl, ◌⊎◌, inr, Option, none, some, Bool, true, false, ◌||◌, Result, ok, [], ◌∷◌,
  ◌*◌,
}
use on_chain_identity_gatewa.Common.Io.{return}
use on_chain_identity_gatewa.Solana.Address.{gatekeeper_account_address}
use on_chain_identity_gatewa.Solana.Program.{
  active, frozen, put, is_valid_state_change, get_gateway_token_address_with_seed,
}
use on_chain_identity_gatewa.Solana.Instruction.{
  TransactionInstruction, make_freeze, make_issue, make_add_gatekeeper,
}
use on_chain_identity_gatewa.Solana.Instruction.Wire.{execute}
use on_chain_identity_gatewa.Solana.Gatekeeper.{ServiceError, system_transfer, gateway}
use on_chain_identity_gatewa.Solana.Gatekeeper.Options.{
  Options, no_options, value, gatekeeper_options, network_options,
}
use on_chain_identity_gatewa.Solana.Gatekeeper.Charge.{
  Action, ChargeOption, ChargeOptions, generate_charge_instruction,
  generate_charge_instruction-Pays, generate_charge_instruction_default, Pays, option_of,
}
use on_chain_identity_gatewa.Solana.Gatekeeper.Charge
use on_chain_identity_gatewa.Solana.Gatekeeper.Airdrop.{airdrop_to}
use on_chain_identity_gatewa.Solana.Gatekeeper.Sending.{
  Sendable, send, confirm_data, add_hash_or_nonce,
}
use on_chain_identity_gatewa.Solana.Gatekeeper.Service.{
  update_token, read_token, freeze, update_transaction_blockhash, send_and_confirm, signed_by,
  Token, get_gateway_token_or_error, account, with_priority_fee, charge_for,
  get_default_expire_time,
}
use on_chain_identity_gatewa.Solana.Gatekeeper.Service.Laws.{gateway_only}
use on_chain_identity_gatewa.Solana.Gatekeeper.Service.Built.{change_state_runs}
use on_chain_identity_gatewa.Solana.Gatekeeper.Service.Renewal.{
  Renews, update_transaction_blockhash-Renews,
}
use on_chain_identity_gatewa.Solana.Gatekeeper.Network.{add_gatekeeper}
use on_chain_identity_gatewa.Solana.Tests.{web3, runtime, token_in, ledger_in, write}
use on_chain_identity_gatewa.Solana.Tests.GatekeeperTests.{TestTransaction, rpc, gatekeeper, paid}

abbrev frozen_transaction : TestTransaction
frozen_transaction = record {
  fee_payer = some 30;
  instructions =
      gateway (make_freeze web3 20 5 (account web3 rpc gatekeeper)) ∷ system_transfer 30 40 50 ∷ [];
  recent_blockhash = some 0;
  nonce_info = none;
  signatures = 5 ∷ [];
}

abbrev frozen_sendable : Sendable web3 rpc (Token web3 rpc gatekeeper)
frozen_sendable = record {
  transaction = frozen_transaction;
  data_callback = get_gateway_token_or_error web3 rpc gatekeeper 20;
}

updates :
    update_token web3 rpc gatekeeper 20
      (make_freeze web3 20 5 (account web3 rpc gatekeeper))
      Charge.Action.freeze
      paid
      0
    ≡ (ok frozen_sendable, 1)
unfolding update_token gatekeeper_options with_priority_fee charge_for generate_charge_instruction
    add_hash_or_nonce
updates = refl

freezes : freeze web3 rpc gatekeeper 20 paid 0 ≡ (ok frozen_sendable, 1)
unfolding freeze
freezes = updates

member : (ledger_in active (account web3 rpc gatekeeper)).owner ≡ 1
unfolding gatekeeper_account_address
member = refl

allowed : is_valid_state_change active frozen ≡ true
unfolding is_valid_state_change
allowed = refl

change_state_runs_example :
    (i : TransactionInstruction ℕ) × (gateway_only frozen_sendable.transaction.instructions
      ≡ i ∷ [])
    × (execute web3 runtime i (ledger_in active)
        ≡ ok (
            put web3 20
              (record (ledger_in active 20) { content = write (token_in frozen) })
              (ledger_in active)))
change_state_runs_example =
    change_state_runs web3 rpc gatekeeper runtime frozen 20 paid frozen_sendable 0 1
      (ledger_in active) (token_in active) (write (token_in frozen)) freezes refl refl refl member
      allowed (inr refl) refl

abbrev issued_address : ℕ
issued_address = get_gateway_token_address_with_seed web3 7 none 6

renews :
    update_transaction_blockhash web3 rpc gatekeeper frozen_transaction paid 3
    ≡ (ok (record frozen_transaction { recent_blockhash = some 3; signatures = 5 ∷ 5 ∷ [] }), 4)
unfolding update_transaction_blockhash gatekeeper_options add_hash_or_nonce
renews = refl

update_transaction_blockhash-Renews_example :
    (by_gatekeeper : Bool) × (by_payer : Bool) × (o : Options web3 rpc) × (signed_by web3 rpc
        gatekeeper
        (some 5)
        (5 ∷ [])
      ≡ ok by_gatekeeper)
    × (s1 : ℕ) × (gatekeeper_options web3 rpc gatekeeper.authority gatekeeper.config paid 3
        ≡ (ok o, s1))
    × (signed_by web3 rpc gatekeeper (value o.rent_payer) (5 ∷ []) ≡ ok by_payer)
    × ((by_gatekeeper || by_payer ≡ false) ⊎ (rpc.verify_signatures frozen_transaction ≡ true))
    × Renews web3 rpc gatekeeper by_gatekeeper frozen_transaction
        (record frozen_transaction { recent_blockhash = some 3; signatures = 5 ∷ 5 ∷ [] })
update_transaction_blockhash-Renews_example =
    update_transaction_blockhash-Renews web3 rpc gatekeeper frozen_transaction
      (record frozen_transaction { recent_blockhash = some 3; signatures = 5 ∷ 5 ∷ [] }) paid 3 4
      renews

abbrev one_call : Sendable web3 rpc ℕ
one_call = record { transaction = frozen_transaction; data_callback = λ s. (ok 12, suc s) }

sends : send_and_confirm web3 rpc gatekeeper (return one_call) 0 ≡ (ok 12, 4)
unfolding send confirm_data
sends = refl

abbrev added : Sendable web3 rpc ℕ
added = record {
  transaction = record {
    fee_payer = some 6;
    instructions =
        gateway (make_add_gatekeeper web3 6 (gatekeeper_account_address web3 5 6) 5 6) ∷ [];
    recent_blockhash = some 0;
    nonce_info = none;
    signatures = 6 ∷ [];
  };
  data_callback = return (gatekeeper_account_address web3 5 6);
}

adds : add_gatekeeper web3 rpc 6 5 no_options 0 ≡ (ok added, 1)
unfolding add_gatekeeper network_options add_hash_or_nonce
adds = refl

abbrev issued : Sendable web3 rpc (Option (Token web3 rpc gatekeeper))
issued = record {
  transaction = record {
    fee_payer = some 30;
    instructions =
        gateway (
          make_issue web3 issued_address 5 (account web3 rpc gatekeeper) 7 5 6 none
            (get_default_expire_time web3 rpc gatekeeper))
        ∷ system_transfer 30 40 50
        ∷ [];
    recent_blockhash = some 0;
    nonce_info = none;
    signatures = 5 ∷ [];
  };
  data_callback = read_token web3 rpc gatekeeper issued_address;
}

-- A chain on which the balance is the number of the call, in tens of millions.
abbrev balance : ℕ → Result ServiceError ℕ × ℕ
balance s = (ok (s * 10000000), suc s)

abbrev request : ℕ → ℕ → Result ServiceError (Unit {0}) × ℕ
request lamports s = (ok tt, suc s)

airdrops : airdrop_to balance request "devnet" "mainnet" 30000000 0 ≡ (ok tt, 4)
unfolding airdrop_to
airdrops = refl
