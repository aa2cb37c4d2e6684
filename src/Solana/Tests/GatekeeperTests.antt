-- ===== src/Solana/Tests/GatekeeperTests.antt =====
-- The gatekeeper library at a concrete chain, whose world is a number of calls.
use mathlib.Core.Path.{subst}
use on_chain_identity_gatewa.Common.{
  ℕ, suc, ◌≡◌, ◌≢◌, refl, none, some, true, Result, ok, err, List, [], ◌∷◌, any, All, ◌==◌, ◌+◌,
  ==_iff, arith,
}
use on_chain_identity_gatewa.Solana.Gatekeeper.{
  Rpc, Transaction, ServiceError, system_transfer, signing_failed,
}
use on_chain_identity_gatewa.Solana.Gatekeeper.Options.{Options, no_options, is}
use on_chain_identity_gatewa.Solana.Gatekeeper.Charge.{
  Action, ChargeOption, ChargeOptions, generate_charge_instruction,
  generate_charge_instruction-Pays, generate_charge_instruction_default, Pays, option_of,
}
use on_chain_identity_gatewa.Solana.Gatekeeper.Charge
use on_chain_identity_gatewa.Solana.Gatekeeper.Service.{Gatekeeper}
use on_chain_identity_gatewa.Solana.Tests.{web3}
use on_chain_identity_gatewa.Solana.Tests.QueryTests.{connection, decode}

abbrev pub TestTransaction : Type 0
TestTransaction = Transaction ℕ ℕ ℕ

-- Signing by one signer.
abbrev pub sign_one : List ℕ → TestTransaction → Result ServiceError TestTransaction
sign_one (k ∷ []) t = ok (record t { signatures = k ∷ t.signatures })
sign_one _ t = err signing_failed

ok_injective :
    (a b : TestTransaction) → ◌≡◌ {A = Result ServiceError TestTransaction} (ok a) (ok b) → a ≡ b
ok_injective a b h = cc

pub sign_one_lem :
    (ks : List ℕ) (t t' : TestTransaction)
    → sign_one ks t ≡ ok t'
    → (t' ≡ record t { signatures = t'.signatures })
      × All (λ k. any (λ x. k == x) t'.signatures ≡ true) ks
sign_one_lem [] t t' h = cc
sign_one_lem (k ∷ []) t t' h =
    subst
      (λ x.
        (x ≡ record t { signatures = x.signatures })
        × All (λ k. any (λ y. k == y) x.signatures ≡ true) (k ∷ []))
      (ok_injective _ t' h) (refl, (ground (arith, (==_iff k k).1 refl), tt))
sign_one_lem (k ∷ j ∷ ks) t t' h = cc

abbrev pub rpc : Rpc web3
rpc = record {
  World = ℕ;
  Hash = ℕ;
  Nonce = ℕ;
  Signature = ℕ;
  connection = λ s. connection;
  get_latest_blockhash = λ s. (ok s, suc s);
  send_raw_transaction = λ t c s. (ok 77, suc s);
  confirm_transaction = λ g h c s. (ok none, suc s);
  verify_signatures = λ t. true;
  partial_sign = sign_one;
  partial_sign_lem = sign_one_lem;
}

abbrev pub charge : ChargeOption ℕ
charge = record {
  amount = 50;
  spl_token_mint = none;
  charge_payer = Charge.ChargePayer.fee_payer;
  recipient = 40;
}

abbrev pub charges : ChargeOptions ℕ
charges action = some charge

abbrev pub associated : ℕ → ℕ → ℕ
associated mint owner = mint + owner

abbrev pub gatekeeper : Gatekeeper web3 rpc
gatekeeper = record {
  network = 6;
  authority = 5;
  config = no_options;
  default_expiry_seconds = none;
  charge_options = some charges;
  decode = decode;
  get_associated_token_address = associated;
  date_now = 5000;
}

-- Another account pays the fees.
abbrev pub paid : Options web3 rpc
paid = record no_options { fee_payer = is 30 }

charged :
    generate_charge_instruction web3 associated charges (some 30) none Charge.Action.issue 5
    ≡ some (system_transfer 30 40 50)
unfolding generate_charge_instruction
charged = refl

generate_charge_instruction-Pays_example :
    (c : ChargeOption ℕ) × (payer : ℕ) × (charges Charge.Action.issue ≡ some c)
    × (option_of web3 (some 30) none c.charge_payer ≡ some payer)
    × (payer ≢ 5)
    × Pays web3 associated c payer (system_transfer 30 40 50)
generate_charge_instruction-Pays_example =
    generate_charge_instruction-Pays web3 associated charges (some 30) none Charge.Action.issue 5
      (system_transfer 30 40 50) charged
