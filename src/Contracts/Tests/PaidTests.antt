-- ===== src/Contracts/Tests/PaidTests.antt =====
-- A token that is minted against a charge in a token that its sender has approved.
use on_chain_identity_gatewa.Common.{ℕ, ◌-◌, ◌≤◌, ◌≡◌, refl, ◌⊎◌, true, false, ok, some}
use on_chain_identity_gatewa.Contracts.{put}
use on_chain_identity_gatewa.Contracts.Access.{grant, grant_role, set_role_admin}
use on_chain_identity_gatewa.Contracts.Context.{msg_sender}
use on_chain_identity_gatewa.Contracts.Charges.{
  ChargeHandler, set_allowance, handle_charge, handle_erc20_charge, consume_approval,
}
use on_chain_identity_gatewa.Contracts.Gateway.{Gateway}
use on_chain_identity_gatewa.Contracts.Gateway.Tokens.{mint, mint_effects}
use on_chain_identity_gatewa.Contracts.Gateway.Networks.{create_network, grant_call}
use on_chain_identity_gatewa.Contracts.Gateway.Calls.{run_call, run}
use on_chain_identity_gatewa.Contracts.Composed.{mint_paid}
use on_chain_identity_gatewa.Contracts.Tests.Ledger.{Ledger, ledger}
use on_chain_identity_gatewa.Contracts.Tests.GatewayTests.{hashes, by, founded}
use on_chain_identity_gatewa.Contracts.Tests.PartsTests.{roles, payments, handler, charge}
use on_chain_identity_gatewa.Ethereum.{none_type, eth, erc20}

-- The user 40 has approved 10 tokens.
abbrev approved : ChargeHandler payments roles 1
approved = record handler { approvals = set_allowance 40 70 90 5 10 handler.approvals }

abbrev charged : ChargeHandler payments roles 1
charged = record approved { approvals = set_allowance 40 70 90 5 3 approved.approvals }

abbrev paid_for : Gateway Ledger
paid_for = record founded {
  tokens = record (founded.tokens) {
    next = 2;
    live = put 1 true founded.tokens.live;
    slots = put 1 5 founded.tokens.slots;
    owners = put 1 40 founded.tokens.owners;
  };
  expirations = put 1 100 founded.expirations;
  bitmasks = put 1 6 founded.bitmasks;
  issuing_gatekeepers = put 1 30 founded.issuing_gatekeepers;
}

mint_paid_example :
    ((charge.charge_type ≡ none_type) × (◌≡◌ {A = ℕ} 1 0) × (charged ≡ approved))
    ⊎ ((charge.charge_type ≡ eth)
        × (◌≡◌ {A = ℕ} 0 charge.value)
        × (charged ≡ approved)
        × (payments.send_ether charge.recipient charge.value 0 ≡ some 1))
    ⊎ ((charge.charge_type ≡ erc20)
        × (◌≡◌ {A = ℕ} 0 0)
        × (charge.value ≤ approved.approvals charge.token_sender 70 charge.token 5)
        × (charged.approvals charge.token_sender 70 charge.token 5
            ≡ approved.approvals charge.token_sender 70 charge.token 5 - charge.value)
        × (payments.safe_transfer_from charge.token charge.token_sender charge.recipient
              charge.value 0
            ≡ ok 1))
unfolding run run_call create_network grant_call grant_role grant set_role_admin msg_sender mint
    mint_effects handle_charge handle_erc20_charge consume_approval
mint_paid_example =
    mint_paid ledger hashes payments roles 1 70 (λ _ _. false) (by 30 3) 40 5 100 6 charge founded
      paid_for approved charged 0 1 refl
