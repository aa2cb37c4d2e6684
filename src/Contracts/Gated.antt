-- ===== src/Contracts/Gated.antt =====
-- Gated.sol, GatedERC2771.sol and GatedERC2771Upgradeable.sol: contracts whose functions only the
-- holders of a gateway token may call.
use on_chain_identity_gatewa.Common.{
  ℕ, ◌==◌, ◌≡◌, Bool, true, false, not, Result, ok, err, if◌then◌else◌, arith,
}
use on_chain_identity_gatewa.Common.Results.{◌>>=◌, >>=-eq-ok}
use on_chain_identity_gatewa.Contracts.{
  Address, Revert, invalid_gateway_token, zero_contract_address,
}
use on_chain_identity_gatewa.Contracts.Context.{Message, Trusted, msg_sender}
use on_chain_identity_gatewa.Contracts.Gateway.{Base, RoleHashes, Gateway, Env}
use on_chain_identity_gatewa.Contracts.Gateway.Reads.{verify_token}
use on_chain_identity_gatewa.Contracts.Gateway.Verify.{InForce, verify_token_sound}

-- `_gatewayTokenContract` and `_gatekeeperNetwork`
pub record Gate : Type 0 where
  pub gateway_token_contract : Address
  pub gatekeeper_network : ℕ

-- The constructor
unfoldable pub make_gate :
    (gateway_token_contract : Address) (gatekeeper_network : ℕ) → Result Revert Gate
make_gate contract network =
    if contract == 0
    then err zero_contract_address
    else ok (record { gateway_token_contract = contract; gatekeeper_network = network })

-- The modifier `gated` around a function's body, where `verify` is the `verifyToken` of the contract at
-- an address, and the sender is `msg.sender` or, for the contracts with forwarders, `_msgSender()`.
unfoldable pub gated :
    {A : Type 0}
    → Gate
    → (verify : Address → Address → ℕ → Result Revert Bool) → (sender : Address) → Result Revert A
    → Result Revert A
gated gate verify sender body = do
  good ← verify gate.gateway_token_contract sender gate.gatekeeper_network
  if not good then err (invalid_gateway_token gate.gateway_token_contract) else body

module _ {Tokens : Type 0} (base : Base Tokens) (hashes : RoleHashes) where
  -- A gated function succeeds only for a sender that owns a token in force, in the gate's network, of
  -- the gateway token contract at the gate's address, and then gives what its body gives: a sender that
  -- comes by a forwarder that the contract trusts is the one that the forwarder names.
  pub gated-InForce :
      {A : Type 0} (gate : Gate) (contracts : Address → Gateway Tokens) (env : Env)
      (trusted : Trusted) (message : Message) (body : Result Revert A) (a : A)
      → gated gate
          (λ contract owner network.
            verify_token base hashes env owner network (contracts contract))
          (msg_sender trusted message)
          body
        ≡ ok a
      → (body ≡ ok a)
        × (id : ℕ) × (base.owner_of id (contracts gate.gateway_token_contract).tokens
            ≡ ok (msg_sender trusted message))
        × (base.slot_of id (contracts gate.gateway_token_contract).tokens
            ≡ ok gate.gatekeeper_network)
        × InForce base hashes env id false (contracts gate.gateway_token_contract)
  unfolding gated
  gated-InForce gate contracts env trusted message body a h =
      let s = contracts gate.gateway_token_contract in
      let (good, e, h1) =
        >>=-eq-ok
          (verify_token base hashes env (msg_sender trusted message) gate.gatekeeper_network s) _
          h in
      let passed : good ≡ true = ground arith in
      let (id, own, slot, f) =
        verify_token_sound base hashes env (msg_sender trusted message) gate.gatekeeper_network s
          (rw passed at e) in
      (ground arith, id, own, slot, f)
