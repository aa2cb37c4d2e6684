-- ===== src/Ethereum/Forwarder/Charged.antt =====
-- The charge on a forwarded issue: `issue` of ethereum/gateway-eth-ts/src/service/GatewayTsForwarder.ts.
use Prim.Native.String.{String}
use on_chain_identity_gatewa.Common.{ℕ, ◌≡◌, refl, sym, ap, ◌∙◌, Option, none, some, ok}
use on_chain_identity_gatewa.Common.Int.{ℤ, pos}
use on_chain_identity_gatewa.Common.Io.{Io, ◌>>=◌, return, lift, lift-ok, resume-ok, return-ok}
use on_chain_identity_gatewa.Ethereum.{
  EthError, number, Overrides, Ramda, Charge, ChargeType, eth, Write, Contract,
}
use on_chain_identity_gatewa.Ethereum.Utils.{or_default}
use on_chain_identity_gatewa.Ethereum
use on_chain_identity_gatewa.Ethereum.Client.{issue, issue_expiration, payable_overrides}
use on_chain_identity_gatewa.Ethereum.Client.Writes.{payable_overrides_value, value_of}
use on_chain_identity_gatewa.Ethereum.Forwarder.{
  Populated, ForwardRequest, Ethers, to_meta_tx, forwarder_contract, set_value, forwarder_issue,
  gas_limit_or_default, or_number,
}
use on_chain_identity_gatewa.Ethereum.Forwarder.Laws.{Signs, to_meta_tx-Forwards}

module _ {World : Type 0} (ethers : Ethers World) (ramda : Ramda) (options : Overrides)
    (reads : Contract World Populated) (date_now : ℕ) where
  abbrev mapped : Contract World Populated
  mapped = forwarder_contract ethers options reads

  abbrev paid_overrides : Charge → Overrides
  paid_overrides charge = payable_overrides ramda mapped options date_now charge

  -- The mint that the forwarder wraps.
  abbrev wrapped : (owner : String) (network bitmask : ℕ) → Charge → ℕ → Io World EthError Populated
  wrapped owner network bitmask charge time =
      to_meta_tx ethers (gas_limit_or_default (options "gasLimit"))
        (Ethereum.Write.mint owner network time bitmask charge) (paid_overrides charge)

  issue_lem :
      (owner : String) (network : ℕ) (expiry : Option ℤ) (bitmask : Option ℕ) (charge : Charge)
      (s : World)
      → issue ramda mapped options date_now owner network expiry bitmask (some charge) s
        ≡ (lift (issue_expiration ramda mapped options date_now (or_default (pos 0) expiry))
              >>= wrapped owner network (or_default 0 bitmask) charge)
            s
  unfolding issue forwarder_contract
  issue_lem owner network expiry bitmask charge s = refl

  set_value-eth :
      (charge : Charge) (t : Populated)
      → charge.charge_type ≡ eth
      → set_value ethers (some charge) t ≡ record t { value = some charge.value }
  set_value-eth charge t h = rw h refl

  value_of-eth :
      (charge : Charge)
      → charge.charge_type ≡ eth
      → value_of ramda mapped options date_now charge charge.charge_type ≡ number charge.value
  value_of-eth charge h = rw h refl

  -- A transaction that executes, through the forwarder, a request that the wallet signed: the request
  -- is for the call's data, as it is populated, and for the value; the transaction carries the same value, and it names no sender.
  abbrev pub Carries : Write → ℕ → Populated → Type 0
  Carries call value tx =
      (populated : Populated) × (o : Overrides) × (s0 : World) × (s1 : World) × (ethers.populate
          call o s0
        ≡ (ok populated, s1))
      × (request : ForwardRequest) × (signature : String) × (forwarded : Populated) × (s : World)
      × (s' : World) × Signs ethers request signature
      × (request.call_data ≡ populated.call_data)
      × (request.value ≡ value)
      × (ethers.populate_execute request signature s ≡ (ok forwarded, s'))
      × (tx ≡ record forwarded { from_address = none; value = some value })

  -- Forwarding an issue with a charge in ETH signs a request for the mint of the
  -- token with the charge's value, and gives the forwarder's transaction that executes that request, with the same
  -- value and without a sender.
  pub forwarder_issue_value :
      (owner : String) (network : ℕ) (expiry : Option ℤ) (bitmask : Option ℕ) (charge : Charge)
      (tx : Populated) (s s' : World)
      → charge.charge_type ≡ eth
      → forwarder_issue ethers ramda options reads date_now owner network expiry bitmask
          (some charge)
          s
        ≡ (ok tx, s')
      → (time : ℕ) × (issue_expiration ramda mapped options date_now (or_default (pos 0) expiry)
          ≡ ok time)
        × Carries
            (Ethereum.Write.mint owner network time (or_default 0 bitmask) charge)
            charge.value
            tx
  unfolding forwarder_issue
  forwarder_issue_value owner network expiry bitmask charge tx s s' in_eth h =
      let (t, s1, issued, last) =
        resume-ok (issue ramda mapped options date_now owner network expiry bitmask (some charge) s)
          (λ t. return (set_value ethers (some charge) t)) tx s' h in
      let (time, s2, timed, rest) =
        resume-ok
          (lift (issue_expiration ramda mapped options date_now (or_default (pos 0) expiry)) s)
          (wrapped owner network (or_default 0 bitmask) charge) t s1
          (sym (issue_lem owner network expiry bitmask charge s) ∙ issued) in
      let (
        populated,
        s3,
        made,
        (request, signature, forwarded, s4, s5, signs, spelled, carried, executed, result),
      ) =
        to_meta_tx-Forwards ethers (gas_limit_or_default (options "gasLimit"))
          (Ethereum.Write.mint owner network time (or_default 0 bitmask) charge)
          (paid_overrides charge) t s2 s1 rest in
      let asked : paid_overrides charge "value" ≡ some (number charge.value) =
        payable_overrides_value ramda mapped options date_now charge
        ∙ ap some (value_of-eth charge in_eth) in
      let valued : populated.value ≡ some charge.value =
        ethers.populate_value _ (paid_overrides charge) charge.value s2 s3 populated asked made in
      (
        time,
        (lift-ok _ time s s2 timed).0,
        (
          populated,
          paid_overrides charge,
          s2,
          s3,
          made,
          request,
          signature,
          forwarded,
          s4,
          s5,
          signs,
          spelled,
          carried ∙ ap (or_number 0) valued,
          executed,
          sym (return-ok _ tx s1 s' last).0
              ∙ set_value-eth charge t in_eth
              ∙ ap {A = Populated} (λ x. record x { value = some charge.value }) result,
        ),
      )
