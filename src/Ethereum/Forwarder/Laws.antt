-- ===== src/Ethereum/Forwarder/Laws.antt =====
-- What a forwarded call signs and carries: ethereum/gateway-eth-ts/src/service/GatewayTsForwarder.ts and
-- src/utils/metatx.ts.
use Prim.Native.String.{String}
use mathlib.Core.Path.{subst}
use on_chain_identity_gatewa.Common.{
  ℕ, ◌≡◌, refl, sym, ap, ◌∙◌, ◌⊎◌, inl, inr, Option, none, some, ok, err, arith,
}
use on_chain_identity_gatewa.Common.Io.{Io, ◌>>=◌, return, resume-ok, return-ok}
use on_chain_identity_gatewa.Ethereum.{
  EthError, not_a_function, Value, undefined, number, Overrides, Ramda, Charge, ChargeType, eth,
  erc20, none_type, Write, Contract,
}
use on_chain_identity_gatewa.Ethereum
use on_chain_identity_gatewa.Ethereum.Forwarder.{
  Populated, Input, ForwardRequest, TypedData, Ethers, nonzero, or_number, build_request,
  build_typed_data, sign_meta_tx_request, input_of, to_meta_tx, mapped_write,
}

or_number-nonzero : (v : Option ℕ) → or_number 0 (nonzero v) ≡ or_number 0 v
or_number-nonzero none = refl
or_number-nonzero (some n) = ground arith

module _ {World : Type 0} (ethers : Ethers World) where
  -- The typed data of a request, on a chain and for a forwarder.
  abbrev pub typed_data : ℕ → String → ForwardRequest → TypedData
  typed_data chain_id verifying_contract request = record {
    domain_name = "FlexibleNonceForwarder";
    domain_version = "0.0.1";
    chain_id = chain_id;
    verifying_contract = verifying_contract;
    message = request;
  }

  -- The request is for what was given, with 0 where no value was.
  abbrev pub Requests : Input → ForwardRequest → Type 0
  Requests input request =
      (request.from_address ≡ input.from_address)
      × (request.to_address ≡ input.to_address)
      × (request.call_data ≡ input.call_data)
      × (request.value ≡ or_number 0 input.value)
      × (request.gas ≡ input.gas)

  -- The signature is the wallet's on that request.
  abbrev pub Signs : ForwardRequest → String → Type 0
  Signs request signature =
      (chain_id : ℕ) × (verifying_contract : String) × (s : World) × (s' : World)
      × (ethers.sign_typed_data (typed_data chain_id verifying_contract request) s
          ≡ (ok signature, s'))

  build_request-Requests :
      (input : Input) (request : ForwardRequest) (s s' : World)
      → build_request ethers input s ≡ (ok request, s')
      → Requests input request
  unfolding build_request
  build_request-Requests input request s s' h =
      let filled : String → ForwardRequest = λ nonce. record {
        from_address = input.from_address;
        to_address = input.to_address;
        call_data = input.call_data;
        value = or_number 0 input.value;
        gas = input.gas;
        nonce = nonce;
      } in
      let (nonce, s1, got, rest) =
        resume-ok (ethers.get_nonce input.from_address s) (λ nonce. return (filled nonce)) request
          s' h in
      subst (Requests input) (return-ok (filled nonce) request s1 s' rest).0
        (refl, refl, refl, refl, refl)

  build_typed_data-ok :
      (request : ForwardRequest) (d : TypedData) (s s' : World)
      → build_typed_data ethers request s ≡ (ok d, s')
      → (chain_id : ℕ) × (verifying_contract : String) × (typed_data chain_id verifying_contract
            request
          ≡ d)
  unfolding build_typed_data
  build_typed_data-ok request d s s' h =
      let (chain_id, s1, _, rest) =
        resume-ok (ethers.chain_id s)
          (λ chain_id. ethers.forwarder_address >>= λ verifying_contract.
            return (typed_data chain_id verifying_contract request))
          d s' h in
      let (verifying_contract, s2, _, last) =
        resume-ok (ethers.forwarder_address s1)
          (λ verifying_contract. return (typed_data chain_id verifying_contract request)) d s'
          rest in
      (chain_id, verifying_contract, (return-ok _ d s2 s' last).0)

  sign_meta_tx_request-ok :
      (input : Input) (request : ForwardRequest) (signature : String) (s s' : World)
      → sign_meta_tx_request ethers input s ≡ (ok (request, signature), s')
      → Requests input request × Signs request signature
  unfolding sign_meta_tx_request
  sign_meta_tx_request-ok input request signature s s' h =
      let (r, s1, built, rest) =
        resume-ok (build_request ethers input s)
          (λ r. build_typed_data ethers r >>= λ d. ethers.sign_typed_data d >>= λ g. return (r, g))
          (request, signature) s' h in
      let (d, s2, typed, rest2) =
        resume-ok (build_typed_data ethers r s1)
          (λ d. ethers.sign_typed_data d >>= λ g. return (r, g)) (request, signature) s' rest in
      let (g, s3, signed, rest3) =
        resume-ok (ethers.sign_typed_data d s2) (λ g. return (r, g)) (request, signature) s'
          rest2 in
      let same : ◌≡◌ {A = ForwardRequest × String} (r, g) (request, signature) =
        (return-ok _ _ s3 s' rest3).0 in
      let (chain_id, verifying_contract, spelled) = build_typed_data-ok r d s1 s2 typed in
      subst (λ p. Requests input p.0 × Signs p.0 p.1) same
        (
          build_request-Requests input r s s1 built,
          (
            chain_id,
            verifying_contract,
            s2,
            s3,
            ap (λ x. ethers.sign_typed_data x s2) spelled ∙ signed,
          ),
        )

  -- A forwarded transaction executes a request that the wallet signed, for the call's own data and
  -- value, and it names no sender.
  abbrev pub Forwards : Populated → Populated → Type 0
  Forwards populated tx =
      (request : ForwardRequest) × (signature : String) × (forwarded : Populated) × (s : World)
      × (s' : World) × Signs request signature
      × (request.call_data ≡ populated.call_data)
      × (request.value ≡ or_number 0 populated.value)
      × (ethers.populate_execute request signature s ≡ (ok forwarded, s'))
      × (tx ≡ record forwarded { from_address = none })

  finish_meta_tx-Forwards :
      (default_gas : ℕ) (populated : Populated) (from_address to_address : String) (tx : Populated)
      (s s' : World)
      → (sign_meta_tx_request ethers (input_of ethers default_gas populated from_address to_address)
            >>= λ signed. ethers.populate_execute signed.0 signed.1 >>= λ forwarded.
                return (record forwarded { from_address = none }))
          s
        ≡ (ok tx, s')
      → Forwards populated tx
  finish_meta_tx-Forwards default_gas populated from_address to_address tx s s' h =
      let input : Input = input_of ethers default_gas populated from_address to_address in
      let (signed, s1, signing, rest) =
        resume-ok (sign_meta_tx_request ethers input s)
          (λ signed. ethers.populate_execute signed.0 signed.1 >>= λ forwarded.
            return (record forwarded { from_address = none }))
          tx s' h in
      let (forwarded, s2, executed, last) =
        resume-ok (ethers.populate_execute signed.0 signed.1 s1)
          (λ forwarded. return (record forwarded { from_address = none })) tx s' rest in
      let ((_, _, carried, valued, _), signs) =
        sign_meta_tx_request-ok input signed.0 signed.1 s s1 signing in
      (
        signed.0,
        signed.1,
        forwarded,
        s1,
        s2,
        signs,
        carried,
        valued ∙ or_number-nonzero populated.value,
        executed,
        sym (return-ok _ tx s2 s' last).0,
      )

  -- A meta-transaction for a call executes, through the forwarder, a request that the wallet signed,
  -- with the data and the value of the call as it was populated; a value that is missing is 0; and the
  -- transaction names no sender, so that a relayer can send it.
  pub to_meta_tx-Forwards :
      (default_gas : ℕ) (call : Write) (o : Overrides) (tx : Populated) (s s' : World)
      → to_meta_tx ethers default_gas call o s ≡ (ok tx, s')
      → (populated : Populated) × (s1 : World) × (ethers.populate call o s ≡ (ok populated, s1))
        × Forwards populated tx
  unfolding to_meta_tx
  to_meta_tx-Forwards default_gas call o tx s s' h =
      let last : Populated → String → String → Io World EthError Populated = λ populated a b.
        sign_meta_tx_request ethers (input_of ethers default_gas populated a b) >>= λ signed.
        ethers.populate_execute signed.0 signed.1 >>= λ forwarded.
        return (record forwarded { from_address = none }) in
      let (populated, s1, made, rest) =
        resume-ok (ethers.populate call o s)
          (λ populated.
            ethers.wallet_address >>= λ a. ethers.to_address >>= λ b. last populated a b)
          tx s' h in
      let (a, s2, _, rest2) =
        resume-ok (ethers.wallet_address s1) (λ a. ethers.to_address >>= λ b. last populated a b) tx
          s' rest in
      let (b, s3, _, rest3) =
        resume-ok (ethers.to_address s2) (λ b. last populated a b) tx s' rest2 in
      (populated, s1, made, finish_meta_tx-Forwards default_gas populated a b tx s3 s' rest3)

  -- Every write method is there on the object that the forwarder and the transaction builder make,
  -- except for `setNetworkFeatures`, which is not a function of it.
  pub mapped_write_lem :
      (wrap : Write → Overrides → Io World EthError Populated) (call : Write) (o : Overrides)
      (s : World)
      → (mapped_write ethers wrap call o s ≡ wrap call o s)
        ⊎ ((network : ℕ) × (mask : ℕ) × (call ≡ Ethereum.Write.set_network_features network mask)
            × (mapped_write ethers wrap call o s ≡ (err not_a_function, s)))
  mapped_write_lem wrap (Ethereum.Write.create_network _ _ _ _) o s = inl refl
  mapped_write_lem wrap (Ethereum.Write.rename_network _ _) o s = inl refl
  mapped_write_lem wrap (Ethereum.Write.add_gatekeeper _ _) o s = inl refl
  mapped_write_lem wrap (Ethereum.Write.remove_gatekeeper _ _) o s = inl refl
  mapped_write_lem wrap (Ethereum.Write.add_network_authority _ _) o s = inl refl
  mapped_write_lem wrap (Ethereum.Write.remove_network_authority _ _) o s = inl refl
  mapped_write_lem wrap (Ethereum.Write.set_network_features n m) o s = inr (n, m, refl, refl)
  mapped_write_lem wrap (Ethereum.Write.mint _ _ _ _ _) o s = inl refl
  mapped_write_lem wrap (Ethereum.Write.set_expiration _ _ _) o s = inl refl
  mapped_write_lem wrap (Ethereum.Write.freeze _) o s = inl refl
  mapped_write_lem wrap (Ethereum.Write.unfreeze _) o s = inl refl
  mapped_write_lem wrap (Ethereum.Write.revoke _) o s = inl refl
  mapped_write_lem wrap (Ethereum.Write.burn _) o s = inl refl
  mapped_write_lem wrap (Ethereum.Write.set_bitmask _ _) o s = inl refl
