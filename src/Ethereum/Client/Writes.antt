-- ===== src/Ethereum/Client/Writes.antt =====
-- What `GatewayTsInternal` (ethereum/gateway-eth-ts/src/service/GatewayTsInternal.ts) asks of the contract.
use Prim.Native.String.{String}
use mathlib.Core.Path.{subst, fun_ext}
use text.Mathlib.Text.{◌==◌ as str_eq}
use on_chain_identity_gatewa.Common.{
  ◌<◌, ℕ, ◌≡◌, ◌≢◌, refl, sym, ap, ◌∙◌, ◌⊎◌, inl, inr, Option, none, some, Bool, true, false, List,
  [], ◌∷◌, length, Result, ok, err, if◌then◌else◌, any, arith,
}
use on_chain_identity_gatewa.Common.Int.{ℤ, negsuc}
use on_chain_identity_gatewa.Common.Results.{Result-cases}
use on_chain_identity_gatewa.Common.Io.{Io, ◌>>=◌, lift, resume-ok, lift-ok}
use on_chain_identity_gatewa.Ethereum.{
  EthError, multiple_tokens, no_tokens, negative_expiration, Value, undefined, number, Overrides,
  with_property, Ramda, Charge, ChargeType, eth, erc20, none_type, Write, Contract, null_charge,
}
use on_chain_identity_gatewa.Ethereum.Utils.{get_expiration_time, or_default}
use on_chain_identity_gatewa.Ethereum
use on_chain_identity_gatewa.Ethereum.Client

cons≢nil : (x : ℕ) (xs : List ℕ) → x ∷ xs ≢ []
cons≢nil x xs h = cc

module _ (ramda : Ramda) {World O : Type 0} (contract : Contract World O) (options : Overrides)
    (date_now : ℕ) where
  abbrev pub ids_of : String → ℕ → Io World EthError (List ℕ)
  ids_of owner network =
      contract.get_token_ids_by_owner_and_network owner network false
        (Client.read_only_overrides ramda contract options date_now)

  abbrev pub tolerant : Bool
  tolerant = Client.truthy (options "tolerateMultipleTokens")

  -- The contract is never passed the client's own option, and a read is passed none of the gas price
  -- properties; every other property goes through.
  pub read_only_overrides_lem :
      (key : String)
      → Client.read_only_overrides ramda contract options date_now key ≡ (
          if any
            (str_eq key)
            ("gasPrice" ∷ "maxFeePerGas" ∷ "maxPriorityFeePerGas" ∷ "tolerateMultipleTokens" ∷ [])
          then none
          else options key)
  unfolding Client.read_only_overrides Client.overrides
  read_only_overrides_lem key =
      ramda.omit_lem ("gasPrice" ∷ "maxFeePerGas" ∷ "maxPriorityFeePerGas" ∷ []) _ key
      ∙ rw (ramda.omit_lem ("tolerateMultipleTokens" ∷ []) options key) (ground arith)

  abbrev pub value_of : Charge → ChargeType → Value
  value_of charge eth = number charge.value
  value_of charge erc20 = undefined
  value_of charge none_type = undefined

  -- A write with a charge in ETH carries its value; any other carries an undefined one.
  pub payable_overrides_value :
      (charge : Charge)
      → Client.payable_overrides ramda contract options date_now charge "value"
        ≡ some (value_of charge charge.charge_type)
  unfolding Client.payable_overrides
  payable_overrides_value charge = refl

  -- A call of a method that writes on a token that an owner has already.
  pub data TokenOp : Type 0 where
    revoking burning freezing unfreezing : TokenOp
    refreshing : Option ℤ → Option Charge → TokenOp
    setting_bitmask : ℕ → TokenOp

  abbrev pub method : TokenOp → String → ℕ → Io World EthError O
  method revoking owner network = Client.revoke ramda contract options date_now owner network
  method burning owner network = Client.burn ramda contract options date_now owner network
  method freezing owner network = Client.freeze ramda contract options date_now owner network
  method unfreezing owner network = Client.unfreeze ramda contract options date_now owner network
  method (refreshing expiry charge) owner network =
      Client.refresh ramda contract options date_now owner network expiry charge
  method (setting_bitmask bitmask) owner network =
      Client.set_bitmask ramda contract options date_now owner network bitmask

  abbrev set_expiration_of : ℕ → Charge → Result EthError ℕ → Result EthError Write
  set_expiration_of id charge (ok time) = ok (Ethereum.Write.set_expiration id time charge)
  set_expiration_of id charge (err e) = err e

  -- The write that a method makes on a token's id; a refresh is refused for a negative expiry.
  abbrev pub write_of : TokenOp → ℕ → Result EthError Write
  write_of revoking id = ok (Ethereum.Write.revoke id)
  write_of burning id = ok (Ethereum.Write.burn id)
  write_of freezing id = ok (Ethereum.Write.freeze id)
  write_of unfreezing id = ok (Ethereum.Write.unfreeze id)
  write_of (refreshing expiry charge) id =
      set_expiration_of id (or_default null_charge charge) (get_expiration_time date_now expiry)
  write_of (setting_bitmask bitmask) id = ok (Ethereum.Write.set_bitmask id bitmask)

  -- A refresh may be charged for, and is written with the value of the charge.
  abbrev pub overrides_of : TokenOp → Overrides
  overrides_of (refreshing expiry charge) =
      Client.payable_overrides ramda contract options date_now (or_default null_charge charge)
  overrides_of _ = Client.overrides ramda contract options date_now

  checked-cases :
      (tolerate : Bool) (ids : List ℕ) (id : ℕ)
      → Client.checked ramda contract options date_now tolerate ids ≡ ok id
      → (rest : List ℕ) × (ids ≡ id ∷ rest) × ((rest ≡ []) ⊎ (tolerate ≡ true))
  checked-cases tolerate [] id h = cc
  checked-cases tolerate (x ∷ []) id h = ([], ground arith, inl refl)
  checked-cases true (x ∷ y ∷ ids) id h = (y ∷ ids, ground arith, inr refl)
  checked-cases false (x ∷ y ∷ ids) id h = absurd (ground arith)

  abbrev write_first : TokenOp → ℕ → Io World EthError O
  write_first op id = lift (write_of op id) >>= λ write. contract.write write (overrides_of op)

  abbrev only_id : List ℕ → Io World EthError ℕ
  only_id ids = lift (Client.checked ramda contract options date_now tolerant ids)

  chained :
      (op : TokenOp) (owner : String) (network : ℕ) (last : ℕ → Io World EthError O) (s : World)
      → ((id : ℕ) (s1 : World) → last id s1 ≡ write_first op id s1)
      → ((ids_of owner network >>= only_id) >>= last) s
        ≡ ((ids_of owner network >>= only_id) >>= write_first op) s
  chained op owner network last s h =
      ap (λ f. ((ids_of owner network >>= only_id) >>= f) s) (fun_ext λ id. fun_ext λ s1. h id s1)

  method_lem :
      (op : TokenOp) (owner : String) (network : ℕ) (s : World)
      → method op owner network s ≡ ((ids_of owner network >>= only_id) >>= write_first op) s
  unfolding Client.revoke Client.burn Client.freeze Client.unfreeze Client.refresh
      Client.set_bitmask Client.checked_get_token_id
  method_lem revoking owner network s = chained revoking owner network _ s λ id s1. refl
  method_lem burning owner network s = chained burning owner network _ s λ id s1. refl
  method_lem freezing owner network s = chained freezing owner network _ s λ id s1. refl
  method_lem unfreezing owner network s = chained unfreezing owner network _ s λ id s1. refl
  method_lem (setting_bitmask bitmask) owner network s =
      chained (setting_bitmask bitmask) owner network _ s λ id s1. refl
  method_lem (refreshing expiry charge) owner network s =
      chained (refreshing expiry charge) owner network _ s λ id s1.
        elim (Result-cases (get_expiration_time date_now expiry)) [
          | inl (time, e) ↦ rw e refl
          | inr (x, e) ↦ rw e refl
        ]

  abbrev pub refusal : List ℕ → EthError
  refusal [] = no_tokens
  refusal (id ∷ ids) = multiple_tokens

  checked-refused :
      (ids : List ℕ)
      → (ids ≡ []) ⊎ ((tolerant ≡ false) × (1 < length ids))
      → Client.checked ramda contract options date_now tolerant ids ≡ err (refusal ids)
  checked-refused [] h = refl
  checked-refused (x ∷ ids) (inl h) = absurd (cons≢nil x ids h)
  checked-refused (x ∷ ids) (inr (strict, h)) = rw strict (ground arith)

  -- Where revoke, burn, freeze, unfreeze, refresh or setBitmask succeeds, the owner's tokens on the
  -- network were read first, the method's write was made on the first of them, and there was no other,
  -- unless the client tolerates several.
  pub method-ok :
      (op : TokenOp) (owner : String) (network : ℕ) (o : O) (s s' : World)
      → method op owner network s ≡ (ok o, s')
      → (id : ℕ) × (rest : List ℕ) × (s1 : World) × (write : Write) × (ids_of owner network s
          ≡ (ok (id ∷ rest), s1))
        × ((rest ≡ []) ⊎ (tolerant ≡ true))
        × (write_of op id ≡ ok write)
        × (contract.write write (overrides_of op) s1 ≡ (ok o, s'))
  method-ok op owner network o s s' h =
      let chain : ((ids_of owner network >>= only_id) >>= write_first op) s ≡ (ok o, s') =
        sym (method_lem op owner network s) ∙ h in
      let (id, s1, chosen, wrote) =
        resume-ok ((ids_of owner network >>= only_id) s) (write_first op) o s' chain in
      let (ids, s2, read, picked) = resume-ok (ids_of owner network s) only_id id s1 chosen in
      let (allowed, still) = lift-ok _ id s2 s1 picked in
      let (rest, split, alone) = checked-cases tolerant ids id allowed in
      let (write, s3, prepared, written) =
        resume-ok (lift (write_of op id) s1) (λ write. contract.write write (overrides_of op)) o s'
          wrote in
      let (asked, same) = lift-ok _ write s1 s3 prepared in
      (
        id,
        rest,
        s1,
        write,
        read
            ∙ subst (λ x. ◌≡◌ {A = Result EthError (List ℕ) × World} (ok ids, s2) (ok x, s1)) split
                (ap (λ x. (ok ids, x)) still),
        alone,
        asked,
        ap (contract.write write (overrides_of op)) same ∙ written,
      )

  -- Where the owner has no token on the network, or has several and the client does not tolerate it,
  -- each of these methods fails with the error for it, and nothing is written: the world is as the read
  -- left it.
  pub method_refuses :
      (op : TokenOp) (owner : String) (network : ℕ) (ids : List ℕ) (s s1 : World)
      → ids_of owner network s ≡ (ok ids, s1)
      → (ids ≡ []) ⊎ ((tolerant ≡ false) × (1 < length ids))
      → method op owner network s ≡ (err (refusal ids), s1)
  method_refuses op owner network ids s s1 read refused =
      method_lem op owner network s ∙ rw read (rw (checked-refused ids refused) refl)

  -- A negative expiry makes `issue` mint a token that never expires, as no expiry does, and makes
  -- `refresh` fail.
  pub negative_expiry :
      (owner : String) (network n : ℕ) (bitmask : Option ℕ) (charge : Option Charge) (o : O)
      (s s' : World)
      → (Client.issue ramda contract options date_now owner network (some (negsuc n)) bitmask charge
          ≡ Client.issue ramda contract options date_now owner network none bitmask charge)
        × (Client.refresh ramda contract options date_now owner network (some (negsuc n)) charge s
            ≢ (ok o, s'))
  unfolding Client.issue Client.refresh get_expiration_time
  negative_expiry owner network n bitmask charge o s s' = (
    refl,
    λ h.
        let (id, s1, _, rest) =
          resume-ok
            (Client.checked_get_token_id ramda contract options date_now owner network false s)
            (λ id. lift (get_expiration_time date_now (some (negsuc n))) >>= λ time.
              contract.write (Ethereum.Write.set_expiration id time (or_default null_charge charge))
                (Client.payable_overrides ramda contract options date_now
                  (or_default null_charge charge)))
            o s' h in
        cc (rest),
  )
