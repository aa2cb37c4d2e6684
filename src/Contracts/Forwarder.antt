-- ===== src/Contracts/Forwarder.antt =====
-- FlexibleNonceForwarder.sol: runs a request that its sender has signed, in the order of the
-- sender's nonces or, for a number of blocks, out of order.
pub mod Accepts
pub mod Replay
pub mod Sender
use Prim.Native.String.{String}
use text.Mathlib.Text.{◌==◌ as str_eq}
use on_chain_identity_gatewa.Common.{
  ℕ, zero, suc, ◌+◌, ◌-◌, ◌/◌, ◌%◌, ◌==◌, ltb, leb, Bool, true, false, not, List, [], ◌∷◌, ◌++◌,
  Result, ok, err, if◌then◌else◌,
}
use on_chain_identity_gatewa.Common.Results.{◌>>=◌, ◌>>◌}
use on_chain_identity_gatewa.Contracts.{
  Address, put, Revert, invalid_signer, tx_already_seen, tx_too_old, reverted, checked_add,
}
use on_chain_identity_gatewa.Contracts.Context.{Message}

-- `ForwardRequest` of interfaces/IForwarder.sol
pub record ForwardRequest : Type 0 where
  pub from_address : Address
  pub to_address : Address
  pub value : ℕ
  pub gas : ℕ
  pub nonce : ℕ
  pub call_data : List ℕ

-- `FlexibleNonce`; a signature is a byte string.
pub record FlexibleNonce : Type 0 where
  pub current_nonce : ℕ
  pub block : ℕ
  pub sigs : ℕ → String → Bool

-- `_nonces`
abbrev pub Nonces : Type 0
Nonces = Address → FlexibleNonce

abbrev pub no_nonces : Nonces
no_nonces _ = record { current_nonce = 0; block = 0; sigs = λ _ _. false }

-- `getNonce`
abbrev pub get_nonce : Address → Nonces → ℕ
get_nonce from s = (s from).current_nonce

-- `sigsForNonce[nonce].sigs[signature] = true`
abbrev pub store_sig : Address → ℕ → String → Nonces → Nonces
store_sig from nonce signature s =
    put from
      (record (s from) {
        sigs =
            put nonce (λ sig. if str_eq sig signature then true else (s from).sigs nonce sig)
              (s from).sigs;
      })
      s

-- `n` bytes of a number, the highest first.
abbrev pub to_bytes : ℕ → ℕ → List ℕ
to_bytes zero x = []
to_bytes (suc n) x = to_bytes n (x / 256) ++ x % 256 ∷ []

-- `abi.encodePacked(req.data, req.from)`
unfoldable pub forwarded_data : ForwardRequest → List ℕ
forwarded_data req = req.call_data ++ to_bytes 20 req.from_address

-- The transaction that a call of `execute` stands in.
pub record Transaction : Type 0 where
  pub sender : Address
  pub value : ℕ
  pub block_number : ℕ
  pub request : ForwardRequest
  pub signature : String

-- The other contracts and accounts: sending them value, and calling one, which gives the gas that is
-- left. `recover` is the account that has signed a request, by EIP-712.
pub record Chain (World : Type 0) : Type 0 where
  pub recover : ForwardRequest → String → Result Revert Address
  pub send_value : Address → ℕ → World → Result Revert World
  pub call : Address → (value gas : ℕ) → Message → World → Result Revert (ℕ × World)

module _ {World : Type 0} (chain : Chain World) (this : Address) (block_age_tolerance : ℕ) where
  -- The two branches of `_verifyFlexibleNonce` on the request's nonce.
  abbrev check_nonce : (block_number : ℕ) → ForwardRequest → String → Nonces → Result Revert Nonces
  check_nonce block_number req signature s =
      if (s req.from_address).current_nonce == req.nonce
      then (do
        next ← checked_add req.nonce 1
        ok (
            put req.from_address
              (record (s req.from_address) { current_nonce = next; block = block_number }) s))
      else if (s req.from_address).sigs req.nonce signature
      then err tx_already_seen
      else (do
        last ← checked_add (s req.from_address).block block_age_tolerance
        if ltb last block_number
            then err (tx_too_old (s req.from_address).block block_age_tolerance)
            else ok s)

  -- `_verifyFlexibleNonce`
  unfoldable pub verify_flexible_nonce :
      (block_number : ℕ) → ForwardRequest → String → Nonces → Result Revert Nonces
  verify_flexible_nonce block_number req signature s = do
    signer ← chain.recover req signature
    if not (signer == req.from_address) then err (invalid_signer signer req.from_address) else ok tt
    s' ← check_nonce block_number req signature s
    ok (store_sig req.from_address req.nonce signature s')

  -- `_refundExcessValue`
  unfoldable pub refund_excess_value : Transaction → World → Result Revert World
  refund_excess_value tx w =
      if ltb tx.request.value tx.value
      then chain.send_value tx.sender (tx.value - tx.request.value) w
      else ok w

  -- `execute`; `nonReentrant` keeps the call from changing the nonces.
  unfoldable pub execute : Transaction → Nonces × World → Result Revert (Nonces × World)
  execute tx (s, w) = do
    s' ← verify_flexible_nonce tx.block_number tx.request tx.signature s
    w1 ← refund_excess_value tx w
    (gas_left, w2) ←
        chain.call tx.request.to_address tx.request.value tx.request.gas
          (record { sender = this; data_bytes = forwarded_data tx.request }) w1
    if leb gas_left (tx.request.gas / 64) then err (reverted "invalid opcode") else ok (s', w2)

  abbrev pub commit : Nonces × World → Result Revert (Nonces × World) → Nonces × World
  commit s (ok s') = s'
  commit s (err e) = s

  -- Transactions one after the other; one that reverts changes nothing.
  unfoldable pub run : List Transaction → Nonces × World → Nonces × World
  run [] s = s
  run (tx ∷ txs) s = run txs (commit s (execute tx s))
