-- ===== src/Solana/Gatekeeper/Service/Laws.antt =====
-- What the transactions of solana/gatekeeper-lib/src/service/gatekeeper-service.ts hold.
use mathlib.Core.Path.{subst}
use on_chain_identity_gatewa.Common.{
  ◌≡◌, ◌≢◌, refl, sym, ap, ◌∙◌, ◌⊎◌, inl, inr, none, true, ok, List, [], ◌∷◌, any,
}
use on_chain_identity_gatewa.Common.Io.{Io, resume-ok, return-ok, lift-ok, lift}
use on_chain_identity_gatewa.Solana.Web3.{Web3}
use on_chain_identity_gatewa.Solana.Instruction.{TransactionInstruction}
use on_chain_identity_gatewa.Solana.Gatekeeper.{
  ServiceError, HashOrNonce, recent_blockhash, nonce, find, Rpc, Instruction, gateway, Transaction,
  system_transfer, token_transfer, set_compute_unit_limit, set_compute_unit_price, new_transaction,
}
use on_chain_identity_gatewa.Solana.Gatekeeper.Options.{value, Options, Found}
use on_chain_identity_gatewa.Solana.Gatekeeper.Sending.{
  Tx, Sendable, add_hash_or_nonce, hashed, finish,
}

module _ {K : Type 0} where
  -- The instructions of the gateway program.
  abbrev pub gateway_only : List (Instruction K) → List (TransactionInstruction K)
  gateway_only [] = []
  gateway_only (gateway i ∷ is') = i ∷ gateway_only is'
  gateway_only (system_transfer _ _ _ ∷ is') = gateway_only is'
  gateway_only (token_transfer _ _ _ _ ∷ is') = gateway_only is'
  gateway_only (set_compute_unit_limit _ ∷ is') = gateway_only is'
  gateway_only (set_compute_unit_price _ ∷ is') = gateway_only is'

  abbrev pub HasHash : {H N : Type 0} → Transaction K H N → Type 0
  HasHash t = (t.recent_blockhash ≢ none) ⊎ (t.nonce_info ≢ none)

module _ (w : Web3) (rpc : Rpc w) (signer : w.PublicKey) where
  open w use {PublicKey, equals}
  open rpc use {World, Hash, Nonce}

  -- Where the options name a hash or nonce, `addHashOrNonce` sets it and nothing else.
  abbrev pub Hashed : Tx w rpc → Tx w rpc → Type 0
  Hashed t t' =
      (t'.instructions ≡ t.instructions)
      × (t'.fee_payer ≡ t.fee_payer)
      × (t'.signatures ≡ t.signatures)
      × HasHash t'

  add_hash_or_nonce-ok :
      (found : HashOrNonce Hash Nonce) (t t' : Tx w rpc) (s s' : World)
      → add_hash_or_nonce w rpc found t s ≡ (ok t', s')
      → Hashed t t'
  unfolding add_hash_or_nonce
  add_hash_or_nonce-ok find t t' s s' h =
      let (x, s1, asked, rest) = resume-ok (rpc.get_latest_blockhash s) _ t' s' h in
      subst (Hashed t) (return-ok _ t' s1 s' rest).0 (refl, refl, refl, inl (λ e. cc))
  add_hash_or_nonce-ok (recent_blockhash x) t t' s s' h =
      subst (Hashed t) (return-ok _ t' s s' h).0 (refl, refl, refl, inl (λ e. cc))
  add_hash_or_nonce-ok (nonce n) t t' s s' h =
      subst (Hashed t) (return-ok _ t' s s' h).0 (refl, refl, refl, inr (λ e. cc))

  pub hashed-ok :
      (o : Options w rpc) (t t' : Tx w rpc) (s s' : World)
      → Found w rpc o
      → hashed w rpc o t s ≡ (ok t', s')
      → Hashed t t'
  hashed-ok o t t' s s' (found, known) h =
      add_hash_or_nonce-ok found t t' s s' (rw (known, hashed) at h)

  abbrev pub Signed : Tx w rpc → Type 0
  Signed t = any (equals signer) t.signatures ≡ true

  pub partial_sign-ok :
      (t t' : Tx w rpc)
      → rpc.partial_sign (signer ∷ []) t ≡ ok t'
      → (t'.instructions ≡ t.instructions)
        × (t'.fee_payer ≡ t.fee_payer)
        × (t'.recent_blockhash ≡ t.recent_blockhash)
        × (t'.nonce_info ≡ t.nonce_info)
        × Signed t'
  partial_sign-ok t t' h =
      let (same, (signed, _)) = rpc.partial_sign_lem (signer ∷ []) t t' h in
      (
        ap (λ x. x.instructions) same,
        ap (λ x. x.fee_payer) same,
        ap (λ x. x.recent_blockhash) same,
        ap (λ x. x.nonce_info) same,
        signed,
      )

  pub keeps_hash :
      (t t' : Tx w rpc)
      → t'.recent_blockhash ≡ t.recent_blockhash
      → t'.nonce_info ≡ t.nonce_info
      → HasHash t
      → HasHash t'
  keeps_hash t t' p q (inl there) = inl (λ e. there (sym p ∙ e))
  keeps_hash t t' p q (inr there) = inr (λ e. there (sym q ∙ e))

  -- A transaction of the service: these instructions, the fee payer of its options, a hash or nonce,
  -- and the gatekeeper's signature; and the action that reads its data.
  abbrev pub Built :
      {T : Type 0}
      → Options w rpc
      → List (Instruction PublicKey)
      → Io World ServiceError T
      → Sendable w rpc T
      → Type 0
  Built o instructions data_callback b =
      (b.transaction.instructions ≡ instructions)
      × (b.transaction.fee_payer ≡ value o.fee_payer)
      × HasHash b.transaction
      × Signed b.transaction
      × (b.data_callback ≡ data_callback)

  pub finish-Built :
      {T : Type 0} (o : Options w rpc) (instructions : List (Instruction PublicKey))
      (data_callback : Io World ServiceError T) (b : Sendable w rpc T) (s s' : World)
      → Found w rpc o
      → finish w rpc signer o instructions data_callback s ≡ (ok b, s')
      → Built o instructions data_callback b
  finish-Built o instructions data_callback b s s' found h =
      let t0 : Tx w rpc = record (new_transaction instructions) { fee_payer = value o.fee_payer } in
      let (t, s1, made, rest) = resume-ok (hashed w rpc o t0 s) _ b s' h in
      let (t', s2, signing, last) =
        resume-ok (lift (rpc.partial_sign (signer ∷ []) t) s1) _ b s' rest in
      let (i1, f1, _, hash1) = hashed-ok o t0 t s s1 found made in
      let (i2, f2, r2, n2, signed) = partial_sign-ok t t' (lift-ok _ t' s1 s2 signing).0 in
      subst (Built o instructions data_callback) (return-ok _ b s2 s' last).0
        (i2 ∙ i1, f2 ∙ f1, keeps_hash t t' r2 n2 hash1, signed, refl)
