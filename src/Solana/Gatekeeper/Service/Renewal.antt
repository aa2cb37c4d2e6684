-- ===== src/Solana/Gatekeeper/Service/Renewal.antt =====
-- `updateTransactionBlockhash` of solana/gatekeeper-lib/src/service/gatekeeper-service.ts, and the
-- methods of `SimpleGatekeeperService` there.
use mathlib.Core.Path.{subst}
use on_chain_identity_gatewa.Common.{
  ◌≡◌, refl, ap, ◌∙◌, ◌⊎◌, inl, inr, none, some, Bool, true, false, not, ◌&&◌, ◌||◌, ok, [], ◌∷◌,
  if◌then◌else◌, arith, Bool-cases,
}
use on_chain_identity_gatewa.Common.Io.{
  Io, resume-ok, return-ok, lift-ok, ◌>>=◌, lift, return, throw,
}
use on_chain_identity_gatewa.Solana.Web3.{Web3}
use on_chain_identity_gatewa.Solana.Gatekeeper.{
  ServiceError, Rpc, not_validly_signed, solana_commitment,
}
use on_chain_identity_gatewa.Solana.Gatekeeper.Options.{
  value, absent, Options, gatekeeper_options, Found,
}
use on_chain_identity_gatewa.Solana.Gatekeeper.Sending.{
  Tx, Sendable, hashed, send, confirm_data, confirm_data-ok,
}
use on_chain_identity_gatewa.Solana.Gatekeeper.Service.{
  Gatekeeper, signed_by, update_transaction_blockhash, send_and_confirm,
}
use on_chain_identity_gatewa.Solana.Gatekeeper.Service.Laws.{
  HasHash, Signed, hashed-ok, partial_sign-ok, keeps_hash,
}
use on_chain_identity_gatewa.Solana.Gatekeeper.Service.Built.{options_hash}

signed_or_not : (a b v : Bool) → ((a || b) && not v) ≡ false → (a || b ≡ false) ⊎ (v ≡ true)
signed_or_not a b true h = inr refl
signed_or_not true b false h = inl (ground arith)
signed_or_not false true false h = inl (ground arith)
signed_or_not false false false h = inl refl

module _ (w : Web3) (rpc : Rpc w) (g : Gatekeeper w rpc) where
  open w use {PublicKey, equals}
  open rpc use {World}

  -- The renewed transaction: its instructions and fee payer are the old ones, it has a hash or nonce,
  -- and it has the gatekeeper's signature where the old one had, or else the old signatures.
  abbrev pub Renews : Bool → Tx w rpc → Tx w rpc → Type 0
  Renews by_gatekeeper t t' =
      (t'.instructions ≡ t.instructions)
      × (t'.fee_payer ≡ t.fee_payer)
      × HasHash t'
      × ((by_gatekeeper ≡ true × Signed w rpc g.authority t')
          ⊎ (by_gatekeeper ≡ false × (t'.signatures ≡ t.signatures)))

  abbrev resign : Bool → Tx w rpc → Io World ServiceError (Tx w rpc)
  resign by_gatekeeper t' =
      if by_gatekeeper then lift (rpc.partial_sign (g.authority ∷ []) t') else return t'

  renew-Renews :
      (by_gatekeeper : Bool) (o : Options w rpc) (t t' : Tx w rpc) (s s' : World)
      → Found w rpc o
      → (hashed w rpc o t >>= resign by_gatekeeper) s ≡ (ok t', s')
      → Renews by_gatekeeper t t'
  renew-Renews true o t t' s s' found h =
      let (t1, s1, made, rest) = resume-ok (hashed w rpc o t s) (resign true) t' s' h in
      let (i1, f1, _, hash1) = hashed-ok w rpc g.authority o t t1 s s1 found made in
      let (i2, f2, r2, n2, signed) =
        partial_sign-ok w rpc g.authority t1 t' (lift-ok _ t' s1 s' rest).0 in
      (i2 ∙ i1, f2 ∙ f1, keeps_hash w rpc g.authority t1 t' r2 n2 hash1, inl (refl, signed))
  renew-Renews false o t t' s s' found h =
      let (t1, s1, made, rest) = resume-ok (hashed w rpc o t s) (resign false) t' s' h in
      let (i1, f1, s2, hash1) = hashed-ok w rpc g.authority o t t1 s s1 found made in
      subst (Renews false t) (return-ok t1 t' s1 s' rest).0 (i1, f1, hash1, inr (refl, s2))

  abbrev checked :
      (by_gatekeeper by_payer : Bool) → Options w rpc → Tx w rpc → Io World ServiceError (Tx w rpc)
  checked by_gatekeeper by_payer o t =
      if (by_gatekeeper || by_payer) && not (rpc.verify_signatures t)
      then throw not_validly_signed
      else hashed w rpc o t >>= resign by_gatekeeper

  checked-Renews :
      (by_gatekeeper by_payer : Bool) (o : Options w rpc) (t t' : Tx w rpc) (s s' : World)
      → Found w rpc o
      → checked by_gatekeeper by_payer o t s ≡ (ok t', s')
      → ((by_gatekeeper || by_payer ≡ false) ⊎ (rpc.verify_signatures t ≡ true))
        × Renews by_gatekeeper t t'
  checked-Renews by_gatekeeper by_payer o t t' s s' found h =
      elim (Bool-cases ((by_gatekeeper || by_payer) && not (rpc.verify_signatures t))) [
        | inl refused ↦ absurd (ground arith)
        | inr fine ↦ (
          signed_or_not by_gatekeeper by_payer _ fine,
          renew-Renews by_gatekeeper o t t' s s' found (rw fine at h),
        )
      ]

  -- A transaction that the gatekeeper or the rent payer of the call's options, filled in from the
  -- gatekeeper's, had signed is renewed only where its
  -- signatures verify; renewing keeps its instructions and fee payer, gives it a hash or nonce, and
  -- signs it again where the gatekeeper had signed.
  pub update_transaction_blockhash-Renews :
      (t t' : Tx w rpc) (options : Options w rpc) (s s' : World)
      → update_transaction_blockhash w rpc g t options s ≡ (ok t', s')
      → (by_gatekeeper : Bool) × (by_payer : Bool) × (o : Options w rpc) × (signed_by w rpc g
            (some g.authority)
            t.signatures
          ≡ ok by_gatekeeper)
        × (s1 : World) × (gatekeeper_options w rpc g.authority g.config options s ≡ (ok o, s1))
        × (signed_by w rpc g (value o.rent_payer) t.signatures ≡ ok by_payer)
        × ((by_gatekeeper || by_payer ≡ false) ⊎ (rpc.verify_signatures t ≡ true))
        × Renews by_gatekeeper t t'
  unfolding update_transaction_blockhash
  update_transaction_blockhash-Renews t t' options s s' h =
      let rest0 : Options w rpc → Io World ServiceError (Tx w rpc) = λ o.
        lift (signed_by w rpc g (some g.authority) t.signatures) >>= λ by_gatekeeper.
        lift (signed_by w rpc g (value o.rent_payer) t.signatures) >>= λ by_payer.
        checked by_gatekeeper by_payer o t in
      let (o, s1, normalized, rest) =
        resume-ok (gatekeeper_options w rpc g.authority g.config options s) rest0 t' s' h in
      let (by_gatekeeper, s2, first, rest2) =
        resume-ok (lift (signed_by w rpc g (some g.authority) t.signatures) s1)
          (λ by_gatekeeper.
            lift (signed_by w rpc g (value o.rent_payer) t.signatures) >>= λ by_payer.
            checked by_gatekeeper by_payer o t)
          t' s' rest in
      let (by_payer, s3, second, rest3) =
        resume-ok (lift (signed_by w rpc g (value o.rent_payer) t.signatures) s2)
          (λ by_payer. checked by_gatekeeper by_payer o t) t' s' rest2 in
      let (verified, renewed) =
        checked-Renews by_gatekeeper by_payer o t t' s3 s'
          (options_hash w rpc g options o s s1 normalized) rest3 in
      (
        by_gatekeeper,
        by_payer,
        o,
        (lift-ok _ by_gatekeeper s1 s2 first).0,
        s1,
        normalized,
        (lift-ok _ by_payer s2 s3 second).0,
        verified,
        renewed,
      )

  -- Where a method of `SimpleGatekeeperService` returns, the transaction that it built was sent as it
  -- is, the network confirmed it without an error, and the data was read after that.
  pub send_and_confirm-ok :
      {T : Type 0} (built : Io World ServiceError (Sendable w rpc T)) (a : T) (s s' : World)
      → send_and_confirm w rpc g built s ≡ (ok a, s')
      → (b : Sendable w rpc T) × (signature : rpc.Signature) × (blockhash : rpc.Hash) × (s1 : World)
        × (s2 : World) × (s3 : World) × (s4 : World) × (built s ≡ (ok b, s1))
        × (rpc.send_raw_transaction b.transaction (some solana_commitment) s1 ≡ (ok signature, s2))
        × (rpc.confirm_transaction signature blockhash solana_commitment s3 ≡ (ok none, s4))
        × (b.data_callback s4 ≡ (ok a, s'))
  unfolding send
  send_and_confirm-ok built a s s' h =
      let (b, s1, made, rest) =
        resume-ok (built s)
          (λ b. send w rpc absent [] b >>= λ sent. confirm_data w rpc sent none none) a s' h in
      let (sent, s2, sending, rest2) =
        resume-ok (send w rpc absent [] b s1) (λ sent. confirm_data w rpc sent none none) a s'
          rest in
      let (signature, s3, raw, last) =
        resume-ok (rpc.send_raw_transaction b.transaction (some solana_commitment) s1)
          (λ signature. return (record { signature = signature; data_callback = b.data_callback }))
          sent s2 sending in
      let (same, still) = return-ok _ sent s3 s2 last in
      let (blockhash, s5, s6, latest, confirmed, read) =
        confirm_data-ok w rpc sent none s2 s' a rest2 in
      (
        b,
        signature,
        blockhash,
        s1,
        s3,
        s5,
        s6,
        made,
        raw,
        ap (λ x. rpc.confirm_transaction x.signature blockhash solana_commitment s5) same
            ∙ confirmed,
        ap (λ x. x.data_callback s6) same ∙ read,
      )
