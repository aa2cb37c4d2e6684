-- ===== src/Solana/Gatekeeper/Sending.antt =====
-- Transactions on their way to the network: solana/gatekeeper-lib/src/util/connection.ts. The data
-- callback of a transaction is an action that runs when it is called.
use Prim.Native.String.{String}
use text.Mathlib.Text.{◌==◌ as str_eq}
use on_chain_identity_gatewa.Common.{
  ◌≡◌, ap, ◌∙◌, Option, none, some, Result, ok, List, [], ◌∷◌, if◌then◌else◌,
}
use on_chain_identity_gatewa.Common.Io.{Io, ◌>>=◌, ◌>>◌, return, throw, lift, resume-ok}
use on_chain_identity_gatewa.Solana.Web3.{Web3}
use on_chain_identity_gatewa.Solana.Gatekeeper.{
  ServiceError, not_confirmed, HashOrNonce, recent_blockhash, nonce, find, Rpc, Transaction,
  solana_commitment, Instruction, new_transaction,
}
use on_chain_identity_gatewa.Solana.Gatekeeper.Options.{Property, spread, is, value, Options}

-- `getClusterUrl`, with web3.js's `clusterApiUrl`
unfoldable pub get_cluster_url : (String → String) → String → String
get_cluster_url cluster_api_url cluster =
    if str_eq cluster "localnet"
    then "http://localhost:8899"
    else if str_eq cluster "civicnet"
    then "http://ec2-44-214-135-83.compute-1.amazonaws.com:8899"
    else cluster_api_url cluster

module _ (w : Web3) (rpc : Rpc w) where
  open w use {PublicKey}
  open rpc use {World, Hash, Nonce, Signature}

  abbrev pub Tx : Type 0
  Tx = Transaction PublicKey Hash Nonce

  abbrev pub Action : Type 0 → Type 0
  Action = Io World ServiceError

  -- `addHashOrNonce`
  unfoldable pub add_hash_or_nonce : HashOrNonce Hash Nonce → Tx → Action Tx
  add_hash_or_nonce find t = do
    blockhash ← rpc.get_latest_blockhash
    return (record t { recent_blockhash = some blockhash })
  add_hash_or_nonce (recent_blockhash h) t = return (record t { recent_blockhash = some h })
  add_hash_or_nonce (nonce n) t = return (record t { nonce_info = some n })

  -- `SendableDataTransaction<T>`
  pub record Sendable (T : Type 0) : Type 0 where
    pub transaction : Tx
    pub data_callback : Action T

  -- `.addHashOrNonce(normalizedOptions.blockhashOrNonce)`; where there is none, the latest blockhash
  -- is asked for and its answer, which has no `recentBlockhash`, sets an undefined nonce.
  abbrev pub hashed : Options w rpc → Tx → Io World ServiceError (Tx)
  hashed options t = elim (value options.blockhash_or_nonce) [
    | none ↦ rpc.get_latest_blockhash >>= λ _. return (record t { nonce_info = none })
    | some found ↦ add_hash_or_nonce found t
  ]

  -- `new SendableTransaction(…).withData(…).feePayer(…).addHashOrNonce(…).then(partialSign)`
  abbrev pub finish :
      {T : Type 0}
      → (signer : PublicKey) → Options w rpc
      → List (Instruction PublicKey)
      → Io World ServiceError T
      → Io World ServiceError (Sendable T)
  finish signer options instructions data_callback = do
    t ←
        hashed options
          (record (new_transaction instructions) { fee_payer = value options.fee_payer })
    signed ← lift (rpc.partial_sign (signer ∷ []) t)
    return (record { transaction = signed; data_callback = data_callback })

  -- `SentDataTransaction<T>`
  pub record Sent (T : Type 0) : Type 0 where
    pub signature : Signature
    pub data_callback : Action T

  abbrev sign_extra : List PublicKey → Tx → Result ServiceError Tx
  sign_extra [] t = ok t
  sign_extra (k ∷ ks) t = rpc.partial_sign (k ∷ ks) t

  -- `send(options, ...extraSigners)`, of the options' `preflightCommitment`
  unfoldable pub send :
      {T : Type 0} → Property String → List PublicKey → Sendable T → Action (Sent T)
  unfolding spread
  send preflight_commitment extra_signers sendable = do
    t ← lift (sign_extra extra_signers sendable.transaction)
    signature ←
        rpc.send_raw_transaction t (value (spread (is solana_commitment) preflight_commitment))
    return (record { signature = signature; data_callback = sendable.data_callback })

  abbrev commitment_or_default : Option String → String
  commitment_or_default none = solana_commitment
  commitment_or_default (some commitment) = commitment

  abbrev report : Option String → Option (String → Action (Unit {0})) → Action (Unit {0})
  report none callback = return tt
  report (some error) none = throw (not_confirmed error)
  report (some error) (some callback) = callback error

  -- `confirm` of a `SentTransaction`
  unfoldable pub confirm :
      Signature → Option String → Option (String → Action (Unit {0})) → Action (Unit {0})
  confirm signature commitment error_callback = do
    latest_blockhash ← rpc.get_latest_blockhash
    result ← rpc.confirm_transaction signature latest_blockhash (commitment_or_default commitment)
    report result error_callback

  -- `confirm` of a `SentDataTransaction`
  unfoldable pub confirm_data :
      {T : Type 0} → Sent T → Option String → Option (String → Action (Unit {0})) → Action T
  unfolding confirm
  confirm_data sent commitment error_callback = do
    confirm sent.signature commitment error_callback
    sent.data_callback

  report-ok :
      (result : Option String) (s s' : World)
      → report result none s ≡ (ok tt, s')
      → ◌≡◌ {A = Result ServiceError (Option String) × World} (ok result, s) (ok none, s')
  report-ok none s s' h = ap (λ p. (ok none, p.1)) h
  report-ok (some error) s s' h = cc

  -- A confirmation without an error callback gives the data only once the network has confirmed the
  -- transaction without an error, and the data is read from the world as it is then.
  pub confirm_data-ok :
      {T : Type 0} (sent : Sent T) (commitment : Option String) (s s' : World) (a : T)
      → confirm_data sent commitment none s ≡ (ok a, s')
      → (blockhash : Hash) × (s1 : World) × (s2 : World) × (rpc.get_latest_blockhash s
          ≡ (ok blockhash, s1))
        × (rpc.confirm_transaction sent.signature blockhash (commitment_or_default commitment) s1
            ≡ (ok none, s2))
        × (sent.data_callback s2 ≡ (ok a, s'))
  unfolding confirm_data
  confirm_data-ok sent commitment s s' a h =
      let (done, s2, confirmed, read) =
        resume-ok (confirm sent.signature commitment none s) _ a s' h in
      let (blockhash, s1, latest, rest) =
        resume-ok (rpc.get_latest_blockhash s) _ done s2 confirmed in
      let (result, s3, answered, reported) =
        resume-ok
          (rpc.confirm_transaction sent.signature blockhash (commitment_or_default commitment) s1) _
          done s2 rest in
      (blockhash, s1, s2, latest, answered ∙ report-ok result s3 s2 reported, read)
