-- ===== src/Solana/Gatekeeper/Network.antt =====
-- `GatekeeperNetworkService` and `SimpleGatekeeperNetworkService`:
-- solana/gatekeeper-lib/src/service/gatekeeper-network-service.ts.
use on_chain_identity_gatewa.Common.{◌≡◌, refl, ap, none, some, Bool, true, false, ok, [], ◌∷◌}
use on_chain_identity_gatewa.Common.Io.{Io, ◌>>=◌, resume-ok, lift, return}
use on_chain_identity_gatewa.Solana.Web3.{Web3}
use on_chain_identity_gatewa.Solana.Address.{
  NetworkFeature, gatekeeper_account_address, feature_account_address, feature_exists,
}
use on_chain_identity_gatewa.Solana.Instruction.{
  TransactionInstruction, make_add_gatekeeper, make_revoke_gatekeeper, make_add_feature_to_network,
  make_remove_feature_from_network,
}
use on_chain_identity_gatewa.Solana.Gatekeeper.{
  ServiceError, undefined_key, HashOrNonce, Rpc, gateway,
}
use on_chain_identity_gatewa.Solana.Gatekeeper.Options.{
  value, absent, network_options, Options, Found, with_hash-Found,
}
use on_chain_identity_gatewa.Solana.Gatekeeper.Sending.{Sendable, finish, send, confirm_data}
use on_chain_identity_gatewa.Solana.Gatekeeper.Service.{require}
use on_chain_identity_gatewa.Solana.Gatekeeper.Service.Laws.{
  gateway_only, HasHash, Signed, finish-Built,
}

module _ (w : Web3) (rpc : Rpc w) (network : w.PublicKey) where
  open w use {PublicKey}
  open rpc use {World, Hash, Nonce}

  abbrev Made : Type 0
  Made = Io World ServiceError (Sendable w rpc PublicKey)

  -- What the four methods share: the options, a transaction of one instruction made with the rent
  -- payer, and the key that is its data.
  abbrev pub make :
      (PublicKey → TransactionInstruction PublicKey) → PublicKey → Options w rpc → Made
  make instruction key options = do
    normalized ← network_options w rpc network options
    rent_payer ← lift (require undefined_key (value normalized.rent_payer))
    finish w rpc network normalized (gateway (instruction rent_payer) ∷ []) (return key)

  unfoldable pub add_gatekeeper : PublicKey → Options w rpc → Made
  add_gatekeeper authority options =
      let account = gatekeeper_account_address w authority network in
      make (λ rent_payer. make_add_gatekeeper w rent_payer account authority network) account
        options

  unfoldable pub revoke_gatekeeper : PublicKey → Options w rpc → Made
  revoke_gatekeeper authority options =
      let account = gatekeeper_account_address w authority network in
      make (λ rent_payer. make_revoke_gatekeeper w rent_payer account authority network) account
        options

  -- `Boolean(gatekeeperAccountInfo)`
  unfoldable pub has_gatekeeper : PublicKey → World → Bool
  has_gatekeeper authority s =
      elim ((rpc.connection s).get_account_info (gatekeeper_account_address w authority network)) [
        | none ↦ false
        | some _ ↦ true
      ]

  -- `hashOrNonce` is a parameter that the source does not use.
  unfoldable pub add_network_feature :
      HashOrNonce Hash Nonce → NetworkFeature → Options w rpc → Made
  add_network_feature hash_or_nonce feature options =
      make (λ rent_payer. make_add_feature_to_network w rent_payer network feature)
        (feature_account_address w feature network) options

  unfoldable pub remove_network_feature :
      HashOrNonce Hash Nonce → NetworkFeature → Options w rpc → Made
  remove_network_feature hash_or_nonce feature options =
      make (λ rent_payer. make_remove_feature_from_network w rent_payer network feature)
        (feature_account_address w feature network) options

  unfoldable pub has_network_feature : NetworkFeature → World → Bool
  has_network_feature feature s = feature_exists w (rpc.connection s) feature network

  -- `.then((result) => result.send()).then((result) => result.confirm())`
  abbrev send_and_confirm : Made → Io World ServiceError PublicKey
  send_and_confirm built = do
    sendable ← built
    sent ← send w rpc absent [] sendable
    confirm_data w rpc sent none none

  unfoldable pub simple_add_gatekeeper : PublicKey → Options w rpc → Io World ServiceError PublicKey
  unfolding add_gatekeeper
  simple_add_gatekeeper authority options = send_and_confirm (add_gatekeeper authority options)

  unfoldable pub simple_revoke_gatekeeper :
      PublicKey → Options w rpc → Io World ServiceError PublicKey
  unfolding revoke_gatekeeper
  simple_revoke_gatekeeper authority options =
      send_and_confirm (revoke_gatekeeper authority options)

  unfoldable pub simple_add_network_feature :
      HashOrNonce Hash Nonce → NetworkFeature → Options w rpc → Io World ServiceError PublicKey
  unfolding add_network_feature
  simple_add_network_feature hash_or_nonce feature options =
      send_and_confirm (add_network_feature hash_or_nonce feature options)

  unfoldable pub simple_remove_network_feature :
      HashOrNonce Hash Nonce → NetworkFeature → Options w rpc → Io World ServiceError PublicKey
  unfolding remove_network_feature
  simple_remove_network_feature hash_or_nonce feature options =
      send_and_confirm (remove_network_feature hash_or_nonce feature options)

  -- One gateway instruction, made with the options' rent payer; a hash or nonce, the network's
  -- signature, and this key as data.
  abbrev pub Makes :
      (PublicKey → TransactionInstruction PublicKey) → PublicKey → Sendable w rpc PublicKey → Type 0
  Makes instruction key b =
      (rent_payer : PublicKey) × (gateway_only b.transaction.instructions
        ≡ instruction rent_payer ∷ [])
      × HasHash b.transaction
      × Signed w rpc network b.transaction
      × (b.data_callback ≡ return key)

  require-Makes :
      (instruction : PublicKey → TransactionInstruction PublicKey) (key : PublicKey)
      (o : Options w rpc) (b : Sendable w rpc PublicKey) (s s' : World)
      → Found w rpc o
      → (lift (require undefined_key (value o.rent_payer)) >>= λ rent_payer.
            finish w rpc network o (gateway (instruction rent_payer) ∷ []) (return key))
          s
        ≡ (ok b, s')
      → Makes instruction key b
  require-Makes instruction key o b s s' found h =
      let (rent_payer, s1, given, rest) =
        resume-ok (lift (require undefined_key (value o.rent_payer)) s)
          (λ rent_payer.
            finish w rpc network o (gateway (instruction rent_payer) ∷ []) (return key))
          b s' h in
      let (made, _, hash, signed, reads) =
        finish-Built w rpc network o (gateway (instruction rent_payer) ∷ []) (return key) b s1 s'
          found rest in
      (rent_payer, ap gateway_only made, hash, signed, reads)

  -- Each method of the network's service builds a transaction of its one instruction, that the network
  -- has signed and that has a hash or nonce, whose data is the account's derived address.
  pub make-Makes :
      (instruction : PublicKey → TransactionInstruction PublicKey) (key : PublicKey)
      (options : Options w rpc) (b : Sendable w rpc PublicKey) (s s' : World)
      → make instruction key options s ≡ (ok b, s')
      → Makes instruction key b
  unfolding network_options
  make-Makes instruction key options b s s' h =
      let (o, s1, normalized, rest) =
        resume-ok (network_options w rpc network options s)
          (λ o. lift (require undefined_key (value o.rent_payer)) >>= λ rent_payer.
            finish w rpc network o (gateway (instruction rent_payer) ∷ []) (return key))
          b s' h in
      require-Makes instruction key o b s1 s' (with_hash-Found w rpc _ o s s1 normalized) rest

  -- The transaction of `addGatekeeper` adds the gatekeeper at the address that its data is, and the
  -- network has signed it.
  pub add_gatekeeper-Makes :
      (authority : PublicKey) (options : Options w rpc) (b : Sendable w rpc PublicKey)
      (s s' : World)
      → add_gatekeeper authority options s ≡ (ok b, s')
      → Makes
          (λ rent_payer.
            make_add_gatekeeper w rent_payer
              (gatekeeper_account_address w authority network)
              authority
              network)
          (gatekeeper_account_address w authority network)
          b
  unfolding add_gatekeeper
  add_gatekeeper-Makes authority options b s s' h = make-Makes _ _ options b s s' h

  -- The `hashOrNonce` that `addNetworkFeature` and `removeNetworkFeature` are given changes nothing.
  pub network_feature_ignores :
      (x y : HashOrNonce Hash Nonce) (feature : NetworkFeature) (options : Options w rpc)
      → (add_network_feature x feature options ≡ add_network_feature y feature options)
        × (remove_network_feature x feature options ≡ remove_network_feature y feature options)
  unfolding add_network_feature remove_network_feature
  network_feature_ignores x y feature options = (refl, refl)
