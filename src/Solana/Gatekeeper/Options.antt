-- ===== src/Solana/Gatekeeper/Options.antt =====
-- Options of a transaction: solana/gatekeeper-lib/src/util/types.ts, the `optionsWithDefaults` of
-- the two services, and util/transaction.ts. A property of an options object is absent or has a
-- value, which may be `undefined`: an object spread copies those that are there.
use Prim.Native.String.{String}
use mathlib.Core.Path.{subst}
use on_chain_identity_gatewa.Common.{ℕ, ◌≡◌, refl, Option, none, some, ok}
use on_chain_identity_gatewa.Common.Io.{Io, ◌>>=◌, return, resume-ok, return-ok}
use on_chain_identity_gatewa.Solana.Web3.{Web3}
use on_chain_identity_gatewa.Solana.Gatekeeper.{
  ServiceError, HashOrNonce, recent_blockhash, Rpc, solana_commitment,
}

pub data Property (A : Type 0) : Type 0 where
  absent undefined : Property A
  is : A → Property A

module _ {A : Type 0} where
  -- The property in `{ ...a, ...b }`
  unfoldable pub spread : Property A → Property A → Property A
  spread a absent = a
  spread a undefined = undefined
  spread a (is x) = is x

  -- What reading the property gives.
  abbrev pub value : Property A → Option A
  value (is x) = some x
  value _ = none

-- `TransactionOptions`
pub record TransactionOptions (K H N : Type 0) : Type 0 where
  pub fee_payer : Property K
  pub rent_payer : Property K
  pub commitment : Property String
  pub blockhash_or_nonce : Property (HashOrNonce H N)
  pub priority_fee_micro_lamports : Property ℕ

-- `{ ...a, ...b }`, and the parameter `options = {}`
module _ {K H N : Type 0} where
  unfoldable pub spread_options :
      TransactionOptions K H N → TransactionOptions K H N → TransactionOptions K H N
  unfolding spread
  spread_options a b = record {
    fee_payer = spread a.fee_payer b.fee_payer;
    rent_payer = spread a.rent_payer b.rent_payer;
    commitment = spread a.commitment b.commitment;
    blockhash_or_nonce = spread a.blockhash_or_nonce b.blockhash_or_nonce;
    priority_fee_micro_lamports =
        spread a.priority_fee_micro_lamports b.priority_fee_micro_lamports;
  }

  abbrev pub no_options : TransactionOptions K H N
  no_options = record {
    fee_payer = absent;
    rent_payer = absent;
    commitment = absent;
    blockhash_or_nonce = absent;
    priority_fee_micro_lamports = absent;
  }

  -- The literal that `optionsWithDefaults` starts with.
  abbrev pub default_options : K → TransactionOptions K H N
  default_options authority = record {
    fee_payer = is authority;
    rent_payer = is authority;
    commitment = is solana_commitment;
    blockhash_or_nonce = absent;
    priority_fee_micro_lamports = undefined;
  }

module _ (w : Web3) (rpc : Rpc w) where
  open w use {PublicKey}
  open rpc use {World, Hash, Nonce}

  abbrev pub Options : Type 0
  Options = TransactionOptions PublicKey Hash Nonce

  -- `getOrCreateBlockhashOrNonce`
  unfoldable pub get_or_create_blockhash_or_nonce :
      Option (HashOrNonce Hash Nonce) → Io World ServiceError (HashOrNonce Hash Nonce)
  get_or_create_blockhash_or_nonce (some given) = return given
  get_or_create_blockhash_or_nonce none = do
    blockhash ← rpc.get_latest_blockhash
    return (recent_blockhash blockhash)

  -- The options with their blockhash or nonce in place.
  abbrev pub with_hash : Options → Io World ServiceError Options
  with_hash options = do
    found ← get_or_create_blockhash_or_nonce (value options.blockhash_or_nonce)
    return (record options { blockhash_or_nonce = is found })

  -- `optionsWithDefaults` of `GatekeeperService`, which spreads its configuration first
  unfoldable pub gatekeeper_options :
      PublicKey → (config options : Options) → Io World ServiceError Options
  unfolding spread_options get_or_create_blockhash_or_nonce
  gatekeeper_options authority config options =
      with_hash (spread_options (spread_options (default_options authority) config) options)

  -- `optionsWithDefaults` of `GatekeeperNetworkService`
  unfoldable pub network_options : PublicKey → Options → Io World ServiceError Options
  unfolding spread_options get_or_create_blockhash_or_nonce
  network_options network options = with_hash (spread_options (default_options network) options)

  -- The options have a hash or a nonce.
  abbrev pub Found : Options → Type 0
  Found o = (found : HashOrNonce Hash Nonce) × (value o.blockhash_or_nonce ≡ some found)

  pub with_hash-Found :
      (options o : Options) (s s' : World) → with_hash options s ≡ (ok o, s') → Found o
  with_hash-Found options o s s' h =
      let set : HashOrNonce Hash Nonce → Io World ServiceError Options =
        λ found. return (record options { blockhash_or_nonce = is found }) in
      let (found, s1, asked, rest) =
        resume-ok (get_or_create_blockhash_or_nonce (value options.blockhash_or_nonce) s) set o s'
          h in
      subst Found (return-ok (record options { blockhash_or_nonce = is found }) o s1 s' rest).0
        (found, refl)
