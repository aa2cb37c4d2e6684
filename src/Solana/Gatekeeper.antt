-- ===== src/Solana/Gatekeeper.antt =====
-- The gatekeeper library: solana/gatekeeper-lib/src. What it takes from @solana/web3.js beside keys
-- (a transaction's signing, the RPC calls that change the world) is a parameter; a transaction's
-- public fields, which the source reads and assigns, are a record.
pub mod Options
pub mod Charge
pub mod Sending
pub mod Airdrop
pub mod Service
pub mod Network
use Prim.Native.String.{String}
use on_chain_identity_gatewa.Common.{
  ℕ, ◌≡◌, Option, none, some, Bool, true, false, ◌||◌, Result, ok, err, List, [], ◌∷◌, any, All,
}
use on_chain_identity_gatewa.Common.Io.{Io}
use on_chain_identity_gatewa.Solana.Web3.{Web3, Connection}
use on_chain_identity_gatewa.Solana.Instruction.{TransactionInstruction}

-- What the library throws, and what the packages throw through it; `undefined_key` is a public key
-- that is missing where a transaction is built or compiled.
pub data ServiceError : Type 0 where
  rpc_failed signing_failed undefined_key seed_failed token_unreadable : ServiceError
  token_missing not_validly_signed airdrop_failed : ServiceError
  not_confirmed : String → ServiceError

-- `NonceInformation` and `Blockhash` as web3.js has them; `HashOrNonce`
pub data HashOrNonce (H N : Type 0) : Type 0 where
  recent_blockhash : H → HashOrNonce H N
  nonce : N → HashOrNonce H N
  find : HashOrNonce H N

-- An instruction: of the gateway program, or of another with the arguments of the call that makes it.
pub data Instruction (K : Type 0) : Type 0 where
  gateway : TransactionInstruction K → Instruction K
  system_transfer : (from_pubkey to_pubkey : K) (lamports : ℕ) → Instruction K
  token_transfer : (source destination owner : K) (amount : ℕ) → Instruction K
  set_compute_unit_limit : (units : ℕ) → Instruction K
  set_compute_unit_price : (micro_lamports : ℕ) → Instruction K

-- The public fields of a `Transaction`; of `signatures`, the keys.
pub record Transaction (K H N : Type 0) : Type 0 where
  pub fee_payer : Option K
  pub instructions : List (Instruction K)
  pub recent_blockhash : Option H
  pub nonce_info : Option N
  pub signatures : List K

abbrev pub new_transaction : {K H N : Type 0} → List (Instruction K) → Transaction K H N
new_transaction instructions = record {
  fee_payer = none;
  instructions = instructions;
  recent_blockhash = none;
  nonce_info = none;
  signatures = [];
}

-- The calls of web3.js. `partialSign` throws, or it adds the signers to the signatures and leaves
-- the rest of the transaction as it is.
pub record Rpc (w : Web3) : Type 1 where
  pub World : Type 0
  pub Hash : Type 0
  pub Nonce : Type 0
  pub Signature : Type 0
  pub connection : World → Connection w.PublicKey
  pub get_latest_blockhash : Io World ServiceError Hash
  pub send_raw_transaction :
      Transaction w.PublicKey Hash Nonce
      → (preflight_commitment : Option String) → Io World ServiceError Signature
  pub confirm_transaction :
      Signature → Hash → (commitment : String) → Io World ServiceError (Option String)
  pub verify_signatures : Transaction w.PublicKey Hash Nonce → Bool
  pub partial_sign :
      List w.PublicKey
      → Transaction w.PublicKey Hash Nonce
      → Result ServiceError (Transaction w.PublicKey Hash Nonce)
  pub partial_sign_lem :
      (ks : List w.PublicKey) (t t' : Transaction w.PublicKey Hash Nonce)
      → partial_sign ks t ≡ ok t'
      → (t' ≡ record t { signatures = t'.signatures })
        × All (λ k. any (w.equals k) t'.signatures ≡ true) ks

abbrev pub solana_commitment : String
solana_commitment = "confirmed"

-- `CU_LIMIT`
abbrev pub cu_limit : ℕ
cu_limit = 100000
