-- ===== src/Solana/Web3.antt =====
-- What solana/gateway-ts takes from @solana/web3.js, bn.js and borsh, as parameters of the model:
-- public keys and their derivation, 64-bit numbers, the account codec, and the RPC connection.
use Prim.Native.Char.{code}
use Prim.Native.String.{String}
use on_chain_identity_gatewa.Common.{
  ℕ, ◌<◌, ◌^◌, ◌≡◌, ◌≢◌, ◌↔◌, Bool, true, Option, some, List, [], ◌∷◌, map,
}

-- `Buffer.from(text, "utf8")` of an ASCII text.
abbrev pub utf8 : String → List ℕ
utf8 String.[] = []
utf8 (String.◌∷◌ c s) = code c ∷ utf8 s

-- The types and functions of the packages, with the behaviour that their documentation states:
-- `equals` compares keys, a key is rebuilt from its buffer, the gateway
-- program is not the system program, and `BN.toNumber` is exact below 2^53.
pub record Web3 : Type 1 where
  pub PublicKey : Type 0
  pub equals : PublicKey → PublicKey → Bool
  pub equals_iff : (a b : PublicKey) → (equals a b ≡ true) ↔ (a ≡ b)
  pub to_buffer : PublicKey → List ℕ
  pub of_bytes : List ℕ → PublicKey
  pub of_bytes-to_buffer : (a : PublicKey) → of_bytes (to_buffer a) ≡ a
  pub find_program_address : List (List ℕ) → PublicKey → PublicKey
  pub program_id : PublicKey
  pub system_program_id : PublicKey
  pub sysvar_rent : PublicKey
  pub program_ne_system : program_id ≢ system_program_id
  pub to_number : ℕ → Option ℕ
  pub to_number_exact : (n : ℕ) → n < 2 ^ 53 → to_number n ≡ some n

-- `AccountInfo<Buffer>`
pub record Account (K : Type 0) : Type 0 where
  pub owner : K
  pub content : List ℕ

-- The read calls of a `Connection`, at one state of the chain. `getMultipleAccountsInfo` returns
-- the accounts in the order of the addresses, `null` where there is none.
pub record Connection (K : Type 0) : Type 0 where
  pub get_account_info : K → Option (Account K)
  pub get_multiple_accounts_info : List K → List (Option (Account K))
  pub get_multiple_lem : (ks : List K) → get_multiple_accounts_info ks ≡ map get_account_info ks
