-- ===== src/Solana/Program.antt =====
-- The on-chain program: solana/program/src/state.rs and processor.rs. An instruction runs on the
-- ledger and on the list of accounts that it is given; what it returns is the new ledger or an
-- error, which leaves the ledger as it was.
pub mod Process
pub mod Rules
pub mod States
pub mod Fate
pub mod History
pub mod Runs
use on_chain_identity_gatewa.Common.{
  ℕ, ◌+◌, ◌-◌, ◌≤◌, ◌≡◌, ◌≢◌, Option, none, some, Bool, true, false, not, ◌&&◌, ◌||◌, Result, ok,
  err, List, [], ◌∷◌, replicate, if◌then◌else◌,
}
use on_chain_identity_gatewa.Common.Results.{◌>>=◌}
use on_chain_identity_gatewa.Common.Int.{ℤ, pos, ◌-ℤ◌, ltb_ℤ}
use on_chain_identity_gatewa.Solana.Web3.{Web3, utf8}

-- `enum GatewayTokenState`
pub data TokenState : Type 0 where
  active frozen revoked : TokenState

-- `struct GatewayToken`
pub record TokenAccount (K : Type 0) : Type 0 where
  pub version : ℕ
  pub parent_gateway_token : Option K
  pub owner_wallet : K
  pub owner_identity : Option K
  pub gatekeeper_network : K
  pub issuing_gatekeeper : K
  pub state : TokenState
  pub expire_time : Option ℤ

-- `enum GatewayError`, those that the processor returns, and the `ProgramError`s; `panicked` is a
-- failed `unwrap` or a second mutable borrow, which aborts the instruction, and `missing_account` is the
-- runtime's for a program that is called without being among the accounts.
pub data ProgramError : Type 0 where
  not_enough_account_keys missing_account missing_required_signature invalid_argument
        incorrect_program_id :
      ProgramError
  account_already_initialized illegal_owner invalid_account_data io_error invoke_error :
      ProgramError
  incorrect_gatekeeper invalid_owner invalid_token invalid_state_change burn_error : ProgramError
  token_program_id panicked : ProgramError

-- The state of one account on the ledger.
pub record Cell (K : Type 0) : Type 0 where
  pub owner : K
  pub lamports : ℕ
  pub content : List ℕ

abbrev pub Ledger : Type 0 → Type 0
Ledger K = K → Cell K

-- `AccountInfo`, less what the ledger holds.
pub record AccountInfo (K : Type 0) : Type 0 where
  pub key : K
  pub is_signer : Bool

-- What the program takes from borsh, the runtime and the system program. Writing a token into an
-- account's data, where there is room, makes it parse to that token; a successful `create_account`
-- found the account with the system program and gives it the new owner and that many zero bytes,
-- and no other account changes its owner or data.
pub record Runtime (w : Web3) : Type 0 where
  pub parse : List ℕ → Option (TokenAccount w.PublicKey)
  pub serialize : TokenAccount w.PublicKey → List ℕ → Option (List ℕ)
  pub parse-serialize :
      (t : TokenAccount w.PublicKey) (d d' : List ℕ) → serialize t d ≡ some d' → parse d' ≡ some t
  pub clock : ℤ
  pub minimum_balance : ℕ → ℕ
  pub create_account :
      (funder account : w.PublicKey) (lamports space : ℕ) (owner : w.PublicKey)
      → List (List ℕ)
      → Ledger w.PublicKey
      → Option (Ledger w.PublicKey)
  pub create_account_lem :
      (funder account : w.PublicKey) (lamports space : ℕ) (owner : w.PublicKey)
      (seeds : List (List ℕ)) (l l' : Ledger w.PublicKey)
      → create_account funder account lamports space owner seeds l ≡ some l'
      → ((l account).owner ≡ w.system_program_id)
        × ((l' account).owner ≡ owner)
        × ((l' account).content ≡ replicate space 0)
        × ((j : w.PublicKey)
            → j ≢ account
            → ((l' j).owner ≡ (l j).owner) × ((l' j).content ≡ (l j).content))
  pub bump : List (List ℕ) → ℕ
  pub networks_with_expire_addresses : List (w.PublicKey × w.PublicKey)

-- `GatewayToken::SIZE`
abbrev pub token_size : ℕ
token_size = 1 + 1 + 32 + 1 + 32 + 32 + 1 + (1 + 8)

-- `is_valid_state_change(&self, new_state)`
unfoldable pub is_valid_state_change : TokenState → TokenState → Bool
is_valid_state_change frozen active = true
is_valid_state_change active frozen = true
is_valid_state_change active revoked = true
is_valid_state_change frozen revoked = true
is_valid_state_change _ _ = false

-- `before_now`. Timestamps are integers here: the clock is far from the bounds of an `i64`, so that
-- the subtraction does not overflow.
abbrev pub before_now : ℤ → ℤ → ℕ → Bool
before_now clock timestamp tolerance = ltb_ℤ timestamp (clock -ℤ pos tolerance)

abbrev pub expired_at : ℤ → Option ℤ → ℕ → Bool
expired_at clock none tolerance = false
expired_at clock (some t) tolerance = before_now clock t tolerance

abbrev pub is_valid_state : TokenState → Bool
is_valid_state active = true
is_valid_state _ = false

abbrev pub same_state : TokenState → TokenState → Bool
same_state active active = true
same_state frozen frozen = true
same_state revoked revoked = true
same_state _ _ = false

module _ {K : Type 0} where
  unfoldable pub has_expired : ℤ → TokenAccount K → ℕ → Bool
  has_expired clock t tolerance = expired_at clock t.expire_time tolerance

  -- `GatewayTokenFunctions::is_valid`
  unfoldable pub is_valid : ℤ → TokenAccount K → Bool
  unfolding has_expired
  is_valid clock t = is_valid_state t.state && not (has_expired clock t 0)

  -- `GatewayToken::new`
  pub new_token : (owner network gatekeeper : K) → Option ℤ → TokenAccount K
  new_token owner network gatekeeper expire_time = record {
    version = 0;
    parent_gateway_token = none;
    owner_wallet = owner;
    owner_identity = none;
    gatekeeper_network = network;
    issuing_gatekeeper = gatekeeper;
    state = active;
    expire_time = expire_time;
  }

module _ (w : Web3) where
  open w use {PublicKey, equals, to_buffer, find_program_address, program_id}

  abbrev pub gatekeeper_seeds : PublicKey → PublicKey → List (List ℕ)
  gatekeeper_seeds authority network =
      to_buffer authority ∷ to_buffer network ∷ utf8 "gatekeeper" ∷ []

  -- `get_gatekeeper_account_address`, its address
  unfoldable pub get_gatekeeper_account_address : PublicKey → PublicKey → PublicKey
  get_gatekeeper_account_address authority network =
      find_program_address (gatekeeper_seeds authority network) program_id

  abbrev unwrap_or_default : Option (List ℕ) → List ℕ
  unwrap_or_default none = replicate 8 0
  unwrap_or_default (some seed) = seed

  abbrev pub token_seeds : PublicKey → Option (List ℕ) → PublicKey → List (List ℕ)
  token_seeds owner additional_seed network =
      to_buffer owner ∷ utf8 "gateway" ∷ unwrap_or_default additional_seed ∷ to_buffer network ∷ []

  -- `get_gateway_token_address_with_seed`, its address
  unfoldable pub get_gateway_token_address_with_seed :
      PublicKey → Option (List ℕ) → PublicKey → PublicKey
  get_gateway_token_address_with_seed owner additional_seed network =
      find_program_address (token_seeds owner additional_seed network) program_id

  unfoldable pub cached_or : List (PublicKey × PublicKey) → PublicKey → PublicKey
  cached_or [] network = find_program_address (to_buffer network ∷ utf8 "expire" ∷ []) program_id
  cached_or ((address, expire_address) ∷ rest) network =
      if equals address network then expire_address else cached_or rest network

  -- `get_expire_address_with_seed`, its address: a precomputed one, or the derived one
  unfoldable pub get_expire_address_with_seed : Runtime w → PublicKey → PublicKey
  unfolding cached_or
  get_expire_address_with_seed r network = cached_or r.networks_with_expire_addresses network

  -- Write one account.
  abbrev pub put : PublicKey → Cell PublicKey → Ledger PublicKey → Ledger PublicKey
  put k c l j = if equals k j then c else l j

  unfoldable pub verify_gatekeeper_address_and_account :
      Ledger PublicKey → (account gatekeeper network : PublicKey) → Result ProgramError (Unit {0})
  unfolding get_gatekeeper_account_address
  verify_gatekeeper_address_and_account l account gatekeeper network =
      if not (equals (l account).owner program_id)
      then err token_program_id
      else if not (equals (get_gatekeeper_account_address gatekeeper network) account)
      then err incorrect_gatekeeper
      else ok tt
