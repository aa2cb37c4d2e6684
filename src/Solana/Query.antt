-- ===== src/Solana/Query.antt =====
-- Finding gateway tokens on the chain (solana/gateway-ts/src/index.ts). A `Connection` is one
-- state of the chain; borsh's decoder is the argument `decode`; `Date.now()` is read once for a
-- whole sort.
pub mod Order
pub mod Found
pub mod Holder
pub mod Accounts
use on_chain_identity_gatewa.Common.{
  ℕ, zero, suc, ◌+◌, Option, none, some, Bool, true, false, not, ◌||◌, Result, ok, err, List, [],
  ◌∷◌, map, keep, if◌then◌else◌,
}
use on_chain_identity_gatewa.Common.Results.{◌>>=◌, traverse}
use on_chain_identity_gatewa.Solana.Web3.{Web3, Account, Connection}
use on_chain_identity_gatewa.Solana.Seed.{SeedError, natural}
use on_chain_identity_gatewa.Solana.Token.{
  TokenError, decode_error, GatewayToken, GatewayTokenData, data_to_gateway_token, is_valid,
  is_revoked,
}
use on_chain_identity_gatewa.Solana.Address.{gateway_token_address}

-- What a query rejects with.
pub data QueryError : Type 0 where
  seed : SeedError → QueryError
  token : TokenError → QueryError

abbrev pub of_seed {ℓ} : {A : Type ℓ} → Result SeedError A → Result QueryError A
of_seed (ok a) = ok a
of_seed (err e) = err (seed e)

abbrev pub of_token {ℓ} : {A : Type ℓ} → Result TokenError A → Result QueryError A
of_token (ok a) = ok a
of_token (err e) = err (token e)

-- The sign of a comparator's number.
pub data Sign : Type 0 where
  minus null plus : Sign

-- `Array.prototype.sort` with a comparator, which is stable.
module _ {ℓ} {A : Type ℓ} (cmp : A → A → Sign) where
  pub insert_by : A → List A → List A
  insert_by x [] = x ∷ []
  insert_by x (y ∷ ys) = elim (cmp x y) [ plus ↦ y ∷ insert_by x ys | _ ↦ x ∷ y ∷ ys ]

  pub sort_by : List A → List A
  unfolding insert_by
  sort_by [] = []
  sort_by (x ∷ xs) = insert_by x (sort_by xs)

-- `(a, b) => (a.isValid() === b.isValid() ? 0 : a.isValid() ? -1 : 1)`
abbrev pub by_validity {ℓ} : {A : Type ℓ} → (A → Bool) → A → A → Sign
by_validity valid a b =
    if valid a then (if valid b then null else minus) else (if valid b then plus else null)

-- `Array.from({ length }, (_, index) => index + offset)`
abbrev pub indices : ℕ → ℕ → List ℕ
indices zero offset = []
indices (suc length) offset = offset ∷ indices length (suc offset)

-- `.map((account, index) => [account, addresses[index]]).filter((tuple) => tuple[0] !== null)`
abbrev pub present {ℓ κ} : {A : Type ℓ} {K : Type κ} → List (Option A) → List K → List (A × K)
present [] ks = []
present (a ∷ as') [] = []
present (none ∷ as') (k ∷ ks) = present as' ks
present (some a ∷ as') (k ∷ ks) = (a, k) ∷ present as' ks

module _ (w : Web3) (decode : List ℕ → Option GatewayTokenData) where
  open w use {PublicKey}

  abbrev pub Token : Type 0
  Token = GatewayToken PublicKey

  -- `dataToGatewayToken(GatewayTokenData.fromAccount(account.data), address)`
  unfoldable pub token_of : Account PublicKey × PublicKey → Result TokenError Token
  token_of (account, address) = elim (decode account.content) [
    | none ↦ err decode_error
    | some parsed ↦ data_to_gateway_token w parsed address
  ]

  -- `gt.state !== State.REVOKED || includeRevoked`
  abbrev pub wanted : Bool → Token → Bool
  wanted include_revoked t = not (is_revoked t.state) || include_revoked

  pub find_for_owner_and_network :
      (date_now : ℕ)
      → Connection PublicKey
      → PublicKey
      → PublicKey
      → Bool
      → ℕ
      → ℕ
      → Result QueryError (List Token)
  unfolding sort_by
  find_for_owner_and_network date_now connection owner network include_revoked offset page = do
    addresses ←
        of_seed
          (traverse (λ i. gateway_token_address w owner network (natural i)) (indices page offset))
    let raw_accounts = connection.get_multiple_accounts_info addresses
    tokens ← of_token (traverse token_of (present raw_accounts addresses))
    ok (sort_by (by_validity (is_valid date_now)) (keep (wanted include_revoked) tokens))

  abbrev first : List Token → Option Token
  first [] = none
  first (t ∷ ts) = some t

  -- `findGatewayToken`, with the defaults `offset = 0` and `page = 5`
  pub find_gateway_token :
      (date_now : ℕ)
      → Connection PublicKey
      → PublicKey
      → PublicKey
      → Bool
      → Result QueryError (Option Token)
  unfolding find_for_owner_and_network
  find_gateway_token date_now connection owner network include_revoked = do
    tokens ← find_for_owner_and_network date_now connection owner network include_revoked 0 5
    ok (first tokens)

  -- `getGatewayToken`
  unfoldable pub get_gateway_token :
      Connection PublicKey → PublicKey → Result TokenError (Option Token)
  unfolding token_of
  get_gateway_token connection address = elim (connection.get_account_info address) [
    | none ↦ ok none
    | some account ↦ token_of (account, address) >>= λ t. ok (some t)
  ]
