-- ===== src/Solana/Query/Accounts.antt =====
-- Finding gateway tokens by the bytes of their accounts, and watching one
-- (solana/gateway-ts/src/index.ts: findGatewayTokens, onGatewayTokenChange, onGatewayToken).
pub mod Layout
use on_chain_identity_gatewa.Common.{
  ℕ, zero, suc, ◌+◌, ◌==◌, ◌≡◌, Option, none, some, Bool, true, false, not, ◌&&◌, Result, ok, err,
  List, [], ◌∷◌, ◌++◌, map, keep, if◌then◌else◌,
}
use on_chain_identity_gatewa.Common.Results.{◌>>=◌, traverse}
use on_chain_identity_gatewa.Solana.Web3.{Web3, Account}
use on_chain_identity_gatewa.Solana.Seed.{SeedError, natural}
use on_chain_identity_gatewa.Solana.Token.{TokenError, GatewayToken, GatewayTokenData}
use on_chain_identity_gatewa.Solana.Address.{gateway_token_address}
use on_chain_identity_gatewa.Solana.Query.{token_of, wanted}

-- The two offsets of util.ts
abbrev pub owner_field_offset : ℕ
owner_field_offset = 2

abbrev pub gatekeeper_network_field_offset : ℕ
gatekeeper_network_field_offset = 35

-- `{ memcmp: { offset, bytes } }`, with the bytes that the text stands for
pub record Memcmp : Type 0 where
  pub offset : ℕ
  pub compared : List ℕ

abbrev pub drop : ℕ → List ℕ → List ℕ
drop zero xs = xs
drop (suc n) [] = []
drop (suc n) (x ∷ xs) = drop n xs

abbrev pub starts_with : List ℕ → List ℕ → Bool
starts_with [] xs = true
starts_with (b ∷ bs) [] = false
starts_with (b ∷ bs) (x ∷ xs) = b == x && starts_with bs xs

abbrev pub passes : List Memcmp → List ℕ → Bool
passes [] content = true
passes (f ∷ fs) content = starts_with f.compared (drop f.offset content) && passes fs content

-- `[...].filter(Boolean)`
abbrev pub defined : {A : Type 0} → List (Option A) → List A
defined [] = []
defined (none ∷ xs) = defined xs
defined (some x ∷ xs) = x ∷ defined xs

module _ (w : Web3) (decode : List ℕ → Option GatewayTokenData) where
  open w use {PublicKey, to_buffer}

  abbrev pub ProgramAccount : Type 0
  ProgramAccount = Account PublicKey × PublicKey

  -- The filters of a query; a page is the first byte of the owner.
  unfoldable pub filters : (owner : Option PublicKey) → PublicKey → (page : Option ℕ) → List Memcmp
  filters owner network page = defined (
      elim owner [
        | none ↦ none
        | some key ↦ some (record { offset = owner_field_offset; compared = to_buffer key })
      ]
      ∷ some (record { offset = gatekeeper_network_field_offset; compared = to_buffer network })
      ∷ elim page [
        | none ↦ none
        | some byte ↦ some (record { offset = owner_field_offset; compared = byte ∷ [] })
      ]
      ∷ [])

  -- `findGatewayTokens`, where the RPC node answers with the program's accounts that pass all filters.
  unfoldable pub find_gateway_tokens :
      List ProgramAccount
      → Option PublicKey
      → PublicKey
      → Bool
      → Option ℕ
      → Result TokenError (List (GatewayToken PublicKey))
  find_gateway_tokens accounts owner network include_revoked page = do
    tokens ←
        traverse (token_of w decode)
          (keep (λ a. passes (filters owner network page) a.0.content) accounts)
    ok (keep (wanted w decode include_revoked) tokens)

  -- `onGatewayTokenChange`: what the callback is given for each change of the account, in order; a
  -- change that does not decode throws in the listener.
  unfoldable pub on_gateway_token_change :
      PublicKey
      → (changes : List (Account PublicKey)) → List (Result TokenError (GatewayToken PublicKey))
  on_gateway_token_change address changes =
      map (λ account. token_of w decode (account, address)) changes

  -- `onGatewayToken`
  unfoldable pub on_gateway_token :
      (owner network : PublicKey) (seed : ℕ) (changes : PublicKey → List (Account PublicKey))
      → Result SeedError (List (Result TokenError (GatewayToken PublicKey)))
  on_gateway_token owner network seed changes = do
    address ← gateway_token_address w owner network (natural seed)
    ok (on_gateway_token_change address (changes address))
