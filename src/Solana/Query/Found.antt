-- ===== src/Solana/Query/Found.antt =====
-- What the paged search returns, told by reading the addresses one at a time.
use on_chain_identity_gatewa.Common.{
  ℕ, ◌≡◌, refl, Option, none, some, Bool, not, Result, ok, err, List, [], ◌∷◌, ◌++◌, map, arith,
  keep,
}
use on_chain_identity_gatewa.Common.Results.{◌>>=◌, >>=_congr, traverse, map_ok}
use on_chain_identity_gatewa.Solana.Web3.{Web3, Connection}
use on_chain_identity_gatewa.Solana.Seed.{natural}
use on_chain_identity_gatewa.Solana.Token.{GatewayTokenData, is_valid, TokenError}
use on_chain_identity_gatewa.Solana.Address.{gateway_token_address}
use on_chain_identity_gatewa.Solana.Query.{
  find_for_owner_and_network, get_gateway_token, token_of, wanted, indices, present, Token, sort_by,
  by_validity, of_seed, of_token,
}
use on_chain_identity_gatewa.Solana.Query.Order.{sort_by_validity}

-- The tokens that are there.
abbrev pub somes {ℓ} : {A : Type ℓ} → List (Option A) → List A
somes [] = []
somes (none ∷ os) = somes os
somes (some a ∷ os) = a ∷ somes os

-- Valid tokens first, each half in the order of the addresses.
abbrev pub valid_first {ℓ} : {A : Type ℓ} → (A → Bool) → List A → List A
valid_first valid xs = keep valid xs ++ keep (λ t. not (valid t)) xs

module _ (w : Web3) (decode : List ℕ → Option GatewayTokenData)
    (connection : Connection w.PublicKey) where
  open w use {PublicKey}

  traverse-present :
      (ks : List PublicKey)
      → traverse (token_of w decode) (present (map connection.get_account_info ks) ks)
        ≡ map_ok somes (traverse (get_gateway_token w decode connection) ks)
  unfolding get_gateway_token
  traverse-present [] = refl
  traverse-present (k ∷ ks) = ground (arith, traverse-present ks)

  sorted :
      (date_now : ℕ) (want : Token w decode → Bool)
      (r : Result TokenError (List (Option (Token w decode))))
      → (of_token (map_ok somes r) >>= λ tokens.
          ok (sort_by (by_validity (is_valid date_now)) (keep want tokens)))
        ≡ (of_token r >>= λ found. ok (valid_first (is_valid date_now) (keep want (somes found))))
  sorted date_now want (ok found) = rw (sort_by_validity (is_valid date_now)) refl
  sorted date_now want (err e) = refl

  -- The paged search gives what reading the addresses of the page one by one with
  -- `getGatewayToken` gives, less the missing tokens and, unless they are asked for, the revoked
  -- ones, with the valid tokens first; it fails when one of these reads fails, with that error.
  pub find_for_owner_and_network_lem :
      (date_now : ℕ) (owner network : PublicKey) (include_revoked : Bool) (offset page : ℕ)
      → find_for_owner_and_network w decode date_now connection owner network include_revoked offset
          page
        ≡ (of_seed (
              traverse
                (λ i. gateway_token_address w owner network (natural i))
                (indices page offset))
            >>= λ addresses.
                of_token (traverse (get_gateway_token w decode connection) addresses) >>= λ found.
                ok (
                  valid_first
                    (is_valid date_now)
                    (keep (wanted w decode include_revoked) (somes found))))
  unfolding find_for_owner_and_network
  find_for_owner_and_network_lem date_now owner network include_revoked offset page =
      >>=_congr
        (of_seed
          (traverse (λ i. gateway_token_address w owner network (natural i)) (indices page offset)))
        _ _
        (λ addresses.
          rw (connection.get_multiple_lem addresses, traverse-present addresses)
            (sorted date_now (wanted w decode include_revoked)
              (traverse (get_gateway_token w decode connection) addresses)))
