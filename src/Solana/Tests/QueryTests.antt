-- ===== src/Solana/Tests/QueryTests.antt =====
-- The searches of the client library at a concrete chain.
use on_chain_identity_gatewa.Common.{
  ℕ, ◌≡◌, refl, inl, inr, Option, none, some, true, false, ok, List, [], ◌∷◌, map, arith, ◌==◌,
  if◌then◌else◌, keep, Bool-cases,
}
use on_chain_identity_gatewa.Common.Results.{◌>>=◌, traverse}
use on_chain_identity_gatewa.Solana.Web3.{Account, Connection}
use on_chain_identity_gatewa.Solana.Seed.{natural, padded_seed}
use on_chain_identity_gatewa.Solana.Token.{
  GatewayToken, GatewayTokenData, State, is_valid, data_to_gateway_token, from_gateway_token_state,
}
use on_chain_identity_gatewa.Solana.Token
use on_chain_identity_gatewa.Solana.Address.{gateway_token_address}
use on_chain_identity_gatewa.Solana.Query.{
  find_for_owner_and_network, find_gateway_token, get_gateway_token, token_of, wanted, indices,
  of_seed, of_token, Token,
}
use on_chain_identity_gatewa.Solana.Query.Found.{find_for_owner_and_network_lem, valid_first, somes}
use on_chain_identity_gatewa.Solana.Query.Holder.{find_gateway_token_valid, HoldsValid}
use on_chain_identity_gatewa.Solana.Tests.{web3}

abbrev pub account_data : GatewayTokenData
account_data = record {
  version = 0;
  parent_gateway_token = none;
  owner = 7 ∷ [];
  owner_identity = none;
  gatekeeper_network = 6 ∷ [];
  issuing_gatekeeper = 5 ∷ [];
  state = record { has_active = true; has_frozen = false; has_revoked = false; enum = "active" };
  expiry = none;
}

abbrev pub decode : List ℕ → Option GatewayTokenData
decode content = some account_data

abbrev pub account_at : ℕ → Option (Account ℕ)
account_at k = if k == 14 then some (record { owner = 1; content = 9 ∷ [] }) else none

abbrev pub connection : Connection ℕ
connection = record {
  get_account_info = account_at;
  get_multiple_accounts_info = λ ks. map account_at ks;
  get_multiple_lem = λ ks. refl;
}

abbrev pub token : GatewayToken ℕ
token = record {
  issuing_gatekeeper = 5;
  gatekeeper_network = 6;
  owner = 7;
  state = Token.State.active;
  public_key = 14;
  program_id = 1;
  expiry_time = none;
}

find_for_owner_and_network_lem_example :
    find_for_owner_and_network web3 decode 5000 connection 7 6 false 0 2 ≡ (
      of_seed (traverse (λ i. gateway_token_address web3 7 6 (natural i)) (indices 2 0))
      >>= λ addresses.
          of_token (traverse (get_gateway_token web3 decode connection) addresses) >>= λ found.
          ok (valid_first (is_valid 5000) (keep (wanted web3 decode false) (somes found))))
find_for_owner_and_network_lem_example =
    find_for_owner_and_network_lem web3 decode connection 5000 7 6 false 0 2

read_any :
    (a : ℕ) → (o : Option (Token web3 decode)) × (get_gateway_token web3 decode connection a ≡ ok o)
unfolding get_gateway_token token_of data_to_gateway_token from_gateway_token_state
read_any a = elim (Bool-cases (a == 14)) [
  | inl there ↦ (some (record token { public_key = a }), ground arith)
  | inr nowhere ↦ (none, ground arith)
]

valid_first_index : HoldsValid web3 decode connection 7 6 5000 0
unfolding gateway_token_address padded_seed get_gateway_token token_of data_to_gateway_token
    from_gateway_token_state is_valid
valid_first_index = (14, refl, token, refl, refl)

find_gateway_token_valid_example :
    (t : Token web3 decode) × (find_gateway_token web3 decode 5000 connection 7 6 false
      ≡ ok (some t))
    × (is_valid 5000 t ≡ true)
find_gateway_token_valid_example =
    find_gateway_token_valid web3 decode connection 7 6 5000 false 0 (λ j h a e. read_any a)
      (omega arith) valid_first_index
