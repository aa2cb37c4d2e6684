-- ===== src/Solana/Tests/AccountTests.antt =====
-- Finding tokens by the bytes of their accounts, among one account of 67 bytes.
use on_chain_identity_gatewa.Common.{
  ℕ, ◌≡◌, refl, Option, none, some, true, false, List, [], ◌∷◌, ◌++◌, All, length,
}
use on_chain_identity_gatewa.Common.Lists.{replicate}
use on_chain_identity_gatewa.Solana.Web3.{Web3}
use on_chain_identity_gatewa.Solana.Token.{
  GatewayTokenData, data_to_gateway_token, from_gateway_token_state,
}
use on_chain_identity_gatewa.Solana.Query.{token_of, wanted}
use on_chain_identity_gatewa.Solana.Query.Accounts.{ProgramAccount, find_gateway_tokens, filters}
use on_chain_identity_gatewa.Solana.Query.Accounts.Layout.{
  HasLayout, Matches, find_gateway_tokens-Matches,
}
use on_chain_identity_gatewa.Solana.Tests.{web3}
use on_chain_identity_gatewa.Solana.Tests.QueryTests.{account_data, token}

-- Keys of 32 bytes.
abbrev wide : ℕ → List ℕ
wide key = key ∷ replicate 31 0

abbrev wide_web3 : Web3
wide_web3 = record web3 { to_buffer = wide; of_bytes-to_buffer = λ key. refl }

abbrev wide_data : GatewayTokenData
wide_data = record account_data { owner = wide 7; gatekeeper_network = wide 6 }

abbrev wide_decode : List ℕ → Option GatewayTokenData
wide_decode content = some wide_data

abbrev account : ProgramAccount wide_web3 wide_decode
account = (record { owner = 1; content = 0 ∷ 0 ∷ (wide 7 ++ 0 ∷ (wide 6 ++ [])) }, 14)

account_layout : HasLayout wide_web3 wide_decode account.0.content
account_layout = record {
  version = 0;
  owner = wide 7;
  network = wide 6;
  rest = [];
  parsed = wide_data;
  laid_out = refl;
  owner_length = refl;
  network_length = refl;
  decoded = refl;
  same_owner = refl;
  same_network = refl;
}

length-wide : (key : ℕ) → length (wide key) ≡ 32
length-wide key = refl

find_gateway_tokens-Matches_example :
    All
      (λ t.
        Matches wide_web3 wide_decode (some 7) 6 t × (wanted wide_web3 wide_decode false t ≡ true))
      (token ∷ [])
unfolding find_gateway_tokens filters token_of data_to_gateway_token from_gateway_token_state
find_gateway_tokens-Matches_example =
    find_gateway_tokens-Matches wide_web3 wide_decode (account ∷ []) (some 7) 6 false none
      (token ∷ []) length-wide (account_layout, tt) refl
