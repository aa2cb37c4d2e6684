-- ===== src/Solana/Agreement.antt =====
-- Where the client (solana/gateway-ts/src) and the on-chain program (solana/program/src) must say
-- the same: the addresses that both derive, and when a token is valid.
use on_chain_identity_gatewa.Common.{
  ℕ, ◌/◌, ◌<◌, ◌≡◌, ◌≢◌, refl, sym, Option, none, some, true, false, not, ◌&&◌, List, [], ◌∷◌, ok,
  arith,
}
use on_chain_identity_gatewa.Common.Results.{>>=-ok}
use on_chain_identity_gatewa.Common.Int.{ℤ, pos}
use on_chain_identity_gatewa.Solana.Web3.{Web3}
use on_chain_identity_gatewa.Solana.Seed.{JsNumber, natural, padded_seed}
use on_chain_identity_gatewa.Solana.Address.{
  user_token_expiry, gateway_token_address, feature_account_address, map_enum_to_feature_name,
}
use on_chain_identity_gatewa.Solana.Token.{GatewayToken, State}
use on_chain_identity_gatewa.Solana.Token
use on_chain_identity_gatewa.Solana.Program.{
  TokenState, TokenAccount, Runtime, get_gateway_token_address_with_seed,
  get_expire_address_with_seed,
}
use on_chain_identity_gatewa.Solana.Program

module _ (w : Web3) where
  open w use {PublicKey, equals}

  -- The token address of the client for an index is the program's for the seed of that index.
  pub gateway_token_address_agrees :
      (owner network : PublicKey) (index : JsNumber) (seed : List ℕ)
      → padded_seed index ≡ ok seed
      → gateway_token_address w owner network index
        ≡ ok (get_gateway_token_address_with_seed w owner (some seed) network)
  unfolding gateway_token_address get_gateway_token_address_with_seed
  gateway_token_address_agrees owner network index seed h = >>=-ok (padded_seed index) _ seed h

  -- The client's address for index 0 is the program's where an instruction has no seed.
  pub gateway_token_address_default :
      (owner network : PublicKey)
      → gateway_token_address w owner network (natural 0)
        ≡ ok (get_gateway_token_address_with_seed w owner none network)
  unfolding gateway_token_address get_gateway_token_address_with_seed padded_seed
  gateway_token_address_default owner network = refl

  -- The network is not among the precomputed ones.
  abbrev pub NotIn : PublicKey → List (PublicKey × PublicKey) → Type 0
  NotIn network [] = Unit
  NotIn network ((address, _) ∷ rest) = (equals address network ≡ false) × NotIn network rest

  cached_or-NotIn :
      (network : PublicKey) (table : List (PublicKey × PublicKey))
      → NotIn network table
      → Program.cached_or w table network ≡ feature_account_address w user_token_expiry network
  unfolding Program.cached_or feature_account_address map_enum_to_feature_name
  cached_or-NotIn network [] h = refl
  cached_or-NotIn network ((address, other) ∷ rest) (ne, h) = rw ne (cached_or-NotIn network rest h)

  -- The client's address of the expiry feature is the program's, for each network that the program
  -- has no precomputed address for.
  pub feature_account_address_agrees :
      (r : Runtime w) (network : PublicKey)
      → NotIn network r.networks_with_expire_addresses
      → feature_account_address w user_token_expiry network
        ≡ get_expire_address_with_seed w r network
  unfolding get_expire_address_with_seed
  feature_account_address_agrees r network h = sym (cached_or-NotIn network _ h)

abbrev pub client_state : TokenState → State
client_state Program.TokenState.active = Token.State.active
client_state Program.TokenState.frozen = Token.State.frozen
client_state Program.TokenState.revoked = Token.State.revoked

abbrev pub program_time : Option ℕ → Option ℤ
program_time none = none
program_time (some n) = some (pos n)

same_validity :
    (now : ℕ) (s : TokenState) (e : Option ℕ)
    → e ≢ some 0
    → (Token.is_active (client_state s) && not (Token.past now e))
      ≡ (Program.is_valid_state s && not (Program.expired_at (pos now) (program_time e) 0))
same_validity now Program.TokenState.active none ne = refl
same_validity now Program.TokenState.active (some n) ne = ground arith
same_validity now Program.TokenState.frozen e ne = refl
same_validity now Program.TokenState.revoked e ne = refl

past_zero : (now : ℕ) → 0 < now → not (Program.expired_at (pos now) (some (pos 0)) 0) ≡ false
past_zero now h = ground arith

module _ {K : Type 0} where
  -- The client's token is the program's, as far as validity goes.
  abbrev pub SameToken : GatewayToken K → TokenAccount K → Type 0
  SameToken g t = (g.state ≡ client_state t.state) × (t.expire_time ≡ program_time g.expiry_time)

  -- The client and the program agree on whether a token is valid, at any time, unless the token
  -- expires at time 0.
  pub is_valid_agrees :
      (date_now : ℕ) (g : GatewayToken K) (t : TokenAccount K)
      → SameToken g t
      → g.expiry_time ≢ some 0
      → Token.is_valid date_now g ≡ Program.is_valid (pos (date_now / 1000)) t
  unfolding Token.is_valid Program.is_valid Token.has_expired Program.has_expired
  is_valid_agrees date_now g t (state, time) ne =
      rw state (rw time (same_validity (date_now / 1000) t.state g.expiry_time ne))

  -- An active token that expires at time 0 is valid to the client and expired to the program, from
  -- the first second on.
  pub is_valid_at_zero :
      (date_now : ℕ) (g : GatewayToken K) (t : TokenAccount K)
      → SameToken g t
      → t.state ≡ Program.TokenState.active
      → g.expiry_time ≡ some 0
      → 1000 < date_now
      → (Token.is_valid date_now g ≡ true) × (Program.is_valid (pos (date_now / 1000)) t ≡ false)
  unfolding Token.is_valid Program.is_valid Token.has_expired Program.has_expired
  is_valid_at_zero date_now g t (state, time) active zero late =
      rw state (rw time (rw active (rw zero (refl, past_zero (date_now / 1000) (omega arith)))))
