-- ===== src/Solana/Instruction/Client.antt =====
-- The client's instructions against the program that runs them: the messages of
-- solana/gateway-ts/src/lib/instruction.ts as solana/program/src reads them, and the accounts that
-- they list.
use Prim.Native.String.{String}
use on_chain_identity_gatewa.Common.{
  ℕ, ◌≡◌, refl, ◌∙◌, ◌⊎◌, Option, none, some, Bool, true, false, List, [], ◌∷◌, ok,
}
use on_chain_identity_gatewa.Common.Int.{ℤ}
use on_chain_identity_gatewa.Solana.Web3.{Web3}
use on_chain_identity_gatewa.Solana.Address.{
  NetworkFeature, user_token_expiry, gatekeeper_account_address,
}
use on_chain_identity_gatewa.Solana.Program.{
  TokenState, active, frozen, revoked, TokenAccount, Ledger, AccountInfo, Runtime, put,
  get_gatekeeper_account_address, is_valid_state_change,
}
use on_chain_identity_gatewa.Solana.Program.Process.{process_set_state}
use on_chain_identity_gatewa.Solana.Program.Process
use on_chain_identity_gatewa.Solana.Program.States.{set_state_complete}
use on_chain_identity_gatewa.Solana.Instruction.{
  GatewayInstruction, add_gatekeeper, issue, set_state, update_expiry, revoke_gatekeeper,
  add_feature_to_network, remove_feature_from_network, expire_token, burn_token, encode,
  TransactionInstruction, make_freeze, make_unfreeze, make_revoke,
}
use on_chain_identity_gatewa.Solana.Instruction.Wire.{signed, try_from_message, execute}

-- The name of a state in the schema of the client.
abbrev pub state_name : TokenState → String
state_name active = "active"
state_name frozen = "frozen"
state_name revoked = "revoked"

abbrev signed_time : Option ℕ → Option ℤ
signed_time none = none
signed_time (some n) = some (signed n)

module _ {K : Type 0} where
  -- What each instruction of the client means to the program.
  pub data Means : GatewayInstruction K → Process.Instruction K → Type 0 where
    adds_gatekeeper : Means add_gatekeeper Process.Instruction.add_gatekeeper
    issues :
        (seed : Option (List ℕ)) (expire_time : Option ℕ)
        → Means (issue seed expire_time) (Process.Instruction.issue seed (signed_time expire_time))
    sets_state :
        (s : TokenState) → Means (set_state (state_name s)) (Process.Instruction.set_state s)
    updates_expiry :
        (n : ℕ) → Means (update_expiry n) (Process.Instruction.update_expiry (signed n))
    removes_gatekeeper : Means revoke_gatekeeper Process.Instruction.remove_gatekeeper
    adds_feature :
        (f : NetworkFeature)
        → Means (add_feature_to_network f) Process.Instruction.add_feature_to_network
    removes_feature :
        (f : NetworkFeature)
        → Means (remove_feature_from_network f) Process.Instruction.remove_feature_from_network
    expires :
        (padding : Option (List ℕ)) (network : K)
        → Means (expire_token padding network) (Process.Instruction.expire_token network)
    burns : Means burn_token Process.Instruction.burn_token

  -- The program decodes every message of the client to the instruction that it means.
  pub try_from_message-encode :
      (i : GatewayInstruction K) (j : Process.Instruction K)
      → Means i j
      → try_from_message (encode i) ≡ some j
  unfolding try_from_message encode
  try_from_message-encode i j adds_gatekeeper = refl
  try_from_message-encode i j (issues seed none) = refl
  try_from_message-encode i j (issues seed (some n)) = refl
  try_from_message-encode i j (sets_state active) = refl
  try_from_message-encode i j (sets_state frozen) = refl
  try_from_message-encode i j (sets_state revoked) = refl
  try_from_message-encode i j (updates_expiry n) = refl
  try_from_message-encode i j removes_gatekeeper = refl
  try_from_message-encode i j (adds_feature user_token_expiry) = refl
  try_from_message-encode i j (removes_feature user_token_expiry) = refl
  try_from_message-encode i j (expires padding network) = refl
  try_from_message-encode i j burns = refl

module _ (w : Web3) (r : Runtime w) where
  open w use {PublicKey, equals, program_id}

  -- The client and the program derive one address for a gatekeeper's account.
  pub gatekeeper_account_address_agrees :
      (authority network : PublicKey)
      → gatekeeper_account_address w authority network
        ≡ get_gatekeeper_account_address w authority network
  unfolding gatekeeper_account_address get_gatekeeper_account_address
  gatekeeper_account_address_agrees authority network = refl

  -- The builder that the client has for each state.
  abbrev pub make_state_change :
      TokenState → (token authority account : PublicKey) → TransactionInstruction PublicKey
  make_state_change active = make_unfreeze w
  make_state_change frozen = make_freeze w
  make_state_change revoked = make_revoke w

  abbrev info : PublicKey → Bool → AccountInfo PublicKey
  info k signer = record { key = k; is_signer = signer }

  execute-make_state_change :
      (s : TokenState) (token authority account : PublicKey) (l : Ledger PublicKey)
      → execute w r (make_state_change s token authority account) l
        ≡ process_set_state w r s
            (info token false ∷ info authority true ∷ info account false ∷ [])
            l
  unfolding execute make_freeze make_unfreeze make_revoke
  execute-make_state_change active token authority account l = refl
  execute-make_state_change frozen token authority account l = refl
  execute-make_state_change revoked token authority account l = refl

  -- A freeze, unfreeze or revocation that the client builds, with the gatekeeper's account at the
  -- address that the client derives, runs to the ledger on which the token has its new state, and
  -- only that: where the account holds a token in a state from which the change is allowed, the
  -- gatekeeper's account is on the network, the gatekeeper issued the token (or revokes it), and
  -- the account has room.
  pub execute_state_change :
      (s : TokenState) (token authority : PublicKey) (l : Ledger PublicKey)
      (t : TokenAccount PublicKey) (bytes : List ℕ)
      → r.parse (l token).content ≡ some t
      → (l token).owner ≡ program_id
      → (l (gatekeeper_account_address w authority t.gatekeeper_network)).owner ≡ program_id
      → is_valid_state_change t.state s ≡ true
      → (s ≡ revoked) ⊎ (t.issuing_gatekeeper ≡ authority)
      → r.serialize (record t { state = s }) (l token).content ≡ some bytes
      → execute w r
          (make_state_change s token authority
            (gatekeeper_account_address w authority t.gatekeeper_network))
          l
        ≡ ok (put w token (record (l token) { content = bytes }) l)
  execute_state_change s token authority l t bytes parsed owned member allowed issuer room =
      let account : PublicKey = gatekeeper_account_address w authority t.gatekeeper_network in
      execute-make_state_change s token authority account l
      ∙ set_state_complete w r s (info token false) (info authority true) (info account false) [] l
          t bytes
          (
            parsed,
            refl,
            owned,
            (member, gatekeeper_account_address_agrees authority t.gatekeeper_network),
            allowed,
            issuer,
          )
          room
