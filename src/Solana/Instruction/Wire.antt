-- ===== src/Solana/Instruction/Wire.antt =====
-- From the client's messages to the program's instructions: the order of the variants and fields
-- of `enum GatewayInstruction`, `GatewayTokenState` and `NetworkFeature` in solana/program/src,
-- and the accounts as the runtime hands them over.
use on_chain_identity_gatewa.Common.{
  ℕ, zero, suc, ◌-◌, ◌^◌, Option, none, some, List, [], ◌∷◌, map, ltb, if◌then◌else◌, Result, err,
}
use on_chain_identity_gatewa.Common.Int.{ℤ, pos, negsuc}
use on_chain_identity_gatewa.Solana.Web3.{Web3}
use on_chain_identity_gatewa.Solana.Program.{
  TokenState, active, frozen, revoked, AccountInfo, Runtime, Ledger, ProgramError,
  invalid_account_data,
}
use on_chain_identity_gatewa.Solana.Program.Process.{Instruction, process_instruction}
use on_chain_identity_gatewa.Solana.Instruction.{
  Field, opt_seed, opt_u64, u64, variant, bytes32, Message, TransactionInstruction, AccountMeta,
}

-- A `u64` read as an `i64`.
abbrev pub signed : ℕ → ℤ
signed n = if ltb n (2 ^ 63) then pos n else negsuc (2 ^ 64 - 1 - n)

abbrev token_state_of : ℕ → Option TokenState
token_state_of zero = some active
token_state_of (suc zero) = some frozen
token_state_of (suc (suc zero)) = some revoked
token_state_of _ = none

module _ {K : Type 0} where
  -- The variants of `enum GatewayInstruction`, in the order of their declaration.
  abbrev pub read_fields : ℕ → List (Field K) → Option (Instruction K)
  read_fields zero [] = some Instruction.add_gatekeeper
  read_fields (suc zero) (opt_seed seed ∷ opt_u64 none ∷ []) = some (Instruction.issue seed none)
  read_fields (suc zero) (opt_seed seed ∷ opt_u64 (some n) ∷ []) =
      some (Instruction.issue seed (some (signed n)))
  read_fields (suc (suc zero)) (variant n ∷ []) = elim (token_state_of n) [
    | none ↦ none
    | some s ↦ some (Instruction.set_state s)
  ]
  read_fields (suc (suc (suc zero))) (u64 n ∷ []) = some (Instruction.update_expiry (signed n))
  read_fields (suc (suc (suc (suc zero)))) [] = some Instruction.remove_gatekeeper
  read_fields (suc (suc (suc (suc (suc zero))))) (variant zero ∷ []) =
      some Instruction.add_feature_to_network
  read_fields (suc (suc (suc (suc (suc (suc zero)))))) (variant zero ∷ []) =
      some Instruction.remove_feature_from_network
  read_fields (suc (suc (suc (suc (suc (suc (suc zero)))))))
        (opt_seed padding ∷ bytes32 network ∷ []) =
      some (Instruction.expire_token network)
  read_fields (suc (suc (suc (suc (suc (suc (suc (suc zero)))))))) [] = some Instruction.burn_token
  read_fields _ _ = none

  unfoldable pub try_from_message : Message K → Option (Instruction K)
  try_from_message m = read_fields m.number m.fields

  abbrev pub account_infos : List (AccountMeta K) → List (AccountInfo K)
  account_infos = map (λ m. record { key = m.pubkey; is_signer = m.is_signer })

module _ (w : Web3) (r : Runtime w) where
  open w use {PublicKey}

  -- The program's entry point on an instruction of the client, all of whose signatures are there.
  unfoldable pub execute :
      TransactionInstruction PublicKey → Ledger PublicKey → Result ProgramError (Ledger PublicKey)
  unfolding try_from_message process_instruction
  execute ix l = elim (try_from_message ix.message) [
    | none ↦ err invalid_account_data
    | some i ↦ process_instruction w r i (account_infos ix.keys) l
  ]
