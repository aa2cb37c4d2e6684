-- ===== src/Solana/Instruction/Accounts.antt =====
-- The accounts that the builders of solana/gateway-ts/src/lib/instruction.ts list, and those that the
-- handlers of solana/program/src/processor.rs take.
use on_chain_identity_gatewa.Common.{ℕ, ◌≢◌, Option, none, some, List, Result, err, arith}
use on_chain_identity_gatewa.Solana.Web3.{Web3}
use on_chain_identity_gatewa.Solana.Address.{NetworkFeature, user_token_expiry}
use on_chain_identity_gatewa.Solana.Program.{
  Ledger, Runtime, ProgramError, missing_required_signature, not_enough_account_keys,
  missing_account, verify_gatekeeper_address_and_account,
}
use on_chain_identity_gatewa.Solana.Program.Process.{
  process_instruction, process_add_gatekeeper, process_issue, process_set_state,
  process_update_expiry, process_remove_gatekeeper, process_expire_token,
  process_add_feature_to_network, process_remove_feature_from_network, process_burn_token,
}
use on_chain_identity_gatewa.Solana.Instruction.{
  TransactionInstruction, make_add_gatekeeper, make_revoke_gatekeeper, make_issue, make_revoke,
  make_freeze, make_unfreeze, make_update_expiry, make_add_feature_to_network,
  make_remove_feature_from_network, make_expire_token, make_burn,
}
use on_chain_identity_gatewa.Solana.Instruction.Wire.{execute}

module _ (w : Web3) (r : Runtime w) where
  open w use {PublicKey, system_program_id}

  -- A call of one of the builders.
  pub data Call : Type 0 where
    calls_add_gatekeeper : (payer account authority network : PublicKey) → Call
    calls_revoke_gatekeeper : (funds_to account authority network : PublicKey) → Call
    calls_issue :
        (token payer account owner authority network : PublicKey)
        → Option (List ℕ)
        → Option ℕ
        → Call
    calls_revoke calls_freeze calls_unfreeze : (token authority account : PublicKey) → Call
    calls_update_expiry : (token authority account : PublicKey) → ℕ → Call
    calls_add_feature calls_remove_feature : (payer network : PublicKey) → NetworkFeature → Call
    calls_expire_token : (token owner network : PublicKey) → Call
    calls_burn : (token authority account recipient : PublicKey) → Call

  abbrev pub built : Call → TransactionInstruction PublicKey
  built (calls_add_gatekeeper p a g n) = make_add_gatekeeper w p a g n
  built (calls_revoke_gatekeeper p a g n) = make_revoke_gatekeeper w p a g n
  built (calls_issue t p a o g n seed x) = make_issue w t p a o g n seed x
  built (calls_revoke t g a) = make_revoke w t g a
  built (calls_freeze t g a) = make_freeze w t g a
  built (calls_unfreeze t g a) = make_unfreeze w t g a
  built (calls_update_expiry t g a x) = make_update_expiry w t g a x
  built (calls_add_feature p n f) = make_add_feature_to_network w p n f
  built (calls_remove_feature p n f) = make_remove_feature_from_network w p n f
  built (calls_expire_token t o n) = make_expire_token w t o n
  built (calls_burn t g a to) = make_burn w t g a to

  abbrev pub WellFormed : Result ProgramError (Ledger PublicKey) → Type 0
  WellFormed m =
      (m ≢ err missing_required_signature)
      × (m ≢ err not_enough_account_keys)
      × (m ≢ err missing_account)

  -- No instruction that the client builds is refused for a missing account or a missing signature,
  -- once those that it asks to sign have signed: neither by the program's own checks, nor by the
  -- runtime where the program has the system program create an account.
  pub execute-built : (c : Call) (l : Ledger PublicKey) → WellFormed (execute w r (built c) l)
  unfolding execute process_instruction process_add_gatekeeper process_issue process_set_state
      process_update_expiry process_remove_gatekeeper process_expire_token
      process_add_feature_to_network process_remove_feature_from_network process_burn_token
      make_add_gatekeeper make_revoke_gatekeeper make_issue make_revoke make_freeze make_unfreeze
      make_update_expiry make_add_feature_to_network make_remove_feature_from_network
      make_expire_token make_burn verify_gatekeeper_address_and_account
  execute-built (calls_add_gatekeeper p a g n) l =
      ground (arith, w.equals_iff system_program_id system_program_id)
  execute-built (calls_revoke_gatekeeper p a g n) l = ground arith
  execute-built (calls_issue t p a o g n seed none) l =
      ground (arith, w.equals_iff system_program_id system_program_id)
  execute-built (calls_issue t p a o g n seed (some x)) l =
      ground (arith, w.equals_iff system_program_id system_program_id)
  execute-built (calls_revoke t g a) l = ground arith
  execute-built (calls_freeze t g a) l = ground arith
  execute-built (calls_unfreeze t g a) l = ground arith
  execute-built (calls_update_expiry t g a x) l = ground arith
  execute-built (calls_add_feature p n user_token_expiry) l =
      ground (arith, w.equals_iff system_program_id system_program_id)
  execute-built (calls_remove_feature p n user_token_expiry) l = ground arith
  execute-built (calls_expire_token t o n) l = ground arith
  execute-built (calls_burn t g a to) l = ground arith
