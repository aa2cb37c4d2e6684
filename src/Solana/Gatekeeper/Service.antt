-- ===== src/Solana/Gatekeeper/Service.antt =====
-- `GatekeeperService` and `SimpleGatekeeperService`: solana/gatekeeper-lib/src/service/gatekeeper-service.ts.
pub mod Built
pub mod Issuing
pub mod Laws
pub mod Renewal
use on_chain_identity_gatewa.Common.{
  ℕ, ◌+◌, ◌/◌, ◌==◌, Option, none, some, Bool, true, false, not, ◌&&◌, ◌||◌, Result, ok, err, List,
  [], ◌∷◌, ◌++◌, any, map, if◌then◌else◌,
}
use on_chain_identity_gatewa.Common.Io.{Io, ◌>>=◌, ◌>>◌, return, throw, lift}
use on_chain_identity_gatewa.Solana.Web3.{Web3}
use on_chain_identity_gatewa.Solana.Seed.{natural}
use on_chain_identity_gatewa.Solana.Token.{GatewayToken, GatewayTokenData}
use on_chain_identity_gatewa.Solana.Address.{gatekeeper_account_address, gateway_token_address}
use on_chain_identity_gatewa.Solana.Query.{get_gateway_token, find_gateway_token}
use on_chain_identity_gatewa.Solana.Instruction.{
  TransactionInstruction, make_issue, make_revoke, make_freeze, make_unfreeze, make_update_expiry,
  make_burn,
}
use on_chain_identity_gatewa.Solana.Gatekeeper.{
  ServiceError, undefined_key, seed_failed, token_unreadable, token_missing, not_validly_signed,
  HashOrNonce, Rpc, Instruction, gateway, set_compute_unit_limit, set_compute_unit_price,
  new_transaction, cu_limit,
}
use on_chain_identity_gatewa.Solana.Gatekeeper.Options.{value, absent, gatekeeper_options, Options}
use on_chain_identity_gatewa.Solana.Gatekeeper.Charge.{
  Action, ChargeOptions, generate_charge_instruction,
}
use on_chain_identity_gatewa.Solana.Gatekeeper.Charge
use on_chain_identity_gatewa.Solana.Gatekeeper.Sending.{
  Tx, Sendable, hashed, finish, send, confirm_data,
}

-- A value that must be there, or an error.
abbrev pub require : {E A : Type 0} → E → Option A → Result E A
require e none = err e
require e (some a) = ok a

abbrev pub or_throw : {E F A : Type 0} → F → Result E A → Result F A
or_throw e (ok a) = ok a
or_throw e (err _) = err e

abbrev pub at_most_one : {A : Type 0} → Option A → List A
at_most_one none = []
at_most_one (some a) = a ∷ []

-- A number that is there and not 0.
abbrev truthy_seconds : ℕ → Option ℕ → Option ℕ
truthy_seconds now none = none
truthy_seconds now (some seconds) = if seconds == 0 then none else some (now + seconds)

-- The service's fields, and what its calls use: the codec of an account, spl-token's derivation of
-- an associated account, and the clock.
pub record Gatekeeper (w : Web3) (rpc : Rpc w) : Type 0 where
  pub network : w.PublicKey
  pub authority : w.PublicKey
  pub config : Options w rpc
  pub default_expiry_seconds : Option ℕ
  pub charge_options : Option (ChargeOptions w.PublicKey)
  pub decode : List ℕ → Option GatewayTokenData
  pub get_associated_token_address : (mint owner : w.PublicKey) → w.PublicKey
  pub date_now : ℕ

module _ (w : Web3) (rpc : Rpc w) (g : Gatekeeper w rpc) where
  open w use {PublicKey, equals}
  open rpc use {World, Hash, Nonce}

  abbrev pub Token : Type 0
  Token = GatewayToken PublicKey

  -- `gatekeeperAccountAddress`
  abbrev pub account : PublicKey
  account = gatekeeper_account_address w g.authority g.network

  unfoldable pub get_default_expire_time : Option ℕ
  get_default_expire_time = truthy_seconds (g.date_now / 1000) g.default_expiry_seconds

  -- `getGatewayToken(this.connection, address)`, and `getGatewayTokenOrError`
  abbrev pub read_token : PublicKey → Io World ServiceError (Option Token)
  read_token address s =
      (or_throw token_unreadable (get_gateway_token w g.decode (rpc.connection s) address), s)

  unfoldable pub get_gateway_token_or_error : PublicKey → Io World ServiceError Token
  get_gateway_token_or_error address = do
    found ← read_token address
    lift (require token_missing found)

  abbrev charge_instruction :
      Option (ChargeOptions PublicKey) → Action → Options w rpc → Option (Instruction PublicKey)
  charge_instruction none action options = none
  charge_instruction (some charges) action options =
      generate_charge_instruction w g.get_associated_token_address charges (value options.fee_payer)
        (value options.rent_payer) action g.authority

  -- `getChargeInstruction` and what `addChargeOption` adds to the transaction's instructions
  unfoldable pub charge_for : Action → Options w rpc → List (Instruction PublicKey)
  charge_for action options = at_most_one (charge_instruction g.charge_options action options)

  abbrev priority : Option ℕ → List (Instruction PublicKey)
  priority none = []
  priority (some fee) =
      if fee == 0 then [] else set_compute_unit_limit cu_limit ∷ set_compute_unit_price fee ∷ []

  unfoldable pub with_priority_fee : List (Instruction PublicKey)
  with_priority_fee = priority (value g.config.priority_fee_micro_lamports)

  unfoldable pub issue_with_seed :
      PublicKey
      → Option (List ℕ)
      → Options w rpc
      → Io World ServiceError (Sendable w rpc (Option Token))
  unfolding with_priority_fee charge_for get_default_expire_time
  issue_with_seed owner seed options = do
    normalized ← gatekeeper_options w rpc g.authority g.config options
    address ← lift (or_throw seed_failed (gateway_token_address w owner g.network (natural 0)))
    rent_payer ← lift (require undefined_key (value normalized.rent_payer))
    finish w rpc g.authority normalized
        (with_priority_fee
          ++ gateway (
              make_issue w address rent_payer account owner g.authority g.network seed
                get_default_expire_time)
            ∷ charge_for Charge.Action.issue normalized)
        (read_token address)

  unfoldable pub issue :
      PublicKey → Options w rpc → Io World ServiceError (Sendable w rpc (Option Token))
  unfolding issue_with_seed
  issue recipient options = issue_with_seed recipient none options

  unfoldable pub update_token :
      PublicKey
      → TransactionInstruction PublicKey
      → Action
      → Options w rpc
      → Io World ServiceError (Sendable w rpc Token)
  unfolding with_priority_fee charge_for get_gateway_token_or_error
  update_token key instruction action options = do
    normalized ← gatekeeper_options w rpc g.authority g.config options
    finish w rpc g.authority normalized
        (with_priority_fee ++ gateway instruction ∷ charge_for action normalized)
        (get_gateway_token_or_error key)

  unfoldable pub revoke : PublicKey → Options w rpc → Io World ServiceError (Sendable w rpc Token)
  unfolding update_token
  revoke key options =
      update_token key (make_revoke w key g.authority account) Charge.Action.revoke options

  unfoldable pub freeze : PublicKey → Options w rpc → Io World ServiceError (Sendable w rpc Token)
  unfolding update_token
  freeze key options =
      update_token key (make_freeze w key g.authority account) Charge.Action.freeze options

  unfoldable pub unfreeze : PublicKey → Options w rpc → Io World ServiceError (Sendable w rpc Token)
  unfolding update_token
  unfreeze key options =
      update_token key (make_unfreeze w key g.authority account) Charge.Action.unfreeze options

  unfoldable pub update_expiry :
      PublicKey → ℕ → Options w rpc → Io World ServiceError (Sendable w rpc Token)
  unfolding update_token
  update_expiry key expire_time options =
      update_token key (make_update_expiry w key g.authority account expire_time)
        Charge.Action.refresh options

  -- `burn`: no charge, and no data
  unfoldable pub burn :
      PublicKey → Options w rpc → Io World ServiceError (Sendable w rpc (Unit {0}))
  unfolding with_priority_fee
  burn key options = do
    normalized ← gatekeeper_options w rpc g.authority g.config options
    finish w rpc g.authority normalized
        (with_priority_fee ++ gateway (make_burn w key g.authority account g.authority) ∷ [])
        (return tt)

  unfoldable pub find_gateway_token_for_owner :
      PublicKey → Bool → Io World ServiceError (Option Token)
  find_gateway_token_for_owner owner include_revoked s = (
    or_throw token_unreadable (
        find_gateway_token w g.decode g.date_now (rpc.connection s) owner g.network
          include_revoked),
    s,
  )

  -- `Boolean(accountInfo)`
  unfoldable pub is_registered : World → Bool
  is_registered s = elim ((rpc.connection s).get_account_info account) [
    | none ↦ false
    | some _ ↦ true
  ]

  -- `signatures.some((sig) => sig.publicKey.equals(key))`, where the key may be missing
  abbrev pub signed_by : Option PublicKey → List PublicKey → Result ServiceError Bool
  signed_by key [] = ok false
  signed_by none (s ∷ ss) = err undefined_key
  signed_by (some key) (s ∷ ss) = ok (any (λ signer. equals signer key) (s ∷ ss))

  unfoldable pub update_transaction_blockhash :
      Tx w rpc → Options w rpc → Io World ServiceError (Tx w rpc)
  update_transaction_blockhash t options = do
    normalized ← gatekeeper_options w rpc g.authority g.config options
    by_gatekeeper ← lift (signed_by (some g.authority) t.signatures)
    by_payer ← lift (signed_by (value normalized.rent_payer) t.signatures)
    (if (by_gatekeeper || by_payer) && not (rpc.verify_signatures t)
        then throw not_validly_signed
        else do
          t' ← hashed w rpc normalized t
          (if by_gatekeeper then lift (rpc.partial_sign (g.authority ∷ []) t') else return t'))

  -- `SimpleGatekeeperService`: `.then((result) => result.send()).then((result) => result.confirm())`
  abbrev pub send_and_confirm :
      {T : Type 0} → Io World ServiceError (Sendable w rpc T) → Io World ServiceError T
  send_and_confirm built = do
    sendable ← built
    sent ← send w rpc absent [] sendable
    confirm_data w rpc sent none none

  unfoldable pub simple_issue : PublicKey → Options w rpc → Io World ServiceError (Option Token)
  unfolding issue
  simple_issue recipient options = send_and_confirm (issue recipient options)

  unfoldable pub simple_revoke : PublicKey → Options w rpc → Io World ServiceError Token
  unfolding revoke
  simple_revoke key options = send_and_confirm (revoke key options)

  unfoldable pub simple_freeze : PublicKey → Options w rpc → Io World ServiceError Token
  unfolding freeze
  simple_freeze key options = send_and_confirm (freeze key options)

  unfoldable pub simple_unfreeze : PublicKey → Options w rpc → Io World ServiceError Token
  unfolding unfreeze
  simple_unfreeze key options = send_and_confirm (unfreeze key options)

  unfoldable pub simple_update_expiry : PublicKey → ℕ → Options w rpc → Io World ServiceError Token
  unfolding update_expiry
  simple_update_expiry key expire_time options =
      send_and_confirm (update_expiry key expire_time options)
