-- ===== src/Solana/Gatekeeper/Service/Issuing.antt =====
-- The transaction that `issue` of solana/gatekeeper-lib/src/service/gatekeeper-service.ts builds.
use on_chain_identity_gatewa.Common.{ℕ, ◌≡◌, Option, List, ◌∷◌, ◌++◌}
use on_chain_identity_gatewa.Common.Io.{Io}
use on_chain_identity_gatewa.Solana.Web3.{Web3}
use on_chain_identity_gatewa.Solana.Instruction.{make_issue}
use on_chain_identity_gatewa.Solana.Gatekeeper.{ServiceError, Rpc, gateway}
use on_chain_identity_gatewa.Solana.Gatekeeper.Options.{Options}
use on_chain_identity_gatewa.Solana.Gatekeeper.Charge.{
  Action, ChargeOptions, generate_charge_instruction, generate_charge_instruction-Pays,
  generate_charge_instruction_default, Pays,
}
use on_chain_identity_gatewa.Solana.Gatekeeper.Charge
use on_chain_identity_gatewa.Solana.Gatekeeper.Sending.{Sendable, finish}
use on_chain_identity_gatewa.Solana.Gatekeeper.Service.{
  Gatekeeper, with_priority_fee, charge_for, issue, get_default_expire_time, account, read_token,
  Token,
}
use on_chain_identity_gatewa.Solana.Gatekeeper.Service.Built.{Holds}

module _ (w : Web3) (rpc : Rpc w) (g : Gatekeeper w rpc) where
  open w use {PublicKey}
  open rpc use {World}

  -- The transaction of an issue to this address, and what reads its token.
  abbrev pub Issues :
      (address recipient rent_payer : PublicKey)
      → Option (List ℕ)
      → Sendable w rpc (Option (Token w rpc g))
      → Type 0
  Issues address recipient rent_payer seed b =
      Holds w rpc g
        (make_issue w address rent_payer (account w rpc g) recipient g.authority g.network seed
          (get_default_expire_time w rpc g))
        b
      × (b.data_callback ≡ read_token w rpc g address)

  abbrev finish_issue :
      Options w rpc
      → (address recipient rent_payer : PublicKey) → Option (List ℕ)
      → Io World ServiceError (Sendable w rpc (Option (Token w rpc g)))
  finish_issue o address recipient rent_payer seed =
      finish w rpc g.authority o
        (with_priority_fee w rpc g
          ++ gateway (
              make_issue w address rent_payer (account w rpc g) recipient g.authority g.network seed
                (get_default_expire_time w rpc g))
            ∷ charge_for w rpc g Charge.Action.issue o)
        (read_token w rpc g address)
