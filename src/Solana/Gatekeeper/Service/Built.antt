-- ===== src/Solana/Gatekeeper/Service/Built.antt =====
-- The instructions in the transactions of solana/gatekeeper-lib/src/service/gatekeeper-service.ts, and
-- what the on-chain program makes of them.
use mathlib.Core.Path.{subst}
use on_chain_identity_gatewa.Common.{
  ℕ, ◌≡◌, refl, sym, ap, ◌∙◌, ◌⊎◌, Option, none, some, true, ok, List, [], ◌∷◌, ◌++◌, arith,
}
use on_chain_identity_gatewa.Common.Io.{Io, resume-ok}
use on_chain_identity_gatewa.Solana.Web3.{Web3}
use on_chain_identity_gatewa.Solana.Address.{gatekeeper_account_address}
use on_chain_identity_gatewa.Solana.Program.{
  TokenState, active, frozen, revoked, TokenAccount, Ledger, Runtime, put, is_valid_state_change,
}
use on_chain_identity_gatewa.Solana.Instruction.{TransactionInstruction}
use on_chain_identity_gatewa.Solana.Instruction.Wire.{execute}
use on_chain_identity_gatewa.Solana.Instruction.Client.{make_state_change, execute_state_change}
use on_chain_identity_gatewa.Solana.Gatekeeper.{
  ServiceError, Rpc, Instruction, gateway, system_transfer, token_transfer, set_compute_unit_limit,
  set_compute_unit_price,
}
use on_chain_identity_gatewa.Solana.Gatekeeper.Options.{
  value, Options, gatekeeper_options, Found, with_hash-Found,
}
use on_chain_identity_gatewa.Solana.Gatekeeper.Charge.{
  Action, ChargeOption, ChargeOptions, generate_charge_instruction,
  generate_charge_instruction-Pays, generate_charge_instruction_default, Pays,
}
use on_chain_identity_gatewa.Solana.Gatekeeper.Charge
use on_chain_identity_gatewa.Solana.Gatekeeper.Sending.{Sendable, finish}
use on_chain_identity_gatewa.Solana.Gatekeeper.Service.{
  Gatekeeper, update_token, with_priority_fee, charge_for, get_gateway_token_or_error, priority,
  charge_instruction, revoke, freeze, unfreeze, account, Token, at_most_one,
}
use on_chain_identity_gatewa.Solana.Gatekeeper.Service.Laws.{
  gateway_only, HasHash, Signed, finish-Built,
}

gateway_only-append :
    {K : Type 0} (a b : List (Instruction K))
    → gateway_only (a ++ b) ≡ gateway_only a ++ gateway_only b
gateway_only-append [] b = refl
gateway_only-append (gateway i ∷ a) b = ap (i ∷◌) (gateway_only-append a b)
gateway_only-append (system_transfer _ _ _ ∷ a) b = gateway_only-append a b
gateway_only-append (token_transfer _ _ _ _ ∷ a) b = gateway_only-append a b
gateway_only-append (set_compute_unit_limit _ ∷ a) b = gateway_only-append a b
gateway_only-append (set_compute_unit_price _ ∷ a) b = gateway_only-append a b

at_most_one_lem :
    {K : Type 0} (m : Option (Instruction K))
    → ((i : Instruction K) → m ≡ some i → gateway_only (i ∷ []) ≡ [])
    → gateway_only (at_most_one m) ≡ []
at_most_one_lem none h = refl
at_most_one_lem (some i) h = h i refl

priority_lem :
    {w : Web3} {rpc : Rpc w} (g : Gatekeeper w rpc) (fee : Option ℕ)
    → gateway_only (priority w rpc g fee) ≡ []
priority_lem g none = refl
priority_lem g (some fee) = ground arith

module _ (w : Web3) (rpc : Rpc w) (g : Gatekeeper w rpc) where
  open w use {PublicKey, equals}
  open rpc use {World}

  pub options_hash :
      (options o : Options w rpc) (s s' : World)
      → gatekeeper_options w rpc g.authority g.config options s ≡ (ok o, s')
      → Found w rpc o
  unfolding gatekeeper_options
  options_hash options o s s' h = with_hash-Found w rpc _ o s s' h

  payment :
      (charge : ChargeOption PublicKey) (payer : PublicKey) (i : Instruction PublicKey)
      → Pays w g.get_associated_token_address charge payer i
      → gateway_only (i ∷ []) ≡ []
  payment charge payer (gateway i) p = elim p [ ]
  payment charge payer (system_transfer _ _ _) p = refl
  payment charge payer (token_transfer _ _ _ _) p = refl
  payment charge payer (set_compute_unit_limit _) p = elim p [ ]
  payment charge payer (set_compute_unit_price _) p = elim p [ ]

  charge_lem :
      (charges : Option (ChargeOptions PublicKey)) (action : Action) (o : Options w rpc)
      (i : Instruction PublicKey)
      → charge_instruction w rpc g charges action o ≡ some i
      → gateway_only (i ∷ []) ≡ []
  charge_lem none action o i h = cc
  charge_lem (some charges) action o i h =
      let (charge, payer, _, _, _, pays) =
        generate_charge_instruction-Pays w g.get_associated_token_address charges
          (value o.fee_payer) (value o.rent_payer) action g.authority i h in
      payment charge payer i pays

  charge_for-gateway_only :
      (action : Action) (o : Options w rpc) → gateway_only (charge_for w rpc g action o) ≡ []
  unfolding charge_for
  charge_for-gateway_only action o =
      at_most_one_lem (charge_instruction w rpc g g.charge_options action o)
        (charge_lem g.charge_options action o)

  pub one_gateway :
      (i : TransactionInstruction PublicKey) (action : Action) (o : Options w rpc)
      → gateway_only (with_priority_fee w rpc g ++ gateway i ∷ charge_for w rpc g action o) ≡ i ∷ []
  unfolding with_priority_fee
  one_gateway i action o =
      gateway_only-append (with_priority_fee w rpc g) _
      ∙ rw (priority_lem g (value g.config.priority_fee_micro_lamports))
          (ap (i ∷◌) (charge_for-gateway_only action o))

  -- One gateway instruction, with a hash or nonce, and signed by the gatekeeper.
  abbrev pub Holds : {T : Type 0} → TransactionInstruction PublicKey → Sendable w rpc T → Type 0
  Holds i b =
      (gateway_only b.transaction.instructions ≡ i ∷ [])
      × HasHash b.transaction
      × Signed w rpc g.authority b.transaction

  -- A transaction that `updateToken` builds has the instruction that it was given as its one gateway
  -- instruction, whatever priority fee and charge are configured; it has a hash or nonce, the
  -- gatekeeper has signed it, and its data is the token read when the data is asked for.
  pub update_token-Holds :
      (key : PublicKey) (i : TransactionInstruction PublicKey) (action : Action)
      (options : Options w rpc) (b : Sendable w rpc (Token w rpc g)) (s s' : World)
      → update_token w rpc g key i action options s ≡ (ok b, s')
      → Holds i b × (b.data_callback ≡ get_gateway_token_or_error w rpc g key)
  unfolding update_token
  update_token-Holds key i action options b s s' h =
      let build : Options w rpc → Io World ServiceError (Sendable w rpc (Token w rpc g)) = λ o.
        finish w rpc g.authority o
          (with_priority_fee w rpc g ++ gateway i ∷ charge_for w rpc g action o)
          (get_gateway_token_or_error w rpc g key) in
      let (o, s1, normalized, rest) =
        resume-ok (gatekeeper_options w rpc g.authority g.config options s) build b s' h in
      let (made, _, hash, signed, reads) =
        finish-Built w rpc g.authority o
          (with_priority_fee w rpc g ++ gateway i ∷ charge_for w rpc g action o)
          (get_gateway_token_or_error w rpc g key) b s1 s' (options_hash options o s s1 normalized)
          rest in
      ((ap gateway_only made ∙ one_gateway i action o, hash, signed), reads)

  -- The service's method for each state.
  abbrev pub change_state :
      TokenState
      → PublicKey
      → Options w rpc
      → Io World ServiceError (Sendable w rpc (Token w rpc g))
  change_state active = unfreeze w rpc g
  change_state frozen = freeze w rpc g
  change_state revoked = revoke w rpc g

  change_state-Holds :
      (r : Runtime w) (state : TokenState) (key : PublicKey) (options : Options w rpc)
      (b : Sendable w rpc (Token w rpc g)) (s s' : World)
      → change_state state key options s ≡ (ok b, s')
      → Holds (make_state_change w r state key g.authority (account w rpc g)) b
  unfolding revoke freeze unfreeze
  change_state-Holds r active key options b s s' h =
      (update_token-Holds key _ Charge.Action.unfreeze options b s s' h).0
  change_state-Holds r frozen key options b s s' h =
      (update_token-Holds key _ Charge.Action.freeze options b s s' h).0
  change_state-Holds r revoked key options b s s' h =
      (update_token-Holds key _ Charge.Action.revoke options b s s' h).0

  -- The one gateway instruction in the transaction that `freeze`, `unfreeze` or `revoke` builds runs,
  -- on a ledger that allows it, to the ledger on which the token has the new state: the account
  -- holds a token of the gatekeeper's network in a state from which the change is allowed, the
  -- gatekeeper's account is on the network, the gatekeeper issued the token (or revokes it), and the
  -- account has room.
  pub change_state_runs :
      (r : Runtime w) (state : TokenState) (key : PublicKey) (options : Options w rpc)
      (b : Sendable w rpc (Token w rpc g)) (s s' : World) (l : Ledger PublicKey)
      (t : TokenAccount PublicKey) (bytes : List ℕ)
      → change_state state key options s ≡ (ok b, s')
      → r.parse (l key).content ≡ some t
      → t.gatekeeper_network ≡ g.network
      → (l key).owner ≡ w.program_id
      → (l (account w rpc g)).owner ≡ w.program_id
      → is_valid_state_change t.state state ≡ true
      → (state ≡ revoked) ⊎ (t.issuing_gatekeeper ≡ g.authority)
      → r.serialize (record t { state = state }) (l key).content ≡ some bytes
      → (i : TransactionInstruction PublicKey) × (gateway_only b.transaction.instructions ≡ i ∷ [])
        × (execute w r i l ≡ ok (put w key (record (l key) { content = bytes }) l))
  change_state_runs r state key options b s s' l t bytes h parsed same owned member allowed issuer
        room =
      let at : PublicKey = gatekeeper_account_address w g.authority t.gatekeeper_network in
      (
        make_state_change w r state key g.authority at,
        (change_state-Holds r state key options b s s' h).0
            ∙ ap
                (λ n.
                  make_state_change w r state key g.authority
                    (gatekeeper_account_address w g.authority n)
                  ∷ [])
                (sym same),
        execute_state_change w r state key g.authority l t bytes parsed owned
            (subst (λ n. (l (gatekeeper_account_address w g.authority n)).owner ≡ w.program_id)
              (sym same) member)
            allowed issuer room,
      )
