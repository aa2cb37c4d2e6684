-- ===== src/Solana/Program/Process.antt =====
-- The instruction handlers of solana/program/src/processor.rs. Each takes its accounts from the
-- list in order (`next_account_info`), makes its checks, and writes.
use on_chain_identity_gatewa.Common.{
  ℕ, ◌+◌, ◌%◌, ◌^◌, Option, none, some, Bool, true, false, not, ◌&&◌, Result, ok, err, List, [],
  ◌∷◌, ◌++◌, length, any, leb, ltb, ◌==◌, if◌then◌else◌,
}
use on_chain_identity_gatewa.Common.Results.{◌>>=◌, ◌>>◌}
use on_chain_identity_gatewa.Common.Int.{ℤ, pos, ◌-ℤ◌}
use on_chain_identity_gatewa.Solana.Web3.{Web3, utf8}
use on_chain_identity_gatewa.Solana.Program.{
  TokenState, revoked, TokenAccount, ProgramError, not_enough_account_keys, missing_account,
  missing_required_signature, invalid_argument, incorrect_program_id, account_already_initialized,
  illegal_owner, invalid_account_data, io_error, invoke_error, incorrect_gatekeeper, invalid_owner,
  invalid_token, invalid_state_change, burn_error, panicked, Ledger, AccountInfo, Runtime,
  token_size, is_valid_state_change, new_token, gatekeeper_seeds, token_seeds,
  get_gatekeeper_account_address, get_gateway_token_address_with_seed, get_expire_address_with_seed,
  put, verify_gatekeeper_address_and_account,
}

-- `enum GatewayInstruction`, as the program decodes it; `NetworkFeature` has one variant.
pub data Instruction (K : Type 0) : Type 0 where
  add_gatekeeper : Instruction K
  issue : Option (List ℕ) → Option ℤ → Instruction K
  set_state : TokenState → Instruction K
  update_expiry : ℤ → Instruction K
  remove_gatekeeper : Instruction K
  add_feature_to_network : Instruction K
  remove_feature_from_network : Instruction K
  expire_token : K → Instruction K
  burn_token : Instruction K

-- `next_account_info(account_info_iter)?`, then the rest of the handler
abbrev pub next {ℓ} :
    {K : Type 0} {A : Type ℓ}
    → List (AccountInfo K)
    → (AccountInfo K → List (AccountInfo K) → Result ProgramError A)
    → Result ProgramError A
next [] k = err not_enough_account_keys
next (a ∷ as') k = k a as'

abbrev pub guard : Bool → ProgramError → Result ProgramError (Unit {0})
guard true e = ok tt
guard false e = err e

abbrev pub or_err {ℓ} : {A : Type ℓ} → Option A → ProgramError → Result ProgramError A
or_err none e = err e
or_err (some a) e = ok a

abbrev pub or_burn_error : ℕ → Result ProgramError ℕ
or_burn_error sum = if leb (2 ^ 64) sum then err burn_error else ok sum

-- `1.max(n)`
abbrev pub at_least_one : ℕ → ℕ
at_least_one n = if ltb n 1 then 1 else n

-- Only the issuing gatekeeper may make this change.
abbrev pub issuer_only : TokenState → Bool
issuer_only revoked = false
issuer_only _ = true

module _ (w : Web3) (r : Runtime w) where
  open w use {PublicKey, equals, program_id, system_program_id}

  abbrev pub Accounts : Type 0
  Accounts = List (AccountInfo PublicKey)

  abbrev pub Handler : Type 0
  Handler = Accounts → Ledger PublicKey → Result ProgramError (Ledger PublicKey)

  -- `gateway_token.serialize(&mut *gateway_token_info.data.borrow_mut())`
  abbrev pub store_token :
      PublicKey → TokenAccount PublicKey → Ledger PublicKey → Result ProgramError (Ledger PublicKey)
  store_token key t l = do
    bytes ← or_err (r.serialize t (l key).content) io_error
    ok (put w key (record (l key) { content = bytes }) l)

  -- The system program's `create_account`, for the handler's funder, account and seeds.
  abbrev pub create :
      (funder account : PublicKey) (space : ℕ)
      → List (List ℕ)
      → Ledger PublicKey
      → Result ProgramError (Ledger PublicKey)
  create funder account space seeds l =
      or_err
        (r.create_account funder account (at_least_one (r.minimum_balance space)) space program_id
          (seeds ++ (r.bump seeds ∷ []) ∷ []) l)
        invoke_error

  -- `invoke_signed(&system_instruction::create_account(…), …)` of an instruction with these accounts:
  -- before it runs the system program the runtime asks that this is among the accounts, and that the
  -- funder, who signs the creation as well, has signed.
  abbrev pub invoke_create :
      Accounts
      → (funder account : AccountInfo PublicKey) (space : ℕ) → List (List ℕ)
      → Ledger PublicKey
      → Result ProgramError (Ledger PublicKey)
  invoke_create accounts funder account space seeds l = do
    guard (any (λ a. equals a.key system_program_id) accounts) missing_account
    guard funder.is_signer missing_required_signature
    create funder.key account.key space seeds l

  unfoldable pub process_add_gatekeeper : Handler
  process_add_gatekeeper accounts l = next accounts λ funder as1. next as1 λ gatekeeper_account as2.
      next as2 λ gatekeeper_authority as3. next as3 λ gatekeeper_network as4.
        next as4 λ system_program as5. do
          guard funder.is_signer missing_required_signature
          guard gatekeeper_network.is_signer missing_required_signature
          guard
              (equals
                (get_gatekeeper_account_address w gatekeeper_authority.key gatekeeper_network.key)
                gatekeeper_account.key)
              invalid_argument
          invoke_create accounts funder gatekeeper_account 0
              (gatekeeper_seeds w gatekeeper_authority.key gatekeeper_network.key) l

  unfoldable pub process_issue : Option (List ℕ) → Option ℤ → Handler
  process_issue seed expire_time accounts l = next accounts λ funder as1.
      next as1 λ gateway_token as2. next as2 λ owner as3. next as3 λ gatekeeper_account as4.
        next as4 λ gatekeeper_authority as5. next as5 λ gatekeeper_network as6.
          next as6 λ system_program as7. do
            guard gatekeeper_authority.is_signer missing_required_signature
            verify_gatekeeper_address_and_account w l gatekeeper_account.key
                gatekeeper_authority.key gatekeeper_network.key
            guard
                (equals
                  (get_gateway_token_address_with_seed w owner.key seed gatekeeper_network.key)
                  gateway_token.key)
                invalid_argument
            guard (length (l gateway_token.key).content == 0) account_already_initialized
            l' ←
                invoke_create accounts funder gateway_token token_size
                  (token_seeds w owner.key seed gatekeeper_network.key) l
            store_token gateway_token.key
                (new_token owner.key gatekeeper_network.key gatekeeper_authority.key expire_time) l'

  -- The checks that open `set_state`, `update_expiry` and `burn_token`: the gatekeeper has signed,
  -- the account belongs to the program and holds a token, and the gatekeeper is one of its network.
  abbrev pub gatekeeper_token :
      {A : Type 0} (token authority account : AccountInfo PublicKey)
      → Ledger PublicKey
      → (TokenAccount PublicKey → Result ProgramError A)
      → Result ProgramError A
  gatekeeper_token token authority account l k = do
    guard authority.is_signer missing_required_signature
    guard (equals (l token.key).owner program_id) incorrect_program_id
    t ← or_err (r.parse (l token.key).content) invalid_token
    verify_gatekeeper_address_and_account w l account.key authority.key t.gatekeeper_network
    k t

  unfoldable pub process_set_state : TokenState → Handler
  process_set_state state accounts l = next accounts λ token as1. next as1 λ authority as2.
      next as2 λ account as3. gatekeeper_token token authority account l λ t. do
        guard (is_valid_state_change t.state state) invalid_state_change
        guard (not (issuer_only state && not (equals t.issuing_gatekeeper authority.key)))
            incorrect_gatekeeper
        store_token token.key (record t { state = state }) l

  unfoldable pub process_update_expiry : ℤ → Handler
  process_update_expiry expire_time accounts l = next accounts λ token as1.
      next as1 λ authority as2. next as2 λ account as3.
        gatekeeper_token token authority account l
          λ t. store_token token.key (record t { expire_time = some expire_time }) l

  -- `**to += **from; **from = 0`, which panics where both are one account. The runtime drops an account
  -- that is left without lamports: it is the system program's, and empty.
  abbrev pub sweep :
      (to from : PublicKey) → Ledger PublicKey → Result ProgramError (Ledger PublicKey)
  sweep to from l =
      if equals to from
      then err panicked
      else ok (
          put w from (record { owner = system_program_id; lamports = 0; content = [] })
            (put w to (record (l to) { lamports = ((l to).lamports + (l from).lamports) % 2 ^ 64 })
              l))

  unfoldable pub process_remove_gatekeeper : Handler
  process_remove_gatekeeper accounts l = next accounts λ funds_to as1.
      next as1 λ gatekeeper_account as2. next as2 λ gatekeeper_authority as3.
        next as3 λ gatekeeper_network as4. do
          guard gatekeeper_network.is_signer missing_required_signature
          guard
              (equals
                (get_gatekeeper_account_address w gatekeeper_authority.key gatekeeper_network.key)
                gatekeeper_account.key)
              invalid_argument
          sweep funds_to.key gatekeeper_account.key l

  unfoldable pub process_expire_token : PublicKey → Handler
  process_expire_token gatekeeper_network accounts l = next accounts λ token as1.
      next as1 λ owner as2. next as2 λ network_expire_feature as3. do
        guard owner.is_signer missing_required_signature
        guard (equals (l network_expire_feature.key).owner program_id) illegal_owner
        guard
            (equals (get_expire_address_with_seed w r gatekeeper_network)
              network_expire_feature.key)
            invalid_argument
        guard (equals (l token.key).owner program_id) illegal_owner
        t ← or_err (r.parse (l token.key).content) panicked
        guard (equals t.owner_wallet owner.key) invalid_owner
        guard (equals t.gatekeeper_network gatekeeper_network) invalid_account_data
        store_token token.key (record t { expire_time = some (r.clock -ℤ pos 120) }) l

  unfoldable pub process_add_feature_to_network : Handler
  process_add_feature_to_network accounts l = next accounts λ funder as1.
      next as1 λ gatekeeper_network as2. next as2 λ feature_account as3.
        next as3 λ system_program as4. do
          guard gatekeeper_network.is_signer missing_required_signature
          guard (equals system_program.key system_program_id) invalid_argument
          guard
              (equals (get_expire_address_with_seed w r gatekeeper_network.key) feature_account.key)
              invalid_argument
          invoke_create accounts funder feature_account 0
              (w.to_buffer gatekeeper_network.key ∷ utf8 "expire" ∷ []) l

  unfoldable pub process_remove_feature_from_network : Handler
  process_remove_feature_from_network accounts l = next accounts λ funds_to as1.
      next as1 λ gatekeeper_network as2. next as2 λ feature_account as3. do
        guard gatekeeper_network.is_signer missing_required_signature
        guard (equals (get_expire_address_with_seed w r gatekeeper_network.key) feature_account.key)
            invalid_argument
        sweep funds_to.key feature_account.key l

  -- `delete_account`: the account goes to the system program and its data is dropped.
  unfoldable pub process_burn_token : Handler
  process_burn_token accounts l = next accounts λ token as1. next as1 λ authority as2.
      next as2 λ account as3. next as3 λ recipient as4.
        gatekeeper_token token authority account l λ t. do
          paid ← or_burn_error ((l recipient.key).lamports + (l token.key).lamports)
          let l' = put w recipient.key (record (l recipient.key) { lamports = paid }) l
          ok (put w token.key (record { owner = system_program_id; lamports = 0; content = [] }) l')

  unfoldable pub process_instruction : Instruction PublicKey → Handler
  process_instruction add_gatekeeper = process_add_gatekeeper
  process_instruction (issue seed expire_time) = process_issue seed expire_time
  process_instruction (set_state state) = process_set_state state
  process_instruction (update_expiry expire_time) = process_update_expiry expire_time
  process_instruction remove_gatekeeper = process_remove_gatekeeper
  process_instruction (expire_token gatekeeper_network) = process_expire_token gatekeeper_network
  process_instruction add_feature_to_network = process_add_feature_to_network
  process_instruction remove_feature_from_network = process_remove_feature_from_network
  process_instruction burn_token = process_burn_token
