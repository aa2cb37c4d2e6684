-- ===== src/Solana/Gatekeeper/Charge.antt =====
-- Charges: solana/gatekeeper-lib/src/util/charge.ts, with the types of util/types.ts.
use mathlib.Core.Path.{subst}
use on_chain_identity_gatewa.Common.{
  ◌⊎◌, Option-cases, ℕ, ◌≡◌, ◌≢◌, refl, Option, none, some, true, arith, if◌then◌else◌, inl, inr,
}
use on_chain_identity_gatewa.Solana.Web3.{Web3}
use on_chain_identity_gatewa.Solana.Gatekeeper.{Instruction, system_transfer, token_transfer}

-- `enum Action`
pub data Action : Type 0 where
  issue revoke refresh freeze unfreeze : Action

pub data ChargePayer : Type 0 where
  fee_payer rent_payer : ChargePayer

payer_cases : (p : ChargePayer) → (p ≡ fee_payer) ⊎ (p ≡ rent_payer)
payer_cases fee_payer = inl refl
payer_cases rent_payer = inr refl

-- `ChargeOption`
pub record ChargeOption (K : Type 0) : Type 0 where
  pub amount : ℕ
  pub spl_token_mint : Option K
  pub charge_payer : ChargePayer
  pub recipient : K

-- `ChargeOptions`
abbrev pub ChargeOptions : Type 0 → Type 0
ChargeOptions K = Action → Option (ChargeOption K)

module _ (w : Web3) where
  open w use {PublicKey, equals}

  -- `if (!payer?.equals(gatekeeper)) return payer`, and `undefined` otherwise
  abbrev unless_gatekeeper : Option PublicKey → PublicKey → Option PublicKey
  unless_gatekeeper none gatekeeper = none
  unless_gatekeeper (some payer) gatekeeper = if equals payer gatekeeper then none else some payer

  abbrev pub option_of : (fee rent : Option PublicKey) → ChargePayer → Option PublicKey
  option_of fee rent fee_payer = fee
  option_of fee rent rent_payer = rent

  -- `getChargePayer`, of the two payers in the transaction's options
  unfoldable pub get_charge_payer :
      (fee rent : Option PublicKey) → ChargeOption PublicKey → PublicKey → Option PublicKey
  get_charge_payer fee rent charge gatekeeper =
      unless_gatekeeper (option_of fee rent charge.charge_payer) gatekeeper

  module _ (get_associated_token_address : (mint owner : PublicKey) → PublicKey) where
    abbrev transfer : ChargeOption PublicKey → PublicKey → Option PublicKey → Instruction PublicKey
    transfer charge payer none = system_transfer payer charge.recipient charge.amount
    transfer charge payer (some mint) =
        token_transfer (get_associated_token_address mint payer)
          (get_associated_token_address charge.recipient payer) payer charge.amount

    abbrev charge_from : ChargeOption PublicKey → Option PublicKey → Option (Instruction PublicKey)
    charge_from charge none = none
    charge_from charge (some payer) = some (transfer charge payer charge.spl_token_mint)

    abbrev charge_for :
        (fee rent : Option PublicKey)
        → PublicKey
        → Option (ChargeOption PublicKey)
        → Option (Instruction PublicKey)
    charge_for fee rent gatekeeper none = none
    charge_for fee rent gatekeeper (some charge) =
        charge_from charge (get_charge_payer fee rent charge gatekeeper)

    -- `generateChargeInstruction`
    unfoldable pub generate_charge_instruction :
        ChargeOptions PublicKey
        → (fee rent : Option PublicKey) → Action
        → PublicKey
        → Option (Instruction PublicKey)
    unfolding get_charge_payer
    generate_charge_instruction options fee rent action gatekeeper =
        charge_for fee rent gatekeeper (options action)

    -- A transfer that takes the charge from the payer: in lamports, from the payer's wallet to the
    -- recipient; in a token, from the payer's associated account of that token, with the payer as the
    -- owner that signs.
    abbrev pub Pays : ChargeOption PublicKey → PublicKey → Instruction PublicKey → Type 0
    Pays charge payer (system_transfer from_pubkey to_pubkey lamports) =
        (charge.spl_token_mint ≡ none)
        × (from_pubkey ≡ payer)
        × (to_pubkey ≡ charge.recipient)
        × (lamports ≡ charge.amount)
    Pays charge payer (token_transfer source destination owner amount) =
        (mint : PublicKey) × (charge.spl_token_mint ≡ some mint)
        × (source ≡ get_associated_token_address mint payer)
        × (owner ≡ payer)
        × (amount ≡ charge.amount)
    Pays charge payer _ = ⊥

    transfer-Pays :
        (charge : ChargeOption PublicKey) (payer : PublicKey) (mint : Option PublicKey)
        → charge.spl_token_mint ≡ mint
        → Pays charge payer (transfer charge payer mint)
    transfer-Pays charge payer none e = (e, refl, refl, refl)
    transfer-Pays charge payer (some mint) e = (mint, e, refl, refl, refl)

    payer_lem :
        (payer : Option PublicKey) (gatekeeper : PublicKey) (p : PublicKey)
        → unless_gatekeeper payer gatekeeper ≡ some p
        → (payer ≡ some p) × (p ≢ gatekeeper)
    payer_lem none gatekeeper p h = cc
    payer_lem (some q) gatekeeper p h =
        ground (arith, w.equals_iff q gatekeeper, w.equals_iff p gatekeeper)

    -- A charge is always taken from the payer that its configuration names, and never from the
    -- gatekeeper: its amount goes in lamports from the payer to the recipient, or in the charge's token
    -- from the payer's associated account of that token.
    pub generate_charge_instruction-Pays :
        (options : ChargeOptions PublicKey) (fee rent : Option PublicKey) (action : Action)
        (gatekeeper : PublicKey) (instruction : Instruction PublicKey)
        → generate_charge_instruction options fee rent action gatekeeper ≡ some instruction
        → (charge : ChargeOption PublicKey) × (payer : PublicKey) × (options action ≡ some charge)
          × (option_of fee rent charge.charge_payer ≡ some payer)
          × (payer ≢ gatekeeper)
          × Pays charge payer instruction
    unfolding generate_charge_instruction
    generate_charge_instruction-Pays options fee rent action gatekeeper instruction h =
        elim (Option-cases (options action)) [
          | inl free ↦ absurd (ground arith)
          | inr (charge, configured) ↦
              elim (Option-cases (get_charge_payer fee rent charge gatekeeper)) [
                | inl nobody ↦ absurd (ground arith)
                | inr (payer, found) ↦
                    let (named, other) =
                      payer_lem (option_of fee rent charge.charge_payer) gatekeeper payer found in
                    let made : transfer charge payer charge.spl_token_mint ≡ instruction =
                      ground arith in
                    (
                      charge,
                      payer,
                      configured,
                      named,
                      other,
                      subst (Pays charge payer) made
                          (transfer-Pays charge payer charge.spl_token_mint refl),
                    )
              ]
        ]

    nobody_pays :
        (charge : ChargeOption PublicKey) (gatekeeper : PublicKey)
        → charge_from charge
            (get_charge_payer (some gatekeeper) (some gatekeeper) charge gatekeeper)
          ≡ none
    unfolding get_charge_payer
    nobody_pays charge gatekeeper =
        let same : equals gatekeeper gatekeeper ≡ true = (w.equals_iff _ _).1 refl in
        elim (payer_cases charge.charge_payer) [
          | inl is_fee ↦ rw is_fee (rw same refl)
          | inr is_rent ↦ rw is_rent (rw same refl)
        ]

    -- Where neither payer is set to another than the gatekeeper, there is no charge.
    pub generate_charge_instruction_default :
        (options : ChargeOptions PublicKey) (action : Action) (gatekeeper : PublicKey)
        → generate_charge_instruction options (some gatekeeper) (some gatekeeper) action gatekeeper
          ≡ none
    unfolding generate_charge_instruction
    generate_charge_instruction_default options action gatekeeper =
        elim (Option-cases (options action)) [
          | inl free ↦ rw free refl
          | inr (charge, configured) ↦ rw configured (nobody_pays charge gatekeeper)
        ]
