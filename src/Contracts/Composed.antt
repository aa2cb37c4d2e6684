-- ===== src/Contracts/Composed.antt =====
-- The contracts together, and with the client library: a charge of GatewayToken.sol is taken by
-- ChargeHandler.sol, and a mask that the client builds is read by BitMask.sol.
use Prim.Native.Nat.{bit_or}
use on_chain_identity_gatewa.Common.{
  ℕ, ◌-◌, ◌≤◌, ◌^◌, ◌==◌, leb, ◌≡◌, sym, ◌∙◌, ap, ◌⊎◌, inl, inr, Bool, ◌||◌, List, [], ◌∷◌, any,
  some, ok, if◌then◌else◌, arith,
}
use on_chain_identity_gatewa.Common.Results.{>>=-eq-ok}
use on_chain_identity_gatewa.Contracts.{Address}
use on_chain_identity_gatewa.Contracts.BitMask.{set_bit, check_bit, check_bit-set_bit}
use on_chain_identity_gatewa.Contracts.Charges.{
  Charge, AccessControl, Payments, ChargeHandler, handle_charge,
}
use on_chain_identity_gatewa.Contracts.Charges.Spending.{handle_charge-ok}
use on_chain_identity_gatewa.Contracts.Gateway.{Base, RoleHashes, Outside, Gateway, Env}
use on_chain_identity_gatewa.Contracts.Gateway.Tokens.{mint, mint_effects}
use on_chain_identity_gatewa.Ethereum.{none_type, eth, erc20}
use on_chain_identity_gatewa.Ethereum.Utils.{add_flags_to_bitmask}

module _ {Tokens World Roles : Type 0} (base : Base Tokens) (hashes : RoleHashes)
    (payments : Payments World) (access : AccessControl Roles) (charge_caller_role : ℕ)
    (this : Address)
    (is_contract : Address → ChargeHandler payments access charge_caller_role × World → Bool) where
  -- The gateway token contract at `this`, with a charge handler at the address that it calls.
  abbrev pub with_handler : Outside (ChargeHandler payments access charge_caller_role × World)
  with_handler = record {
    handle_charge = λ handler value charge network s.
        handle_charge payments access charge_caller_role this value charge network s;
    is_contract = is_contract;
  }

  -- A token is minted only if its charge is paid. In ether, the value of the call is the charge's and
  -- the recipient is sent it; in a token, the call has no value, the charge's sender has approved this
  -- contract for the network and the token to at least the charge, the approval goes down by it, and the
  -- tokens are sent.
  pub mint_paid :
      (env : Env) (to : Address) (network expiration mask : ℕ) (charge : Charge)
      (s s' : Gateway Tokens) (c c' : ChargeHandler payments access charge_caller_role)
      (w w' : World)
      → mint base hashes with_handler env to network expiration mask charge (s, (c, w))
        ≡ ok (s', (c', w'))
      → ((charge.charge_type ≡ none_type) × (w' ≡ w) × (c' ≡ c))
        ⊎ ((charge.charge_type ≡ eth)
            × (env.value ≡ charge.value)
            × (c' ≡ c)
            × (payments.send_ether charge.recipient charge.value w ≡ some w'))
        ⊎ ((charge.charge_type ≡ erc20)
            × (env.value ≡ 0)
            × (charge.value ≤ c.approvals charge.token_sender this charge.token network)
            × (c'.approvals charge.token_sender this charge.token network
                ≡ c.approvals charge.token_sender this charge.token network - charge.value)
            × (payments.safe_transfer_from charge.token charge.token_sender charge.recipient
                  charge.value w
                ≡ ok w'))
  unfolding mint
  mint_paid env to network expiration mask charge s s' c c' w w' h =
      let ((id, s1), e1, h1) =
        >>=-eq-ok (mint_effects base hashes env to network expiration mask s) _ h in
      let ((c1, w1), e2, h2) =
        >>=-eq-ok
          (handle_charge payments access charge_caller_role this env.value charge network (c, w)) _
          h1 in
      let (allowed, paid) =
        handle_charge-ok payments access charge_caller_role this env.value charge network c c1 w w1
          e2 in
      let same_c : c1 ≡ c' = cc in
      let same_w : w1 ≡ w' = cc in
      elim paid [
        | inl (t, a, b) ↦ inl (t, sym same_w ∙ b, sym same_c ∙ a)
        | inr (inl (t, v, a, b)) ↦ inr (inl (t, v, sym same_c ∙ a, b ∙ ap some same_w))
        | inr (inr (t, v, le, a, b)) ↦
            inr (inr (t, v, le, rw (sym same_c ∙ a) (ground arith), b ∙ ap ok same_w))
      ]

-- The flags before the first that is 256 or more.
abbrev pub small : List ℕ → List ℕ
small [] = []
small (index ∷ flags) = let rest = small flags in if leb 256 index then [] else index ∷ rest

set_lem : (self i j : ℕ) → check_bit (bit_or self (2 ^ i)) j ≡ (j == i || check_bit self j)
unfolding set_bit
set_lem self i j = check_bit-set_bit self i j

-- The mask that the client's `addFlagsToBitmask` builds has, for the contracts, the bits of the mask
-- given and of the flags before the first that is 256 or more, and no other.
pub check_bit-add_flags_to_bitmask :
    (bitmask : ℕ) (flags : List ℕ) (i : ℕ)
    → check_bit (add_flags_to_bitmask bitmask flags) i
      ≡ (check_bit bitmask i || any (λ index. i == index) (small flags))
unfolding add_flags_to_bitmask
check_bit-add_flags_to_bitmask bitmask [] i = ground arith
check_bit-add_flags_to_bitmask bitmask (index ∷ flags) i = ground (
  arith,
  check_bit-add_flags_to_bitmask (bit_or bitmask (2 ^ index)) flags i,
  set_lem bitmask index i,
)
