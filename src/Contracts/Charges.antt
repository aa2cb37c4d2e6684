-- ===== src/Contracts/Charges.antt =====
-- ChargeHandler.sol, library/InternalTokenApproval.sol and library/Charge.sol: takes the charge of a
-- gateway token's issuance or renewal, in ether or in a token that its sender has approved.
pub mod Spending
use on_chain_identity_gatewa.Common.{
  ℕ, ◌-◌, ◌==◌, ltb, Bool, true, false, not, Result, ok, err, Option, none, some, if◌then◌else◌,
  ◌≡◌, ◌||◌, ◌&&◌,
}
use on_chain_identity_gatewa.Common.Results.{◌>>=◌, ◌>>◌}
use on_chain_identity_gatewa.Contracts.{
  Address, put, Revert, missing_account, reverted, incorrect_value, incorrect_allowance,
  transfer_failed,
}
use on_chain_identity_gatewa.Ethereum.{ChargeType, none_type, eth, erc20}

-- `Charge`, with the contracts' `ChargeType`
pub record Charge : Type 0 where
  pub value : ℕ
  pub charge_type : ChargeType
  pub token : Address
  pub token_sender : Address
  pub recipient : Address

-- OpenZeppelin's AccessControl, as far as the contract uses it.
pub record AccessControl (Roles : Type 0) : Type 0 where
  pub no_roles : Roles
  pub has_role : (role : ℕ) → Address → Roles → Bool
  pub setup_role : (role : ℕ) → Address → Roles → Roles
  pub has_role-no_roles : (role : ℕ) (account : Address) → has_role role account no_roles ≡ false
  pub has_role-setup_role :
      (role r : ℕ) (account a : Address) (s : Roles)
      → has_role r a (setup_role role account s) ≡ (r == role && a == account || has_role r a s)

-- Sending ether, which says whether it succeeded, and the `safeTransferFrom` of a token.
pub record Payments (World : Type 0) : Type 0 where
  pub send_ether : (recipient : Address) (value : ℕ) → World → Option World
  pub safe_transfer_from : (token from to : Address) (value : ℕ) → World → Result Revert World

-- `_approvals`: by user, gateway token contract, token and network
abbrev pub Approvals : Type 0
Approvals = Address → Address → Address → ℕ → ℕ

abbrev pub set_allowance :
    (user gateway token : Address) (network tokens : ℕ) → Approvals → Approvals
set_allowance user gateway token network tokens s =
    put user
      (put gateway (put token (put network tokens (s user gateway token)) (s user gateway))
        (s user))
      s

-- `_setApproval`, of the sender
unfoldable pub set_approval :
    (sender : Address) (gateway token : Address) (tokens network : ℕ) → Approvals → Approvals
set_approval sender gateway token tokens network s =
    set_allowance sender gateway token network tokens s

-- `_consumeApproval`: whether it was enough, and what remains
unfoldable pub consume_approval :
    (user gateway token : Address) (tokens network : ℕ) → Approvals → Bool × ℕ × Approvals
consume_approval user gateway token tokens network s =
    if ltb (s user gateway token network) tokens
    then (false, s user gateway token network, s)
    else (
      true,
      s user gateway token network - tokens,
      set_allowance user gateway token network (s user gateway token network - tokens) s,
    )

module _ {World Roles : Type 0} (payments : Payments World) (access : AccessControl Roles)
    (charge_caller_role : ℕ) where
  -- The contract's state.
  pub record ChargeHandler : Type 0 where
    pub roles : Roles
    pub approvals : Approvals

  abbrev pub default_admin_role : ℕ
  default_admin_role = 0

  -- `onlyRole`
  abbrev only_role : (role : ℕ) → Address → ChargeHandler → Result Revert (Unit {0})
  only_role role account s =
      if not (access.has_role role account s.roles)
      then err (reverted "AccessControl: account is missing role")
      else ok tt

  -- `initialize`
  unfoldable pub initialize : (owner : Address) → Result Revert ChargeHandler
  initialize owner =
      if owner == 0
      then err missing_account
      else ok (record {
        roles = access.setup_role default_admin_role owner access.no_roles;
        approvals = λ _ _ _ _. 0;
      })

  -- `setRole`
  unfoldable pub set_role :
      (sender : Address) (role : ℕ) (recipient : Address)
      → ChargeHandler
      → Result Revert ChargeHandler
  set_role sender role recipient s = do
    only_role default_admin_role sender s
    ok (record s { roles = access.setup_role role recipient s.roles })

  -- `_handleEthCharge`
  unfoldable pub handle_eth_charge : (msg_value : ℕ) → Charge → World → Result Revert World
  handle_eth_charge msg_value charge w =
      if not (msg_value == charge.value)
      then err (incorrect_value msg_value charge.value)
      else elim (payments.send_ether charge.recipient charge.value w) [
        | none ↦ err (transfer_failed charge.value)
        | some w' ↦ ok w'
      ]

  -- `_handleERC20Charge`
  unfoldable pub handle_erc20_charge :
      (sender : Address) (msg_value : ℕ)
      → Charge
      → (network : ℕ) → Approvals × World
      → Result Revert (Approvals × World)
  handle_erc20_charge sender msg_value charge network (s, w) =
      let (valid, remaining, s') =
        consume_approval charge.token_sender sender charge.token charge.value network s in
      if ltb 0 msg_value
      then err (incorrect_value msg_value 0)
      else if not valid
      then err (incorrect_allowance remaining charge.value)
      else (do
        w' ←
            payments.safe_transfer_from charge.token charge.token_sender charge.recipient
              charge.value w
        ok (s', w'))

  -- `handleCharge`
  unfoldable pub handle_charge :
      (sender : Address) (msg_value : ℕ)
      → Charge
      → (network : ℕ) → ChargeHandler × World
      → Result Revert (ChargeHandler × World)
  handle_charge sender msg_value charge network (s, w) = do
    only_role charge_caller_role sender s
    elim charge.charge_type [
      | eth ↦ (do w' ← handle_eth_charge msg_value charge w; ok (s, w'))
      | erc20 ↦ (do
        (approvals, w') ← handle_erc20_charge sender msg_value charge network (s.approvals, w)
        ok (record s { approvals = approvals }, w'))
      | none_type ↦ ok (s, w)
    ]
