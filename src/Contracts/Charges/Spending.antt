-- ===== src/Contracts/Charges/Spending.antt =====
-- What ChargeHandler.sol takes of a user's tokens, over any sequence of calls.
use on_chain_identity_gatewa.Common.{
  ℕ, ◌+◌, ◌-◌, ◌≤◌, ◌==◌, ◌≡◌, refl, ap, ◌⊎◌, inl, inr, Bool, true, ◌&&◌, List, [], ◌∷◌, Result, ok,
  err, some, if◌then◌else◌, arith,
}
use on_chain_identity_gatewa.Common.Results.{◌>>=◌, >>=-eq-ok, Result-cases}
use on_chain_identity_gatewa.Contracts.{Address, Revert}
use on_chain_identity_gatewa.Ethereum.{ChargeType, none_type, eth, erc20}
use on_chain_identity_gatewa.Contracts.Charges.{
  Charge, AccessControl, Payments, Approvals, set_allowance, set_approval, consume_approval,
  ChargeHandler, handle_charge, handle_erc20_charge, handle_eth_charge, set_role, only_role,
}

ChargeType-cases : (t : ChargeType) → (t ≡ none_type) ⊎ (t ≡ eth) ⊎ (t ≡ erc20)
ChargeType-cases none_type = inl refl
ChargeType-cases eth = inr (inl refl)
ChargeType-cases erc20 = inr (inr refl)

-- One of the allowances.
pub record Key : Type 0 where
  pub user : Address
  pub gateway : Address
  pub token : Address
  pub network : ℕ

abbrev pub allowance : Key → Approvals → ℕ
allowance k s = s k.user k.gateway k.token k.network

abbrev pub same_key : (user gateway token : Address) (network : ℕ) → Key → Bool
same_key user gateway token network k =
    k.user == user && k.gateway == gateway && k.token == token && k.network == network

allowance-set_allowance :
    (user gateway token : Address) (network tokens : ℕ) (s : Approvals) (k : Key)
    → allowance k (set_allowance user gateway token network tokens s)
      ≡ (if same_key user gateway token network k then tokens else allowance k s)
allowance-set_allowance user gateway token network tokens s k = ground arith

-- The external calls that change the contract's state, by their senders.
pub data Call : Type 0 where
  call_charge : (sender : Address) (msg_value : ℕ) → Charge → (network : ℕ) → Call
  call_approve : (sender gateway token : Address) (tokens network : ℕ) → Call
  call_set_role : (sender : Address) (role : ℕ) (recipient : Address) → Call

-- What a call, if it succeeds, takes from an allowance.
abbrev pub taken : Key → Call → ℕ
taken k (call_charge sender msg_value charge network) = elim charge.charge_type [
  | erc20 ↦ if same_key charge.token_sender sender charge.token network k then charge.value else 0
  | _ ↦ 0
]
taken k _ = 0

-- What a call lets the contract take.
abbrev pub granted : Key → Call → ℕ
granted k (call_approve sender gateway token tokens network) =
    if same_key sender gateway token network k then tokens else 0
granted k _ = 0

module _ {World Roles : Type 0} (payments : Payments World) (access : AccessControl Roles)
    (charge_caller_role : ℕ) where
  abbrev pub State : Type 0
  State = ChargeHandler payments access charge_caller_role × World

  unfoldable pub run_call : Call → State → Result Revert State
  run_call (call_charge sender msg_value charge network) s =
      handle_charge payments access charge_caller_role sender msg_value charge network s
  run_call (call_approve sender gateway token tokens network) (s, w) =
      ok (record s { approvals = set_approval sender gateway token tokens network s.approvals }, w)
  run_call (call_set_role sender role recipient) (s, w) = do
    s' ← set_role payments access charge_caller_role sender role recipient s
    ok (s', w)

  abbrev pub commit : State → Result Revert State → State
  commit s (ok s') = s'
  commit s (err e) = s

  abbrev pub took : Key → Call → Result Revert State → ℕ
  took k call (ok s') = taken k call
  took k call (err e) = 0

  -- Calls one after the other, and what the successful ones took of an allowance; a call that reverts
  -- changes nothing.
  unfoldable pub run : Key → List Call → State → ℕ × State
  run k [] s = (0, s)
  run k (call ∷ calls) s =
      let (spent, end) = run k calls (commit s (run_call call s)) in
      (took k call (run_call call s) + spent, end)

  unfoldable pub total_granted : Key → List Call → ℕ
  total_granted k [] = 0
  total_granted k (call ∷ calls) = granted k call + total_granted k calls

  -- What a charge that is taken from an allowance leaves of it.
  handle_erc20_charge-ok :
      (sender : Address) (msg_value : ℕ) (charge : Charge) (network : ℕ) (s s' : Approvals)
      (w w' : World)
      → handle_erc20_charge payments access charge_caller_role sender msg_value charge network
          (s, w)
        ≡ ok (s', w')
      → (msg_value ≡ 0)
        × (charge.value ≤ s charge.token_sender sender charge.token network)
        × (s'
            ≡ set_allowance charge.token_sender sender charge.token network
                (s charge.token_sender sender charge.token network - charge.value)
                s)
        × (payments.safe_transfer_from charge.token charge.token_sender charge.recipient
              charge.value w
            ≡ ok w')
  unfolding handle_erc20_charge consume_approval
  handle_erc20_charge-ok sender msg_value charge network s s' w w' h = ground arith

  handle_eth_charge-ok :
      (msg_value : ℕ) (charge : Charge) (w w' : World)
      → handle_eth_charge payments access charge_caller_role msg_value charge w ≡ ok w'
      → (msg_value ≡ charge.value) × (payments.send_ether charge.recipient charge.value w ≡ some w')
  unfolding handle_eth_charge
  handle_eth_charge-ok msg_value charge w w' h = ground arith

  -- What a charge that succeeds has done: its caller has the role, and the charge is sent as ether of
  -- exactly its value, or taken from the allowance of its token's sender for this caller, token and
  -- network, which was enough, with no ether; a charge of no kind changes nothing.
  pub handle_charge-ok :
      (sender : Address) (msg_value : ℕ) (charge : Charge) (network : ℕ)
      (s s' : ChargeHandler payments access charge_caller_role) (w w' : World)
      → handle_charge payments access charge_caller_role sender msg_value charge network (s, w)
        ≡ ok (s', w')
      → (access.has_role charge_caller_role sender s.roles ≡ true)
        × (((charge.charge_type ≡ none_type) × (s' ≡ s) × (w' ≡ w))
            ⊎ ((charge.charge_type ≡ eth)
                × (msg_value ≡ charge.value)
                × (s' ≡ s)
                × (payments.send_ether charge.recipient charge.value w ≡ some w'))
            ⊎ ((charge.charge_type ≡ erc20)
                × (msg_value ≡ 0)
                × (charge.value ≤ s.approvals charge.token_sender sender charge.token network)
                × (s' ≡ record s {
                  approvals =
                      set_allowance charge.token_sender sender charge.token network
                        (s.approvals charge.token_sender sender charge.token network - charge.value)
                        s.approvals;
                })
                × (payments.safe_transfer_from charge.token charge.token_sender charge.recipient
                      charge.value w
                    ≡ ok w')))
  unfolding handle_charge
  handle_charge-ok sender msg_value charge network s s' w w' h =
      let (_, e1, h1) =
        >>=-eq-ok (only_role payments access charge_caller_role charge_caller_role sender s) _ h in
      let allowed : access.has_role charge_caller_role sender s.roles ≡ true = ground arith in
      elim (ChargeType-cases charge.charge_type) [
        | inl t ↦ (allowed, inl (t, ground arith, ground arith))
        | inr (inl t) ↦
            let (w1, e2, h2) =
              >>=-eq-ok (handle_eth_charge payments access charge_caller_role msg_value charge w) _
                (rw t at h1) in
            let (paid, sent) = handle_eth_charge-ok msg_value charge w w1 e2 in
            (allowed, inr (inl (t, paid, ground arith, ground arith)))
        | inr (inr t) ↦
            let ((approvals, w1), e2, h2) =
              >>=-eq-ok
                (handle_erc20_charge payments access charge_caller_role sender msg_value charge
                  network (s.approvals, w))
                _ (rw t at h1) in
            let (unpaid, enough, left, moved) =
              handle_erc20_charge-ok sender msg_value charge network s.approvals approvals w w1
                e2 in
            (allowed, inr (inr (t, unpaid, enough, ground arith, ground arith)))
      ]

  charge-spends :
      (k : Key) (sender : Address) (msg_value : ℕ) (charge : Charge) (network : ℕ) (s s' : State)
      → handle_charge payments access charge_caller_role sender msg_value charge network s ≡ ok s'
      → taken k (call_charge sender msg_value charge network) + allowance k s'.0.approvals
        ≤ allowance k s.0.approvals
  charge-spends k sender msg_value charge network (s, w) (s', w') h =
      let (allowed, done) = handle_charge-ok sender msg_value charge network s s' w w' h in
      elim done [
        | inl (t, same, _) ↦ rw (t, same) (omega arith)
        | inr (inl (t, _, same, _)) ↦ rw (t, same) (omega arith)
        | inr (inr (t, _, enough, same, _)) ↦
            rw (t, same)
              (ground (
                arith,
                allowance-set_allowance charge.token_sender sender charge.token network
                    (s.approvals charge.token_sender sender charge.token network - charge.value)
                    s.approvals k,
              ))
      ]

  set_role-approvals :
      (sender : Address) (role : ℕ) (recipient : Address)
      (s s' : ChargeHandler payments access charge_caller_role)
      → set_role payments access charge_caller_role sender role recipient s ≡ ok s'
      → s'.approvals ≡ s.approvals
  unfolding set_role
  set_role-approvals sender role recipient s s' h = ground arith

  run_call-spends :
      (k : Key) (call : Call) (s : State)
      → took k call (run_call call s) + allowance k (commit s (run_call call s)).0.approvals
        ≤ allowance k s.0.approvals + granted k call
  unfolding run_call set_approval
  run_call-spends k (call_charge sender msg_value charge network) s =
      elim (Result-cases
        (handle_charge payments access charge_caller_role sender msg_value charge network s)) [
          | inl (s1, e) ↦
              rw e (omega (arith, charge-spends k sender msg_value charge network s s1 e))
          | inr (x, e) ↦ rw e (omega arith)
        ]
  run_call-spends k (call_approve sender gateway token tokens network) s =
      ground (arith, allowance-set_allowance sender gateway token network tokens s.0.approvals k)
  run_call-spends k (call_set_role sender role recipient) s =
      elim (Result-cases (set_role payments access charge_caller_role sender role recipient s.0)) [
        | inl (s1, e) ↦
            rw e
              (omega (arith, ap (allowance k) (set_role-approvals sender role recipient s.0 s1 e)))
        | inr (x, e) ↦ rw e (omega arith)
      ]

  -- Over any calls by any senders, what is taken of a user's allowance for a gateway token contract, a
  -- token and a network, with what is then left of it, is at most what was allowed at the start and
  -- what the user has approved since.
  pub run_spends :
      (k : Key) (calls : List Call) (s : State)
      → (run k calls s).0 + allowance k (run k calls s).1.0.approvals
        ≤ allowance k s.0.approvals + total_granted k calls
  unfolding run total_granted
  run_spends k [] s = omega arith
  run_spends k (call ∷ calls) s =
      omega (arith, run_spends k calls (commit s (run_call call s)), run_call-spends k call s)
