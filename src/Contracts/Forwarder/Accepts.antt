-- ===== src/Contracts/Forwarder/Accepts.antt =====
-- What FlexibleNonceForwarder.sol has done where it accepts a request.
use Prim.Native.String.{String}
use text.Mathlib.TextEquality.{eq_iff}
use on_chain_identity_gatewa.Common.{
  ℕ, ◌+◌, ◌≤◌, ◌<◌, ◌==◌, ltb, ◌≡◌, ◌≢◌, refl, ◌⊎◌, inl, inr, true, false, not, ok, err, arith,
  if◌then◌else◌,
}
use on_chain_identity_gatewa.Common.Tests.{Bool-cases}
use on_chain_identity_gatewa.Common.Results.{>>=-eq-ok}
use on_chain_identity_gatewa.Contracts.{
  Address, put, Revert, checked_add, checked_add-ok, tx_too_old, invalid_signer,
}
use on_chain_identity_gatewa.Contracts.Forwarder.{
  ForwardRequest, Nonces, get_nonce, store_sig, Transaction, Chain, check_nonce,
  verify_flexible_nonce, execute, refund_excess_value, forwarded_data,
}

-- No nonce goes back and no signature is forgotten.
abbrev pub Grows : Nonces → Nonces → Type 0
Grows s s' =
    (from : Address)
    → (get_nonce from s ≤ get_nonce from s')
      × ((nonce : ℕ) (sig : String)
          → (s from).sigs nonce sig ≡ true
          → (s' from).sigs nonce sig ≡ true)

-- A request whose nonce is passed and whose signature is stored.
abbrev pub Used : ForwardRequest → String → Nonces → Type 0
Used req sig s =
    (req.nonce < get_nonce req.from_address s) × ((s req.from_address).sigs req.nonce sig ≡ true)

pub Grows-trans : (a b c : Nonces) → Grows a b → Grows b c → Grows a c
Grows-trans a b c p q from = (
  omega (arith, (p from).0, (q from).0),
  λ nonce sig h. (q from).1 nonce sig ((p from).1 nonce sig h),
)

pub Grows-Used :
    (req : ForwardRequest) (sig : String) (s s' : Nonces)
    → Grows s s'
    → Used req sig s
    → Used req sig s'
Grows-Used req sig s s' g u =
    (omega (arith, (g req.from_address).0, u.0), (g req.from_address).1 req.nonce sig u.1)

store_sig-Grows :
    (from : Address) (nonce : ℕ) (sig : String) (s : Nonces) → Grows s (store_sig from nonce sig s)
store_sig-Grows from nonce sig s a = (ground arith, λ n x h. ground arith)

pub store_sig-stores :
    (from : Address) (nonce : ℕ) (sig : String) (s : Nonces)
    → (store_sig from nonce sig s from).sigs nonce sig ≡ true
store_sig-stores from nonce sig s = ground (arith, (eq_iff sig sig).1 refl)

store_sig-nonce :
    (from : Address) (nonce : ℕ) (sig : String) (s : Nonces)
    → get_nonce from (store_sig from nonce sig s) ≡ get_nonce from s
store_sig-nonce from nonce sig s = ground arith

ok≢err' : true ≢ false
ok≢err' h = cc

ok≢err : {s : Nonces} {e : Revert} → err e ≢ ok s
ok≢err h = cc

-- The state after the branch of `check_nonce` that takes the next nonce.
abbrev pub advanced : ℕ → ForwardRequest → ℕ → Nonces → Nonces
advanced block req next s =
    put req.from_address (record (s req.from_address) { current_nonce = next; block = block }) s

advanced-Grows :
    (block next : ℕ) (req : ForwardRequest) (s : Nonces)
    → get_nonce req.from_address s ≤ next
    → Grows s (advanced block req next s)
advanced-Grows block next req s h a = ground arith

module _ {World : Type 0} (chain : Chain World) (this : Address) (tolerance : ℕ) where
  -- What `check_nonce` does where it accepts.
  pub check_nonce-ok :
      (block : ℕ) (req : ForwardRequest) (sig : String) (s s' : Nonces)
      → check_nonce chain this tolerance block req sig s ≡ ok s'
      → ((get_nonce req.from_address s ≡ req.nonce) × (s' ≡ advanced block req (req.nonce + 1) s))
        ⊎ ((get_nonce req.from_address s ≢ req.nonce)
            × ((s req.from_address).sigs req.nonce sig ≡ false)
            × (s' ≡ s))
  check_nonce-ok block req sig s s' h =
      elim (Bool-cases ((s req.from_address).current_nonce == req.nonce)) [
        | inl same ↦
            let (next, e, h') =
              >>=-eq-ok (checked_add req.nonce 1) (λ next. ok (advanced block req next s))
                (rw same at h) in
            let sum = checked_add-ok req.nonce 1 next e in inl (ground arith, cc)
        | inr other ↦ elim (Bool-cases ((s req.from_address).sigs req.nonce sig)) [
          | inl seen ↦ absurd (ok≢err (rw (other, seen) at h))
          | inr unseen ↦
              let (last, e, h') =
                >>=-eq-ok (checked_add (s req.from_address).block tolerance)
                  (λ last.
                    if ltb last block
                    then err (tx_too_old (s req.from_address).block tolerance)
                    else ok s)
                  (rw (other, unseen) at h) in
              inr (ground arith, unseen, ground arith)
        ]
      ]

  -- What `_verifyFlexibleNonce` does where it accepts.
  pub verify-ok :
      (block : ℕ) (req : ForwardRequest) (sig : String) (s s' : Nonces)
      → verify_flexible_nonce chain this tolerance block req sig s ≡ ok s'
      → (chain.recover req sig ≡ ok req.from_address)
        × (t : Nonces) × (check_nonce chain this tolerance block req sig s ≡ ok t)
        × (s' ≡ store_sig req.from_address req.nonce sig t)
  unfolding verify_flexible_nonce
  verify-ok block req sig s s' h =
      let (signer, e1, h1) = >>=-eq-ok (chain.recover req sig) _ h in
      let (_, e2, h2) =
        >>=-eq-ok
          (if not (signer == req.from_address)
            then err (invalid_signer signer req.from_address)
            else ok tt)
          _ h1 in
      let (t, e3, h3) = >>=-eq-ok (check_nonce chain this tolerance block req sig s) _ h2 in
      (ground arith, t, e3, ground arith)

  check_nonce-Grows :
      (block : ℕ) (req : ForwardRequest) (sig : String) (s s' : Nonces)
      → check_nonce chain this tolerance block req sig s ≡ ok s'
      → Grows s s'
        × (req.nonce ≤ get_nonce req.from_address s → req.nonce < get_nonce req.from_address s')
  check_nonce-Grows block req sig s s' h = elim (check_nonce-ok block req sig s s' h) [
    | inl (here, moved) ↦ (
      rw moved (advanced-Grows block (req.nonce + 1) req s (omega arith)),
      λ _. rw moved (ground arith),
    )
    | inr (other, unseen, kept) ↦
        (rw kept (λ a. (omega arith, λ _ _ x. x)), λ le. rw kept (ground arith))
  ]

  pub verify-Grows :
      (block : ℕ) (req : ForwardRequest) (sig : String) (s s' : Nonces)
      → verify_flexible_nonce chain this tolerance block req sig s ≡ ok s'
      → Grows s s' × (req.nonce ≤ get_nonce req.from_address s → Used req sig s')
  verify-Grows block req sig s s' h =
      let (signed, t, checked, e) = verify-ok block req sig s s' h in
      let (grows, passes) = check_nonce-Grows block req sig s t checked in
      let stored = store_sig-Grows req.from_address req.nonce sig t in
      rw e (
        Grows-trans s t (store_sig req.from_address req.nonce sig t) grows stored,
        λ le. (
          omega (arith, passes le, (stored req.from_address).0),
          store_sig-stores req.from_address req.nonce sig t,
        ),
      )

  pub execute-ok :
      (tx : Transaction) (s s' : Nonces) (w w' : World)
      → execute chain this tolerance tx (s, w) ≡ ok (s', w')
      → verify_flexible_nonce chain this tolerance tx.block_number tx.request tx.signature s ≡ ok s'
  unfolding execute
  execute-ok tx s s' w w' h =
      let (t, e1, h1) =
        >>=-eq-ok
          (verify_flexible_nonce chain this tolerance tx.block_number tx.request tx.signature s) _
          h in
      let (w1, e2, h2) = >>=-eq-ok (refund_excess_value chain this tolerance tx w) _ h1 in
      let ((gas_left, w2), e3, h3) =
        >>=-eq-ok
          (chain.call tx.request.to_address tx.request.value tx.request.gas
            (record { sender = this; data_bytes = forwarded_data tx.request }) w1)
          _ h2 in
      ground arith
