-- ===== src/Contracts/Forwarder/Replay.antt =====
-- A signed request is not run again: the nonces and signatures of FlexibleNonceForwarder.sol over
-- any sequence of transactions.
use Prim.Native.String.{String}
use on_chain_identity_gatewa.Common.{
  ℕ, ◌+◌, ◌≤◌, ◌<◌, ◌==◌, ◌≡◌, ◌≢◌, refl, sym, ◌∙◌, ◌^◌, inl, inr, true, false, List, [], ◌∷◌, ok,
  err, arith,
}
use on_chain_identity_gatewa.Common.Tests.{==_iff}
use on_chain_identity_gatewa.Common.Results.{Result-cases}
use on_chain_identity_gatewa.Contracts.{Address, Revert, checked_add_fits}
use on_chain_identity_gatewa.Contracts.Forwarder.{
  ForwardRequest, Nonces, get_nonce, store_sig, Transaction, Chain, check_nonce,
  verify_flexible_nonce, execute, run, commit,
}
use on_chain_identity_gatewa.Contracts.Forwarder.Accepts.{
  Grows, Used, Grows-trans, Grows-Used, store_sig-stores, advanced, check_nonce-ok, verify-ok,
  verify-Grows, execute-ok,
}

true≢false : true ≢ false
true≢false h = cc

module _ {World : Type 0} (chain : Chain World) (this : Address) (tolerance : ℕ) where
  commit-Grows :
      (tx : Transaction) (s : Nonces) (w : World)
      → Grows s (commit chain this tolerance (s, w) (execute chain this tolerance tx (s, w))).0
  commit-Grows tx s w = elim (Result-cases (execute chain this tolerance tx (s, w))) [
    | inl ((s', w'), e) ↦
        rw e
          (verify-Grows chain this tolerance tx.block_number tx.request tx.signature s s'
            (execute-ok chain this tolerance tx s s' w w' e)).0
    | inr (x, e) ↦ rw e (λ a. (omega arith, λ _ _ h. h))
  ]

  run-Grows :
      (txs : List Transaction) (s : Nonces × World) → Grows s.0 (run chain this tolerance txs s).0
  unfolding run
  run-Grows [] s = λ a. (omega arith, λ _ _ h. h)
  run-Grows (tx ∷ txs) s =
      let s1 = commit chain this tolerance s (execute chain this tolerance tx s) in
      Grows-trans s.0 s1.0 (run chain this tolerance txs s1).0 (commit-Grows tx s.0 s.1)
        (run-Grows txs s1)

  execute-Used :
      (tx : Transaction) (s : Nonces × World)
      → Used tx.request tx.signature s.0
      → (e : Revert) × (execute chain this tolerance tx s ≡ err e)
  execute-Used tx s u = elim (Result-cases (execute chain this tolerance tx s)) [
    | inl ((s', w'), e) ↦
        let (signed, t, checked, _) =
          verify-ok chain this tolerance tx.block_number tx.request tx.signature s.0 s'
            (execute-ok chain this tolerance tx s.0 s' s.1 w' e) in
        absurd
          (elim (check_nonce-ok chain this tolerance tx.block_number tx.request tx.signature s.0 t
            checked) [
              | inl (here, moved) ↦ omega (arith, u.0)
              | inr (other, unseen, kept) ↦ true≢false (sym u.1 ∙ unseen)
            ])
    | inr found ↦ found
  ]

  -- A request that was executed, and whose nonce was not ahead of its sender's at the time, reverts
  -- if it comes again with the same signature, in any later block and after any transactions.
  pub execute_once :
      (tx later : Transaction) (txs : List Transaction) (s s' : Nonces × World)
      → tx.request.nonce ≤ get_nonce tx.request.from_address s.0
      → execute chain this tolerance tx s ≡ ok s'
      → later.request ≡ tx.request
      → later.signature ≡ tx.signature
      → (e : Revert) × (execute chain this tolerance later (run chain this tolerance txs s')
          ≡ err e)
  execute_once tx later txs s s' le done same_request same_sig =
      let first : Used tx.request tx.signature s'.0 =
        (verify-Grows chain this tolerance tx.block_number tx.request tx.signature s.0 s'.0
            (execute-ok chain this tolerance tx s.0 s'.0 s.1 s'.1 done)).1
          le in
      let last =
        Grows-Used tx.request tx.signature s'.0 (run chain this tolerance txs s').0
          (run-Grows txs s') first in
      execute-Used later (run chain this tolerance txs s') (rw (same_request, same_sig) last)

  check_nonce_next :
      (block : ℕ) (req : ForwardRequest) (sig : String) (s : Nonces)
      → get_nonce req.from_address s ≡ req.nonce
      → req.nonce + 1 < 2 ^ 256
      → check_nonce chain this tolerance block req sig s ≡ ok (advanced block req (req.nonce + 1) s)
  check_nonce_next block req sig s here fits =
      rw
        (
          (==_iff (s req.from_address).current_nonce req.nonce).1 here,
          checked_add_fits req.nonce 1 fits,
        )
        refl

  verify_next :
      (block : ℕ) (req : ForwardRequest) (sig : String) (s t : Nonces)
      → chain.recover req sig ≡ ok req.from_address
      → check_nonce chain this tolerance block req sig s ≡ ok t
      → verify_flexible_nonce chain this tolerance block req sig s
        ≡ ok (store_sig req.from_address req.nonce sig t)
  unfolding verify_flexible_nonce
  verify_next block req sig s t signed checked =
      let self : (req.from_address == req.from_address) ≡ true =
        (==_iff req.from_address req.from_address).1 refl in
      rw (signed, self, checked) refl

  -- A signature is no protection once its nonce is the next one: a request that was accepted ahead of
  -- its nonce is accepted again, with the same signature, in every later state in which the sender's
  -- nonce has come up to the request's.
  pub verify_again :
      (block later : ℕ) (req : ForwardRequest) (sig : String) (s s' : Nonces)
      (txs : List Transaction) (w : World)
      → verify_flexible_nonce chain this tolerance block req sig s ≡ ok s'
      → get_nonce req.from_address (run chain this tolerance txs (s', w)).0 ≡ req.nonce
      → req.nonce + 1 < 2 ^ 256
      → (((run chain this tolerance txs (s', w)).0 req.from_address).sigs req.nonce sig ≡ true)
        × (t : Nonces) × (verify_flexible_nonce chain this tolerance later req sig
              (run chain this tolerance txs (s', w)).0
            ≡ ok t)
  verify_again block later req sig s s' txs w h here fits =
      let (signed, t, checked, e) = verify-ok chain this tolerance block req sig s s' h in
      let stored : (s' req.from_address).sigs req.nonce sig ≡ true =
        rw e (store_sig-stores req.from_address req.nonce sig t) in
      let end = (run chain this tolerance txs (s', w)).0 in
      (
        (run-Grows txs (s', w) req.from_address).1 req.nonce sig stored,
        store_sig req.from_address req.nonce sig (advanced later req (req.nonce + 1) end),
        verify_next later req sig end (advanced later req (req.nonce + 1) end) signed
            (check_nonce_next later req sig end here fits),
      )
