-- ===== src/Solana/Program/Rules.antt =====
-- What the helpers of the processor check and write.
use mathlib.Core.Path.{subst}
use on_chain_identity_gatewa.Common.{
  ◌≡◌, ◌≢◌, refl, sym, ◌⊎◌, inl, inr, some, ok, arith, Bool-cases, Option-cases,
}
use on_chain_identity_gatewa.Solana.Web3.{Web3}
use on_chain_identity_gatewa.Solana.Program.{
  TokenAccount, Cell, Ledger, Runtime, put, verify_gatekeeper_address_and_account,
  get_gatekeeper_account_address,
}
use on_chain_identity_gatewa.Solana.Program.Process.{store_token}

module _ (w : Web3) (r : Runtime w) where
  open w use {PublicKey, equals, program_id}

  -- The account is that of a gatekeeper of the network.
  abbrev pub IsGatekeeper : Ledger PublicKey → PublicKey → PublicKey → PublicKey → Type 0
  IsGatekeeper l account gatekeeper network =
      ((l account).owner ≡ program_id)
      × (account ≡ get_gatekeeper_account_address w gatekeeper network)

  pub verify-IsGatekeeper :
      (l : Ledger PublicKey) (account gatekeeper network : PublicKey)
      → verify_gatekeeper_address_and_account w l account gatekeeper network ≡ ok tt
      → IsGatekeeper l account gatekeeper network
  unfolding verify_gatekeeper_address_and_account
  verify-IsGatekeeper l account gatekeeper network h = ground (
    arith,
    w.equals_iff (l account).owner program_id,
    w.equals_iff (get_gatekeeper_account_address w gatekeeper network) account,
  )

  pub put_self : (k : PublicKey) (c : Cell PublicKey) (l : Ledger PublicKey) → put w k c l k ≡ c
  put_self k c l = ground (arith, w.equals_iff k k)

  pub put_ne :
      (k j : PublicKey) (c : Cell PublicKey) (l : Ledger PublicKey) → j ≢ k → put w k c l j ≡ l j
  put_ne k j c l h = elim (Bool-cases (equals k j)) [
    | inl same ↦ absurd (h (sym ((w.equals_iff k j).0 same)))
    | inr other ↦ rw other refl
  ]

  pub put-cases :
      (k j : PublicKey) (c : Cell PublicKey) (l : Ledger PublicKey)
      → (j ≡ k) ⊎ (put w k c l j ≡ l j)
  put-cases k j c l = elim (Bool-cases (equals k j)) [
    | inl same ↦ inl (sym ((w.equals_iff k j).0 same))
    | inr other ↦ inr (rw other refl)
  ]

  pub not_first : {A B : Type 0} → A ⊎ B → (A → ⊥) → B
  not_first (inl a) h = absurd (h a)
  not_first (inr b) h = b

  -- The token at one account is now `t`, and every other account is as it was.
  abbrev pub Stores :
      Ledger PublicKey → Ledger PublicKey → PublicKey → TokenAccount PublicKey → Type 0
  Stores l l' key t =
      (r.parse (l' key).content ≡ some t)
      × ((l' key).owner ≡ (l key).owner)
      × ((l' key).lamports ≡ (l key).lamports)
      × ((j : PublicKey) → (j ≡ key) ⊎ (l' j ≡ l j))

  pub store_token-Stores :
      (key : PublicKey) (t : TokenAccount PublicKey) (l l' : Ledger PublicKey)
      → store_token w r key t l ≡ ok l'
      → Stores l l' key t
  store_token-Stores key t l l' h = elim (Option-cases (r.serialize t (l key).content)) [
    | inl full ↦ cc (full)
    | inr (bytes, wrote) ↦
        let stored : put w key (record (l key) { content = bytes }) l ≡ l' = ground arith in
        let here : l' key ≡ record (l key) { content = bytes } =
          subst (λ m. m key ≡ record (l key) { content = bytes }) stored (put_self key _ l) in
        (
          rw here (r.parse-serialize t _ bytes wrote),
          rw here refl,
          rw here refl,
          λ j. subst (λ m. (j ≡ key) ⊎ (m j ≡ l j)) stored (put-cases key j _ l),
        )
  ]
