-- ===== src/Solana/Program/Fate.antt =====
-- What one step of a helper can do to the token at an account: keep it, change its expiry time or
-- state, or burn it.
use mathlib.Core.Path.{subst}
use on_chain_identity_gatewa.Common.{
  ℕ, ◌≡◌, ◌≢◌, refl, sym, ◌∙◌, ◌⊎◌, inl, inr, Option, none, some, true, ok, List, arith, Bool-cases,
}
use on_chain_identity_gatewa.Solana.Web3.{Web3}
use on_chain_identity_gatewa.Solana.Program.{
  TokenAccount, Ledger, Runtime, is_valid_state_change, ProgramError,
}
use on_chain_identity_gatewa.Solana.Program.Process.{sweep, create, or_err, at_least_one}
use on_chain_identity_gatewa.Solana.Program.Rules.{Stores, not_first}

or_err-ok : {A : Type 0} (o : Option A) (e : ProgramError) (a : A) → or_err o e ≡ ok a → o ≡ some a
or_err-ok none e a h = cc
or_err-ok (some b) e a h = cc

module _ (w : Web3) (r : Runtime w) where
  open w use {PublicKey, equals, program_id, system_program_id}

  -- The same owner, network and issuer; the state is the old one, or one that it may change to.
  abbrev pub Succeeds : TokenAccount PublicKey → TokenAccount PublicKey → Type 0
  Succeeds t t' =
      (t'.owner_wallet ≡ t.owner_wallet)
      × (t'.gatekeeper_network ≡ t.gatekeeper_network)
      × (t'.issuing_gatekeeper ≡ t.issuing_gatekeeper)
      × ((t'.state ≡ t.state) ⊎ (is_valid_state_change t.state t'.state ≡ true))

  -- The account holds this token and belongs to the program.
  abbrev pub Holds : Ledger PublicKey → PublicKey → TokenAccount PublicKey → Type 0
  Holds l k t = ((l k).owner ≡ program_id) × (r.parse (l k).content ≡ some t)

  pub data Fate (l' : Ledger PublicKey) (k : PublicKey) (t : TokenAccount PublicKey) : Type 0 where
    kept : (t' : TokenAccount PublicKey) → Holds l' k t' → Succeeds t t' → Fate l' k t
    burned : (l' k).owner ≡ system_program_id → Fate l' k t

  abbrev pub IsSame : Ledger PublicKey → Ledger PublicKey → PublicKey → Type 0
  IsSame l l' k = ((l' k).owner ≡ (l k).owner) × ((l' k).content ≡ (l k).content)

  pub IsSame-Fate :
      (l l' : Ledger PublicKey) (k : PublicKey) (t : TokenAccount PublicKey)
      → Holds l k t
      → IsSame l l' k
      → Fate l' k t
  IsSame-Fate l l' k t (owned, parsed) (same_owner, same_content) =
      kept t (same_owner ∙ owned, rw same_content parsed) (refl, refl, refl, inl refl)

  pub Stores-Fate :
      (l l' : Ledger PublicKey) (key k : PublicKey) (t u u' : TokenAccount PublicKey)
      → Holds l k t
      → r.parse (l key).content ≡ some u
      → Stores w r l l' key u'
      → Succeeds u u'
      → Fate l' k t
  Stores-Fate l l' key k t u u' (owned, parsed) before (after, owner, _, others) next =
      elim (Bool-cases (equals key k)) [
        | inl here ↦
            let e : key ≡ k = (w.equals_iff key k).0 here in
            let same : u ≡ t = cc in
            kept u' (cc, subst (λ j. r.parse (l' j).content ≡ some u') e after)
              (subst (λ x. Succeeds x u') same next)
        | inr other ↦
            let e : l' k ≡ l k =
              not_first w r (others k) (λ p. cc ((w.equals_iff key k).1 (sym p))) in
            IsSame-Fate l l' k t (owned, parsed) (rw e refl, rw e refl)
      ]

  pub sweep-Fate :
      (to from k : PublicKey) (l l' : Ledger PublicKey) (t : TokenAccount PublicKey)
      → Holds l k t
      → sweep w r to from l ≡ ok l'
      → Fate l' k t
  sweep-Fate to from k l l' t holds h = elim (Bool-cases (equals from k)) [
    | inl closed ↦ burned (ground arith)
    | inr open_still ↦
        IsSame-Fate l l' k t holds
          (ground (arith, w.equals_iff to k), ground (arith, w.equals_iff to k))
  ]

  -- An account of the program is not the one that is created.
  pub create-ne :
      (funder account k : PublicKey) (space : ℕ) (seeds : List (List ℕ)) (l l' : Ledger PublicKey)
      → create w r funder account space seeds l ≡ ok l'
      → (l k).owner ≡ program_id
      → k ≢ account
  create-ne funder account k space seeds l l' h owned e =
      let (system, _, _, _) =
        r.create_account_lem funder account (at_least_one (r.minimum_balance space)) space
          program_id _ l l' (or_err-ok _ _ l' h) in
      w.program_ne_system (cc)

  pub create-IsSame :
      (funder account k : PublicKey) (space : ℕ) (seeds : List (List ℕ)) (l l' : Ledger PublicKey)
      → create w r funder account space seeds l ≡ ok l'
      → (l k).owner ≡ program_id
      → IsSame l l' k
  create-IsSame funder account k space seeds l l' h owned =
      let (_, _, _, others) =
        r.create_account_lem funder account (at_least_one (r.minimum_balance space)) space
          program_id _ l l' (or_err-ok _ _ l' h) in
      others k (create-ne funder account k space seeds l l' h owned)
