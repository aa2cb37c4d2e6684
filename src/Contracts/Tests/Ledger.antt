-- ===== src/Contracts/Tests/Ledger.antt =====
-- A ledger of tokens in the place of the ERC3525 base contract.
use on_chain_identity_gatewa.Common.{
  ℕ, zero, suc, ◌<◌, ◌==◌, ltb, ◌≡◌, ◌≢◌, refl, Bool, true, false, not, ◌&&◌, List, [], ◌∷◌, Option,
  none, some, inl, inr, Result, ok, err, if◌then◌else◌, length, arith,
}
use on_chain_identity_gatewa.Common.Tests.{Bool-cases}
use on_chain_identity_gatewa.Common.Lists.{keep, get_elem?}
use on_chain_identity_gatewa.Contracts.{Address, put, Revert, reverted, missing_account}
use on_chain_identity_gatewa.Contracts.Gateway.{Base}

pub record Ledger : Type 0 where
  pub next : ℕ
  pub live : ℕ → Bool
  pub slots : ℕ → ℕ
  pub owners : ℕ → Address

abbrev pub no_tokens : Ledger
no_tokens = record { next = 1; live = λ _. false; slots = λ _. 0; owners = λ _. 0 }

abbrev pub invalid_id : {A : Type 0} → Result Revert A
invalid_id = err (reverted "ERC3525: invalid token ID")

abbrev pub holds : ℕ → Ledger → Bool
holds id t = t.live id && (ltb id t.next && not (t.owners id == 0))

abbrev pub below : ℕ → List ℕ
below zero = []
below (suc n) = n ∷ below n

abbrev pub ids_of : Address → Ledger → List ℕ
ids_of a t = keep (λ id. holds id t && t.owners id == a) (below t.next)

abbrev pub found : Option ℕ → Result Revert ℕ
found none = invalid_id
found (some id) = ok id

abbrev pub mint_token : Address → (slot value : ℕ) → Ledger → Result Revert (ℕ × Ledger)
mint_token to slot value t =
    if to == 0
    then err missing_account
    else ok (
      t.next,
      record t {
        next = suc t.next;
        live = put t.next true t.live;
        slots = put t.next slot t.slots;
        owners = put t.next to t.owners;
      },
    )

abbrev pub burn_token : ℕ → Ledger → Result Revert Ledger
burn_token id t = if holds id t then ok (record t { live = put id false t.live }) else invalid_id

elem_cons :
    (p : ℕ → Bool) (x : ℕ) (ys : List ℕ) (i : ℕ)
    → p x ≡ true
    → ((j : ℕ) → j < length ys → (y : ℕ) × (get_elem? ys j ≡ some y) × (p y ≡ true))
    → i < length (x ∷ ys)
    → (y : ℕ) × (get_elem? (x ∷ ys) i ≡ some y) × (p y ≡ true)
elem_cons p x ys zero hit rest h = (x, refl, hit)
elem_cons p x ys (suc i) hit rest h = rest i (omega arith)

keep_elem :
    (p : ℕ → Bool) (xs : List ℕ) (i : ℕ)
    → i < length (keep p xs)
    → (x : ℕ) × (get_elem? (keep p xs) i ≡ some x) × (p x ≡ true)
keep_elem p [] i h = absurd (omega arith)
keep_elem p (x ∷ xs) i h = elim (Bool-cases (p x)) [
  | inl hit ↦ rw hit (elem_cons p x (keep p xs) i hit (keep_elem p xs) (rw hit at h))
  | inr miss ↦ rw miss (keep_elem p xs i (rw miss at h))
]

abbrev pub slot_token : ℕ → Ledger → Result Revert ℕ
slot_token id t = if holds id t then ok (t.slots id) else invalid_id

abbrev pub owner_token : ℕ → Ledger → Result Revert Address
owner_token id t = if holds id t then ok (t.owners id) else invalid_id

pub ledger_owner_of :
    (id : ℕ) (t : Ledger) → holds id t ≡ true → (a : Address) × (owner_token id t ≡ ok a) × (a ≢ 0)
ledger_owner_of id t h = (t.owners id, rw h refl, ground arith)

pub ledger_issued : (id : ℕ) (t : Ledger) → holds id t ≡ true → ltb id t.next ≡ true
ledger_issued id t h = ground arith

pub ledger_slot_of : (id : ℕ) (t : Ledger) (n : ℕ) → slot_token id t ≡ ok n → holds id t ≡ true
ledger_slot_of id t n h = ground arith

pub ledger_owned :
    (a : Address) (n i : ℕ) (t : Ledger)
    → ◌≡◌ {A = Result Revert ℕ} (ok (length (ids_of a t))) (ok n)
    → i < n
    → (id : ℕ) × (found (get_elem? (ids_of a t) i) ≡ ok id)
      × (owner_token id t ≡ ok a)
      × (holds id t ≡ true)
ledger_owned a n i t b lt =
    let (id, at, own) =
      keep_elem (λ id. holds id t && t.owners id == a) (below t.next) i (ground arith) in
    (id, rw at refl, ground arith, ground arith)

pub ledger_minted :
    (to slot value : ℕ) (t : Ledger) (id : ℕ) (t' : Ledger)
    → mint_token to slot value t ≡ ok (id, t')
    → (ltb id t.next ≡ false)
      × (holds id t' ≡ true)
      × (owner_token id t' ≡ ok to)
      × (slot_token id t' ≡ ok slot)
      × ((other : ℕ)
          → other ≢ id
          → (ltb other t'.next ≡ ltb other t.next)
            × (holds other t' ≡ holds other t)
            × (slot_token other t' ≡ slot_token other t)
            × (owner_token other t' ≡ owner_token other t))
ledger_minted to slot value t id t' h = ground arith

pub ledger_burned :
    (id : ℕ) (t t' : Ledger)
    → burn_token id t ≡ ok t'
    → (holds id t' ≡ false)
      × (ltb id t'.next ≡ ltb id t.next)
      × ((other : ℕ)
          → other ≢ id
          → (ltb other t'.next ≡ ltb other t.next)
            × (holds other t' ≡ holds other t)
            × (slot_token other t' ≡ slot_token other t)
            × (owner_token other t' ≡ owner_token other t))
ledger_burned id t t' h = ground arith

abbrev pub ledger : Base Ledger
ledger = record {
  mint = mint_token;
  burn = burn_token;
  exists = holds;
  slot_of = slot_token;
  owner_of = owner_token;
  balance_of = λ a t. ok (length (ids_of a t));
  token_of_owner_by_index = λ a i t. found (get_elem? (ids_of a t) i);
  issued = λ id t. ltb id t.next;
  set_metadata_descriptor = λ _ t. t;
  described = λ _ t id. (refl, refl, refl, refl);
  slot_of_exists = λ id t h. (t.slots id, rw h refl);
  owner_of_exists = ledger_owner_of;
  exists_issued = ledger_issued;
  slot_of_ok = ledger_slot_of;
  owned = ledger_owned;
  minted = ledger_minted;
  burned = ledger_burned;
}
