-- ===== src/Common/Results.antt =====
-- Code that may throw: a result or the error that was thrown, and the chain of such steps.
use mathlib.Core.Path.{◌≡◌, refl}
use mathlib.Core.Logic.{◌⊎◌, inl, inr}
use mathlib.Core.List.{List, [], ◌∷◌}

pub data Result {ℓ κ} (E : Type ℓ) (A : Type κ) : Type (ℓ ⊔ κ) where
  ok : A → Result E A
  err : E → Result E A

module _ {ℓ} {E : Type ℓ} where
  -- The value of a step goes to the next; an error ends the chain.
  infixl 5 ◌>>=◌
  abbrev pub ◌>>=◌ {κ μ} : {X : Type κ} {Y : Type μ} → Result E X → (X → Result E Y) → Result E Y
  err thrown >>= next = err thrown
  ok x >>= next = next x

  abbrev pub map_ok {κ μ} : {A : Type κ} {B : Type μ} → (A → B) → Result E A → Result E B
  map_ok f (ok a) = ok (f a)
  map_ok f (err e) = err e

  infixl 5 ◌>>◌
  abbrev pub ◌>>◌ {μ} : {Y : Type μ} → Result E (Unit {0}) → Result E Y → Result E Y
  check >> rest = check >>= λ _. rest

  -- `Promise.all`, or `map` with a callback that may throw: the first error in the array's order.
  abbrev pub traverse {κ μ} :
      {A : Type κ} {B : Type μ} → (A → Result E B) → List A → Result E (List B)
  traverse f [] = ok []
  traverse f (x ∷ xs) = f x >>= λ y. traverse f xs >>= λ ys. ok (y ∷ ys)

  -- What a chain that succeeds was made of.
  pub >>=-eq-ok {κ μ} :
      {X : Type κ} {Y : Type μ} (first : Result E X) (next : X → Result E Y) {y : Y}
      → (first >>= next) ≡ ok y
      → (x : X) × (first ≡ ok x) × (next x ≡ ok y)
  >>=-eq-ok (err thrown) next h = cc
  >>=-eq-ok (ok x) next h = (x, refl, h)

  -- Two continuations that agree give the same chain.
  pub >>=_congr {κ μ} :
      {A : Type κ} {B : Type μ} (m : Result E A) (f g : A → Result E B)
      → ((a : A) → f a ≡ g a)
      → (m >>= f) ≡ (m >>= g)
  >>=_congr (ok a) f g h = h a
  >>=_congr (err e) f g h = refl

  pub traverse-cons {κ μ} :
      {A : Type κ} {B : Type μ} (f : A → Result E B) (x : A) (xs : List A) (y : B) (ys : List B)
      → f x ≡ ok y
      → traverse f xs ≡ ok ys
      → traverse f (x ∷ xs) ≡ ok (y ∷ ys)
  traverse-cons f x xs y ys p q = rw p (rw q refl)

  -- A chain whose first step succeeds is the rest of the chain.
  pub >>=-ok {κ μ} :
      {A : Type κ} {B : Type μ} (m : Result E A) (f : A → Result E B) (a : A)
      → m ≡ ok a
      → (m >>= f) ≡ f a
  >>=-ok m f a h = rw h refl

  pub Result-cases {κ} :
      {A : Type κ} (m : Result E A) → ((a : A) × (m ≡ ok a)) ⊎ ((e : E) × (m ≡ err e))
  Result-cases (ok a) = inl (a, refl)
  Result-cases (err e) = inr (e, refl)
