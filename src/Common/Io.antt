-- ===== src/Common/Io.antt =====
-- Code that awaits calls which change the world outside: from a state of that world to a result,
-- or the error that was thrown, and the next state.
use mathlib.Core.Path.{◌≡◌, refl}
use on_chain_identity_gatewa.Common.Results.{Result, ok, err}

abbrev pub Io : Type 0 → Type 0 → Type 0 → Type 0
Io S E A = S → Result E A × S

module _ {S E : Type 0} where
  -- What follows an awaited call.
  abbrev pub resume : {A B : Type 0} → Result E A × S → (A → Io S E B) → Result E B × S
  resume (ok a, s) f = f a s
  resume (err e, s) f = (err e, s)

  infixl 5 ◌>>=◌
  abbrev pub ◌>>=◌ : {A B : Type 0} → Io S E A → (A → Io S E B) → Io S E B
  (m >>= f) s = resume (m s) f

  infixl 5 ◌>>◌
  abbrev pub ◌>>◌ : {B : Type 0} → Io S E (Unit {0}) → Io S E B → Io S E B
  (m >> k) s = resume (m s) (λ _. k)

  abbrev pub return : {A : Type 0} → A → Io S E A
  return a s = (ok a, s)

  abbrev pub throw : {A : Type 0} → E → Io S E A
  throw e s = (err e, s)

  abbrev pub lift : {A : Type 0} → Result E A → Io S E A
  lift r s = (r, s)

  -- What a chain that succeeds was made of.
  pub resume-ok :
      {A B : Type 0} (m : Result E A × S) (f : A → Io S E B) (b : B) (s' : S)
      → resume m f ≡ (ok b, s')
      → (a : A) × (s : S) × (m ≡ (ok a, s)) × (f a s ≡ (ok b, s'))
  resume-ok (ok a, s) f b s' h = (a, s, refl, h)
  resume-ok (err e, s) f b s' h = cc

  pub return-ok : {A : Type 0} (a b : A) (s s' : S) → return a s ≡ (ok b, s') → (a ≡ b) × (s ≡ s')
  return-ok a b s s' h = (cc, cc)

  pub lift-ok :
      {A : Type 0} (r : Result E A) (a : A) (s s' : S)
      → lift r s ≡ (ok a, s')
      → (r ≡ ok a) × (s ≡ s')
  lift-ok r a s s' h = (cc, cc)
