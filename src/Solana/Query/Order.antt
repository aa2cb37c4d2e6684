-- ===== src/Solana/Query/Order.antt =====
-- The order in which the tokens come out.
use on_chain_identity_gatewa.Common.{
  ◌≡◌, refl, Bool, true, false, not, List, [], ◌∷◌, ◌++◌, arith, keep, Bool-cases, inl, inr,
}
use on_chain_identity_gatewa.Solana.Query.{sort_by, insert_by, by_validity}

module _ {ℓ} {A : Type ℓ} (valid : A → Bool) where
  abbrev invalid : A → Bool
  invalid t = not (valid t)

  insert-valid :
      (x : A) (xs : List A) → valid x ≡ true → insert_by (by_validity valid) x xs ≡ x ∷ xs
  unfolding insert_by
  insert-valid x [] h = refl
  insert-valid x (y ∷ ys) h = ground arith

  insert-invalid :
      (x : A) (vs : List A)
      → valid x ≡ false
      → insert_by (by_validity valid) x (keep invalid vs) ≡ x ∷ keep invalid vs
  unfolding insert_by
  insert-invalid x [] h = refl
  insert-invalid x (v ∷ vs) h = elim (Bool-cases (valid v)) [
    | inl good ↦ ground (arith, insert-invalid x vs h)
    | inr bad ↦ ground arith
  ]

  insert-past :
      (x : A) (us vs : List A)
      → valid x ≡ false
      → insert_by (by_validity valid) x (keep valid us ++ keep invalid vs)
        ≡ keep valid us ++ x ∷ keep invalid vs
  unfolding insert_by
  insert-past x [] vs h = insert-invalid x vs h
  insert-past x (u ∷ us) vs h = ground (arith, insert-past x us vs h)

  -- Sorting by validity puts the valid entries first and keeps the order within both halves.
  pub sort_by_validity :
      (xs : List A) → sort_by (by_validity valid) xs ≡ keep valid xs ++ keep invalid xs
  unfolding sort_by
  sort_by_validity [] = refl
  sort_by_validity (x ∷ xs) =
      rw (sort_by_validity xs)
        (ground (arith, insert-valid x (keep valid xs ++ keep invalid xs), insert-past x xs xs))
