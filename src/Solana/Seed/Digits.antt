-- ===== src/Solana/Seed/Digits.antt =====
-- What `numToBuffer` writes: the bytes of the number, most significant first.
use mathlib.Core.WellFounded.{Acc}
use native.Mathlib.Nat.{pow-suc}
use on_chain_identity_gatewa.Common.{
  ℕ, zero, suc, ◌+◌, ◌*◌, ◌/◌, ◌%◌, ◌^◌, ◌≤◌, ◌<◌, ◌≡◌, refl, List, [], ◌∷◌, ◌++◌, arith, length,
  replicate, All, ◌==◌, Bool-cases, inl, inr,
}
use on_chain_identity_gatewa.Solana.Seed.{num_to_array, lt_wf, bytes_of}

-- The number that bytes spell, most significant first, after the digits `acc`.
abbrev pub of_bytes_from : ℕ → List ℕ → ℕ
of_bytes_from acc [] = acc
of_bytes_from acc (d ∷ ds) = of_bytes_from (acc * 256 + d) ds

value-num_to_array :
    (n : ℕ) (arr : List ℕ) (w : Acc ◌<◌ n)
    → of_bytes_from 0 (num_to_array n arr w) ≡ of_bytes_from n arr
unfolding num_to_array
value-num_to_array n arr (Acc.intro _ smaller) = grind (
  arith,
  λ (p : n / 256 < n). value-num_to_array (n / 256) ((n % 256) ∷ arr) (smaller (n / 256) p),
)

All-num_to_array :
    (n : ℕ) (arr : List ℕ) (w : Acc ◌<◌ n)
    → All (λ d. d < 256) arr
    → All (λ d. d < 256) (num_to_array n arr w)
unfolding num_to_array
All-num_to_array n arr (Acc.intro _ smaller) h =
    grind (
      arith,
      λ (p : n / 256 < n). All-num_to_array (n / 256) ((n % 256) ∷ arr) (smaller (n / 256) p),
    )

length-num_to_array-le :
    (k n : ℕ) (arr : List ℕ) (w : Acc ◌<◌ n)
    → n < 256 ^ k
    → length (num_to_array n arr w) ≤ k + length arr
unfolding num_to_array
length-num_to_array-le zero n arr (Acc.intro _ smaller) h = grind arith
length-num_to_array-le (suc k) n arr (Acc.intro _ smaller) h = grind (
  arith,
  pow-suc 256 k,
  λ (p : n / 256 < n). length-num_to_array-le k (n / 256) ((n % 256) ∷ arr) (smaller (n / 256) p),
)

le-length-num_to_array :
    (k n : ℕ) (arr : List ℕ) (w : Acc ◌<◌ n) → n < k → length arr ≤ length (num_to_array n arr w)
unfolding num_to_array
le-length-num_to_array zero n arr (Acc.intro _ smaller) h = absurd (omega arith)
le-length-num_to_array (suc k) n arr (Acc.intro _ smaller) h = grind (
  arith,
  λ (p : n / 256 < n). le-length-num_to_array k (n / 256) ((n % 256) ∷ arr) (smaller (n / 256) p),
)

pow_pos : (k : ℕ) → 0 < 256 ^ k
pow_pos zero = omega arith
pow_pos (suc k) = omega (arith, pow-suc 256 k, pow_pos k)

lt-length-num_to_array :
    (k n : ℕ) (arr : List ℕ) (w : Acc ◌<◌ n)
    → 256 ^ k ≤ n
    → k + length arr < length (num_to_array n arr w)
unfolding num_to_array
lt-length-num_to_array zero n arr (Acc.intro _ smaller) h = grind (
  arith,
  λ (p : n / 256 < n). le-length-num_to_array n (n / 256) ((n % 256) ∷ arr) (smaller (n / 256) p) p,
)
lt-length-num_to_array (suc k) n arr (Acc.intro _ smaller) h = grind (
  arith,
  pow-suc 256 k,
  pow_pos k,
  λ (p : n / 256 < n). lt-length-num_to_array k (n / 256) ((n % 256) ∷ arr) (smaller (n / 256) p),
)

-- The bytes of a number spell that number, and each is below 256.
pub bytes_of_lem : (n : ℕ) → (of_bytes_from 0 (bytes_of n) ≡ n) × All (λ d. d < 256) (bytes_of n)
unfolding bytes_of
bytes_of_lem n = elim (Bool-cases (n == 0)) [
  | inl z ↦ rw z (ground arith, ground arith)
  | inr nz ↦
      rw nz (value-num_to_array n [] (lt_wf.apply n), All-num_to_array n [] (lt_wf.apply n) tt)
]

-- A number below 256 ^ k takes at most k bytes, for k of 1 or more, and any other takes more.
pub length-bytes_of-le : (k n : ℕ) → n < 256 ^ suc k → length (bytes_of n) ≤ suc k
unfolding bytes_of
length-bytes_of-le k n h = elim (Bool-cases (n == 0)) [
  | inl z ↦ rw z (omega arith)
  | inr nz ↦ rw nz (omega (arith, length-num_to_array-le (suc k) n [] (lt_wf.apply n) h))
]

pub lt-length-bytes_of : (k n : ℕ) → 256 ^ k ≤ n → k < length (bytes_of n)
unfolding bytes_of
lt-length-bytes_of k n h = elim (Bool-cases (n == 0)) [
  | inl z ↦ absurd (ground (arith, pow_pos k))
  | inr nz ↦ rw nz (omega (arith, lt-length-num_to_array k n [] (lt_wf.apply n) h))
]

-- Leading zeros do not change the number that is spelled.
pub of_bytes_from-replicate :
    (k : ℕ) (ds : List ℕ) → of_bytes_from 0 (replicate k 0 ++ ds) ≡ of_bytes_from 0 ds
of_bytes_from-replicate zero ds = refl
of_bytes_from-replicate (suc k) ds = of_bytes_from-replicate k ds
