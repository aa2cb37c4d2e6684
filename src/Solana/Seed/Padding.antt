-- ===== src/Solana/Seed/Padding.antt =====
-- The padded seed of a gateway token address: when there is one, what it spells, and which
-- checks of the source can fire.
use on_chain_identity_gatewa.Common.{
  ℕ, ◌-◌, ◌∙◌, ◌^◌, ◌≤◌, ◌<◌, ◌≡◌, ◌≢◌, ok, err, List, ◌++◌, arith, ltb, ◌==◌, length, replicate,
  length-append, length-replicate, All, if◌then◌else◌, Bool-cases, inl, inr,
}
use on_chain_identity_gatewa.Solana.Seed.{
  JsNumber, nan, negative, natural, index_too_large, alloc_size, seed_length, bytes_of, pad,
  padded_seed,
}
use on_chain_identity_gatewa.Solana.Seed.Digits.{
  of_bytes_from, bytes_of_lem, length-bytes_of-le, lt-length-bytes_of, of_bytes_from-replicate,
}

abbrev zeros_before : List ℕ → List ℕ
zeros_before seed = replicate (8 - length seed) 0 ++ seed

length-zeros_before : (seed : List ℕ) → length seed ≤ 8 → length (zeros_before seed) ≡ 8
length-zeros_before seed h = omega (
  arith,
  length-append {0} (replicate (8 - length seed) 0) seed,
  length-replicate {A = ℕ} (8 - length seed) 0,
)

pad_short : (seed : List ℕ) → length seed ≤ 8 → pad seed ≡ ok (zeros_before seed)
unfolding pad
pad_short seed h = ground (arith, length-zeros_before seed)

pad_long : (seed : List ℕ) → 8 < length seed → pad seed ≡ err alloc_size
unfolding pad
pad_long seed h = ground arith

All-zeros_before :
    (k : ℕ) (seed : List ℕ) → All (λ d. d < 256) seed → All (λ d. d < 256) (replicate k 0 ++ seed)
All-zeros_before ℕ.zero seed h = h
All-zeros_before (ℕ.suc k) seed h = (omega arith, All-zeros_before k seed h)

-- An index below 2 ^ 64 has a seed of exactly eight bytes, each below 256, and the seed spells
-- the index, most significant byte first.
pub padded_seed_below :
    (index : ℕ)
    → index < 2 ^ 64
    → (seed : List ℕ) × (padded_seed (natural index) ≡ ok seed)
      × (length seed ≡ 8)
      × (of_bytes_from 0 seed ≡ index)
      × All (λ d. d < 256) seed
unfolding padded_seed
padded_seed_below index h =
    let short : length (bytes_of index) ≤ 8 = length-bytes_of-le 7 index (omega arith) in
    let (spelled, small) = bytes_of_lem index in
    (
      zeros_before (bytes_of index),
      ground (arith, pad_short (bytes_of index) short),
      length-zeros_before (bytes_of index) short,
      of_bytes_from-replicate (8 - length (bytes_of index)) (bytes_of index) ∙ spelled,
      All-zeros_before (8 - length (bytes_of index)) (bytes_of index) small,
    )

-- From 2 ^ 64 on there is no seed. The guard on the index stops what lies above 2 ^ 64, and lets
-- 2 ^ 64 itself pass, which then fails in `Buffer.alloc`, asked for a negative size.
pub padded_seed_above :
    (index : ℕ)
    → 2 ^ 64 ≤ index
    → padded_seed (natural index) ≡ err (if index == 2 ^ 64 then alloc_size else index_too_large)
unfolding padded_seed
padded_seed_above index h =
    ground (arith, pad_long (bytes_of index) (lt-length-bytes_of 8 index (omega arith)))

pad-ne-seed_length : (seed : List ℕ) → pad seed ≢ err seed_length
unfolding pad
pad-ne-seed_length seed = ground (arith, length-zeros_before seed)

-- The check that the padded seed has eight bytes never fails, whatever number is passed.
pub padded_seed-ne-seed_length : (index : JsNumber) → padded_seed index ≢ err seed_length
unfolding padded_seed
padded_seed-ne-seed_length nan = λ e. cc
padded_seed-ne-seed_length negative = λ e. cc
padded_seed-ne-seed_length (natural index) = ground (arith, pad-ne-seed_length (bytes_of index))

seed_value : (i : ℕ) (seed : List ℕ) → padded_seed (natural i) ≡ ok seed → of_bytes_from 0 seed ≡ i
seed_value i seed h = elim (Bool-cases (ltb i (2 ^ 64))) [
  | inl below ↦
      let (s, made, _, spelled, _) = padded_seed_below i (ground arith) in
      grind (arith, made, spelled)
  | inr above ↦ absurd (ground (arith, padded_seed_above i (ground arith)))
]

-- Two indices with the same seed are the same index: no two of an owner's tokens on one network
-- share the seeds from which their addresses are derived.
pub padded_seed_injective :
    (i j : ℕ) (seed : List ℕ)
    → padded_seed (natural i) ≡ ok seed
    → padded_seed (natural j) ≡ ok seed
    → i ≡ j
padded_seed_injective i j seed p q = omega (arith, seed_value i seed p, seed_value j seed q)
