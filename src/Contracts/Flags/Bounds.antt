-- ===== src/Contracts/Flags/Bounds.antt =====
-- How many flags FlagsStorage.sol adds at a time.
use on_chain_identity_gatewa.Common.{
  ℕ, ◌+◌, ◌<◌, ◌≤◌, ◌==◌, ◌≡◌, not, List, [], ◌∷◌, ok, err, if◌then◌else◌, length, arith,
}
use on_chain_identity_gatewa.Common.Results.{>>=-eq-ok}
use on_chain_identity_gatewa.Contracts.{Address, incorrect_variable_length}
use on_chain_identity_gatewa.Contracts.Flags.{
  FlagsStorage, insert_flag, add_flags_loop, add_flags, next_counter, only_super_admin,
}

insert_or_overflow :
    (i : ℕ) (flags indexes : List ℕ) (s s' : FlagsStorage)
    → length flags ≡ length indexes
    → add_flags_loop i flags indexes s ≡ ok s'
    → (i < 256)
    → i + length flags < 256
unfolding add_flags_loop
insert_or_overflow i [] indexes s s' same h lt = omega arith
insert_or_overflow i (flag ∷ flags) [] s s' same h lt = absurd (omega arith)
insert_or_overflow i (flag ∷ flags) (index ∷ indexes) s s' same h lt =
    let (s1, e1, h1) = >>=-eq-ok (insert_flag flag index s) _ h in
    let (j, e2, h2) = >>=-eq-ok (next_counter i) _ h1 in
    let next : (j ≡ i + 1) × (i + 1 < 256) = ground arith in
    omega (
      arith,
      insert_or_overflow j flags indexes s1 s' (omega arith) h2 (omega (arith, next)),
      next.0,
    )

-- `addFlags` takes no more than 255 flags, though the mask has 256 bits: with more it always reverts.
pub add_flags_bound :
    (sender : Address) (flags indexes : List ℕ) (s s' : FlagsStorage)
    → add_flags sender flags indexes s ≡ ok s'
    → (sender ≡ s.super_admin) × (length flags ≡ length indexes) × (length flags ≤ 255)
unfolding add_flags
add_flags_bound sender flags indexes s s' h =
    let (_, e1, h1) = >>=-eq-ok (only_super_admin sender s) _ h in
    let (_, e2, h2) =
      >>=-eq-ok
        (if not (length flags == length indexes)
          then err (incorrect_variable_length (length flags) (length indexes))
          else ok tt)
        _ h1 in
    let same : length flags ≡ length indexes = ground arith in
    (
      ground arith,
      same,
      omega (arith, insert_or_overflow 0 flags indexes s s' same h2 (omega arith)),
    )
