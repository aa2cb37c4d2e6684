-- ===== src/Contracts/Flags/Registry.antt =====
-- FlagsStorage.sol as a registry: each supported flag with its bit, changed one flag at a time.
use mathlib.Core.Path.{fun_ext}
use on_chain_identity_gatewa.Common.{
  refl, ◌⊎◌, inl, inr, err, length, Bool-cases, ◌∷◌, ℕ, ◌<◌, ◌≡◌, ◌≢◌, sym, true, false, List, [],
  ◌∷◌, ok, if◌then◌else◌, Option, none, some, arith,
}
use on_chain_identity_gatewa.Common.Lists.{All}
use on_chain_identity_gatewa.Common.Results.{>>=-eq-ok}
use on_chain_identity_gatewa.Contracts.{put, Revert}
use on_chain_identity_gatewa.Contracts.BitMask.{check_bit}
use on_chain_identity_gatewa.Contracts.Flags.{
  FlagsStorage, insert_flag, delete_flag, drop_flag, add_flags_loop, remove_flags_loop,
  next_counter,
}
use on_chain_identity_gatewa.Contracts.Flags.Laws.{
  IsConsistent, insert_flag-ok, insert_flag-IsConsistent, delete_flag-IsConsistent,
}

-- The registry: the bit of each flag that is supported.
abbrev pub Registry : Type 0
Registry = ℕ → Option ℕ

abbrev pub registry : FlagsStorage → Registry
registry s flag = if s.supported_flags flag then some (s.flag_indexes flag) else none

-- A new flag is registered at a bit that no flag has.
abbrev pub Adds : (flag index : ℕ) → Registry → Registry → Type 0
Adds flag index t u = (t flag ≡ none) × ((g : ℕ) → t g ≢ some index) × (u ≡ put flag (some index) t)

-- A flag that is registered is removed.
abbrev pub Removes : (flag : ℕ) → Registry → Registry → Type 0
Removes flag t u = (index : ℕ) × (t flag ≡ some index) × (u ≡ put flag none t)

-- One flag after the other, each at its own index of as many.
abbrev pub AddsAll : (flags indexes : List ℕ) → Registry → Registry → Type 0
AddsAll [] [] t u = u ≡ t
AddsAll (flag ∷ flags) (index ∷ indexes) t u =
    (v : Registry) × Adds flag index t v × AddsAll flags indexes v u
AddsAll _ _ t u = ⊥

abbrev pub RemovesAll : (flags : List ℕ) → Registry → Registry → Type 0
RemovesAll [] t u = u ≡ t
RemovesAll (flag ∷ flags) t u = (v : Registry) × Removes flag t v × RemovesAll flags v u

unused :
    (s : FlagsStorage) (index : ℕ)
    → IsConsistent s
    → check_bit s.supported_flags_mask index ≡ false
    → (g : ℕ) → registry s g ≢ some index
unused s index c free g h = ground (arith, c.marked g)

insert_flag-registry :
    (flag index : ℕ) (s s' : FlagsStorage)
    → insert_flag flag index s ≡ ok s'
    → registry s' ≡ put flag (some index) (registry s)
insert_flag-registry flag index s s' h =
    let (free, new, e) = insert_flag-ok flag index s s' h in rw e (fun_ext λ f. ground arith)

pub insert_flag-Adds :
    (flag index : ℕ) (s s' : FlagsStorage)
    → index < 256
    → IsConsistent s
    → insert_flag flag index s ≡ ok s'
    → IsConsistent s' × Adds flag index (registry s) (registry s')
insert_flag-Adds flag index s s' lt c h =
    let (free, new, e) = insert_flag-ok flag index s s' h in
    (
      insert_flag-IsConsistent flag index s s' lt c h,
      (ground arith, unused s index c free, insert_flag-registry flag index s s' h),
    )

delete_flag-registry :
    (flag : ℕ) (s : FlagsStorage) → registry (delete_flag flag s) ≡ put flag none (registry s)
unfolding delete_flag
delete_flag-registry flag s = fun_ext λ f. ground arith

drop_flag-ok :
    (flag : ℕ) (s s' : FlagsStorage)
    → drop_flag flag s ≡ ok s'
    → (s.supported_flags flag ≡ true) × (s' ≡ delete_flag flag s)
unfolding drop_flag
drop_flag-ok flag s s' h = ground arith

pub drop_flag-Removes :
    (flag : ℕ) (s s' : FlagsStorage)
    → IsConsistent s
    → drop_flag flag s ≡ ok s'
    → IsConsistent s' × Removes flag (registry s) (registry s')
drop_flag-Removes flag s s' c h =
    let (held, e) = drop_flag-ok flag s s' h in
    rw e (
      delete_flag-IsConsistent flag s held c,
      (s.flag_indexes flag, ground arith, delete_flag-registry flag s),
    )

pub add_flags_loop-AddsAll :
    (i : ℕ) (flags indexes : List ℕ) (s s' : FlagsStorage)
    → length flags ≡ length indexes
    → All (λ index. index < 256) indexes
    → IsConsistent s
    → add_flags_loop i flags indexes s ≡ ok s'
    → IsConsistent s' × AddsAll flags indexes (registry s) (registry s')
unfolding add_flags_loop
add_flags_loop-AddsAll i [] [] s s' same lt c h = let e : s ≡ s' = cc in rw (sym e) (c, refl)
add_flags_loop-AddsAll i [] (index ∷ indexes) s s' same lt c h = absurd (omega arith)
add_flags_loop-AddsAll i (flag ∷ flags) [] s s' same lt c h = absurd (omega arith)
add_flags_loop-AddsAll i (flag ∷ flags) (index ∷ indexes) s s' same lt c h =
    let (s1, e1, h1) = >>=-eq-ok (insert_flag flag index s) _ h in
    let (j, e2, h2) = >>=-eq-ok (next_counter i) _ h1 in
    let (c1, r1) = insert_flag-Adds flag index s s1 lt.0 c e1 in
    let (c2, r2) = add_flags_loop-AddsAll j flags indexes s1 s' (omega arith) lt.1 c1 h2 in
    (c2, (registry s1, r1, r2))

pub remove_flags_loop-RemovesAll :
    (i : ℕ) (flags : List ℕ) (s s' : FlagsStorage)
    → IsConsistent s
    → remove_flags_loop i flags s ≡ ok s'
    → IsConsistent s' × RemovesAll flags (registry s) (registry s')
unfolding remove_flags_loop
remove_flags_loop-RemovesAll i [] s s' c h = let e : s ≡ s' = cc in rw (sym e) (c, refl)
remove_flags_loop-RemovesAll i (flag ∷ flags) s s' c h =
    let (s1, e1, h1) = >>=-eq-ok (drop_flag flag s) _ h in
    let (j, e2, h2) = >>=-eq-ok (next_counter i) _ h1 in
    let (c1, r1) = drop_flag-Removes flag s s1 c e1 in
    let (c2, r2) = remove_flags_loop-RemovesAll j flags s1 s' c1 h2 in (c2, (registry s1, r1, r2))

-- Why a flag cannot be added: it is registered, or the bit is.
pub insert_flag_refused :
    (flag index : ℕ) (s : FlagsStorage) (e : Revert)
    → index < 256
    → IsConsistent s
    → insert_flag flag index s ≡ err e
    → ((j : ℕ) × (registry s flag ≡ some j)) ⊎ ((g : ℕ) × (registry s g ≡ some index))
unfolding insert_flag
insert_flag_refused flag index s e lt c h =
    elim (Bool-cases (check_bit s.supported_flags_mask index)) [
      | inl used ↦ let (g, held, at) = c.backed index lt used in inr (g, ground arith)
      | inr free ↦ inl (s.flag_indexes flag, ground arith)
    ]

pub drop_flag_refused :
    (flag : ℕ) (s : FlagsStorage) (e : Revert) → drop_flag flag s ≡ err e → registry s flag ≡ none
unfolding drop_flag
drop_flag_refused flag s e h = ground arith
