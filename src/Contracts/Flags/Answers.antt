-- ===== src/Contracts/Flags/Answers.antt =====
-- One call of FlagsStorage.sol, and what it is to the registry.
use on_chain_identity_gatewa.Common.{
  some, ◌⊎◌, Bool-cases, ℕ, ◌<◌, ◌==◌, ◌≡◌, ◌≢◌, refl, ◌∙◌, inl, inr, not, List, [], ◌∷◌, Result,
  ok, err, if◌then◌else◌, length, none, arith,
}
use on_chain_identity_gatewa.Common.Lists.{All}
use on_chain_identity_gatewa.Common.Results.{◌>>◌, >>=-eq-ok}
use on_chain_identity_gatewa.Contracts.{Address, Revert, missing_account, incorrect_variable_length}
use on_chain_identity_gatewa.Contracts.Flags.{
  FlagsStorage, add_flag, add_flags, remove_flag, remove_flags, update_super_admin,
  only_super_admin, insert_flag, drop_flag, delete_flag, add_flags_loop, remove_flags_loop,
  next_counter,
}
use on_chain_identity_gatewa.Contracts.Flags.Laws.{IsConsistent}
use on_chain_identity_gatewa.Contracts.Flags.Registry.{
  Registry, registry, Adds, AddsAll, Removes, RemovesAll, insert_flag-Adds, drop_flag-Removes,
  add_flags_loop-AddsAll, remove_flags_loop-RemovesAll, insert_flag_refused, drop_flag_refused,
}

-- The external calls that change the contract's state.
pub data Call : Type 0 where
  call_add_flag : (flag index : ℕ) → Call
  call_add_flags : (flags indexes : List ℕ) → Call
  call_remove_flag : (flag : ℕ) → Call
  call_remove_flags : (flags : List ℕ) → Call
  call_update_super_admin : (admin : Address) → Call

unfoldable pub run_call : (sender : Address) → Call → FlagsStorage → Result Revert FlagsStorage
run_call sender (call_add_flag flag index) s = add_flag sender flag index s
run_call sender (call_add_flags flags indexes) s = add_flags sender flags indexes s
run_call sender (call_remove_flag flag) s = remove_flag sender flag s
run_call sender (call_remove_flags flags) s = remove_flags sender flags s
run_call sender (call_update_super_admin admin) s = update_super_admin sender admin s

-- The indexes of a call are of the type `uint8`.
abbrev pub IsTyped : Call → Type 0
IsTyped (call_add_flag flag index) = index < 256
IsTyped (call_add_flags flags indexes) = All (λ index. index < 256) indexes
IsTyped _ = Unit

-- What a call does to the registry where it succeeds.
abbrev pub Does : Call → Registry → Registry → Type 0
Does (call_add_flag flag index) t u = Adds flag index t u
Does (call_add_flags flags indexes) t u = AddsAll flags indexes t u
Does (call_remove_flag flag) t u = Removes flag t u
Does (call_remove_flags flags) t u = RemovesAll flags t u
Does (call_update_super_admin admin) t u = u ≡ t

-- What is in the way of a call of the super admin that reverts, where it is about one flag.
abbrev pub Barred : Call → Registry → Type 0
Barred (call_add_flag flag index) t = ((j : ℕ) × (t flag ≡ some j)) ⊎ ((g : ℕ) × (t g ≡ some index))
Barred (call_remove_flag flag) t = t flag ≡ none
Barred (call_update_super_admin admin) t = admin ≡ 0
Barred _ t = Unit

-- The new super admin after a call that succeeds.
abbrev pub admin_after : Call → Address → Address
admin_after (call_update_super_admin admin) old = admin
admin_after _ old = old

-- A call as the registry sees it: the super admin's that does what it says, or one that reverts, for
-- another sender or for what is in the way.
abbrev pub Answers : Address → Call → FlagsStorage → Result Revert FlagsStorage → Type 0
Answers sender call s (ok s') =
    (sender ≡ s.super_admin)
    × (s'.super_admin ≡ admin_after call s.super_admin)
    × Does call (registry s) (registry s')
Answers sender call s (err e) = (sender ≢ s.super_admin) ⊎ Barred call (registry s)

insert_flag_admin :
    (flag index : ℕ) (s s' : FlagsStorage)
    → insert_flag flag index s ≡ ok s'
    → s'.super_admin ≡ s.super_admin
unfolding insert_flag
insert_flag_admin flag index s s' h = ground arith

drop_flag_admin :
    (flag : ℕ) (s s' : FlagsStorage) → drop_flag flag s ≡ ok s' → s'.super_admin ≡ s.super_admin
unfolding drop_flag delete_flag
drop_flag_admin flag s s' h = ground arith

add_flags_loop_admin :
    (i : ℕ) (flags indexes : List ℕ) (s s' : FlagsStorage)
    → add_flags_loop i flags indexes s ≡ ok s'
    → s'.super_admin ≡ s.super_admin
unfolding add_flags_loop
add_flags_loop_admin i [] indexes s s' h = ground arith
add_flags_loop_admin i (flag ∷ flags) [] s s' h = ground arith
add_flags_loop_admin i (flag ∷ flags) (index ∷ indexes) s s' h =
    let (s1, e1, h1) = >>=-eq-ok (insert_flag flag index s) _ h in
    let (j, e2, h2) = >>=-eq-ok (next_counter i) _ h1 in
    add_flags_loop_admin j flags indexes s1 s' h2 ∙ insert_flag_admin flag index s s1 e1

remove_flags_loop_admin :
    (i : ℕ) (flags : List ℕ) (s s' : FlagsStorage)
    → remove_flags_loop i flags s ≡ ok s'
    → s'.super_admin ≡ s.super_admin
unfolding remove_flags_loop
remove_flags_loop_admin i [] s s' h = ground arith
remove_flags_loop_admin i (flag ∷ flags) s s' h =
    let (s1, e1, h1) = >>=-eq-ok (drop_flag flag s) _ h in
    let (j, e2, h2) = >>=-eq-ok (next_counter i) _ h1 in
    remove_flags_loop_admin j flags s1 s' h2 ∙ drop_flag_admin flag s s1 e1

only_super_admin-ok :
    (sender : Address) (s : FlagsStorage) (x : Unit {0})
    → only_super_admin sender s ≡ ok x
    → sender ≡ s.super_admin
only_super_admin-ok sender s x h = ground arith

pub run_call-Answers :
    (sender : Address) (call : Call) (s s' : FlagsStorage)
    → IsTyped call
    → IsConsistent s
    → run_call sender call s ≡ ok s'
    → IsConsistent s' × Answers sender call s (ok s')
unfolding run_call add_flag add_flags remove_flag remove_flags update_super_admin
run_call-Answers sender (call_add_flag flag index) s s' t c h =
    let (_, e, h1) = >>=-eq-ok (only_super_admin sender s) _ h in
    let (c', d) = insert_flag-Adds flag index s s' t c h1 in
    (c', (only_super_admin-ok sender s _ e, insert_flag_admin flag index s s' h1, d))
run_call-Answers sender (call_add_flags flags indexes) s s' t c h =
    let (_, e, h1) = >>=-eq-ok (only_super_admin sender s) _ h in
    let (_, e2, h2) =
      >>=-eq-ok
        (if not (length flags == length indexes)
          then err (incorrect_variable_length (length flags) (length indexes))
          else ok tt)
        _ h1 in
    let (c', d) = add_flags_loop-AddsAll 0 flags indexes s s' (ground arith) t c h2 in
    (c', (only_super_admin-ok sender s _ e, add_flags_loop_admin 0 flags indexes s s' h2, d))
run_call-Answers sender (call_remove_flag flag) s s' t c h =
    let (_, e, h1) = >>=-eq-ok (only_super_admin sender s) _ h in
    let (c', d) = drop_flag-Removes flag s s' c h1 in
    (c', (only_super_admin-ok sender s _ e, drop_flag_admin flag s s' h1, d))
run_call-Answers sender (call_remove_flags flags) s s' t c h =
    let (_, e, h1) = >>=-eq-ok (only_super_admin sender s) _ h in
    let (c', d) = remove_flags_loop-RemovesAll 0 flags s s' c h1 in
    (c', (only_super_admin-ok sender s _ e, remove_flags_loop_admin 0 flags s s' h1, d))
run_call-Answers sender (call_update_super_admin admin) s s' t c h =
    let (_, e, h1) = >>=-eq-ok (only_super_admin sender s) _ h in
    let made : s' ≡ record s { super_admin = admin } = ground arith in
    rw made (
      record { fits = c.fits; marked = c.marked; apart = c.apart; backed = c.backed },
      (only_super_admin-ok sender s _ e, refl, refl),
    )

allowed_lem :
    {A : Type 0} (sender : Address) (s : FlagsStorage) (m : Result Revert A) (x : Revert)
    → (only_super_admin sender s >> m) ≡ err x
    → (sender ≢ s.super_admin) ⊎ (m ≡ err x)
allowed_lem sender s m x h = elim (Bool-cases (sender == s.super_admin)) [
  | inl same ↦ inr (rw same at h)
  | inr other ↦ inl (ground arith)
]

pub run_call_refused :
    (sender : Address) (call : Call) (s : FlagsStorage) (x : Revert)
    → IsTyped call
    → IsConsistent s
    → run_call sender call s ≡ err x
    → Answers sender call s (err x)
unfolding run_call add_flag remove_flag update_super_admin
run_call_refused sender (call_add_flag flag index) s x t c h =
    elim (allowed_lem sender s (insert_flag flag index s) x h) [
      | inl other ↦ inl other
      | inr failed ↦ inr (insert_flag_refused flag index s x t c failed)
    ]
run_call_refused sender (call_add_flags flags indexes) s x t c h = inr tt
run_call_refused sender (call_remove_flag flag) s x t c h =
    elim (allowed_lem sender s (drop_flag flag s) x h) [
      | inl other ↦ inl other
      | inr failed ↦ inr (drop_flag_refused flag s x failed)
    ]
run_call_refused sender (call_remove_flags flags) s x t c h = inr tt
run_call_refused sender (call_update_super_admin admin) s x t c h =
    elim (allowed_lem sender s
      (if admin == 0 then err missing_account else ok (record s { super_admin = admin })) x h) [
        | inl other ↦ inl other
        | inr failed ↦ inr (ground arith)
      ]
