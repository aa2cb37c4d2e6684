-- ===== src/Contracts/Flags.antt =====
-- FlagsStorage.sol: the flags that the super admin supports, and the bit of the mask that each has.
pub mod Laws
pub mod Registry
pub mod Answers
pub mod Runs
pub mod Bounds
use on_chain_identity_gatewa.Common.{
  ℕ, zero, suc, ◌+◌, ◌==◌, ltb, Bool, true, false, not, ◌||◌, List, [], ◌∷◌, Result, ok, err,
  if◌then◌else◌, length, Option, none, some,
}
use on_chain_identity_gatewa.Common.Lists.{any, keep}
use on_chain_identity_gatewa.Common.Results.{◌>>=◌, ◌>>◌}
use on_chain_identity_gatewa.Contracts.{
  Address, put, Revert, missing_account, not_super_admin, flag_already_exists, flag_not_supported,
  incorrect_variable_length, index_already_used, overflow,
}
use on_chain_identity_gatewa.Contracts.BitMask.{set_bit, clear_bit, check_bit}

-- The contract's state. `_supportedFlags` is OpenZeppelin's set of words, as far as the contract
-- reads it: which words it contains.
pub record FlagsStorage : Type 0 where
  pub supported_flags : ℕ → Bool
  pub super_admin : Address
  pub supported_flags_mask : ℕ
  pub flag_indexes : ℕ → ℕ

-- `_onlySuperAdmin`
abbrev pub only_super_admin : (sender : Address) → FlagsStorage → Result Revert (Unit {0})
only_super_admin sender s =
    if not (sender == s.super_admin) then err (not_super_admin sender) else ok tt

-- `initialize`, of a contract whose state is all 0
unfoldable pub initialize : (super_admin : Address) → Result Revert FlagsStorage
initialize admin =
    if admin == 0
    then err missing_account
    else ok (record {
      supported_flags = λ _. false;
      super_admin = admin;
      supported_flags_mask = 0;
      flag_indexes = λ _. 0;
    })

-- `updateSuperAdmin`
unfoldable pub update_super_admin :
    (sender admin : Address) → FlagsStorage → Result Revert FlagsStorage
update_super_admin sender admin s = do
  only_super_admin sender s
  if admin == 0 then err missing_account else ok (record s { super_admin = admin })

-- `isFlagSupported`
abbrev pub is_flag_supported : (flag : ℕ) → FlagsStorage → Bool
is_flag_supported flag s = s.supported_flags flag

-- `_addFlag`
unfoldable pub insert_flag : (flag index : ℕ) → FlagsStorage → Result Revert FlagsStorage
insert_flag flag index s =
    if check_bit s.supported_flags_mask index
    then err (index_already_used index)
    else if s.supported_flags flag
    then err (flag_already_exists flag)
    else ok (record s {
      flag_indexes = put flag index s.flag_indexes;
      supported_flags = put flag true s.supported_flags;
      supported_flags_mask = set_bit s.supported_flags_mask index;
    })

-- `_removeFlag`
unfoldable pub delete_flag : (flag : ℕ) → FlagsStorage → FlagsStorage
delete_flag flag s = record s {
  supported_flags = put flag false s.supported_flags;
  supported_flags_mask = clear_bit s.supported_flags_mask (s.flag_indexes flag);
  flag_indexes = put flag 0 s.flag_indexes;
}

-- `addFlag`
unfoldable pub add_flag :
    (sender : Address) (flag index : ℕ) → FlagsStorage → Result Revert FlagsStorage
add_flag sender flag index s = do only_super_admin sender s; insert_flag flag index s

-- The check and the removal of `removeFlag`, and of a round of `removeFlags`.
unfoldable pub drop_flag : (flag : ℕ) → FlagsStorage → Result Revert FlagsStorage
drop_flag flag s =
    if not (s.supported_flags flag) then err (flag_not_supported flag) else ok (delete_flag flag s)

-- `removeFlag`
unfoldable pub remove_flag :
    (sender : Address) (flag : ℕ) → FlagsStorage → Result Revert FlagsStorage
remove_flag sender flag s = do only_super_admin sender s; drop_flag flag s

-- `i++` of the loops, whose counter is a `uint8`
abbrev pub next_counter : ℕ → Result Revert ℕ
next_counter i = if ltb (i + 1) 256 then ok (i + 1) else err overflow

-- The loop of `addFlags` from the counter `i` on. The two arrays are as long as each other.
unfoldable pub add_flags_loop :
    (i : ℕ) (flags indexes : List ℕ) → FlagsStorage → Result Revert FlagsStorage
add_flags_loop i [] indexes s = ok s
add_flags_loop i (flag ∷ flags) [] s = ok s
add_flags_loop i (flag ∷ flags) (index ∷ indexes) s = do
  s' ← insert_flag flag index s
  j ← next_counter i
  add_flags_loop j flags indexes s'

-- `addFlags`
unfoldable pub add_flags :
    (sender : Address) (flags indexes : List ℕ) → FlagsStorage → Result Revert FlagsStorage
add_flags sender flags indexes s = do
  only_super_admin sender s
  if not (length flags == length indexes)
      then err (incorrect_variable_length (length flags) (length indexes))
      else ok tt
  add_flags_loop 0 flags indexes s

-- The loop of `removeFlags` from the counter `i` on.
unfoldable pub remove_flags_loop :
    (i : ℕ) (flags : List ℕ) → FlagsStorage → Result Revert FlagsStorage
remove_flags_loop i [] s = ok s
remove_flags_loop i (flag ∷ flags) s = do
  s' ← drop_flag flag s
  j ← next_counter i
  remove_flags_loop j flags s'

-- `removeFlags`
unfoldable pub remove_flags :
    (sender : Address) (flags : List ℕ) → FlagsStorage → Result Revert FlagsStorage
remove_flags sender flags s = do only_super_admin sender s; remove_flags_loop 0 flags s
