-- ===== src/Contracts/BitMask.antt =====
-- library/BitMask.sol of ethereum/smart-contract/contracts: masks are words of 256 bits.
use Prim.Native.Nat.{ℕ, ◌-◌, ◌^◌, ◌<◌, bit_and, bit_or, bit_xor}
use mathlib.Core.Path.{◌≡◌, refl}
use mathlib.Core.Bool.{Bool, false, ◌||◌, ◌&&◌, not}
use native.Mathlib.Omega.{arith}
use on_chain_identity_gatewa.Common.Tests.{◌==◌, ltb}
use on_chain_identity_gatewa.Common.Bits.{
  bit, bit_below, bit-bit_and, bit-bit_or, bit-bit_xor, bit_power, bit_ones, bit_and-power,
  power_pos, bit_zero,
}

-- `setBit`: `self | (_ONE << index)`
unfoldable pub set_bit : (self index : ℕ) → ℕ
set_bit self index = bit_or self (2 ^ index)

-- `clearBit`: `self & ~(_ONE << index)`, where `~` changes all 256 digits
unfoldable pub clear_bit : (self index : ℕ) → ℕ
clear_bit self index = bit_and self (bit_xor (2 ^ 256 - 1) (2 ^ index))

-- `checkBit`: `(self & (1 << index)) > 0`
unfoldable pub check_bit : (self index : ℕ) → Bool
check_bit self index = ltb 0 (bit_and self (2 ^ index))

-- A bit is set where its digit is 1.
pub check_bit_lem : (self index : ℕ) → check_bit self index ≡ (bit self index == 1)
unfolding check_bit
check_bit_lem self index =
    grind (arith, bit_and-power self index, bit_below self index, power_pos index)

pub check_bit-set_bit : (self i j : ℕ) → check_bit (set_bit self i) j ≡ (j == i || check_bit self j)
unfolding set_bit
check_bit-set_bit self i j =
    rw (check_bit_lem (bit_or self (2 ^ i)) j, check_bit_lem self j)
      (ground (arith, bit-bit_or self (2 ^ i) j, bit_power i j, bit_below self j))

pub check_bit-clear_bit :
    (self i j : ℕ) → j < 256 → check_bit (clear_bit self i) j ≡ (not (j == i) && check_bit self j)
unfolding clear_bit
check_bit-clear_bit self i j h =
    rw (check_bit_lem (bit_and self (bit_xor (2 ^ 256 - 1) (2 ^ i))) j, check_bit_lem self j)
      (ground (
        arith,
        bit-bit_and self (bit_xor (2 ^ 256 - 1) (2 ^ i)) j,
        bit-bit_xor (2 ^ 256 - 1) (2 ^ i) j,
        bit_power i j,
        bit_ones 256 j h,
        bit_below self j,
      ))

pub check_bit-zero : (i : ℕ) → check_bit 0 i ≡ false
check_bit-zero i = rw (check_bit_lem 0 i, bit_zero i) refl
