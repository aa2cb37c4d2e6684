-- ===== src/Common/Bits.antt =====
-- The binary digits of a number, and what the native bitwise operations do to each: a mask of flags
-- is read by its digits.
use Prim.Native.Nat.{
  ℕ, zero, suc, ◌+◌, ◌-◌, ◌*◌, ◌/◌, ◌%◌, ◌^◌, ◌≤◌, ◌<◌, min, max, digits, bit_and, bit_or, bit_xor,
  bit_and-bitwise, bit_or-bitwise, bit_xor-bitwise, differ,
}
use mathlib.Core.Path.{◌≡◌, refl, ap, ◌∙◌}
use native.Mathlib.Omega.{arith}
use on_chain_identity_gatewa.Common.Tests.{◌==◌, if◌then◌else◌}

zero_plus : (n : ℕ) → 0 + n ≡ n
zero_plus n = omega arith

suc_plus : (m n : ℕ) → suc m + n ≡ suc (m + n)
suc_plus m n = omega arith

-- The digit of weight 2 ^ i.
abbrev pub bit : ℕ → ℕ → ℕ
bit a zero = a % 2
bit a (suc i) = bit (a / 2) i

-- The lowest digit of an operation that stands on `digits`: more steps than the first number has
-- digits change nothing.
module _ (rest : ℕ → ℕ) (op : ℕ → ℕ → ℕ) where
  spare_step :
      (steps x y : ℕ) → x ≤ steps → digits rest op (suc steps) x y ≡ digits rest op steps x y
  spare_step zero zero y le = refl
  spare_step (suc steps) zero y le = refl
  spare_step zero (suc x) y le = absurd (omega arith)
  spare_step (suc steps) (suc x) y le =
      omega (arith, spare_step steps (suc x / 2) (y / 2) (omega arith))

  spare_steps :
      (spare steps x y : ℕ)
      → x ≤ steps
      → digits rest op (spare + steps) x y ≡ digits rest op steps x y
  spare_steps zero steps x y le = rw (zero_plus steps) refl
  spare_steps (suc spare) steps x y le =
      rw (suc_plus spare steps)
        (spare_step (spare + steps) x y (omega arith) ∙ spare_steps spare steps x y le)

  lowest :
      ((y : ℕ) → rest y ≡ rest (y / 2) * 2 + op 0 (y % 2))
      → (x y : ℕ)
      → digits rest op x x y ≡ digits rest op (x / 2) (x / 2) (y / 2) * 2 + op (x % 2) (y % 2)
  lowest out zero y = out y
  lowest out (suc x) y =
      let count : (x - suc x / 2) + suc x / 2 ≡ x = omega arith in
      let fewer = spare_steps (x - suc x / 2) (suc x / 2) (suc x / 2) (y / 2) (omega arith) in
      omega (arith, ap (λ n. digits rest op n (suc x / 2) (y / 2)) count, fewer)

pub bit_zero : (i : ℕ) → bit 0 i ≡ 0
bit_zero zero = refl
bit_zero (suc i) = bit_zero i

bit_and_lowest : (a b : ℕ) → bit_and a b ≡ bit_and (a / 2) (b / 2) * 2 + min (a % 2) (b % 2)
bit_and_lowest a b = omega (
  arith,
  bit_and-bitwise a b,
  bit_and-bitwise (a / 2) (b / 2),
  lowest (λ b. zero) min (λ b. omega arith) a b,
)

bit_or_lowest : (a b : ℕ) → bit_or a b ≡ bit_or (a / 2) (b / 2) * 2 + max (a % 2) (b % 2)
bit_or_lowest a b = omega (
  arith,
  bit_or-bitwise a b,
  bit_or-bitwise (a / 2) (b / 2),
  lowest (λ b. b) max (λ b. omega arith) a b,
)

pub bit_below : (a i : ℕ) → bit a i < 2
bit_below a zero = omega arith
bit_below a (suc i) = bit_below (a / 2) i

bit_xor_lowest : (a b : ℕ) → bit_xor a b ≡ bit_xor (a / 2) (b / 2) * 2 + differ (a % 2) (b % 2)
bit_xor_lowest a b = omega (
  arith,
  bit_xor-bitwise a b,
  bit_xor-bitwise (a / 2) (b / 2),
  lowest (λ b. b) differ (λ b. omega arith) a b,
)

half : (x y : ℕ) → y < 2 → (x * 2 + y) / 2 ≡ x
half x y h = omega arith

half_mod : (x y : ℕ) → y < 2 → (x * 2 + y) % 2 ≡ y
half_mod x y h = omega arith

differ_below : (x y : ℕ) → x < 2 → y < 2 → differ x y < 2
differ_below zero y p q = q
differ_below (suc zero) zero p q = omega arith
differ_below (suc zero) (suc y) p q = omega arith
differ_below (suc (suc x)) y p q = absurd (omega arith)

pub bit-bit_and : (a b i : ℕ) → bit (bit_and a b) i ≡ min (bit a i) (bit b i)
bit-bit_and a b zero = omega (arith, bit_and_lowest a b)
bit-bit_and a b (suc i) =
    rw (bit_and_lowest a b, half (bit_and (a / 2) (b / 2)) (min (a % 2) (b % 2)) (omega arith))
      (bit-bit_and (a / 2) (b / 2) i)

pub bit-bit_or : (a b i : ℕ) → bit (bit_or a b) i ≡ max (bit a i) (bit b i)
bit-bit_or a b zero = omega (arith, bit_or_lowest a b)
bit-bit_or a b (suc i) =
    rw (bit_or_lowest a b, half (bit_or (a / 2) (b / 2)) (max (a % 2) (b % 2)) (omega arith))
      (bit-bit_or (a / 2) (b / 2) i)

pub bit-bit_xor : (a b i : ℕ) → bit (bit_xor a b) i ≡ differ (bit a i) (bit b i)
bit-bit_xor a b zero = omega (
  arith,
  bit_xor_lowest a b,
  half_mod (bit_xor (a / 2) (b / 2)) (differ (a % 2) (b % 2))
      (differ_below (a % 2) (b % 2) (omega arith) (omega arith)),
)
bit-bit_xor a b (suc i) =
    rw
      (
        bit_xor_lowest a b,
        half (bit_xor (a / 2) (b / 2)) (differ (a % 2) (b % 2))
            (differ_below (a % 2) (b % 2) (omega arith) (omega arith)),
      )
      (bit-bit_xor (a / 2) (b / 2) i)

power_half : (n : ℕ) → 2 ^ suc n / 2 ≡ 2 ^ n
power_half n = omega arith

pub power_pos : (n : ℕ) → 0 < 2 ^ n
power_pos zero = omega arith
power_pos (suc n) = omega (arith, power_pos n)

ones_half : (n : ℕ) → (2 ^ suc n - 1) / 2 ≡ 2 ^ n - 1
ones_half n = ground arith

-- The digits of a power of two, and of the number below it.
pub bit_power : (i j : ℕ) → bit (2 ^ i) j ≡ (if j == i then 1 else 0)
bit_power zero zero = refl
bit_power zero (suc j) = ground (arith, bit_zero j)
bit_power (suc i) zero = ground arith
bit_power (suc i) (suc j) = ground (arith, bit_power i j)

pub bit_ones : (n j : ℕ) → j < n → bit (2 ^ n - 1) j ≡ 1
bit_ones zero j h = absurd (omega arith)
bit_ones (suc n) zero h = omega (arith, power_pos n)
bit_ones (suc n) (suc j) h = rw (ones_half n) (bit_ones n j (omega arith))

no_common : (bound x : ℕ) → x ≤ bound → bit_and x 0 ≡ 0
no_common bound zero le = bit_and-bitwise 0 0
no_common zero (suc x) le = absurd (omega arith)
no_common (suc bound) (suc x) le =
    omega (arith, bit_and_lowest (suc x) 0, no_common bound (suc x / 2) (omega arith))

digit_double : (b p q : ℕ) → b < 2 → q ≡ p * 2 → b * p * 2 ≡ b * q
digit_double zero p q h e = omega arith
digit_double (suc zero) p q h e = omega arith
digit_double (suc (suc b)) p q h e = absurd (omega arith)

-- What is left of a number under a mask of one digit.
pub bit_and-power : (a i : ℕ) → bit_and a (2 ^ i) ≡ bit a i * 2 ^ i
bit_and-power a zero = omega (arith, bit_and_lowest a 1, no_common (a / 2) (a / 2) (omega arith))
bit_and-power a (suc i) =
    let step : bit_and a (2 ^ suc i) ≡ bit_and (a / 2) (2 ^ i) * 2 =
      omega (arith, bit_and_lowest a (2 ^ suc i), ap (bit_and (a / 2)) (power_half i)) in
    let goal : bit_and a (2 ^ suc i) ≡ bit (a / 2) i * 2 ^ suc i = omega (
      arith,
      step,
      bit_and-power (a / 2) i,
      digit_double (bit (a / 2) i) (2 ^ i) (2 ^ suc i) (bit_below (a / 2) i) (omega arith),
    ) in
    goal
