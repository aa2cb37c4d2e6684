-- ===== src/Solana/Seed.antt =====
-- The index seed of a gateway token address: `numToBuffer` and the padding in
-- `getGatewayTokenAddressForOwnerAndGatekeeperNetwork` (solana/gateway-ts/src/lib/util.ts).
pub mod Digits
pub mod Padding
use mathlib.Core.Logic.{dite}
use mathlib.Core.WellFounded.{Acc, WellFounded}
use native.Mathlib.Decide.{dec_lt}
use on_chain_identity_gatewa.Common.{
  ℕ, zero, suc, ◌+◌, ◌-◌, ◌*◌, ◌/◌, ◌%◌, ◌^◌, ◌<◌, Result, ok, err, List, [], ◌∷◌, ◌++◌, arith,
  Bool, false, length, replicate, ltb, ◌==◌, if◌then◌else◌,
}
use on_chain_identity_gatewa.Common.Results.{◌>>=◌}

-- A JavaScript number, as far as these functions tell them apart: not a number, below zero, or a
-- whole number of zero or more.
pub data JsNumber : Type 0 where
  nan negative : JsNumber
  natural : ℕ → JsNumber

-- What is thrown: `numToBuffer`'s two errors, the index guard, `Buffer.alloc` of a negative size,
-- and the length check.
pub data SeedError : Type 0 where
  negative_number not_a_number index_too_large alloc_size seed_length : SeedError

Acc-below : (k n : ℕ) → n < k → Acc ◌<◌ n
Acc-below zero n h = elim h [ ]
Acc-below (suc k) n h = Acc.intro n (λ m hm. Acc-below k m (omega arith))

unfoldable pub lt_wf : WellFounded ◌<◌
unfolding Acc-below
lt_wf = record { apply = λ n. Acc-below (suc n) n (omega arith) }

-- The inner `numToArray`: `arr.unshift(num % 256)`, then on with `Math.floor(num / 256)`.
pub num_to_array : (num : ℕ) → List ℕ → Acc ◌<◌ num → List ℕ
num_to_array num arr (Acc.intro _ smaller) =
    dite (dec_lt 0 num)
      (λ h. num_to_array (num / 256) ((num % 256) ∷ arr) (smaller (num / 256) (omega arith)))
      (λ _. arr)

unfoldable pub bytes_of : ℕ → List ℕ
unfolding num_to_array lt_wf dec_lt
bytes_of num = if num == 0 then 0 ∷ [] else num_to_array num [] (lt_wf.apply num)

pub num_to_buffer : JsNumber → Result SeedError (List ℕ)
unfolding bytes_of
num_to_buffer nan = err not_a_number
num_to_buffer negative = err negative_number
num_to_buffer (natural num) = ok (bytes_of num)

-- `index > 2 ** (8 * 8)`, which is false of NaN and of what is below zero
pub exceeds_guard : JsNumber → Bool
exceeds_guard (natural index) = ltb (2 ^ 64) index
exceeds_guard _ = false

-- `Buffer.concat([Buffer.alloc(8 - seed.length, 0), seed])` with the check that follows
pub pad : List ℕ → Result SeedError (List ℕ)
pad seed =
    if ltb 8 (length seed)
    then err alloc_size
    else let padded = replicate (8 - length seed) 0 ++ seed in
      if ltb 8 (length padded) then err seed_length else ok padded

unfoldable pub padded_seed : JsNumber → Result SeedError (List ℕ)
unfolding num_to_buffer exceeds_guard pad
padded_seed index = if exceeds_guard index then err index_too_large else num_to_buffer index >>= pad
