-- ===== src/Ethereum/Utils.antt =====
-- Charges, expiry times and bit masks: ethereum/gateway-eth-ts/src/utils/{charge,time,bitmask_flags}.ts.
use Prim.Native.Nat.{bit_or}
use Prim.Native.String.{String}
use on_chain_identity_gatewa.Common.{
  ℕ, zero, suc, ◌+◌, ◌/◌, ◌^◌, ◌≤◌, ◌<◌, ◌≡◌, refl, ◌⊎◌, inl, inr, Option, none, some, List, [],
  ◌∷◌, Result, ok, err, if◌then◌else◌, leb, arith,
}
use on_chain_identity_gatewa.Common.Int.{ℤ, pos, negsuc}
use on_chain_identity_gatewa.Ethereum.{
  EthError, negative_expiration, invalid_charge_type, Charge, ChargeType, eth, erc20, zero_address,
}

-- `getExpirationTime`, at `Date.now()` in milliseconds
unfoldable pub get_expiration_time : (date_now : ℕ) → Option ℤ → Result EthError ℕ
get_expiration_time date_now none = ok 0
get_expiration_time date_now (some (pos zero)) = ok 0
get_expiration_time date_now (some (pos (suc n))) = ok (date_now / 1000 + suc n)
get_expiration_time date_now (some (negsuc n)) = err negative_expiration

-- `makeWeiCharge`
unfoldable pub make_wei_charge : (value : ℕ) (recipient : String) → Charge
make_wei_charge value recipient = record {
  value = value;
  charge_type = eth;
  token = zero_address;
  recipient = recipient;
  token_sender = zero_address;
}

-- `makeERC20Charge`
unfoldable pub make_erc20_charge :
    (value : ℕ) (token token_sender token_recipient : String) → Charge
make_erc20_charge value token token_sender token_recipient = record {
  value = value;
  charge_type = erc20;
  token = token;
  recipient = token_recipient;
  token_sender = token_sender;
}

-- A transaction that approves a spender, by the contract it is sent to.
pub data Approval : Type 0 where
  approve : (token spender : String) (amount : ℕ) → Approval
  set_approval : (charge_contract gateway_contract token : String) (amount network : ℕ) → Approval

abbrev pub default_charge_handler_address : String
default_charge_handler_address = "0x6D5c9629B91D1b3A728D40EFb94d5682454Cae96"

abbrev pub default_gateway_token_address : String
default_gateway_token_address = "0xF65b6396dF6B7e2D8a6270E3AB6c7BB08BAEF22E"

-- A parameter with a default value.
abbrev pub or_default {ℓ} : {A : Type ℓ} → A → Option A → A
or_default a none = a
or_default a (some b) = b

abbrev if_erc20 : ChargeType → Approval → Result EthError Approval
if_erc20 erc20 a = ok a
if_erc20 _ a = err invalid_charge_type

-- `approveERC20Charge`
unfoldable pub approve_erc20_charge : Charge → (contract : Option String) → Result EthError Approval
approve_erc20_charge charge contract =
    if_erc20 charge.charge_type
      (approve charge.token (or_default default_charge_handler_address contract) charge.value)

-- `approveInternalERC20Charge`
unfoldable pub approve_internal_erc20_charge :
    Charge
    → (network : ℕ) → (charge_contract gateway_contract : Option String) → Result EthError Approval
approve_internal_erc20_charge charge network charge_contract gateway_contract =
    if_erc20 charge.charge_type (
      set_approval (or_default default_gateway_token_address charge_contract)
        (or_default default_gateway_token_address gateway_contract) charge.token charge.value
        network)

-- `addFlagsToBitmask`; `1 << index` is a power of 2.
unfoldable pub add_flags_to_bitmask : (bitmask : ℕ) → (flags : List ℕ) → ℕ
add_flags_to_bitmask bitmask [] = bitmask
add_flags_to_bitmask bitmask (index ∷ flags) =
    let rest = add_flags_to_bitmask (bit_or bitmask (2 ^ index)) flags in
    if leb 256 index then bitmask else rest

-- Nothing after the first index of 256 or more is set, even where it is small enough.
pub add_flags_to_bitmask_stops :
    (bitmask index : ℕ) (flags : List ℕ)
    → 256 ≤ index
    → add_flags_to_bitmask bitmask (index ∷ flags) ≡ bitmask
unfolding add_flags_to_bitmask
add_flags_to_bitmask_stops bitmask index flags h = ground arith

-- An expiry that is missing or 0 gives 0, a negative one is refused, and any other is counted from
-- now: what is returned is 0 or later than now.
pub get_expiration_time_lem :
    (date_now : ℕ) (expiration : Option ℤ) (time : ℕ)
    → get_expiration_time date_now expiration ≡ ok time
    → ((time ≡ 0) × ((expiration ≡ none) ⊎ (expiration ≡ some (pos 0))))
      ⊎ ((n : ℕ) × (expiration ≡ some (pos n)) × (0 < n) × (time ≡ date_now / 1000 + n))
unfolding get_expiration_time
get_expiration_time_lem date_now none time h = inl (cc, inl refl)
get_expiration_time_lem date_now (some (pos zero)) time h = inl (cc, inr refl)
get_expiration_time_lem date_now (some (pos (suc n))) time h = inr (suc n, refl, omega arith, cc)
get_expiration_time_lem date_now (some (negsuc n)) time h = cc
