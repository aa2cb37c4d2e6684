-- ===== src/Solana/Token/Laws.antt =====
-- When a token is valid, what `update` keeps, and which states an account may carry.
use Prim.Native.String.{String}
use text.Mathlib.TextEquality.{eq_iff}
use on_chain_identity_gatewa.Common.{
  ℕ, ◌/◌, ◌≤◌, ◌≡◌, ◌≢◌, ◌↔◌, ◌⊎◌, Option, none, some, true, ok, List, [], ◌∷◌, arith, refl,
}
use on_chain_identity_gatewa.Common.Results.{◌>>=◌}
use on_chain_identity_gatewa.Solana.Token.{
  State, active, revoked, frozen, GatewayToken, is_valid, make_state, from_gateway_token_state,
}

-- No expiry time, the time 0, or one that the clock has not passed.
abbrev pub IsCurrent : ℕ → Option ℕ → Type 0
IsCurrent date_now none = Unit
IsCurrent date_now (some t) = (t ≡ 0) ⊎ (date_now / 1000 ≤ t)

is_valid_parts :
    {K : Type 0} (date_now : ℕ) (t : GatewayToken K) (state : State) (expiry : Option ℕ)
    → t.state ≡ state
    → t.expiry_time ≡ expiry
    → (is_valid date_now t ≡ true) ↔ ((state ≡ active) × IsCurrent date_now expiry)
unfolding is_valid
is_valid_parts date_now t active none p q = ground arith
is_valid_parts date_now t revoked none p q = ground arith
is_valid_parts date_now t frozen none p q = ground arith
is_valid_parts date_now t active (some e) p q = ground arith
is_valid_parts date_now t revoked (some e) p q = ground arith
is_valid_parts date_now t frozen (some e) p q = ground arith

-- A token is valid exactly when it is active and its expiry time, if it has one other than 0, is
-- not before the current second.
pub is_valid_iff :
    {K : Type 0} (date_now : ℕ) (t : GatewayToken K)
    → (is_valid date_now t ≡ true) ↔ ((t.state ≡ active) × IsCurrent date_now t.expiry_time)
is_valid_iff date_now t = is_valid_parts date_now t t.state t.expiry_time refl refl

-- The property name that stands for a state in an account.
abbrev pub state_name : State → String
state_name active = "active"
state_name revoked = "revoked"
state_name frozen = "frozen"

active-ne-revoked : ◌≢◌ {A = String} "active" "revoked"
active-ne-revoked = λ e. cc ((eq_iff "active" "revoked").1 e)

active-ne-frozen : ◌≢◌ {A = String} "active" "frozen"
active-ne-frozen = λ e. cc ((eq_iff "active" "frozen").1 e)

revoked-ne-frozen : ◌≢◌ {A = String} "revoked" "frozen"
revoked-ne-frozen = λ e. cc ((eq_iff "revoked" "frozen").1 e)

-- Reading the state of an account succeeds exactly when the object has one property and that is
-- the name of a state; the result is that state. Any other object is refused, by the constructor
-- or by the conversion.
pub read_state_iff :
    (keys : List String) (state : State)
    → ((make_state keys >>= from_gateway_token_state) ≡ ok state) ↔ (keys ≡ state_name state ∷ [])
unfolding make_state from_gateway_token_state
read_state_iff [] state = (λ h. cc, λ h. cc)
read_state_iff (key ∷ other ∷ []) state = (λ h. cc, λ h. cc)
read_state_iff (key ∷ other ∷ third ∷ keys) state = (λ h. ground arith, λ h. cc)
read_state_iff (key ∷ []) active = ground (
  arith,
  eq_iff key "active",
  eq_iff key "revoked",
  eq_iff key "frozen",
  active-ne-revoked,
  active-ne-frozen,
  revoked-ne-frozen,
)
read_state_iff (key ∷ []) revoked = ground (
  arith,
  eq_iff key "active",
  eq_iff key "revoked",
  eq_iff key "frozen",
  active-ne-revoked,
  active-ne-frozen,
  revoked-ne-frozen,
)
read_state_iff (key ∷ []) frozen = ground (
  arith,
  eq_iff key "active",
  eq_iff key "revoked",
  eq_iff key "frozen",
  active-ne-revoked,
  active-ne-frozen,
  revoked-ne-frozen,
)
