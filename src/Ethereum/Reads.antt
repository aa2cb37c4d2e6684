-- ===== src/Ethereum/Reads.antt =====
-- `listNetworks` of ethereum/gateway-eth-ts/src/service/GatewayTsInternal.ts, and the polling of
-- src/utils/subscription.ts.
use Prim.Native.String.{String}
use text.Mathlib.Text.{◌==◌ as str_eq}
use text.Mathlib.TextEquality.{eq_iff}
use on_chain_identity_gatewa.Common.{
  ℕ, zero, suc, ◌≡◌, refl, sym, ap, ◌∙◌, ◌⊎◌, inl, inr, Option, none, some, not, List, [], ◌∷◌, map,
  if◌then◌else◌, ◌==◌, arith, Bool-cases,
}

-- `Array.from({ length: max }, (_, i) => i + startAt)`
unfoldable pub indices_from : (max start_at : ℕ) → List ℕ
indices_from zero start_at = []
indices_from (suc max) start_at = start_at ∷ indices_from max (suc start_at)

-- The object that the calls fill, by name.
abbrev pub Networks : Type 0
Networks = String → Option ℕ

abbrev assign : String → ℕ → Networks → Networks
assign name i networks key = if str_eq key name then some i else networks key

-- `if (network) networks[network] = BigInt(i)`, where a read that failed gave `null`
abbrev add_network : Option String → ℕ → Networks → Networks
add_network none i networks = networks
add_network (some name) i networks = if str_eq name "" then networks else assign name i networks

-- The calls, in the order in which their reads answer; `get_network` is the read at each index.
unfoldable pub fill : (get_network : ℕ → Option String) → List ℕ → Networks → Networks
fill get_network [] networks = networks
fill get_network (i ∷ order) networks =
    fill get_network order (add_network (get_network i) i networks)

-- `listNetworks`, where the answers come in the order of the indices
unfoldable pub list_networks : (get_network : ℕ → Option String) → (max start_at : ℕ) → Networks
unfolding fill indices_from
list_networks get_network max start_at = fill get_network (indices_from max start_at) (λ _. none)

abbrev pub In : ℕ → List ℕ → Type 0
In i [] = ⊥
In i (j ∷ js) = (i ≡ j) ⊎ In i js

module _ (get_network : ℕ → Option String) where
  add_network-Grounded :
      (found : Option String) (i : ℕ) (networks : Networks) (name : String) (j : ℕ)
      → add_network found i networks name ≡ some j
      → (networks name ≡ some j) ⊎ ((i ≡ j) × (found ≡ some name))
  add_network-Grounded none i networks name j h = inl h
  add_network-Grounded (some x) i networks name j h = elim (Bool-cases (str_eq x "")) [
    | inl empty ↦ inl (ground arith)
    | inr named ↦ elim (Bool-cases (str_eq name x)) [
      | inl same ↦ inr (ground arith, ap some (sym ((eq_iff name x).0 same)))
      | inr other ↦ inl (ground arith)
    ]
  ]

  -- Whatever the order in which the reads answer, each name in the list is that of the network at the
  -- index that it is given, one of those that were asked for.
  pub fill-Grounded :
      (order : List ℕ) (networks : Networks) (name : String) (i : ℕ)
      → fill get_network order networks name ≡ some i
      → (networks name ≡ some i) ⊎ (In i order × (get_network i ≡ some name))
  unfolding fill
  fill-Grounded [] networks name i h = inl h
  fill-Grounded (k ∷ order) networks name i h =
      elim (fill-Grounded order (add_network (get_network k) k networks) name i h) [
        | inr (later, found) ↦ inr (inr later, found)
        | inl there ↦ elim (add_network-Grounded (get_network k) k networks name i there) [
          | inl before ↦ inl before
          | inr (here, found) ↦ inr (inl (sym here), ap get_network (sym here) ∙ found)
        ]
      ]

-- The listener of `onGatewayTokenChange`: the block of the last report. At each tick it reports the
-- token where the block is another.
unfoldable pub tick {ℓ} : {Token : Type ℓ} → (latest : ℕ) → Token → ℕ → ℕ × Option Token
tick latest token block = if not (block == latest) then (latest, some token) else (block, none)

-- The reports of the ticks of a timer, from what the chain shows at each.
unfoldable pub ticks {ℓ} : {Token : Type ℓ} → List (ℕ × Token) → ℕ → List Token
unfolding tick
ticks [] block = []
ticks ((latest, token) ∷ rest) block =
    let later = ticks rest latest in if not (block == latest) then token ∷ later else later

-- No block is reported twice in a row, and where every tick shows the same block, only the first may
-- report.
pub ticks_same_block :
    {Token : Type 0} (latest : ℕ) (tokens : List Token)
    → ticks (map (λ t. (latest, t)) tokens) latest ≡ []
unfolding ticks
ticks_same_block latest [] = refl
ticks_same_block latest (t ∷ tokens) = ground (arith, ticks_same_block latest tokens)
