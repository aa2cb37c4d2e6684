-- ===== src/Solana/Query/Holder.antt =====
-- A holder of a valid token among the first five is found.
use mathlib.Core.Path.{subst}
use on_chain_identity_gatewa.Common.{
  ℕ, zero, suc, ◌+◌, ◌^◌, ◌≤◌, ◌<◌, ◌≡◌, refl, Option, none, some, Bool, true, ok, List, [], ◌∷◌,
  arith, any, keep-keep-head, inl, inr, Bool-cases, ◌==◌, ==_iff,
}
use on_chain_identity_gatewa.Common.Results.{>>=-ok, traverse, traverse-cons}
use on_chain_identity_gatewa.Solana.Web3.{Web3, Connection}
use on_chain_identity_gatewa.Solana.Seed.{natural, padded_seed}
use on_chain_identity_gatewa.Solana.Seed.Padding.{padded_seed_below}
use on_chain_identity_gatewa.Solana.Token.{GatewayTokenData, is_valid}
use on_chain_identity_gatewa.Solana.Address.{gateway_token_address}
use on_chain_identity_gatewa.Solana.Query.{
  find_gateway_token, get_gateway_token, wanted, indices, Token,
}
use on_chain_identity_gatewa.Solana.Query.Found.{somes, find_for_owner_and_network_lem}

module _ (w : Web3) (decode : List ℕ → Option GatewayTokenData) where
  open w use {PublicKey}

  is_valid-wanted :
      (date_now : ℕ) (include_revoked : Bool) (t : Token w decode)
      → is_valid date_now t ≡ true
      → wanted w decode include_revoked t ≡ true
  unfolding is_valid
  is_valid-wanted date_now include_revoked t h = ground arith

  address_below :
      (owner network : PublicKey) (i : ℕ)
      → i < 2 ^ 64
      → (a : PublicKey) × (gateway_token_address w owner network (natural i) ≡ ok a)
  unfolding gateway_token_address
  address_below owner network i h =
      let (seed, made, _, _, _) = padded_seed_below i h in
      (_, >>=-ok (padded_seed (natural i)) _ seed made)

module _ (w : Web3) (decode : List ℕ → Option GatewayTokenData)
    (connection : Connection w.PublicKey) (owner network : w.PublicKey) (date_now : ℕ) where
  open w use {PublicKey}

  -- The account at an index, if there is one, can be read.
  abbrev pub IsReadable : ℕ → Type 0
  IsReadable i =
      (a : PublicKey)
      → gateway_token_address w owner network (natural i) ≡ ok a
      → (o : Option (Token w decode)) × (get_gateway_token w decode connection a ≡ ok o)

  -- A page that was read, with a valid token in it if one of its indices has one.
  record Page (page offset : ℕ) (holds : ℕ → Type 0) : Type 0 where
    addresses : List PublicKey
    derived :
        traverse (λ i. gateway_token_address w owner network (natural i)) (indices page offset)
        ≡ ok addresses
    found : List (Option (Token w decode))
    read : traverse (get_gateway_token w decode connection) addresses ≡ ok found
    valid_found :
        (i : ℕ)
        → holds i
        → offset ≤ i
        → i < offset + page
        → any (is_valid date_now) (somes found) ≡ true

  -- An index whose token is valid.
  abbrev pub HoldsValid : ℕ → Type 0
  HoldsValid i =
      (a : PublicKey) × (gateway_token_address w owner network (natural i) ≡ ok a)
      × (t : Token w decode) × (get_gateway_token w decode connection a ≡ ok (some t))
      × (is_valid date_now t ≡ true)

  any-somes-cons :
      (o : Option (Token w decode)) (os : List (Option (Token w decode)))
      → any (is_valid date_now) (somes os) ≡ true
      → any (is_valid date_now) (somes (o ∷ os)) ≡ true
  any-somes-cons none os h = h
  any-somes-cons (some t) os h = ground arith

  any-somes-head :
      (o : Option (Token w decode)) (os : List (Option (Token w decode))) (t : Token w decode)
      → o ≡ some t
      → is_valid date_now t ≡ true
      → any (is_valid date_now) (somes (o ∷ os)) ≡ true
  any-somes-head none os t e h = cc
  any-somes-head (some u) os t e h = ground arith

  same_read :
      (i : ℕ) (a : PublicKey) (o : Option (Token w decode))
      → gateway_token_address w owner network (natural i) ≡ ok a
      → get_gateway_token w decode connection a ≡ ok o
      → (h : HoldsValid i) → o ≡ some h.2
  same_read i a o da ra (a', da', t, rt, v) = cc

  Page-cons :
      (page offset : ℕ) (a : PublicKey) (o : Option (Token w decode))
      → gateway_token_address w owner network (natural offset) ≡ ok a
      → get_gateway_token w decode connection a ≡ ok o
      → Page page (suc offset) HoldsValid
      → Page (suc page) offset HoldsValid
  Page-cons page offset a o da ra rest = record {
    addresses = a ∷ rest.addresses;
    derived = traverse-cons _ offset (indices page (suc offset)) a rest.addresses da rest.derived;
    found = o ∷ rest.found;
    read = traverse-cons _ a rest.addresses o rest.found ra rest.read;
    valid_found = λ i h lo hi. elim (Bool-cases (offset == i)) [
      | inl same ↦
          let here =
            subst (λ j. gateway_token_address w owner network (natural j) ≡ ok a)
              ((==_iff offset i).0 same) da in
          any-somes-head o rest.found h.2 (same_read i a o here ra h) h.4
      | inr later ↦ any-somes-cons o rest.found (rest.valid_found i h (ground arith) (omega arith))
    ];
  }

  read_page :
      (page offset : ℕ)
      → offset + page < 2 ^ 64
      → ((i : ℕ) → i < offset + page → IsReadable i)
      → Page page offset HoldsValid
  read_page zero offset bound readable = record {
    addresses = [];
    derived = refl;
    found = [];
    read = refl;
    valid_found = λ i h lo hi. absurd (omega arith);
  }
  read_page (suc page) offset bound readable =
      let (a, da) = address_below w decode owner network offset (omega arith) in
      let (o, ra) = readable offset (omega arith) a da in
      Page-cons page offset a o da ra
        (read_page page (suc offset) (omega arith) (λ i h. readable i (omega arith)))

  -- If the accounts at the first five indices can be read, and the token at one of them is valid,
  -- `findGatewayToken` succeeds and returns a valid token.
  pub find_gateway_token_valid :
      (include_revoked : Bool) (i : ℕ)
      → ((j : ℕ) → j < 5 → IsReadable j)
      → i < 5
      → HoldsValid i
      → (t : Token w decode) × (find_gateway_token w decode date_now connection owner network
            include_revoked
          ≡ ok (some t))
        × (is_valid date_now t ≡ true)
  unfolding find_gateway_token
  find_gateway_token_valid include_revoked i readable bound h =
      let p = read_page 5 0 (omega arith) readable in
      let (t, ts, e, good) =
        keep-keep-head (is_valid date_now) (wanted w decode include_revoked) (somes p.found)
          (is_valid-wanted w decode date_now include_revoked)
          (p.valid_found i h (omega arith) bound) in
      (
        t,
        rw
            (find_for_owner_and_network_lem w decode connection date_now owner network
              include_revoked 0 5)
            (rw (p.derived, p.read, e) refl),
        good,
      )
