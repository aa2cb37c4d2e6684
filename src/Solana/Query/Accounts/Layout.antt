-- ===== src/Solana/Query/Accounts/Layout.antt =====
-- What findGatewayTokens finds among accounts in the layout of a gateway token.
use on_chain_identity_gatewa.Common.{
  ℕ, zero, suc, ◌≡◌, refl, sym, ◌∙◌, ap, Option, none, some, Bool, true, inl, inr, ok, List, [],
  ◌∷◌, ◌++◌, keep, All, length, arith,
}
use on_chain_identity_gatewa.Common.Tests.{Bool-cases}
use on_chain_identity_gatewa.Common.Results.{traverse, >>=-eq-ok}
use on_chain_identity_gatewa.Solana.Web3.{Web3}
use on_chain_identity_gatewa.Solana.Token.{GatewayToken, GatewayTokenData, data_to_gateway_token}
use on_chain_identity_gatewa.Solana.Query.{token_of, wanted}
use on_chain_identity_gatewa.Solana.Query.Accounts.{
  drop, starts_with, passes, filters, ProgramAccount, find_gateway_tokens, owner_field_offset,
  gatekeeper_network_field_offset,
}

drop_append : (xs ys : List ℕ) (n : ℕ) → length xs ≡ n → drop n (xs ++ ys) ≡ ys
drop_append [] ys zero h = refl
drop_append [] ys (suc n) h = absurd (omega arith)
drop_append (x ∷ xs) ys zero h = absurd (omega arith)
drop_append (x ∷ xs) ys (suc n) h = drop_append xs ys n (omega arith)

drop_past : (xs ys : List ℕ) (y n : ℕ) → length xs ≡ n → drop (suc n) (xs ++ y ∷ ys) ≡ ys
drop_past [] ys y zero h = refl
drop_past [] ys y (suc n) h = absurd (omega arith)
drop_past (x ∷ xs) ys y zero h = absurd (omega arith)
drop_past (x ∷ xs) ys y (suc n) h = drop_past xs ys y n (omega arith)

starts_with_append :
    (bs xs ys : List ℕ) → length bs ≡ length xs → starts_with bs (xs ++ ys) ≡ true → bs ≡ xs
starts_with_append [] [] ys same h = refl
starts_with_append [] (x ∷ xs) ys same h = absurd (omega arith)
starts_with_append (b ∷ bs) [] ys same h = absurd (omega arith)
starts_with_append (b ∷ bs) (x ∷ xs) ys same h =
    let rest = starts_with_append bs xs ys (omega arith) (ground arith) in
    let first : b ≡ x = ground arith in rw (first, rest) refl

module _ (w : Web3) (decode : List ℕ → Option GatewayTokenData) where
  open w use {PublicKey, to_buffer, of_bytes, of_bytes-to_buffer}

  -- An account in the layout of a gateway token without a parent token and an owner identity: a version, an
  -- empty option, the owner, an empty option, the network; and it decodes to them.
  pub record HasLayout (content : List ℕ) : Type 0 where
    pub version : ℕ
    pub owner : List ℕ
    pub network : List ℕ
    pub rest : List ℕ
    pub parsed : GatewayTokenData
    pub laid_out : content ≡ version ∷ 0 ∷ (owner ++ 0 ∷ (network ++ rest))
    pub owner_length : length owner ≡ 32
    pub network_length : length network ≡ 32
    pub decoded : decode content ≡ some parsed
    pub same_owner : parsed.owner ≡ owner
    pub same_network : parsed.gatekeeper_network ≡ network

  -- A token of the owner, if one is asked for.
  abbrev pub OwnedBy : Option PublicKey → GatewayToken PublicKey → Type 0
  OwnedBy none t = Unit
  OwnedBy (some key) t = t.owner ≡ key

  network_found :
      (network : PublicKey) (content : List ℕ) (h : HasLayout content)
      → length (to_buffer network) ≡ 32
      → starts_with (to_buffer network) (drop gatekeeper_network_field_offset content) ≡ true
      → to_buffer network ≡ h.network
  network_found network content h l p =
      let at : drop gatekeeper_network_field_offset content ≡ h.network ++ h.rest =
        ap (drop gatekeeper_network_field_offset) h.laid_out
        ∙ drop_past h.owner (h.network ++ h.rest) 0 32 h.owner_length in
      starts_with_append (to_buffer network) h.network h.rest (l ∙ sym h.network_length)
        (rw at at p)

  owner_found :
      (key : PublicKey) (content : List ℕ) (h : HasLayout content)
      → length (to_buffer key) ≡ 32
      → starts_with (to_buffer key) (drop owner_field_offset content) ≡ true
      → to_buffer key ≡ h.owner
  owner_found key content h l p =
      let at : drop owner_field_offset content ≡ h.owner ++ 0 ∷ (h.network ++ h.rest) =
        ap (drop owner_field_offset) h.laid_out in
      starts_with_append (to_buffer key) h.owner (0 ∷ (h.network ++ h.rest))
        (l ∙ sym h.owner_length) (rw at at p)

  -- What decoding an account that was found gives.
  token_of-parsed :
      (a : ProgramAccount w decode) (d : GatewayTokenData) (t : GatewayToken PublicKey)
      → decode a.0.content ≡ some d
      → token_of w decode a ≡ ok t
      → (t.owner ≡ of_bytes d.owner) × (t.gatekeeper_network ≡ of_bytes d.gatekeeper_network)
  unfolding token_of data_to_gateway_token
  token_of-parsed a d t e h = ground arith

  abbrev Asked : Option PublicKey → List ℕ → Type 0
  Asked none content = Unit
  Asked (some key) content = starts_with (to_buffer key) (drop owner_field_offset content) ≡ true

  passes_owner :
      (owner : Option PublicKey) (network : PublicKey) (page : Option ℕ) (content : List ℕ)
      → passes (filters w decode owner network page) content ≡ true
      → (starts_with (to_buffer network) (drop gatekeeper_network_field_offset content) ≡ true)
        × Asked owner content
  unfolding filters
  passes_owner none network page content h = (ground arith, tt)
  passes_owner (some key) network page content h = (ground arith, ground arith)

  -- A token of the network, and of the owner if one is asked for.
  abbrev pub Matches : Option PublicKey → PublicKey → GatewayToken PublicKey → Type 0
  Matches owner network t = (t.gatekeeper_network ≡ network) × OwnedBy owner t

  owned_by :
      (owner : Option PublicKey) (content : List ℕ) (h : HasLayout content)
      (t : GatewayToken PublicKey)
      → ((key : PublicKey) → length (to_buffer key) ≡ 32)
      → Asked owner content
      → t.owner ≡ of_bytes h.owner
      → OwnedBy owner t
  owned_by none content h t l p e = tt
  owned_by (some key) content h t l p e =
      e ∙ ap of_bytes (sym (owner_found key content h (l key) p)) ∙ of_bytes-to_buffer key

  account-Matches :
      (owner : Option PublicKey) (network : PublicKey) (page : Option ℕ)
      (a : ProgramAccount w decode) (t : GatewayToken PublicKey)
      → ((key : PublicKey) → length (to_buffer key) ≡ 32)
      → HasLayout a.0.content
      → passes (filters w decode owner network page) a.0.content ≡ true
      → token_of w decode a ≡ ok t
      → Matches owner network t
  account-Matches owner network page a t l h p e =
      let (in_network, asked) = passes_owner owner network page a.0.content p in
      let (own, net) = token_of-parsed a h.parsed t h.decoded e in
      (
        net
            ∙ ap of_bytes
                (h.same_network ∙ sym (network_found network a.0.content h (l network) in_network))
            ∙ of_bytes-to_buffer network,
        owned_by owner a.0.content h t l asked (own ∙ ap of_bytes h.same_owner),
      )

  traverse-Matches :
      (owner : Option PublicKey) (network : PublicKey) (page : Option ℕ)
      (accounts : List (ProgramAccount w decode)) (tokens : List (GatewayToken PublicKey))
      → ((key : PublicKey) → length (to_buffer key) ≡ 32)
      → All (λ a. HasLayout a.0.content) accounts
      → traverse
          (token_of w decode)
          (keep (λ a. passes (filters w decode owner network page) a.0.content) accounts)
        ≡ ok tokens
      → All (Matches owner network) tokens
  traverse-Matches owner network page [] tokens l h e =
      let empty : [] ≡ tokens = cc in rw (sym empty) tt
  traverse-Matches owner network page (a ∷ accounts) tokens l h e =
      elim (Bool-cases (passes (filters w decode owner network page) a.0.content)) [
        | inl hit ↦
            let (t, e1, h1) = >>=-eq-ok (token_of w decode a) _ (rw hit at e) in
            let (ts, e2, h2) =
              >>=-eq-ok
                (traverse (token_of w decode)
                  (keep (λ a. passes (filters w decode owner network page) a.0.content) accounts))
                _ h1 in
            let same : t ∷ ts ≡ tokens = cc in
            rw (sym same) (
              account-Matches owner network page a t l h.0 hit e1,
              traverse-Matches owner network page accounts ts l h.1 e2,
            )
        | inr miss ↦ traverse-Matches owner network page accounts tokens l h.1 (rw miss at e)
      ]

  keep-All :
      (p : GatewayToken PublicKey → Bool) (P : GatewayToken PublicKey → Type 0)
      (ts : List (GatewayToken PublicKey))
      → All P ts
      → All (λ t. P t × (p t ≡ true)) (keep p ts)
  keep-All p P [] h = tt
  keep-All p P (t ∷ ts) h = elim (Bool-cases (p t)) [
    | inl hit ↦ rw hit ((h.0, hit), keep-All p P ts h.1)
    | inr miss ↦ rw miss (keep-All p P ts h.1)
  ]

  -- Among accounts in the layout of a gateway token without a parent token and an owner identity, every
  -- token that is found is in the network, belongs to the owner if one is asked for, and is not revoked
  -- unless revoked ones are asked for.
  pub find_gateway_tokens-Matches :
      (accounts : List (ProgramAccount w decode)) (owner : Option PublicKey) (network : PublicKey)
      (include_revoked : Bool) (page : Option ℕ) (tokens : List (GatewayToken PublicKey))
      → ((key : PublicKey) → length (to_buffer key) ≡ 32)
      → All (λ a. HasLayout a.0.content) accounts
      → find_gateway_tokens w decode accounts owner network include_revoked page ≡ ok tokens
      → All (λ t. Matches owner network t × (wanted w decode include_revoked t ≡ true)) tokens
  unfolding find_gateway_tokens
  find_gateway_tokens-Matches accounts owner network include_revoked page tokens l h e =
      let (ts, found, e') =
        >>=-eq-ok
          (traverse (token_of w decode)
            (keep (λ a. passes (filters w decode owner network page) a.0.content) accounts))
          _ e in
      let same : keep (wanted w decode include_revoked) ts ≡ tokens = cc in
      rw (sym same) (
        keep-All (wanted w decode include_revoked) (Matches owner network) ts
          (traverse-Matches owner network page accounts ts l h found))
