-- ===== src/Contracts/Gateway/Verify.antt =====
-- Which gateway tokens GatewayToken.sol verifies.
use on_chain_identity_gatewa.Common.{
  ℕ, zero, suc, ◌+◌, ◌≤◌, ◌<◌, ◌==◌, leb, ◌≡◌, refl, sym, ◌∙◌, ◌↔◌, ◌⊎◌, inl, inr, Bool, true,
  false, not, ◌&&◌, ◌||◌, List, [], ◌∷◌, Result, ok, err, length, arith,
}
use on_chain_identity_gatewa.Common.Tests.{==_iff, Bool-cases}
use on_chain_identity_gatewa.Common.Lists.{keep, any}
use on_chain_identity_gatewa.Common.Results.{>>=-eq-ok}
use on_chain_identity_gatewa.Contracts.{Address, Revert, active}
use on_chain_identity_gatewa.Contracts.Access.{has_role}
use on_chain_identity_gatewa.Contracts.Gateway.{
  Base, RoleHashes, Gateway, Env, is_active, network_has_feature,
  remove_gatekeeper_invalidates_tokens, exists_and_active,
}
use on_chain_identity_gatewa.Contracts.Gateway.Reads.{
  wanted, token_ids_loop, get_token_ids_by_owner_and_network, verify_token,
}

abbrev pub ok_or : {A : Type 0} → A → Result Revert A → A
ok_or d (ok a) = a
ok_or d (err e) = d

ok_injective : {A : Type 0} {a b : A} → ◌≡◌ {A = Result Revert A} (ok a) (ok b) → a ≡ b
ok_injective h = cc

module _ {Tokens : Type 0} (base : Base Tokens) (hashes : RoleHashes) where
  -- A token that is in force: it is neither frozen nor revoked, has an owner, its expiry is not over,
  -- and where the network wants it so its gatekeeper, if it has one, is still a gatekeeper.
  abbrev pub InForce : Env → ℕ → (allow_expired : Bool) → Gateway Tokens → Type 0
  InForce env id allow_expired s =
      (s.token_states id ≡ active)
      × ((allow_expired ≡ true) ⊎ (s.expirations id ≡ 0) ⊎ (env.timestamp ≤ s.expirations id))
      × (network : ℕ) × (base.slot_of id s.tokens ≡ ok network)
      × ((network_has_feature network remove_gatekeeper_invalidates_tokens s ≡ false)
          ⊎ (s.issuing_gatekeepers id ≡ 0)
          ⊎ (has_role hashes.gatekeeper_role network (s.issuing_gatekeepers id) s.access ≡ true))

  -- The same, as a test, of a token in a network.
  abbrev in_force : Env → (id network : ℕ) → (allow_expired : Bool) → Gateway Tokens → Bool
  in_force env id network allow_expired s =
      is_active (s.token_states id)
      && (not (
            network_has_feature network remove_gatekeeper_invalidates_tokens s
            && (not (s.issuing_gatekeepers id == 0)
                && not
                    (has_role hashes.gatekeeper_role network (s.issuing_gatekeepers id) s.access)))
          && (s.expirations id == 0 || (allow_expired || leb env.timestamp (s.expirations id))))

  in_force_lem :
      (env : Env) (id network : ℕ) (allow_expired : Bool) (s : Gateway Tokens)
      → base.exists id s.tokens ≡ true
      → base.slot_of id s.tokens ≡ ok network
      → exists_and_active base hashes env id allow_expired s
        ≡ ok (in_force env id network allow_expired s)
  unfolding exists_and_active
  in_force_lem env id network allow_expired s e slot =
      let (a, owner, some_owner) = base.owner_of_exists id s.tokens e in ground arith

  in_force_iff :
      (env : Env) (id network : ℕ) (allow_expired : Bool) (s : Gateway Tokens)
      → base.slot_of id s.tokens ≡ ok network
      → (in_force env id network allow_expired s ≡ true) ↔ InForce env id allow_expired s
  in_force_iff env id network allow_expired s slot = (
    λ h. (ground arith, ground arith, network, slot, ground arith),
    λ (st, ex, n, at, gk). let same : n ≡ network = ok_injective (sym at ∙ slot) in ground arith,
  )

  -- A token that exists is found to be active or not, without a revert, and exactly where it is in force.
  pub exists_and_active_iff :
      (env : Env) (id : ℕ) (allow_expired : Bool) (s : Gateway Tokens)
      → base.exists id s.tokens ≡ true
      → (b : Bool) × (exists_and_active base hashes env id allow_expired s ≡ ok b)
        × ((b ≡ true) ↔ InForce env id allow_expired s)
  exists_and_active_iff env id allow_expired s e =
      let (n, slot) = base.slot_of_exists id s.tokens e in
      (
        in_force env id n allow_expired s,
        in_force_lem env id n allow_expired s e slot,
        in_force_iff env id n allow_expired s slot,
      )

  -- The owner's tokens from an index on.
  abbrev pub owned_ids : Address → (rest i : ℕ) → Gateway Tokens → List ℕ
  owned_ids owner zero i s = []
  owned_ids owner (suc rest) i s =
      ok_or 0 (base.token_of_owner_by_index owner i s.tokens) ∷ owned_ids owner rest (i + 1) s

  -- Whether a token is in the network and, if asked for, active.
  abbrev pub is_wanted : Env → (network : ℕ) → (only_active : Bool) → Gateway Tokens → ℕ → Bool
  is_wanted env network only_active s id =
      (ok_or 0 (base.slot_of id s.tokens) == network)
      && (not only_active || ok_or false (exists_and_active base hashes env id false s))

  wanted_lem :
      (env : Env) (network : ℕ) (only_active : Bool) (id : ℕ) (s : Gateway Tokens)
      → base.exists id s.tokens ≡ true
      → wanted base hashes env network only_active id s
        ≡ ok (is_wanted env network only_active s id)
  unfolding wanted
  wanted_lem env network only_active id s e =
      let (n, slot) = base.slot_of_exists id s.tokens e in
      let (b, found, _) = exists_and_active_iff env id false s e in rw (slot, found) (ground arith)

  loop_lem :
      (env : Env) (owner : Address) (network : ℕ) (only_active : Bool) (s : Gateway Tokens)
      (n rest i : ℕ)
      → base.balance_of owner s.tokens ≡ ok n
      → i + rest ≤ n
      → token_ids_loop base hashes env rest i owner network only_active s
        ≡ ok (keep (is_wanted env network only_active s) (owned_ids owner rest i s))
  unfolding token_ids_loop
  loop_lem env owner network only_active s n zero i b le = refl
  loop_lem env owner network only_active s n (suc rest) i b le =
      let (id, at, own, e) = base.owned owner n i s.tokens b (omega arith) in
      rw
        (
          at,
          wanted_lem env network only_active id s e,
          loop_lem env owner network only_active s n rest (i + 1) b (omega arith),
        )
        (ground arith)

  -- The tokens that are answered for an owner and a network are those of the owner's tokens, in their
  -- order, that are in the network and, if only active ones are asked for, active; it never reverts for an
  -- owner whose balance can be read.
  pub get_token_ids_lem :
      (env : Env) (owner : Address) (network : ℕ) (only_active : Bool) (s : Gateway Tokens) (n : ℕ)
      → base.balance_of owner s.tokens ≡ ok n
      → get_token_ids_by_owner_and_network base hashes env owner network only_active s
        ≡ ok (keep (is_wanted env network only_active s) (owned_ids owner n 0 s))
  unfolding get_token_ids_by_owner_and_network
  get_token_ids_lem env owner network only_active s n b =
      rw b (loop_lem env owner network only_active s n n 0 b (omega arith))

  keep-any : (p : ℕ → Bool) (xs : List ℕ) → not (length (keep p xs) == 0) ≡ any p xs
  keep-any p [] = refl
  keep-any p (x ∷ xs) = ground (arith, keep-any p xs)

  any_owned :
      (env : Env) (owner : Address) (network : ℕ) (s : Gateway Tokens) (n rest i : ℕ)
      → base.balance_of owner s.tokens ≡ ok n
      → i + rest ≤ n
      → any (is_wanted env network true s) (owned_ids owner rest i s) ≡ true
      → (id : ℕ) × (base.owner_of id s.tokens ≡ ok owner)
        × (base.slot_of id s.tokens ≡ ok network)
        × InForce env id false s
  any_owned env owner network s n zero i b le h = cc
  any_owned env owner network s n (suc rest) i b le h =
      let (id, at, own, e) = base.owned owner n i s.tokens b (omega arith) in
      let (m, slot) = base.slot_of_exists id s.tokens e in
      let (v, found, iff) = exists_and_active_iff env id false s e in
      let head : ok_or 0 (base.token_of_owner_by_index owner i s.tokens) ≡ id = rw at refl in
      let test : is_wanted env network true s id ≡ (m == network && v) = rw (slot, found) refl in
      elim (Bool-cases (m == network && v)) [
        | inl hit ↦ (id, own, rw slot (ground arith), iff.0 (ground arith))
        | inr miss ↦
            any_owned env owner network s n rest (i + 1) b (omega arith)
              (rw (head, test, miss) at h)
      ]

  balance_read :
      (env : Env) (owner : Address) (network : ℕ) (s : Gateway Tokens) (ids : List ℕ)
      → get_token_ids_by_owner_and_network base hashes env owner network true s ≡ ok ids
      → (n : ℕ) × (base.balance_of owner s.tokens ≡ ok n)
  unfolding get_token_ids_by_owner_and_network
  balance_read env owner network s ids h =
      let (n, b, _) = >>=-eq-ok (base.balance_of owner s.tokens) _ h in (n, b)

  -- An owner is verified for a network only by a token of its own, in that network, that is in force.
  pub verify_token_sound :
      (env : Env) (owner : Address) (network : ℕ) (s : Gateway Tokens)
      → verify_token base hashes env owner network s ≡ ok true
      → (id : ℕ) × (base.owner_of id s.tokens ≡ ok owner)
        × (base.slot_of id s.tokens ≡ ok network)
        × InForce env id false s
  unfolding verify_token
  verify_token_sound env owner network s h =
      let (ids, e, h1) =
        >>=-eq-ok (get_token_ids_by_owner_and_network base hashes env owner network true s) _ h in
      let (n, b) = balance_read env owner network s ids e in
      any_owned env owner network s n n 0 b (omega arith) (
        sym (keep-any (is_wanted env network true s) (owned_ids owner n 0 s))
        ∙ ok_injective (rw (get_token_ids_lem env owner network true s n b) at h))

  any_wanted :
      (env : Env) (owner : Address) (network : ℕ) (s : Gateway Tokens) (rest i index id : ℕ)
      → i ≤ index
      → index < i + rest
      → base.token_of_owner_by_index owner index s.tokens ≡ ok id
      → is_wanted env network true s id ≡ true
      → any (is_wanted env network true s) (owned_ids owner rest i s) ≡ true
  any_wanted env owner network s zero i index id le lt at w = absurd (omega arith)
  any_wanted env owner network s (suc rest) i index id le lt at w = elim (Bool-cases (i == index)) [
    | inl same ↦
        let e : i ≡ index = (==_iff i index).0 same in
        let head : ok_or 0 (base.token_of_owner_by_index owner i s.tokens) ≡ id = rw (e, at) refl in
        rw (head, w) refl
    | inr other ↦ ground (
      arith,
      any_wanted env owner network s rest (i + 1) index id (ground arith) (omega arith) at w,
    )
  ]

  -- And such a token is enough: an owner with a token in the network that is in force is verified.
  pub verify_token_complete :
      (env : Env) (owner : Address) (network : ℕ) (s : Gateway Tokens) (n index id : ℕ)
      → base.balance_of owner s.tokens ≡ ok n
      → index < n
      → base.token_of_owner_by_index owner index s.tokens ≡ ok id
      → base.slot_of id s.tokens ≡ ok network
      → InForce env id false s
      → verify_token base hashes env owner network s ≡ ok true
  unfolding verify_token
  verify_token_complete env owner network s n index id b lt at slot f =
      let e = base.slot_of_ok id s.tokens network slot in
      let (v, found, iff) = exists_and_active_iff env id false s e in
      let w : is_wanted env network true s id ≡ true = rw (slot, found, iff.1 f) (ground arith) in
      rw
        (
          get_token_ids_lem env owner network true s n b,
          keep-any (is_wanted env network true s) (owned_ids owner n 0 s),
          any_wanted env owner network s n 0 index id (omega arith) (omega arith) at w,
        )
        refl
