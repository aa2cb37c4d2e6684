-- ===== src/Ethereum/Tests.antt =====
-- The Ethereum client at a concrete contract, whose world is a number of calls.
use Prim.Native.String.{String}
use text.Mathlib.Text.{◌==◌ as str_eq}
use on_chain_identity_gatewa.Common.{
  ℕ, suc, inr, ◌≡◌, refl, sym, ap, ◌∙◌, ◌⊎◌, Option, none, some, true, List, [], ◌∷◌, arith, Result,
  ok, err, if◌then◌else◌, any,
}
use on_chain_identity_gatewa.Common.Int.{pos}
use on_chain_identity_gatewa.Common.Io.{return-ok}
use on_chain_identity_gatewa.Ethereum.{
  multiple_tokens, EthError, not_a_function, Value, number, Overrides, Ramda, Charge, Write,
  Contract, RawToken,
}
use on_chain_identity_gatewa.Ethereum
use on_chain_identity_gatewa.Ethereum.Client
use on_chain_identity_gatewa.Ethereum.Client.Writes.{
  ids_of, tolerant, payable_overrides_value, method, method-ok, overrides_of, method_refuses,
  write_of, value_of, freezing, burning,
}
use on_chain_identity_gatewa.Ethereum.Utils.{get_expiration_time}
use on_chain_identity_gatewa.Ethereum.Reads.{fill}
use on_chain_identity_gatewa.Ethereum.Forwarder.{
  Populated, Ethers, to_meta_tx, sign_meta_tx_request, build_request, build_typed_data,
  forwarder_issue, forwarder_contract,
}
use on_chain_identity_gatewa.Ethereum.Forwarder.Laws.{Forwards, to_meta_tx-Forwards}
use on_chain_identity_gatewa.Ethereum.Forwarder.Charged.{Carries, forwarder_issue_value}

abbrev ramda : Ramda
ramda = record {
  omit = λ names o key. if any (str_eq key) names then none else o key;
  omit_lem = λ names o key. refl;
}

abbrev raw : RawToken
raw = record { owner = "0x1"; state = 0; expiration = 0; bitmask = 0 }

-- The owner "0x1" has the token 4, and every other owner has two.
abbrev ids : String → List ℕ
ids owner = if str_eq owner "0x1" then 4 ∷ [] else 5 ∷ 6 ∷ []

abbrev contract : Contract ℕ ℕ
contract = record {
  write = λ call o s. (ok s, suc s);
  get_token_ids_by_owner_and_network = λ owner network only o s. (ok (ids owner), suc s);
  get_token = λ id o s. (ok raw, suc s);
  get_network = λ n o s. (ok "net", suc s);
  verify_token = λ owner n o s. (ok true, suc s);
  is_gatekeeper = λ a n s. (ok true, suc s);
}

abbrev options : Overrides
options key = if str_eq key "gasPrice" then some (number 7) else none

abbrev wei : Charge
wei = record {
  value = 90;
  charge_type = Ethereum.ChargeType.eth;
  token = "0x0";
  recipient = "0x2";
  token_sender = "0x0";
}

payable_overrides_value_example :
    Client.payable_overrides ramda contract options 5000 wei "value"
    ≡ some (value_of ramda contract options 5000 wei Ethereum.ChargeType.eth)
payable_overrides_value_example = payable_overrides_value ramda contract options 5000 wei

freezes : method ramda contract options 5000 freezing "0x1" 3 0 ≡ (ok 1, 2)
unfolding Client.freeze Client.checked_get_token_id
freezes = refl

method-ok_example :
    (id : ℕ) × (rest : List ℕ) × (s1 : ℕ) × (write : Write) × (ids_of ramda contract options 5000
        "0x1" 3 0
      ≡ (ok (id ∷ rest), s1))
    × ((rest ≡ []) ⊎ (tolerant ramda contract options 5000 ≡ true))
    × (write_of ramda contract options 5000 freezing id ≡ ok write)
    × (contract.write write (overrides_of ramda contract options 5000 freezing) s1 ≡ (ok 1, 2))
method-ok_example = method-ok ramda contract options 5000 freezing "0x1" 3 1 0 2 freezes

method_refuses_example :
    method ramda contract options 5000 burning "0x9" 3 0 ≡ (err multiple_tokens, 1)
method_refuses_example =
    method_refuses ramda contract options 5000 burning "0x9" 3 (5 ∷ 6 ∷ []) 0 1 refl
      (inr (refl, omega arith))

later : get_expiration_time 5000 (some (pos 60)) ≡ ok 65
unfolding get_expiration_time
later = refl

abbrev networks : ℕ → Option String
networks i = some "net"

filled : fill networks (2 ∷ 0 ∷ 1 ∷ []) (λ _. none) "net" ≡ some 1
unfolding fill
filled = refl

-- Populating keeps the value of the overrides.
abbrev value_in : Option Value → Option ℕ
value_in (some (number n)) = some n
value_in _ = none

abbrev populated : Option ℕ → Populated
populated v = record {
  from_address = some "0x1";
  to_address = "0x5";
  call_data = "0xab";
  value = v;
  gas_limit = none;
}

populate_lem :
    (v : Option Value) (n s s' : ℕ) (t : Populated)
    → v ≡ some (number n)
    → ◌≡◌ {A = Result EthError Populated × ℕ} (ok (populated (value_in v)), suc s) (ok t, s')
    → t.value ≡ some n
populate_lem v n s s' t e h =
    sym (ap (λ x. x.value) (return-ok (populated (value_in v)) t (suc s) s' h).0) ∙ ap value_in e

abbrev ethers : Ethers ℕ
ethers = record {
  populate = λ call o s. (ok (populated (value_in (o "value"))), suc s);
  populate_value = λ call o n s s' t e h. populate_lem (o "value") n s s' t e h;
  wallet_address = λ s. (ok "0x1", suc s);
  to_address = λ s. (ok "0x5", suc s);
  get_nonce = λ a s. (ok "3", suc s);
  chain_id = λ s. (ok 11, suc s);
  forwarder_address = λ s. (ok "0x6", suc s);
  sign_typed_data = λ d s. (ok "0xf00", suc s);
  populate_execute = λ request g s. (ok (populated none), suc s);
}

abbrev reads : Contract ℕ Populated
reads = record {
  write = λ call o s. (err not_a_function, s);
  get_token_ids_by_owner_and_network = λ owner network only o s. (ok (ids owner), suc s);
  get_token = λ id o s. (ok raw, suc s);
  get_network = λ n o s. (ok "net", suc s);
  verify_token = λ owner n o s. (ok true, suc s);
  is_gatekeeper = λ a n s. (ok true, suc s);
}

abbrev relayed : Option ℕ → Populated
relayed v = record (populated v) { from_address = none }

forwards : to_meta_tx ethers 500000 (Ethereum.Write.freeze 4) options 0 ≡ (ok (relayed none), 8)
unfolding to_meta_tx sign_meta_tx_request build_request build_typed_data
forwards = refl

to_meta_tx-Forwards_example :
    (p : Populated) × (s1 : ℕ) × (ethers.populate (Ethereum.Write.freeze 4) options 0 ≡ (ok p, s1))
    × Forwards ethers p (relayed none)
to_meta_tx-Forwards_example =
    to_meta_tx-Forwards ethers 500000 (Ethereum.Write.freeze 4) options (relayed none) 0 8 forwards

charged :
    forwarder_issue ethers ramda options reads 5000 "0x1" 3 none none (some wei) 0
    ≡ (ok (relayed (some 90)), 8)
unfolding forwarder_issue forwarder_contract to_meta_tx sign_meta_tx_request build_request
    build_typed_data Client.issue Client.payable_overrides
charged = refl

forwarder_issue_value_example :
    (time : ℕ) × (Client.issue_expiration ramda
        (forwarder_contract ethers options reads)
        options
        5000
        (pos 0)
      ≡ ok time)
    × Carries ethers ramda options reads 5000
        (Ethereum.Write.mint "0x1" 3 time 0 wei)
        wei.value
        (relayed (some 90))
forwarder_issue_value_example =
    forwarder_issue_value ethers ramda options reads 5000 "0x1" 3 none none wei (relayed (some 90))
      0 8 refl charged
