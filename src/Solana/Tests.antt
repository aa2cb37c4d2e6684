-- ===== src/Solana/Tests.antt =====
-- Concrete keys, chain and packages for the tests of the Solana modules: keys are numbers.
pub mod ProgramTests
pub mod ClientTests
pub mod GatekeeperTests
pub mod ServiceTests
pub mod QueryTests
pub mod AccountTests
pub mod IntegrationTests
use mathlib.Core.Path.{subst}
use Prim.Native.String.{String}
use on_chain_identity_gatewa.Common.{
  ℕ, zero, suc, ◌+◌, ◌-◌, ◌<◌, ◌^◌, ◌≡◌, ◌≢◌, refl, sym, ap, Option, none, some, Bool, true, false,
  Result, ok, err, List, [], ◌∷◌, ◌++◌, map, any, All, replicate, ◌==◌, ==_iff, if◌then◌else◌,
  arith, Bool-cases, inl, inr,
}
use on_chain_identity_gatewa.Common.Int.{ℤ, pos, negsuc}
use on_chain_identity_gatewa.Common.Io.{Io, return}
use on_chain_identity_gatewa.Solana.Web3.{Web3, Account, Connection}
use on_chain_identity_gatewa.Solana.Program.{
  TokenState, active, frozen, revoked, TokenAccount, Cell, Ledger, AccountInfo, Runtime,
}
use on_chain_identity_gatewa.Solana.Gatekeeper.{Rpc, Transaction, ServiceError}

abbrev head_or_zero : List ℕ → ℕ
head_or_zero [] = 0
head_or_zero (x ∷ xs) = x

-- Addresses of three, four and two seeds are 13, 14 and 12.
abbrev count : List (List ℕ) → ℕ
count [] = 10
count (x ∷ xs) = suc (count xs)

abbrev pub web3 : Web3
web3 = record {
  PublicKey = ℕ;
  equals = λ a b. a == b;
  equals_iff = ==_iff;
  to_buffer = λ k. k ∷ [];
  of_bytes = head_or_zero;
  of_bytes-to_buffer = λ a. refl;
  find_program_address = λ seeds program. count seeds;
  program_id = 1;
  system_program_id = 0;
  sysvar_rent = 2;
  program_ne_system = λ e. omega arith;
  to_number = some;
  to_number_exact = λ n h. refl;
}

abbrev pub from_option : Option ℕ → ℕ
from_option none = 0
from_option (some n) = suc n

abbrev pub to_option : ℕ → Option ℕ
to_option zero = none
to_option (suc n) = some n

abbrev from_state : TokenState → ℕ
from_state active = 0
from_state frozen = 1
from_state revoked = 2

abbrev to_state : ℕ → TokenState
to_state zero = active
to_state (suc zero) = frozen
to_state _ = revoked

abbrev from_time : Option ℤ → ℕ × ℕ
from_time none = (0, 0)
from_time (some (pos n)) = (1, n)
from_time (some (negsuc n)) = (2, n)

abbrev to_time : ℕ → ℕ → Option ℤ
to_time zero n = none
to_time (suc zero) n = some (pos n)
to_time _ n = some (negsuc n)

abbrev write : TokenAccount ℕ → List ℕ
write t =
    t.version
    ∷ from_option t.parent_gateway_token
    ∷ t.owner_wallet
    ∷ from_option t.owner_identity
    ∷ t.gatekeeper_network
    ∷ t.issuing_gatekeeper
    ∷ from_state t.state
    ∷ (from_time t.expire_time).0
    ∷ (from_time t.expire_time).1
    ∷ []

abbrev read : List ℕ → Option (TokenAccount ℕ)
read (v ∷ p ∷ o ∷ i ∷ n ∷ g ∷ s ∷ a ∷ b ∷ []) = some (record {
  version = v;
  parent_gateway_token = to_option p;
  owner_wallet = o;
  owner_identity = to_option i;
  gatekeeper_network = n;
  issuing_gatekeeper = g;
  state = to_state s;
  expire_time = to_time a b;
})
read _ = none

option_trip : (o : Option ℕ) → to_option (from_option o) ≡ o
option_trip none = refl
option_trip (some n) = refl

state_trip : (s : TokenState) → to_state (from_state s) ≡ s
state_trip active = refl
state_trip frozen = refl
state_trip revoked = refl

time_trip : (o : Option ℤ) → to_time (from_time o).0 (from_time o).1 ≡ o
time_trip none = refl
time_trip (some (pos n)) = refl
time_trip (some (negsuc n)) = refl

pub read-write : (t : TokenAccount ℕ) → read (write t) ≡ some t
read-write t = rw (option_trip t.parent_gateway_token) (
    rw (option_trip t.owner_identity) (rw (state_trip t.state) (rw (time_trip t.expire_time) refl)))

abbrev replace : ℕ → Cell ℕ → Ledger ℕ → Ledger ℕ
replace k c l j = if k == j then c else l j

abbrev create : ℕ → ℕ → ℕ → Ledger ℕ → Option (Ledger ℕ)
create account space owner l =
    if (l account).owner == 0
    then some
        (replace account (record { owner = owner; lamports = 1; content = replicate space 0 }) l)
    else none

replaced : (k : ℕ) (c : Cell ℕ) (l : Ledger ℕ) → replace k c l k ≡ c
replaced k c l = rw ((==_iff k k).1 refl) refl

replaced_ne : (k j : ℕ) (c : Cell ℕ) (l : Ledger ℕ) → j ≢ k → replace k c l j ≡ l j
replaced_ne k j c l h = elim (Bool-cases (k == j)) [
  | inl same ↦ absurd (h (sym ((==_iff k j).0 same)))
  | inr other ↦ rw other refl
]

pub create_lem :
    (account space owner : ℕ) (l l' : Ledger ℕ)
    → create account space owner l ≡ some l'
    → ((l account).owner ≡ 0)
      × ((l' account).owner ≡ owner)
      × ((l' account).content ≡ replicate space 0)
      × ((j : ℕ) → j ≢ account → ((l' j).owner ≡ (l j).owner) × ((l' j).content ≡ (l j).content))
create_lem account space owner l l' h =
    let free : (l account).owner ≡ 0 = ground arith in
    let made : replace account (record { owner = owner; lamports = 1; content = replicate space 0 })
          l
        ≡ l' =
      ground arith in
    let here : l' account ≡ record { owner = owner; lamports = 1; content = replicate space 0 } =
      subst (λ m. m account ≡ record { owner = owner; lamports = 1; content = replicate space 0 })
        made (replaced account _ l) in
    (
      free,
      ap (λ c. c.owner) here,
      ap (λ c. c.content) here,
      λ j other.
          let there : l' j ≡ l j = subst (λ m. m j ≡ l j) made (replaced_ne account j _ l other) in
          (ap (λ c. c.owner) there, ap (λ c. c.content) there),
    )

pub some_injective : {A : Type 0} (a b : A) → some a ≡ some b → a ≡ b
some_injective a b h = cc

abbrev pub runtime : Runtime web3
runtime = record {
  parse = read;
  serialize = λ t d. some (write t);
  parse-serialize = λ t d d' h. rw (sym (some_injective _ _ h)) (read-write t);
  clock = pos 1000;
  minimum_balance = λ n. n;
  create_account = λ funder account lamports space owner seeds l. create account space owner l;
  create_account_lem =
      λ funder account lamports space owner seeds l l' h. create_lem account space owner l l' h;
  bump = λ seeds. 255;
  networks_with_expire_addresses = [];
}

-- A token of the owner 7 on the network 6, issued by the gatekeeper 5.
abbrev pub token_in : TokenState → TokenAccount ℕ
token_in s = record {
  version = 0;
  parent_gateway_token = none;
  owner_wallet = 7;
  owner_identity = none;
  gatekeeper_network = 6;
  issuing_gatekeeper = 5;
  state = s;
  expire_time = none;
}

-- The token at address 20, and the gatekeeper's account at 13.
abbrev pub ledger_in : TokenState → Ledger ℕ
ledger_in s k =
    if k == 20
    then record { owner = 1; lamports = 3; content = write (token_in s) }
    else if k == 13
    then record { owner = 1; lamports = 1; content = [] }
    else record { owner = 0; lamports = 9; content = [] }

abbrev pub info : ℕ → Bool → AccountInfo ℕ
info k signer = record { key = k; is_signer = signer }
