-- ===== src/Contracts/Context.antt =====
-- MultiERC2771Context.sol and MultiERC2771ContextUpgradeable.sol: who sent a call, where a trusted
-- forwarder appends the sender's address to the calldata.
use on_chain_identity_gatewa.Common.{
  ℕ, zero, suc, ◌+◌, ◌-◌, ◌*◌, leb, Bool, true, false, ◌&&◌, List, [], ◌∷◌, if◌then◌else◌, length,
}
use on_chain_identity_gatewa.Contracts.{Address, put}

-- `msg.sender` and `msg.data` of a call, as bytes
pub record Message : Type 0 where
  pub sender : Address
  pub data_bytes : List ℕ

-- `_trustedForwarders`
abbrev pub Trusted : Type 0
Trusted = Address → Bool

abbrev pub no_forwarders : Trusted
no_forwarders _ = false

-- The loop of the constructor and of `__MultiERC2771ContextUpgradeable_init_unchained`.
unfoldable pub trust_all : List Address → Trusted → Trusted
trust_all [] t = t
trust_all (forwarder ∷ forwarders) t = trust_all forwarders (put forwarder true t)

-- `_addForwarder`
abbrev pub add_forwarder : Address → Trusted → Trusted
add_forwarder forwarder t = put forwarder true t

-- `_removeForwarder`
abbrev pub remove_forwarder : Address → Trusted → Trusted
remove_forwarder forwarder t = put forwarder false t

abbrev pub drop : ℕ → List ℕ → List ℕ
drop zero xs = xs
drop (suc n) [] = []
drop (suc n) (x ∷ xs) = drop n xs

abbrev pub take : ℕ → List ℕ → List ℕ
take zero xs = []
take (suc n) [] = []
take (suc n) (x ∷ xs) = x ∷ take n xs

-- A word, read from its bytes with the highest first, after those of `acc`.
abbrev pub read_bytes : ℕ → List ℕ → ℕ
read_bytes acc [] = acc
read_bytes acc (b ∷ bs) = read_bytes (acc * 256 + b) bs

-- `_msgSender`: the last 20 bytes, as an address
unfoldable pub msg_sender : Trusted → Message → Address
msg_sender trusted m =
    if trusted m.sender && leb 20 (length m.data_bytes)
    then read_bytes 0 (drop (length m.data_bytes - 20) m.data_bytes)
    else m.sender

-- `_msgData`
unfoldable pub msg_data : Trusted → Message → List ℕ
msg_data trusted m =
    if trusted m.sender && leb 20 (length m.data_bytes)
    then take (length m.data_bytes - 20) m.data_bytes
    else m.data_bytes
