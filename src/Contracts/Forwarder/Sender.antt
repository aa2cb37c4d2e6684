-- ===== src/Contracts/Forwarder/Sender.antt =====
-- Who FlexibleNonceForwarder.sol says has sent a call, as MultiERC2771Context.sol reads it.
use on_chain_identity_gatewa.Common.{
  ℕ, zero, suc, ◌+◌, ◌-◌, ◌*◌, ◌/◌, ◌%◌, ◌^◌, ◌<◌, ◌≡◌, refl, ap, ◌∙◌, leb, true, List, [], ◌∷◌,
  ◌++◌, length, arith,
}
use on_chain_identity_gatewa.Common.Lists.{length-append}
use on_chain_identity_gatewa.Contracts.{Address}
use on_chain_identity_gatewa.Contracts.Context.{
  Trusted, drop, take, read_bytes, msg_sender, msg_data,
}
use on_chain_identity_gatewa.Contracts.Forwarder.{ForwardRequest, to_bytes, forwarded_data}

drop_append : (xs ys : List ℕ) → drop (length xs) (xs ++ ys) ≡ ys
drop_append [] ys = refl
drop_append (x ∷ xs) ys = drop_append xs ys

take_append : (xs ys : List ℕ) → take (length xs) (xs ++ ys) ≡ xs
take_append [] ys = refl
take_append (x ∷ xs) ys = rw (take_append xs ys) refl

length-to_bytes : (n x : ℕ) → length (to_bytes n x) ≡ n
length-to_bytes zero x = refl
length-to_bytes (suc n) x =
    omega (arith, length-append (to_bytes n (x / 256)) (x % 256 ∷ []), length-to_bytes n (x / 256))

read_bytes-append :
    (acc : ℕ) (xs : List ℕ) (b : ℕ) → read_bytes acc (xs ++ b ∷ []) ≡ read_bytes acc xs * 256 + b
read_bytes-append acc [] b = refl
read_bytes-append acc (x ∷ xs) b = read_bytes-append (acc * 256 + x) xs b

read_bytes-to_bytes : (n x : ℕ) → x < 256 ^ n → read_bytes 0 (to_bytes n x) ≡ x
read_bytes-to_bytes zero x h = omega arith
read_bytes-to_bytes (suc n) x h = omega (
  arith,
  read_bytes-append 0 (to_bytes n (x / 256)) (x % 256),
  read_bytes-to_bytes n (x / 256) (omega arith),
)

fits : (a : ℕ) → a < 2 ^ 160 → a < 256 ^ 20
fits a h = h

appended_sender :
    (trusted : Trusted) (this : Address) (xs ys : List ℕ)
    → trusted this ≡ true
    → length ys ≡ 20
    → (msg_sender trusted (record { sender = this; data_bytes = xs ++ ys }) ≡ read_bytes 0 ys)
      × (msg_data trusted (record { sender = this; data_bytes = xs ++ ys }) ≡ xs)
unfolding msg_sender msg_data
appended_sender trusted this xs ys t h =
    let all = length-append xs ys in
    let long : leb 20 (length (xs ++ ys)) ≡ true = ground (arith, all) in
    let start : length (xs ++ ys) - 20 ≡ length xs = omega (arith, all, h) in
    (
      rw (t, long, start) (ap (read_bytes 0) (drop_append xs ys)),
      rw (t, long, start) (take_append xs ys),
    )

-- Where a contract trusts the forwarder, it takes the sender of a forwarded request for the sender of
-- the call, whatever the request's data is, and reads that data as it was signed.
pub msg_sender-forwarded_data :
    (trusted : Trusted) (this : Address) (req : ForwardRequest)
    → trusted this ≡ true
    → req.from_address < 2 ^ 160
    → (msg_sender trusted (record { sender = this; data_bytes = forwarded_data req })
        ≡ req.from_address)
      × (msg_data trusted (record { sender = this; data_bytes = forwarded_data req })
          ≡ req.call_data)
unfolding forwarded_data
msg_sender-forwarded_data trusted this req t h =
    let (sender, rest) =
      appended_sender trusted this req.call_data (to_bytes 20 req.from_address) t
        (length-to_bytes 20 req.from_address) in
    (sender ∙ read_bytes-to_bytes 20 req.from_address (fits req.from_address h), rest)
