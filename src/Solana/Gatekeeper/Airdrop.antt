-- ===== src/Solana/Gatekeeper/Airdrop.antt =====
-- `airdropTo` of solana/gatekeeper-lib/src/util/account.ts: the waiting is left out.
use Prim.Native.String.{String}
use text.Mathlib.Text.{◌==◌ as str_eq}
use on_chain_identity_gatewa.Common.{
  ℕ, zero, suc, ◌≤◌, ◌<◌, ◌≡◌, ◌∙◌, ◌⊎◌, inl, inr, true, ok, err, if◌then◌else◌, arith, ltb, leb,
  Bool-cases,
}
use on_chain_identity_gatewa.Common.Io.{Io, ◌>>=◌, ◌>>◌, return, resume, resume-ok}
use on_chain_identity_gatewa.Solana.Gatekeeper.{ServiceError, airdrop_failed}

abbrev pub min_airdrop_balance : ℕ
min_airdrop_balance = 100000000

-- The calls of the connection, for one public key.
module _ {World : Type 0} (get_balance : Io World ServiceError ℕ)
    (request_airdrop : ℕ → Io World ServiceError (Unit {0})) where
  -- The loop, with the tries that are left.
  abbrev poll : (lamports retries : ℕ) → Io World ServiceError (Unit {0})
  poll lamports zero s = (err airdrop_failed, s)
  poll lamports (suc retries) s =
      let rest = poll lamports retries in
      resume (get_balance s) λ balance. if leb lamports balance then return tt else rest

  unfoldable pub airdrop_to :
      (cluster_url mainnet : String) (lamports : ℕ) → Io World ServiceError (Unit {0})
  airdrop_to cluster_url mainnet lamports = do
    balance ← get_balance
    (if ltb min_airdrop_balance balance
        then return tt
        else if str_eq cluster_url mainnet
        then return tt
        else request_airdrop lamports >> poll lamports 30)

  -- The last balance that was read.
  abbrev pub Reads : (ℕ → Type 0) → World → Type 0
  Reads P s' = (s : World) × (balance : ℕ) × (get_balance s ≡ (ok balance, s')) × P balance

  poll-Reads :
      (lamports retries : ℕ) (s s' : World)
      → poll lamports retries s ≡ (ok tt, s')
      → Reads (λ balance. lamports ≤ balance) s'
  poll-Reads lamports zero s s' h = cc
  poll-Reads lamports (suc retries) s s' h =
      let (balance, s1, read, rest) = resume-ok (get_balance s) _ tt s' h in
      elim (Bool-cases (leb lamports balance)) [
        | inl enough ↦ (s, balance, read ∙ ground arith, ground arith)
        | inr short ↦ poll-Reads lamports retries s1 s' (ground arith)
      ]

  -- An airdrop that succeeds has last read a balance of at least the lamports asked for, or it found
  -- more than the least balance, or the cluster is the main net, where it does nothing.
  pub airdrop_to-Reads :
      (cluster_url mainnet : String) (lamports : ℕ) (s s' : World)
      → airdrop_to cluster_url mainnet lamports s ≡ (ok tt, s')
      → Reads (λ balance. lamports ≤ balance) s'
        ⊎ Reads (λ balance. min_airdrop_balance < balance) s'
        ⊎ (str_eq cluster_url mainnet ≡ true)
  unfolding airdrop_to
  airdrop_to-Reads cluster_url mainnet lamports s s' h =
      let (balance, s1, read, rest) = resume-ok (get_balance s) _ tt s' h in
      elim (Bool-cases (ltb min_airdrop_balance balance)) [
        | inl rich ↦ inr (inl (s, balance, read ∙ ground arith, ground arith))
        | inr poor ↦ elim (Bool-cases (str_eq cluster_url mainnet)) [
          | inl main ↦ inr (inr main)
          | inr other ↦
              let (_, s2, asked, polled) =
                resume-ok (request_airdrop lamports s1) (λ _. poll lamports 30) tt s'
                  (ground arith) in
              inl (poll-Reads lamports 30 s2 s' polled)
        ]
      ]
