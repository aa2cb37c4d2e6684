-- ===== src/Contracts/Flags/Runs.antt =====
-- Any sequence of calls of FlagsStorage.sol.
use on_chain_identity_gatewa.Common.{
  ◌≡◌, ◌≢◌, sym, ◌∙◌, inl, inr, true, false, List, [], ◌∷◌, Result, ok, err, arith,
}
use on_chain_identity_gatewa.Common.Lists.{All}
use on_chain_identity_gatewa.Common.Results.{Result-cases}
use on_chain_identity_gatewa.Contracts.{Address, Revert}
use on_chain_identity_gatewa.Contracts.BitMask.{check_bit-zero}
use on_chain_identity_gatewa.Contracts.Flags.{FlagsStorage, initialize}
use on_chain_identity_gatewa.Contracts.Flags.Laws.{IsConsistent}
use on_chain_identity_gatewa.Contracts.Flags.Answers.{
  Call, run_call, IsTyped, Answers, run_call-Answers, run_call_refused,
}

true≢false : true ≢ false
true≢false h = cc

abbrev pub commit : FlagsStorage → Result Revert FlagsStorage → FlagsStorage
commit s (ok s') = s'
commit s (err e) = s

-- Calls by their senders, one after the other; one that reverts changes nothing.
unfoldable pub run : List (Address × Call) → FlagsStorage → FlagsStorage
run [] s = s
run ((sender, call) ∷ calls) s = run calls (commit s (run_call sender call s))

-- Each call of a run is answered so, where the one before it left the contract.
abbrev pub Follows : List (Address × Call) → FlagsStorage → Type 0
Follows [] s = Unit
Follows ((sender, call) ∷ calls) s =
    Answers sender call s (run_call sender call s)
    × Follows calls (commit s (run_call sender call s))

run-Follows :
    (calls : List (Address × Call)) (s : FlagsStorage)
    → All (λ call. IsTyped call.1) calls
    → IsConsistent s
    → IsConsistent (run calls s) × Follows calls s
unfolding run
run-Follows [] s t c = (c, tt)
run-Follows ((sender, call) ∷ calls) s t c = elim (Result-cases (run_call sender call s)) [
  | inl (s1, e) ↦
      let (c1, a) = run_call-Answers sender call s s1 t.0 c e in
      let (c2, f) = run-Follows calls s1 t.1 c1 in rw e (c2, (a, f))
  | inr (x, e) ↦
      let a = run_call_refused sender call s x t.0 c e in
      let (c2, f) = run-Follows calls s t.1 c in rw e (c2, (a, f))
]

initialize-IsConsistent :
    (admin : Address) (s : FlagsStorage) → initialize admin ≡ ok s → IsConsistent s
unfolding initialize
initialize-IsConsistent admin s h =
    let e : s ≡ record {
      supported_flags = λ _. false;
      super_admin = admin;
      supported_flags_mask = 0;
      flag_indexes = λ _. 0;
    } =
      ground arith in
    rw e (record {
      fits = λ f m. cc;
      marked = λ f m. cc;
      apart = λ f g m n q. cc;
      backed = λ i lt m. absurd (true≢false (sym m ∙ check_bit-zero i));
    })

-- From its initialization on, and after any calls by any senders, the mask has the bits of the
-- supported flags and no other, each below 256 and of one flag. As a registry of flags and bits the
-- contract answers each call as it says: one that succeeds is the super admin's and registers exactly
-- the flags that it names, new ones, at their bits, which no flag has, or removes exactly the flags that
-- it names, which are registered, or changes the super admin alone; and one about a single flag or the
-- super admin reverts only for another sender, or where the flag or the bit is registered already, where
-- the flag to remove is not, or where the new super admin is the zero address.
pub run-initialize :
    (admin : Address) (s : FlagsStorage) (calls : List (Address × Call))
    → initialize admin ≡ ok s
    → All (λ call. IsTyped call.1) calls
    → IsConsistent (run calls s) × Follows calls s
run-initialize admin s calls h t = run-Follows calls s t (initialize-IsConsistent admin s h)
