-- ===== src/Contracts/Flags/Laws.antt =====
-- The mask of FlagsStorage.sol and its flags, over any sequence of calls.
use on_chain_identity_gatewa.Common.{ℕ, ◌<◌, ◌==◌, ◌≡◌, inl, inr, true, false, ok, arith}
use on_chain_identity_gatewa.Common.Tests.{Bool-cases}
use on_chain_identity_gatewa.Contracts.{put}
use on_chain_identity_gatewa.Contracts.BitMask.{
  set_bit, check_bit, check_bit-set_bit, check_bit-clear_bit,
}
use on_chain_identity_gatewa.Contracts.Flags.{FlagsStorage, insert_flag, delete_flag}

-- The mask has the bits of the supported flags and no other, and no two flags share a bit.
pub record IsConsistent (s : FlagsStorage) : Type 0 where
  pub fits : (flag : ℕ) → s.supported_flags flag ≡ true → s.flag_indexes flag < 256
  pub marked :
      (flag : ℕ)
      → s.supported_flags flag ≡ true
      → check_bit s.supported_flags_mask (s.flag_indexes flag) ≡ true
  pub apart :
      (f g : ℕ)
      → s.supported_flags f ≡ true
      → s.supported_flags g ≡ true
      → s.flag_indexes f ≡ s.flag_indexes g
      → f ≡ g
  pub backed :
      (index : ℕ)
      → index < 256
      → check_bit s.supported_flags_mask index ≡ true
      → (flag : ℕ) × (s.supported_flags flag ≡ true) × (s.flag_indexes flag ≡ index)

pub insert_flag-ok :
    (flag index : ℕ) (s s' : FlagsStorage)
    → insert_flag flag index s ≡ ok s'
    → (check_bit s.supported_flags_mask index ≡ false)
      × (s.supported_flags flag ≡ false)
      × (s' ≡ record s {
        flag_indexes = put flag index s.flag_indexes;
        supported_flags = put flag true s.supported_flags;
        supported_flags_mask = set_bit s.supported_flags_mask index;
      })
unfolding insert_flag
insert_flag-ok flag index s s' h = ground arith

pub insert_flag-IsConsistent :
    (flag index : ℕ) (s s' : FlagsStorage)
    → index < 256
    → IsConsistent s
    → insert_flag flag index s ≡ ok s'
    → IsConsistent s'
insert_flag-IsConsistent flag index s s' lt c h =
    let (free, new, e) = insert_flag-ok flag index s s' h in
    rw e (record {
      fits = λ f m. ground (arith, c.fits f);
      marked = λ f m.
          rw (check_bit-set_bit s.supported_flags_mask index (put flag index s.flag_indexes f))
            (ground (arith, c.marked f));
      apart = λ f g m n q. ground (arith, c.apart f g, c.marked f, c.marked g);
      backed = λ i l m. elim (Bool-cases (i == index)) [
        | inl same ↦ (flag, ground arith, ground arith)
        | inr other ↦
            let (g, held, at_i) =
              c.backed i l (ground (arith, check_bit-set_bit s.supported_flags_mask index i)) in
            (g, ground arith, ground arith)
      ];
    })

pub delete_flag-IsConsistent :
    (flag : ℕ) (s : FlagsStorage)
    → s.supported_flags flag ≡ true
    → IsConsistent s
    → IsConsistent (delete_flag flag s)
unfolding delete_flag
delete_flag-IsConsistent flag s m c = record {
  fits = λ f m'. ground (arith, c.fits f);
  marked = λ f m'. ground (
    arith,
    c.marked f,
    c.apart f flag,
    c.fits f,
    check_bit-clear_bit s.supported_flags_mask (s.flag_indexes flag) (s.flag_indexes f),
  );
  apart = λ f g m' n q. ground (arith, c.apart f g);
  backed = λ i l m'.
      let cleared = check_bit-clear_bit s.supported_flags_mask (s.flag_indexes flag) i l in
      let (g, held, at_i) = c.backed i l (ground arith) in (g, ground arith, ground arith);
}
