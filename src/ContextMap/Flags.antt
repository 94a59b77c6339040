-- ===== src/ContextMap/Flags.antt =====
-- The flags of contexts (src/context_map.hh).
use Prim.Native.Nat.{bit_and, bit_or, ◌%◌, ◌^◌}
use drcpd.Common.{ℕ, ◌<◌, ◌≡◌, not, ◌&&◌, ◌||◌, ◌==◌, arith, inl, inr, Bool-cases}
use drcpd.ContextMap.{internal_invalid, ContextInfo, is_valid, get_flags, set_flags, check_flags}
use drcpd.ContextMap.Bits.{or_bound, or_shares}

-- Setting flags leaves a context valid or not valid; a check on flags then succeeds if it did before,
-- or, in a valid context, if one of the public flags that were set is checked.
pub check_flags-set_flags :
    (info : ContextInfo) (flags mask : ℕ)
    → (is_valid (set_flags info flags) ≡ is_valid info)
      × (check_flags (set_flags info flags) mask ≡ (
          check_flags info mask
          || (is_valid info && not (bit_and (flags % internal_invalid) mask == 0))))
unfolding set_flags check_flags is_valid get_flags
check_flags-set_flags info flags mask = elim (Bool-cases (is_valid info)) [
  | inl v ↦
      let b : info.flags_ < internal_invalid = ground (arith, v) in
      let bound : bit_or info.flags_ (flags % internal_invalid) < 2 ^ 31 =
        or_bound 31 info.flags_ (flags % internal_invalid) b (omega arith) in
      let shares = or_shares info.flags_ (flags % internal_invalid) mask in
      let e : info.flags_ % internal_invalid ≡ info.flags_ = omega arith in
      let e' : bit_or info.flags_ (flags % internal_invalid) % internal_invalid
          ≡ bit_or info.flags_ (flags % internal_invalid) =
        omega arith in
      (ground arith, ground arith)
  | inr v ↦ (ground arith, ground arith)
]
