-- ===== src/ContextMap.antt =====
-- src/context_map.hh and src/context_map.cc: the contexts of lists, by number and by string ID. A
-- string is the list of its bytes; descriptions and permissions are known by numbers. Flags are
-- 32-bit numbers whose topmost bit marks a context that is not valid.
pub mod Bits
pub mod Flags
pub mod Laws
use Prim.Native.Nat.{◌%◌, bit_and, bit_or}
use drcpd.Common.{
  ℕ, zero, suc, ◌+◌, ◌-◌, Bool, true, false, not, ◌&&◌, ◌||◌, Option, none, some, List, [], ◌∷◌,
  ◌++◌, ltb, ◌==◌, if◌then◌else◌, length, get_elem?, u32_max, u32_mod,
}

abbrev pub internal_invalid : ℕ
internal_invalid = 2147483648

abbrev pub invalid_id : ℕ
invalid_id = u32_max

pub record ContextInfo : Type 0 where
  pub flags_ : ℕ
  pub string_id_ : List ℕ
  pub description_ : ℕ
  pub permissions_ : Option ℕ

abbrev pub invalid_name : List ℕ
invalid_name = b'#' ∷ b'I' ∷ b'N' ∷ b'V' ∷ b'A' ∷ b'L' ∷ b'I' ∷ b'D' ∷ b'#' ∷ []

abbrev pub default_context : ContextInfo
default_context = record {
  flags_ = internal_invalid;
  string_id_ = invalid_name;
  description_ = 0;
  permissions_ = none;
}

unfoldable pub is_valid : ContextInfo → Bool
is_valid info = ltb info.flags_ internal_invalid

unfoldable pub get_flags : ContextInfo → ℕ
get_flags info = info.flags_ % internal_invalid

unfoldable pub set_flags : ContextInfo → ℕ → ContextInfo
unfolding is_valid
set_flags info flags =
    if is_valid info
    then record info { flags_ = bit_or info.flags_ (flags % internal_invalid) }
    else info

unfoldable pub check_flags : ContextInfo → ℕ → Bool
unfolding get_flags
check_flags info flags = not (bit_and (get_flags info) flags == 0)

abbrev pub clear : List ContextInfo → List ContextInfo
clear contexts = []

unfoldable pub is_same : List ℕ → List ℕ → Bool
is_same [] [] = true
is_same [] (y ∷ ys) = false
is_same (x ∷ xs) [] = false
is_same (x ∷ xs) (y ∷ ys) = x == y && is_same xs ys

unfoldable pub find_from : List ContextInfo → List ℕ → ℕ → Option (ContextInfo × ℕ)
unfolding is_same
find_from [] id i = none
find_from (info ∷ infos) id i =
    let rest = find_from infos id (suc i) in
    if is_same info.string_id_ id then some (info, i) else rest

unfoldable pub found_or_default : Option (ContextInfo × ℕ) → ContextInfo × ℕ
found_or_default none = (default_context, invalid_id)
found_or_default (some found) = found

unfoldable pub get_context_info_by_string_id : List ContextInfo → List ℕ → ContextInfo × ℕ
unfolding find_from found_or_default
get_context_info_by_string_id contexts id = found_or_default (find_from contexts id 0)

unfoldable pub at : List ContextInfo → ℕ → ContextInfo
at contexts i = elim (get_elem? contexts i) [ none ↦ default_context | some info ↦ info ]

unfoldable pub exists : List ContextInfo → ℕ → Bool
exists contexts id = ltb id (length contexts)

unfoldable pub exists_by_name : List ContextInfo → List ℕ → Bool
unfolding is_valid get_context_info_by_string_id
exists_by_name contexts id = is_valid (get_context_info_by_string_id contexts id).0

unfoldable pub is_odd_name : List ℕ → Bool
is_odd_name [] = true
is_odd_name (x ∷ xs) = x == b'#'

unfoldable pub is_invalid_string_id : List ContextInfo → List ℕ → Bool
unfolding is_odd_name is_valid get_context_info_by_string_id
is_invalid_string_id contexts id =
    is_odd_name id || is_valid (get_context_info_by_string_id contexts id).0

-- The context is appended with its flags that are public; the answer is its number.
unfoldable pub append : List ContextInfo → ContextInfo → List ContextInfo × ℕ
unfolding is_invalid_string_id
append contexts info =
    if is_invalid_string_id contexts info.string_id_
    then (contexts ++ default_context ∷ [], invalid_id)
    else (
      contexts ++ record info { flags_ = info.flags_ % internal_invalid } ∷ [],
      length contexts % u32_mod,
    )
