-- ===== src/RamList.antt =====
-- src/ramlist.cc: a list of item pointers held in memory; `none` is a null pointer.
-- Running past the end of the vector is undefined in the source: such a call has no result here.
-- The release of the items' memory is not modelled.
use drcpd.Common.{
  ℕ, ◌-◌, Option, none, some, List, [], ◌∷◌, ◌++◌, ltb, leb, ◌==◌, if◌then◌else◌, length, get_elem?,
  set, take, drop, replicate,
}

module _ {ℓ} {A : Type ℓ} where
  unfoldable pub get_nonconst_item : List (Option A) → ℕ → Option A
  get_nonconst_item items line =
      if leb (length items) line
      then none
      else elim (get_elem? items line) [ none ↦ none | some item ↦ item ]

  -- The new items, and the line of the new one.
  unfoldable pub append : List (Option A) → Option A → List (Option A) × ℕ
  append items item = (items ++ item ∷ [], length items)

  unfoldable pub replace : List (Option A) → ℕ → Option A → Option (List (Option A))
  replace items line item = if ltb line (length items) then some (set items line item) else none

  unfoldable pub shift_up : List (Option A) → ℕ → Option (List (Option A))
  shift_up items count =
      if count == 0
      then some items
      else if leb count (length items)
      then some (drop count items ++ replicate count none)
      else none

  unfoldable pub shift_down : List (Option A) → ℕ → Option (List (Option A))
  shift_down items count =
      if count == 0
      then some items
      else if leb count (length items)
      then some (replicate count none ++ take (length items - count) items)
      else none
