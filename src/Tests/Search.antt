-- ===== src/Tests/Search.antt =====
-- The search (src/search_algo.cc) in four texts that start with the characters 97, 98, 98 and 99.
use Prim.Native.Nat.{◌/◌}
use drcpd.Common.{
  ℕ, ◌+◌, ◌≤◌, ◌<◌, ◌≡◌, ◌⊎◌, Option, none, some, List, [], ◌∷◌, leb, ◌==◌, arith, refl,
  if◌then◌else◌,
}
use drcpd.Search.{
  Result, BSearchState, ends, position, bsearch_top_most, prepare_next_iteration, construct,
  binary_search_utf8, next_depth, is_nil, search_boundary, asserts,
}
use drcpd.Search.Narrows.{IsSorted, Found}
use drcpd.Search.TopMost.{HasChar, bsearch_top_most-Found, binary_search_utf8_single}

abbrev first_char : ℕ → ℕ
first_char i = 97 + (i + 1) / 2

abbrev text : ℕ → Option (List ℕ)
text i = if leb i 3 then some (first_char i ∷ 120 ∷ []) else none

sorted : IsSorted first_char 0 3
unfolding IsSorted
sorted i j a h b = omega arith

chars : (i : ℕ) → 0 ≤ i → i ≤ 3 → HasChar text 0 i (first_char i)
unfolding HasChar
chars i a b = (first_char i ∷ 120 ∷ [], ground arith, refl)

found_first : binary_search_utf8 text 4 (98 ∷ []) ≡ position (some 1)
unfolding binary_search_utf8 is_nil search_boundary
found_first = refl

found_second_char : binary_search_utf8 text 4 (98 ∷ 120 ∷ []) ≡ position (some 1)
unfolding binary_search_utf8 is_nil search_boundary
found_second_char = refl

abbrev prefix_texts : ℕ → Option (List ℕ)
prefix_texts i = if i == 0 then some (97 ∷ []) else some (97 ∷ 98 ∷ [])

prefix_asserts : binary_search_utf8 prefix_texts 2 (97 ∷ 98 ∷ []) ≡ asserts
unfolding binary_search_utf8 is_nil search_boundary
prefix_asserts = refl

binary_search_utf8_single_example :
    ((i : ℕ) × (binary_search_utf8 text 4 (98 ∷ []) ≡ position (some i))
      × (first_char i ≡ 98)
      × ((j : ℕ) → j < i → first_char j < 98))
    ⊎ ((i : ℕ) × (binary_search_utf8 text 4 (98 ∷ []) ≡ position (some i))
        × (i ≤ 3)
        × ((j : ℕ) → j ≤ 3 → ¬ (first_char j ≡ 98)))
binary_search_utf8_single_example =
    binary_search_utf8_single text first_char 3 98 (omega arith) sorted chars

abbrev four : BSearchState
four = record (construct 4) { all_top_ = 0; all_bottom_ = 3; depth_ = 18446744073709551615 }

bsearch_top_most-Found_example :
    (s' : BSearchState) × (r : Result) × (bsearch_top_most text (prepare_next_iteration four 98)
      ≡ ends s' r)
    × Found first_char 98 0 3 s'.upper_ r
unfolding next_depth
bsearch_top_most-Found_example =
    bsearch_top_most-Found text first_char four 98 (omega arith) (omega arith) sorted chars
