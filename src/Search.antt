-- ===== src/Search.antt =====
-- src/search_algo.cc: the binary search for a text in a sorted list, character by character. A text
-- is the list of the characters of its casefolded form, which the source takes to be as many as those
-- of the text itself, and `text` gives the text of a list item, if there is one.
pub mod Steps
pub mod Narrows
pub mod TopMost
use Prim.Native.Nat.{◌/◌}
use drcpd.Common.{
  ℕ, zero, suc, ◌+◌, ◌-◌, Bool, true, false, not, ◌&&◌, ◌||◌, Option, none, some, List, [], ◌∷◌,
  ltb, leb, ◌==◌, if◌then◌else◌, length, get_elem?, add32, sub32, u32_max,
}

pub data Result : Type 0 where
  internal_failure searching checking_boundary found_match found_approximate : Result

pub record Partition : Type 0 where
  pub top_ : ℕ
  pub bottom_ : ℕ
  pub center_ : ℕ

unfoldable pub is_unique : Partition → Bool
is_unique p = p.top_ == p.bottom_

unfoldable pub is_empty_partition : Partition → Bool
is_empty_partition p = ltb p.bottom_ p.top_

unfoldable pub size : Partition → ℕ
size p = add32 (sub32 p.bottom_ p.top_) 1

unfoldable pub compute_center : Partition → ℕ
compute_center p = add32 p.top_ (sub32 p.bottom_ p.top_ / 2)

unfoldable pub update_center : Partition → Partition × Result
unfolding is_unique compute_center
update_center p =
    if not (is_unique p)
    then (record p { center_ = compute_center p }, searching)
    else (record p { center_ = p.top_ }, checking_boundary)

unfoldable pub pick_top_half : Partition → ℕ → Partition × Result
unfolding update_center
pick_top_half p sub = update_center (record p { bottom_ = sub32 p.center_ sub })

unfoldable pub pick_bottom_half : Partition → ℕ → Partition × Result
unfolding update_center
pick_bottom_half p add = update_center (record p { top_ = add32 p.center_ add })

unfoldable pub lock_at_center : Partition → Partition
lock_at_center p = record p { top_ = p.center_; bottom_ = p.center_ }

pub record BSearchState : Type 0 where
  pub upper_ : Partition
  pub lower_ : Partition
  pub all_top_ : ℕ
  pub all_bottom_ : ℕ
  pub bottom_candidate_ : ℕ
  pub utf8_key_ : ℕ
  pub depth_ : ℕ

-- What a step or a search comes to: a state and a result, a failed assertion, the exception for an
-- unsorted list, or, for a search, no end within the number of rounds that are allowed.
pub data Outcome : Type 0 where
  ends : BSearchState → Result → Outcome
  assertion unsorted no_end : Outcome

-- The largest `size_t`, which is what -1 becomes.
abbrev pub size_max : ℕ
size_max = 18446744073709551615

unfoldable pub next_depth : ℕ → ℕ
next_depth depth = if depth == size_max then 0 else depth + 1

unfoldable pub construct : ℕ → BSearchState
construct elements =
    let empty : Partition = record { top_ = u32_max; bottom_ = 0; center_ = 0 } in
    record {
      upper_ = empty;
      lower_ = empty;
      all_top_ = if ltb 0 elements then 0 else u32_max;
      all_bottom_ = if ltb 0 elements then elements - 1 else 0;
      bottom_candidate_ = u32_max;
      utf8_key_ = 0;
      depth_ = size_max;
    }

unfoldable pub prepare_next_iteration : BSearchState → ℕ → BSearchState
unfolding compute_center next_depth
prepare_next_iteration s utf8_char =
    let p : Partition = record { top_ = s.all_top_; bottom_ = s.all_bottom_; center_ = 0 } in
    let p' = record p { center_ = compute_center p } in
    record s {
      upper_ = p';
      lower_ = p';
      bottom_candidate_ = u32_max;
      utf8_key_ = utf8_char;
      depth_ = next_depth s.depth_;
    }

unfoldable pub get_result : BSearchState → Option ℕ
unfolding is_empty_partition
get_result s = if is_empty_partition s.upper_ then none else some s.upper_.top_

unfoldable pub prepare_for_next_character : BSearchState → BSearchState
prepare_for_next_character s = record s { all_top_ = s.upper_.top_; all_bottom_ = s.lower_.bottom_ }

unfoldable pub part : Bool → BSearchState → Partition
part true s = s.upper_
part false s = s.lower_

unfoldable pub with_part : Bool → BSearchState → Partition → BSearchState
with_part true s p = record s { upper_ = p }
with_part false s p = record s { lower_ = p }

unfoldable pub is_utf8_character_greater : Bool → ℕ → ℕ → Bool
is_utf8_character_greater true key ch = leb key ch
is_utf8_character_greater false key ch = ltb key ch

unfoldable pub picked : Bool → BSearchState → Partition × Result → Outcome
unfolding with_part
picked want_top s (p, result) = ends (with_part want_top s p) result

-- The search for the upper boundary narrows the other partition, too.
unfoldable pub narrow_lower : BSearchState → ℕ → ℕ → BSearchState
unfolding pick_top_half pick_bottom_half
narrow_lower s center ch =
    if leb ch s.utf8_key_
    then (if ltb s.lower_.top_ center
        then record s { lower_ = (pick_bottom_half s.lower_ 0).0 }
        else s)
    else if ltb center s.lower_.bottom_
    then record s { lower_ = (pick_top_half s.lower_ 0).0 }
    else s

-- Two items are left.
unfoldable pub small_step : Bool → BSearchState → Partition → ℕ → Outcome
unfolding with_part lock_at_center
small_step want_top s p ch =
    let locked = with_part want_top s (lock_at_center p) in
    let down = record p { center_ = p.center_ + 1 } in
    if s.utf8_key_ == ch
    then (if want_top || leb p.bottom_ p.center_
        then ends locked found_match
        else ends (with_part want_top (record s { bottom_candidate_ = p.center_ }) down) searching)
    else if ltb ch s.utf8_key_
    then (if ltb p.center_ p.bottom_
        then ends (with_part want_top s down) searching
        else ends locked checking_boundary)
    else if want_top
    then ends locked found_approximate
    else if not (s.bottom_candidate_ == u32_max)
    then ends (with_part want_top s (lock_at_center (record p { center_ = s.bottom_candidate_ })))
        found_match
    else unsorted

unfoldable pub large_step : Bool → BSearchState → Partition → ℕ → Outcome
unfolding narrow_lower is_utf8_character_greater picked pick_top_half pick_bottom_half
large_step want_top s p ch =
    let s' = if want_top then narrow_lower s p.center_ ch else s in
    if is_utf8_character_greater want_top s.utf8_key_ ch
    then picked want_top s' (pick_top_half p 0)
    else picked want_top
        (if want_top && ltb s.utf8_key_ ch
          then record s' { lower_ = record s'.lower_ { top_ = p.center_ } }
          else s')
        (pick_bottom_half p 0)

unfoldable pub bsearch_boundary : Bool → BSearchState → List ℕ → Outcome
unfolding part is_empty_partition is_unique size picked small_step large_step pick_top_half
bsearch_boundary want_top s center_string =
    let p = part want_top s in
    if is_empty_partition p
    then assertion
    else if ltb (length center_string) s.depth_
    then picked want_top s (pick_top_half p 0)
    else elim (get_elem? center_string s.depth_) [
      | none ↦ assertion
      | some ch ↦
          if is_unique p
          then ends s (if s.utf8_key_ == ch then found_match else found_approximate)
          else if size p == 2
          then small_step want_top s p ch
          else large_step want_top s p ch
    ]

unfoldable pub goes_on : Result → Bool
goes_on internal_failure = false
goes_on searching = true
goes_on checking_boundary = true
goes_on found_match = false
goes_on found_approximate = false

-- The loops of `bsearch_top_most` and `bsearch_bottom_most`, on fuel.
unfoldable pub search_boundary : Bool → ℕ → (ℕ → Option (List ℕ)) → BSearchState → Outcome
unfolding bsearch_boundary part goes_on
search_boundary want_top zero text s = no_end
search_boundary want_top (suc rounds) text s = elim (text (part want_top s).center_) [
  | none ↦ ends s internal_failure
  | some center_string ↦ elim (bsearch_boundary want_top s center_string) [
    | ends s' result ↦ elim (goes_on result) [
      | true ↦ search_boundary want_top rounds text s'
      | false ↦ ends s' result
    ]
    | assertion ↦ assertion
    | unsorted ↦ unsorted
    | no_end ↦ no_end
  ]
]

-- Three rounds more than the partition has items.
unfoldable pub rounds_for : Partition → ℕ
rounds_for p = p.bottom_ - p.top_ + 4

unfoldable pub bsearch_top_most : (ℕ → Option (List ℕ)) → BSearchState → Outcome
unfolding rounds_for
bsearch_top_most text s = search_boundary true (rounds_for s.upper_) text s

unfoldable pub no_approximation : Outcome → Outcome
no_approximation (ends s internal_failure) = ends s internal_failure
no_approximation (ends s searching) = ends s searching
no_approximation (ends s checking_boundary) = ends s checking_boundary
no_approximation (ends s found_match) = ends s found_match
no_approximation (ends s found_approximate) = ends s internal_failure
no_approximation assertion = assertion
no_approximation unsorted = unsorted
no_approximation no_end = no_end

unfoldable pub bsearch_bottom_most : (ℕ → Option (List ℕ)) → BSearchState → Outcome
unfolding rounds_for no_approximation
bsearch_bottom_most text s = no_approximation (search_boundary false (rounds_for s.lower_) text s)

unfoldable pub is_nil : List ℕ → Bool
is_nil [] = true
is_nil (x ∷ xs) = false

-- What the search for a text comes to: the item's position or -1, a failed assertion, an exception,
-- or no end.
pub data Answer : Type 0 where
  position : Option ℕ → Answer
  asserts throws runs_on : Answer

-- The loop over the characters of the query; `s` is the state after the last character before them.
unfoldable pub search_characters : (ℕ → Option (List ℕ)) → BSearchState → List ℕ → Answer
unfolding bsearch_top_most bsearch_bottom_most prepare_next_iteration prepare_for_next_character
    get_result
search_characters text s [] = position (get_result s)
search_characters text s (c ∷ cs) = elim (bsearch_top_most text (prepare_next_iteration s c)) [
  | ends s' internal_failure ↦ position none
  | ends s' searching ↦ asserts
  | ends s' checking_boundary ↦ asserts
  | ends s' found_approximate ↦ position (get_result s')
  | ends s' found_match ↦
      if is_nil cs then position (get_result s') else elim (bsearch_bottom_most text s') [
        | ends s'' internal_failure ↦ position none
        | ends s'' searching ↦ asserts
        | ends s'' checking_boundary ↦ asserts
        | ends s'' found_approximate ↦ asserts
        | ends s'' found_match ↦ search_characters text (prepare_for_next_character s'') cs
        | assertion ↦ asserts
        | unsorted ↦ throws
        | no_end ↦ runs_on
      ]
  | assertion ↦ asserts
  | unsorted ↦ throws
  | no_end ↦ runs_on
]

-- `elements` is the number of list items.
unfoldable pub binary_search_utf8 : (ℕ → Option (List ℕ)) → ℕ → List ℕ → Answer
unfolding search_characters construct
binary_search_utf8 text elements query =
    if is_nil query || (elements == 0)
    then position none
    else search_characters text (construct elements) query
