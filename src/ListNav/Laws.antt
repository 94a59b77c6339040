-- ===== src/ListNav/Laws.antt =====
-- What moving the cursor does in a list of which no item is hidden.
use Prim.Native.Nat.{min}
use drcpd.Common.{
  ℕ, zero, suc, ◌+◌, ◌-◌, ◌≤◌, ◌<◌, ◌≡◌, ◌⊎◌, Bool, true, false, not, ◌&&◌, none, some, ltb, leb,
  ◌==◌, if◌then◌else◌, add32, sub32, u32_mod, arith, refl, subst,
}
use drcpd.ListNav.{
  NavItemFilter, no_filter, list_content_changed, size_of, Nav, WrapMode, wraps_to_top,
  wraps_to_bottom, is_selectable, is_visible, recover_cursor_and_selection,
  recover_first_displayed_item_by_cursor, step_forward_selection, step_back_selection,
  step_back_visible, step_forward, step_back, display_from, count_lines,
}
use drcpd.ListNav.Moves.{
  check_selection, down_lines, up_lines, fixup_down, fixup_up, Fixup, fixup, int_max,
  get_line_number_by_item, fixup_down_count_by_wrap_mode, fixup_up_count_by_wrap_mode,
}

-- The filter that hides nothing, of a list of `n` items.
unfoldable pub filter_of : ℕ → NavItemFilter
unfolding no_filter list_content_changed size_of
filter_of n =
    no_filter (λ list. n)
      (list_content_changed (λ list. n)
        (record {
          list_ = some 0;
          viewport_ = some 0;
          number_of_items_minus_1_ = 0;
          contains_items_ = false;
        }))

pub is_visible_all : (m i : ℕ) → is_visible (filter_of (suc m)) i ≡ true
unfolding is_visible filter_of
is_visible_all m i = ground arith

pub is_selectable_all : (m i : ℕ) → is_selectable (filter_of (suc m)) i ≡ true
unfolding is_selectable filter_of
is_selectable_all m i = ground arith

pub selects_all :
    (m i : ℕ) → (filter_of (suc m)).is_selectable ((filter_of (suc m)).get_flags_for_item i) ≡ true
unfolding filter_of
selects_all m i = ground arith

pub consistent_all : (m : ℕ) → (filter_of (suc m)).ensure_consistency ≡ false
unfolding filter_of
consistent_all m = refl

pub nonempty_all : (m : ℕ) → (filter_of (suc m)).is_list_nonempty ≡ true
unfolding filter_of
nonempty_all m = ground arith

pub last_all : (m : ℕ) → (filter_of (suc m)).get_last_selectable_item ≡ m
unfolding filter_of
last_all m = ground arith

pub last_visible_all : (m : ℕ) → (filter_of (suc m)).get_last_visible_item ≡ m
unfolding filter_of
last_visible_all m = ground arith

pub total_all :
    (m : ℕ) → suc m < u32_mod → (filter_of (suc m)).get_total_number_of_visible_items ≡ suc m
unfolding filter_of
total_all m h = ground arith

pub mapped_all : (m i : ℕ) → i ≤ m → (filter_of (suc m)).map_line_number_to_item i ≡ some i
unfolding filter_of
mapped_all m i h = ground arith

pub unmapped_all : (m i : ℕ) → m < i → (filter_of (suc m)).map_line_number_to_item i ≡ none
unfolding filter_of
unmapped_all m i h = ground arith

pub line_number_all :
    (m i : ℕ) → m ≤ int_max → i ≤ m → get_line_number_by_item (filter_of (suc m)) i ≡ some i
unfolding filter_of get_line_number_by_item
line_number_all m i hm h = ground arith

pub no_line_number_all : (m i : ℕ) → m < i → get_line_number_by_item (filter_of (suc m)) i ≡ none
unfolding filter_of get_line_number_by_item
no_line_number_all m i h = ground arith

pub step_forward_once :
    (p : ℕ → Bool) (k i : ℕ)
    → 0 < k
    → suc i < u32_mod
    → p (suc i) ≡ true
    → step_forward p k i ≡ some (suc i)
unfolding step_forward
step_forward_once p zero i hk h e = absurd (omega arith)
step_forward_once p (suc k) i hk h e = let s : add32 i 1 ≡ suc i = omega arith in ground arith

pub step_back_once :
    (p : ℕ → Bool) (k i : ℕ) → 0 < k → suc i < u32_mod → p i ≡ true → step_back p k (suc i) ≡ some i
unfolding step_back
step_back_once p zero i hk h e = absurd (omega arith)
step_back_once p (suc k) i hk h e = let s : sub32 (suc i) 1 ≡ i = omega arith in ground arith

pub first_visible_all : (m : ℕ) → (filter_of (suc m)).get_first_visible_item ≡ 0
unfolding filter_of
first_visible_all m = refl

pub first_all : (m : ℕ) → (filter_of (suc m)).get_first_selectable_item ≡ 0
unfolding filter_of
first_all m = refl

step_back_visible_all :
    (m c : ℕ) → suc c < u32_mod → step_back_visible (filter_of (suc m)) (suc c) ≡ some c
unfolding step_back_visible
step_back_visible_all m c h =
    step_back_once _ _ c (omega (arith, first_visible_all m)) h (is_visible_all m c)

step_back_selection_all :
    (m c : ℕ) → suc c < u32_mod → step_back_selection (filter_of (suc m)) (suc c) ≡ some c
unfolding step_back_selection
step_back_selection_all m c h =
    step_back_once _ _ c (omega (arith, first_all m)) h (is_selectable_all m c)

step_forward_selection_all :
    (m c : ℕ) → c < m → m < u32_mod → step_forward_selection (filter_of (suc m)) c ≡ some (suc c)
unfolding step_forward_selection
step_forward_selection_all m c h hm =
    step_forward_once _ _ c (omega (arith, last_all m)) (omega arith) (is_selectable_all m (suc c))

pub display_from_all :
    (m k c : ℕ) → c < u32_mod → display_from (filter_of (suc m)) k c ≡ some (c - k)
unfolding display_from
display_from_all m zero c h = ground arith
display_from_all m (suc k) zero h = let z = first_visible_all m in ground arith
display_from_all m (suc k) (suc c) h =
    let z = first_visible_all m in
    let s = step_back_visible_all m c h in
    let r = display_from_all m k c (omega arith) in ground arith

pub recover_first_all :
    (m : ℕ) (nav : Nav)
    → nav.cursor_ < u32_mod
    → recover_first_displayed_item_by_cursor (filter_of (suc m)) nav
      ≡ some (record nav { first_displayed_item_ = nav.cursor_ - nav.selected_line_number_ })
unfolding recover_first_displayed_item_by_cursor
recover_first_all m nav h = rw (display_from_all m nav.selected_line_number_ nav.cursor_ h) refl

count_lines_all : (m k : ℕ) → count_lines (filter_of (suc m)) k 0 0 0 ≡ some 0
unfolding count_lines
count_lines_all m zero = refl
count_lines_all m (suc k) = refl

pub recover_cursor_all :
    (m : ℕ) (nav : Nav)
    → recover_cursor_and_selection (filter_of (suc m)) nav
      ≡ some (record nav { cursor_ = 0; first_displayed_item_ = 0; selected_line_number_ = 0 })
unfolding recover_cursor_and_selection
recover_cursor_all m nav =
    let e = nonempty_all m in
    let s = first_all m in
    let v = first_visible_all m in
    let l = count_lines_all m nav.maximum_number_of_displayed_lines_ in
    let r =
      recover_first_all m (record nav { cursor_ = 0; selected_line_number_ = 0 }) (omega arith) in
    ground arith

pub check_selection_all : (m : ℕ) (nav : Nav) → check_selection (filter_of (suc m)) nav ≡ some nav
unfolding check_selection
check_selection_all m nav = let s = is_selectable_all m nav.cursor_ in ground arith

-- The cursor is at the selected one of the displayed lines, and the display does not go beyond the
-- end of a list that is long enough to fill it.
pub record IsPlaced (n : ℕ) (nav : Nav) : Type 0 where
  pub within : nav.cursor_ < n
  pub on_display : nav.selected_line_number_ < nav.maximum_number_of_displayed_lines_
  pub shown : nav.first_displayed_item_ + nav.selected_line_number_ ≡ nav.cursor_
  pub filled :
      (nav.first_displayed_item_ ≡ 0)
      ⊎ (nav.first_displayed_item_ + nav.maximum_number_of_displayed_lines_ ≤ n)

-- Where `down` takes the cursor, and whether it says that it has moved.
unfoldable pub down_fixup : WrapMode → ℕ → ℕ → ℕ → Fixup
unfolding wraps_to_top
down_fixup mode m c count =
    if ltb m (c + count)
    then (if wraps_to_top mode && (c == m) && not (count == 0)
        then fixup true (suc m)
        else fixup false (m - c))
    else fixup false count

unfoldable pub up_fixup : WrapMode → ℕ → ℕ → ℕ → Fixup
unfolding wraps_to_bottom
up_fixup mode m c count =
    if ltb c count
    then (if wraps_to_bottom mode && leb c 1 then fixup true (suc m) else fixup false c)
    else fixup false count

pub fixup_down_all :
    (m : ℕ) (nav : Nav) (count : ℕ)
    → m ≤ int_max
    → nav.cursor_ ≤ m
    → count < u32_mod
    → fixup_down_count_by_wrap_mode (filter_of (suc m)) nav count
      ≡ some (nav, down_fixup nav.wrap_mode_ m nav.cursor_ count)
unfolding fixup_down_count_by_wrap_mode fixup_down down_fixup
fixup_down_all m nav count hm hc h =
    let s = check_selection_all m nav in
    let l = line_number_all m nav.cursor_ hm hc in let t = total_all m (omega arith) in ground arith

pub fixup_up_all :
    (m : ℕ) (nav : Nav) (count : ℕ)
    → m ≤ int_max
    → nav.cursor_ ≤ m
    → count < u32_mod
    → fixup_up_count_by_wrap_mode (filter_of (suc m)) nav count
      ≡ some (nav, up_fixup nav.wrap_mode_ m nav.cursor_ count)
unfolding fixup_up_count_by_wrap_mode fixup_up up_fixup
fixup_up_all m nav count hm hc h =
    let s = check_selection_all m nav in
    let l = line_number_all m nav.cursor_ hm hc in let t = total_all m (omega arith) in ground arith

-- The cursor `k` lines further down, or up.
unfoldable pub lower : ℕ → Nav → Nav
lower k nav = record nav {
  cursor_ = nav.cursor_ + k;
  selected_line_number_ =
      min (nav.selected_line_number_ + k) (nav.maximum_number_of_displayed_lines_ - 1);
}

unfoldable pub higher : ℕ → Nav → Nav
higher k nav = record nav {
  cursor_ = nav.cursor_ - k;
  selected_line_number_ = nav.selected_line_number_ - k;
}

pub down_lines_all :
    (m k : ℕ) (nav : Nav)
    → m ≤ int_max
    → nav.cursor_ + k ≤ m
    → nav.selected_line_number_ < nav.maximum_number_of_displayed_lines_
    → nav.maximum_number_of_displayed_lines_ < u32_mod
    → down_lines (filter_of (suc m)) k nav ≡ some (lower k nav)
unfolding down_lines lower
down_lines_all m zero nav hm h hs hd = ground arith
down_lines_all m (suc k) nav hm h hs hd =
    let l = last_all m in
    let s = step_forward_selection_all m nav.cursor_ (omega arith) (omega arith) in
    let r = down_lines_all m k (lower 1 nav) hm (omega arith) (omega arith) hd in ground arith

pub up_lines_all :
    (m k : ℕ) (nav : Nav)
    → m ≤ int_max
    → nav.cursor_ ≤ m
    → k ≤ nav.cursor_
    → up_lines (filter_of (suc m)) k nav ≡ some (higher k nav)
unfolding up_lines higher
up_lines_all m zero nav hm hc h = ground arith
up_lines_all m (suc k) nav hm hc h =
    let l = first_all m in
    let c : suc (nav.cursor_ - 1) ≡ nav.cursor_ = omega arith in
    let s : step_back_selection (filter_of (suc m)) nav.cursor_ ≡ some (nav.cursor_ - 1) =
      subst (λ (i : ℕ). step_back_selection (filter_of (suc m)) i ≡ some (nav.cursor_ - 1)) c
        (step_back_selection_all m (nav.cursor_ - 1) (omega arith)) in
    let r = up_lines_all m k (higher 1 nav) hm (omega arith) (omega arith) in ground arith
