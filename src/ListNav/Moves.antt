-- ===== src/ListNav/Moves.antt =====
-- src/listnav.hh: moving the cursor by lines, with the wrap at the ends of the list.
use Prim.Native.Nat.{min}
use drcpd.Common.{
  ℕ, zero, suc, ◌+◌, ◌-◌, ◌/◌, Bool, true, false, not, ◌&&◌, ◌||◌, Option, none, some, ltb, leb,
  ◌==◌, if◌then◌else◌, add32, sub32, u32_max, ◌>>=◌,
}
use drcpd.ListNav.{
  NavItemFilter, Nav, WrapMode, wraps_to_top, wraps_to_bottom, is_selectable,
  recover_cursor_and_selection, recover_first_displayed_item_by_cursor, step_forward_selection,
  step_back_selection,
}

abbrev pub int_max : ℕ
int_max = 2147483647

unfoldable pub construct : NavItemFilter → ℕ → WrapMode → Option Nav
construct f max_display_lines initial_wrap_mode = recover_cursor_and_selection f (record {
  cursor_ = 0;
  first_displayed_item_ = 0;
  selected_line_number_ = 0;
  wrap_mode_ = initial_wrap_mode;
  maximum_number_of_displayed_lines_ = max_display_lines;
})

unfoldable pub copy_state_from : Nav → Nav → Nav
copy_state_from nav src = record nav {
  cursor_ = src.cursor_;
  first_displayed_item_ = src.first_displayed_item_;
  selected_line_number_ = src.selected_line_number_;
  wrap_mode_ = src.wrap_mode_;
}

pub data Fixup : Type 0 where
  fixup : (wrapped : Bool) (count : ℕ) → Fixup

-- The line at which the cursor is shown when the display is centred around it.
unfoldable pub centered_line : ℕ → ℕ → ℕ → ℕ
centered_line displayed max_items line_number =
    let center = (displayed + 1) / 2 - 1 in
    let distance_to_end_of_list = sub32 (sub32 max_items line_number) 1 in
    if ltb max_items displayed
    then line_number
    else if ltb distance_to_end_of_list (sub32 displayed center)
    then sub32 (sub32 displayed distance_to_end_of_list) 1
    else center

-- The three assertions of `set_cursor_by_line_number`. If one of them fails, the program ends.
unfoldable pub holds_line : ℕ → ℕ → ℕ → Bool
unfolding centered_line
holds_line displayed max_items line_number =
    ltb 0 displayed
    && (ltb line_number max_items && ltb (centered_line displayed max_items line_number) displayed)

unfoldable pub is_some_selectable : NavItemFilter → Option ℕ → Bool
is_some_selectable f none = false
is_some_selectable f (some item) = f.is_selectable (f.get_flags_for_item item)

-- The item is written to the cursor even when it is not selectable.
unfoldable pub written : Option ℕ → ℕ → ℕ
written none cursor = cursor
written (some item) cursor = item

module _ (f : NavItemFilter) where
  unfoldable pub check_selection : Nav → Option Nav
  check_selection nav =
      if is_selectable f nav.cursor_ then some nav else recover_cursor_and_selection f nav

  unfoldable pub distance_to_top : Nav → ℕ
  distance_to_top nav =
      if ltb 0 f.get_total_number_of_visible_items then nav.selected_line_number_ else 0

  unfoldable pub distance_to_bottom : Nav → ℕ
  distance_to_bottom nav =
      let max_items = f.get_total_number_of_visible_items in
      if ltb 0 max_items
      then sub32
          (sub32 (min nav.maximum_number_of_displayed_lines_ max_items) nav.selected_line_number_) 1
      else 0

  unfoldable pub get_line_number_by_item : ℕ → Option ℕ
  get_line_number_by_item item =
      f.map_item_to_line_number item >>= λ line. if leb line int_max then some line else none

  unfoldable pub set_cursor_by_line_number : Nav → ℕ → Option Nav
  unfolding is_some_selectable written holds_line
  set_cursor_by_line_number nav line_number =
      let item = f.map_line_number_to_item line_number in
      if line_number == 0
      then recover_cursor_and_selection f nav
      else if not (is_some_selectable f item)
      then recover_cursor_and_selection f (record nav { cursor_ = written item nav.cursor_ })
      else if not (
          holds_line nav.maximum_number_of_displayed_lines_ f.get_total_number_of_visible_items
            line_number)
      then none
      else recover_first_displayed_item_by_cursor f (record nav {
        cursor_ = written item nav.cursor_;
        selected_line_number_ =
            centered_line nav.maximum_number_of_displayed_lines_ f.get_total_number_of_visible_items
              line_number;
      })

  unfoldable pub fixup_down : WrapMode → Option ℕ → ℕ → Fixup
  unfolding wraps_to_top
  fixup_down mode none count = fixup false 0
  fixup_down mode (some current_line) count =
      let visible_items = f.get_total_number_of_visible_items in
      if visible_items == 0
      then fixup false 0
      else if ltb (sub32 u32_max current_line) count || leb visible_items (add32 current_line count)
      then (if wraps_to_top mode && leb (sub32 visible_items current_line) 1
          then fixup true visible_items
          else fixup false (sub32 (sub32 visible_items current_line) 1))
      else fixup false count

  unfoldable pub fixup_up : WrapMode → Option ℕ → ℕ → Fixup
  unfolding wraps_to_bottom
  fixup_up mode none count = fixup false 0
  fixup_up mode (some current_line) count =
      let visible_items = f.get_total_number_of_visible_items in
      if visible_items == 0
      then fixup false 0
      else if ltb current_line count
      then (if wraps_to_bottom mode && leb current_line 1
          then fixup true visible_items
          else fixup false current_line)
      else fixup false count

  unfoldable pub fixup_down_count_by_wrap_mode : Nav → ℕ → Option (Nav × Fixup)
  fixup_down_count_by_wrap_mode nav count =
      if count == 0
      then some (nav, fixup false 0)
      else (check_selection nav >>= λ nav'.
          some (nav', fixup_down nav'.wrap_mode_ (get_line_number_by_item nav'.cursor_) count))

  unfoldable pub fixup_up_count_by_wrap_mode : Nav → ℕ → Option (Nav × Fixup)
  fixup_up_count_by_wrap_mode nav count =
      if count == 0
      then some (nav, fixup false 0)
      else (check_selection nav >>= λ nav'.
          some (nav', fixup_up nav'.wrap_mode_ (get_line_number_by_item nav'.cursor_) count))

  unfoldable pub down_lines : ℕ → Nav → Option Nav
  down_lines zero nav = some nav
  down_lines (suc count) nav = elim (ltb nav.cursor_ f.get_last_selectable_item) [
    | true ↦ step_forward_selection f nav.cursor_ >>= λ cursor. down_lines count (record nav {
      cursor_ = cursor;
      selected_line_number_ =
          if ltb nav.selected_line_number_ (sub32 nav.maximum_number_of_displayed_lines_ 1)
          then add32 nav.selected_line_number_ 1
          else nav.selected_line_number_;
    })
    | false ↦ some nav
  ]

  unfoldable pub up_lines : ℕ → Nav → Option Nav
  up_lines zero nav = some nav
  up_lines (suc count) nav = elim (ltb f.get_first_selectable_item nav.cursor_) [
    | true ↦ step_back_selection f nav.cursor_ >>= λ cursor.
        up_lines count
          (record nav { cursor_ = cursor; selected_line_number_ = nav.selected_line_number_ - 1 })
    | false ↦ some nav
  ]

  unfoldable pub at_last : Nav → Nav
  at_last nav =
      if nav.cursor_ == f.get_last_selectable_item
      then record nav {
        selected_line_number_ =
            sub32 nav.selected_line_number_
              (sub32 f.get_last_visible_item f.get_last_selectable_item);
      }
      else nav

  unfoldable pub at_first : Nav → Nav
  at_first nav =
      if nav.cursor_ == f.get_first_selectable_item
      then record nav {
        selected_line_number_ =
            add32 nav.selected_line_number_
              (sub32 f.get_first_selectable_item f.get_first_visible_item);
      }
      else nav

  unfoldable pub move_down : Nav → Fixup → Option (Nav × Bool)
  move_down nav (fixup true count) =
      set_cursor_by_line_number nav 0 >>= λ nav'. some (nav', ltb 1 count)
  move_down nav (fixup false count) =
      if count == 0 && not f.ensure_consistency
      then some (nav, false)
      else (check_selection nav >>= down_lines count >>= λ nav'.
          recover_first_displayed_item_by_cursor f (at_last nav') >>= λ nav''. some (nav'', true))

  unfoldable pub move_up : Nav → Fixup → Option (Nav × Bool)
  move_up nav (fixup true count) =
      (if ltb 0 count then set_cursor_by_line_number nav (count - 1) else some nav) >>= λ nav'.
      some (nav', ltb 1 count)
  move_up nav (fixup false count) =
      if count == 0 && not f.ensure_consistency
      then some (nav, false)
      else (check_selection nav >>= λ nav'.
          if leb nav'.cursor_ f.get_first_selectable_item
          then some (nav', false)
          else (up_lines count nav' >>= λ nav''.
              recover_first_displayed_item_by_cursor f (at_first nav'') >>= λ nav'''.
              some (nav''', true)))

  unfoldable pub down : Nav → ℕ → Option (Nav × Bool)
  down nav count = fixup_down_count_by_wrap_mode nav count >>= λ p. move_down p.0 p.1

  unfoldable pub up : Nav → ℕ → Option (Nav × Bool)
  up nav count = fixup_up_count_by_wrap_mode nav count >>= λ p. move_up p.0 p.1
