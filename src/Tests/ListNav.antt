-- ===== src/Tests/ListNav.antt =====
-- Browsing a list (src/listnav.hh) of seven items at concrete inputs.
use drcpd.Common.{
  ℕ, ◌≡◌, ◌≢◌, ◌↔◌, Bool, true, false, some, List, [], ◌∷◌, get_elem?, refl, arith, inl, inr, ◌>>=◌,
}
use drcpd.ListNav.{Nav, full_wrap}
use drcpd.ListNav.Moves.{construct, set_cursor_by_line_number, down, up, distance_to_top}
use drcpd.ListNav.Lines.{displayed_items}
use drcpd.ListNav.Laws.{filter_of, IsPlaced}
use drcpd.ListNav.Cursor.{center, down_target, up_target}
use drcpd.ListNav.Walk.{down_lem, up_lem, set_cursor_near_top}
use drcpd.ListNav.Browse.{moves_down, moves_up, goes_to, browse, browse_shows_cursor, IsPlain}
use drcpd.ListNav.Terminates.{Spot}
use drcpd.ListNav.Returns.{moves_return, filter_of-IsLawful}

-- The display of seven items in four lines, with the last item selected.
abbrev at_end : Nav
at_end = record {
  cursor_ = 6;
  first_displayed_item_ = 3;
  selected_line_number_ = 3;
  wrap_mode_ = full_wrap;
  maximum_number_of_displayed_lines_ = 4;
}

abbrev at_second : Nav
at_second = record {
  cursor_ = 1;
  first_displayed_item_ = 0;
  selected_line_number_ = 1;
  wrap_mode_ = full_wrap;
  maximum_number_of_displayed_lines_ = 4;
}

at_end-IsPlaced : IsPlaced 7 at_end
at_end-IsPlaced = record {
  within = omega arith;
  on_display = omega arith;
  shown = refl;
  filled = inr (omega arith);
}

at_second-IsPlaced : IsPlaced 7 at_second
at_second-IsPlaced = record {
  within = omega arith;
  on_display = omega arith;
  shown = refl;
  filled = inl refl;
}

-- From the last line of the list, the cursor wraps to the top.
down_lem_example :
    (nav' : Nav) × (moved : Bool) × (down (filter_of 7) at_end 2 ≡ some (nav', moved))
    × IsPlaced 7 nav'
    × (nav'.cursor_ ≡ down_target full_wrap 7 6 2)
    × ((moved ≡ true) ↔ (nav'.cursor_ ≢ 6))
    × (nav'.maximum_number_of_displayed_lines_ ≡ 4)
down_lem_example = down_lem 6 at_end 2 (omega arith) (omega arith) (omega arith) at_end-IsPlaced

-- From the second line, the cursor wraps to the bottom when it is to go up by two.
up_lem_example :
    (nav' : Nav) × (moved : Bool) × (up (filter_of 7) at_second 2 ≡ some (nav', moved))
    × IsPlaced 7 nav'
    × (nav'.cursor_ ≡ up_target full_wrap 7 1 2)
    × ((moved ≡ false) → nav' ≡ at_second)
    × (nav'.maximum_number_of_displayed_lines_ ≡ 4)
up_lem_example = up_lem 6 at_second 2 (omega arith) (omega arith) (omega arith) at_second-IsPlaced

-- Five lines, the middle one is line 2.
abbrev wide : Nav
wide = record at_second { maximum_number_of_displayed_lines_ = 5 }

set_cursor_near_top_example :
    (nav' : Nav) × (set_cursor_by_line_number (filter_of 7) wide 1 ≡ some nav')
    × (nav'.cursor_ ≡ 1)
    × (nav'.first_displayed_item_ ≡ 0)
    × (nav'.selected_line_number_ ≡ center wide)
set_cursor_near_top_example =
    set_cursor_near_top 6 wide 1 (omega arith) (omega arith) (omega arith) (omega arith)

browse_shows_cursor_example :
    (nav : Nav) × (items : List ℕ) × ((construct (filter_of 7) 4 full_wrap
        >>= browse (moves_down 3 ∷ goes_to 5 ∷ moves_up 2 ∷ []) 6)
      ≡ some nav)
    × (displayed_items (filter_of 7) nav ≡ some items)
    × (get_elem? items (distance_to_top (filter_of 7) nav) ≡ some nav.cursor_)
unfolding IsPlain
browse_shows_cursor_example =
    browse_shows_cursor (moves_down 3 ∷ goes_to 5 ∷ moves_up 2 ∷ []) 6 4 full_wrap (omega arith)
      (omega arith) (omega arith) (omega arith, (inl (omega arith), (omega arith, tt)))

moves_return_example :
    ((r : Nav × Bool) × (down (filter_of 7) at_end 3 ≡ some r))
    × ((r : Nav × Bool) × (up (filter_of 7) at_end 3 ≡ some r))
    × ((nav' : Nav) × (set_cursor_by_line_number (filter_of 7) at_end 3 ≡ some nav')
        × Spot (filter_of 7) nav'.cursor_)
moves_return_example =
    moves_return (filter_of 7) at_end 3 (filter_of-IsLawful 6 (omega arith)) (omega arith)
      (omega arith) (omega arith)
