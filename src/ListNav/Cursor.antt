-- ===== src/ListNav/Cursor.antt =====
-- What the cases of moving the cursor come to in a list of which no item is hidden.
use drcpd.Common.{
  ℕ, zero, suc, ◌+◌, ◌-◌, ◌/◌, ◌≤◌, ◌<◌, ◌≡◌, ◌⊎◌, inl, inr, true, false, ◌&&◌, some, ltb, leb,
  ◌==◌, if◌then◌else◌, u32_mod, arith, refl, Bool-cases, dec_le, ℕ_discrete,
}
use drcpd.ListNav.{Nav, WrapMode, wraps_to_top, wraps_to_bottom}
use drcpd.ListNav.Moves.{
  set_cursor_by_line_number, centered_line, holds_line, fixup, move_down, move_up,
  is_some_selectable, written, int_max, at_last, at_first,
}
use drcpd.ListNav.Laws.{
  filter_of, IsPlaced, lower, higher, down_fixup, up_fixup, recover_cursor_all, recover_first_all,
  check_selection_all, down_lines_all, up_lines_all, total_all, mapped_all, unmapped_all, last_all,
  last_visible_all, first_all, first_visible_all, selects_all, consistent_all,
}

abbrev pub center : Nav → ℕ
center nav = (nav.maximum_number_of_displayed_lines_ + 1) / 2 - 1

-- The line where `set_cursor_by_line_number` displays the cursor.
unfoldable pub line_of : ℕ → Nav → ℕ → ℕ
line_of m nav line =
    let displayed = nav.maximum_number_of_displayed_lines_ in
    if ltb (suc m) displayed
    then line
    else if ltb (m - line) (displayed - center nav)
    then displayed - (m - line) - 1
    else center nav

unfoldable pub jump : ℕ → Nav → ℕ → Nav
unfolding line_of
jump m nav line = record nav {
  cursor_ = line;
  selected_line_number_ = line_of m nav line;
  first_displayed_item_ = line - line_of m nav line;
}

unfoldable pub top : Nav → Nav
top nav = record nav { cursor_ = 0; first_displayed_item_ = 0; selected_line_number_ = 0 }

centered_line_all :
    (m : ℕ) (nav : Nav) (line : ℕ)
    → suc m < u32_mod
    → line ≤ m
    → nav.maximum_number_of_displayed_lines_ < u32_mod
    → 0 < nav.maximum_number_of_displayed_lines_
    → centered_line nav.maximum_number_of_displayed_lines_ (suc m) line ≡ line_of m nav line
unfolding centered_line line_of
centered_line_all m nav line hm h hd hp = ground arith

line_of_bound :
    (m : ℕ) (nav : Nav) (line : ℕ)
    → line ≤ m
    → 0 < nav.maximum_number_of_displayed_lines_
    → line_of m nav line < nav.maximum_number_of_displayed_lines_
unfolding line_of
line_of_bound m nav line h hp = ground arith

pub set_cursor_top :
    (m : ℕ) (nav : Nav) → set_cursor_by_line_number (filter_of (suc m)) nav 0 ≡ some (top nav)
unfolding set_cursor_by_line_number top
set_cursor_top m nav = recover_cursor_all m nav

pub set_cursor_outside :
    (m : ℕ) (nav : Nav) (line : ℕ)
    → m < line
    → set_cursor_by_line_number (filter_of (suc m)) nav line ≡ some (top nav)
unfolding set_cursor_by_line_number top is_some_selectable written
set_cursor_outside m nav line h =
    let e = unmapped_all m line h in let r = recover_cursor_all m nav in ground arith

pub set_cursor_inside :
    (m : ℕ) (nav : Nav) (line : ℕ)
    → suc m < u32_mod
    → line ≤ m
    → 0 < line
    → nav.maximum_number_of_displayed_lines_ < u32_mod
    → 0 < nav.maximum_number_of_displayed_lines_
    → set_cursor_by_line_number (filter_of (suc m)) nav line ≡ some (jump m nav line)
unfolding set_cursor_by_line_number jump is_some_selectable written holds_line
set_cursor_inside m nav line hm h h0 hd hp =
    let e = mapped_all m line h in
    let t = total_all m hm in
    let c = centered_line_all m nav line hm h hd hp in
    let b = line_of_bound m nav line h hp in
    let s = selects_all m line in
    let r =
      recover_first_all m
        (record nav { cursor_ = line; selected_line_number_ = line_of m nav line }) (omega arith) in
    ground arith

unfoldable pub down_target : WrapMode → ℕ → ℕ → ℕ → ℕ
unfolding wraps_to_top
down_target mode n cursor count =
    if ltb (cursor + count) n
    then cursor + count
    else if wraps_to_top mode && (suc cursor == n)
    then 0
    else n - 1

unfoldable pub up_target : WrapMode → ℕ → ℕ → ℕ → ℕ
unfolding wraps_to_bottom
up_target mode n cursor count =
    if leb count cursor
    then cursor - count
    else if wraps_to_bottom mode && leb cursor 1
    then n - 1
    else 0

at_last_all :
    (m : ℕ) (nav : Nav)
    → m < u32_mod
    → nav.selected_line_number_ < u32_mod
    → at_last (filter_of (suc m)) nav ≡ nav
unfolding at_last
at_last_all m nav hm h = let l = last_all m in let v = last_visible_all m in ground arith

at_first_all :
    (m : ℕ) (nav : Nav)
    → nav.selected_line_number_ < u32_mod
    → at_first (filter_of (suc m)) nav ≡ nav
unfolding at_first
at_first_all m nav h = let l = first_all m in let v = first_visible_all m in ground arith

-- The display starts as many lines above the cursor as its line says.
unfoldable pub shown_from : Nav → Nav
shown_from nav = record nav { first_displayed_item_ = nav.cursor_ - nav.selected_line_number_ }

pub move_down-lower :
    (m k : ℕ) (nav : Nav)
    → m ≤ int_max
    → nav.cursor_ + k ≤ m
    → 0 < k
    → nav.selected_line_number_ < nav.maximum_number_of_displayed_lines_
    → nav.maximum_number_of_displayed_lines_ < u32_mod
    → move_down (filter_of (suc m)) nav (fixup false k) ≡ some (shown_from (lower k nav), true)
unfolding move_down lower shown_from
move_down-lower m k nav hm hc hk hs hd =
    let e = consistent_all m in
    let s = check_selection_all m nav in
    let l = down_lines_all m k nav hm hc hs hd in
    let a = at_last_all m (lower k nav) (omega arith) (omega arith) in
    let r = recover_first_all m (lower k nav) (omega arith) in ground arith

pub move_up-higher :
    (m k : ℕ) (nav : Nav)
    → m ≤ int_max
    → nav.cursor_ ≤ m
    → k ≤ nav.cursor_
    → 0 < k
    → nav.selected_line_number_ < nav.maximum_number_of_displayed_lines_
    → nav.maximum_number_of_displayed_lines_ < u32_mod
    → move_up (filter_of (suc m)) nav (fixup false k) ≡ some (shown_from (higher k nav), true)
unfolding move_up higher shown_from
move_up-higher m k nav hm hc hk h0 hs hd =
    let e = consistent_all m in
    let f = first_all m in
    let s = check_selection_all m nav in
    let l = up_lines_all m k nav hm hc hk in
    let a = at_first_all m (higher k nav) (omega arith) in
    let r = recover_first_all m (higher k nav) (omega arith) in ground arith

pub move_none :
    (m : ℕ) (nav : Nav)
    → (move_down (filter_of (suc m)) nav (fixup false 0) ≡ some (nav, false))
      × (move_up (filter_of (suc m)) nav (fixup false 0) ≡ some (nav, false))
unfolding move_down move_up
move_none m nav = let e = consistent_all m in (ground arith, ground arith)

pub move_down_wrapped :
    (m : ℕ) (nav : Nav)
    → move_down (filter_of (suc m)) nav (fixup true (suc m)) ≡ some (top nav, ltb 0 m)
unfolding move_down
move_down_wrapped m nav = let s = set_cursor_top m nav in ground arith

pub move_up_wrapped :
    (m : ℕ) (nav : Nav)
    → m ≤ int_max
    → nav.maximum_number_of_displayed_lines_ < u32_mod
    → 0 < nav.maximum_number_of_displayed_lines_
    → move_up (filter_of (suc m)) nav (fixup true (suc m))
      ≡ some (if m == 0 then top nav else jump m nav m, ltb 0 m)
unfolding move_up
move_up_wrapped zero nav hm hd hp = let s = set_cursor_top 0 nav in ground arith
move_up_wrapped (suc m) nav hm hd hp =
    let s = set_cursor_inside (suc m) nav (suc m) (omega arith) (omega arith) (omega arith) hd hp in
    ground arith

pub lower-IsPlaced :
    (m k : ℕ) (nav : Nav)
    → nav.cursor_ + k ≤ m
    → IsPlaced (suc m) nav
    → IsPlaced (suc m) (shown_from (lower k nav))
unfolding lower shown_from
lower-IsPlaced m k nav hk h =
    let f = h.filled in
    record {
      within = omega arith;
      on_display = omega (arith, h.on_display);
      shown = omega (arith, h.shown);
      filled = ground (arith, h.shown, h.on_display);
    }

pub higher-IsPlaced :
    (m k : ℕ) (nav : Nav)
    → k ≤ nav.cursor_
    → IsPlaced (suc m) nav
    → IsPlaced (suc m) (shown_from (higher k nav))
unfolding higher shown_from
higher-IsPlaced m k nav hk h =
    let f = h.filled in
    record {
      within = omega (arith, h.within);
      on_display = omega (arith, h.on_display);
      shown = omega (arith, h.shown);
      filled = ground (arith, h.shown, h.on_display);
    }

pub top-IsPlaced :
    (m : ℕ) (nav : Nav) → 0 < nav.maximum_number_of_displayed_lines_ → IsPlaced (suc m) (top nav)
unfolding top
top-IsPlaced m nav h = record {
  within = omega arith;
  on_display = h;
  shown = refl;
  filled = inl refl;
}

-- A line near the top of a list that does not fit on the display is the exception.
pub jump-IsPlaced :
    (m line : ℕ) (nav : Nav)
    → line ≤ m
    → 0 < nav.maximum_number_of_displayed_lines_
    → (suc m < nav.maximum_number_of_displayed_lines_) ⊎ (center nav ≤ line)
    → IsPlaced (suc m) (jump m nav line)
unfolding jump line_of
jump-IsPlaced m line nav h hp hc = record {
  within = omega arith;
  on_display = ground arith;
  shown = ground arith;
  filled = ground arith;
}

pub down_fixup-cases :
    (mode : WrapMode) (m c count : ℕ)
    → c ≤ m
    → ((down_fixup mode m c count ≡ fixup false 0) × (down_target mode (suc m) c count ≡ c))
      ⊎ (((k : ℕ) × (down_fixup mode m c count ≡ fixup false k)
            × (0 < k)
            × (c + k ≤ m)
            × (down_target mode (suc m) c count ≡ c + k))
          ⊎ ((down_fixup mode m c count ≡ fixup true (suc m))
              × (c ≡ m)
              × (down_target mode (suc m) c count ≡ 0)))
unfolding down_fixup down_target
down_fixup-cases mode m c count h = elim (dec_le (c + count) m) [
  | yes le ↦ elim (ℕ_discrete count 0) [
    | yes z ↦ inl (ground arith, ground arith)
    | no z ↦ inr (inl (count, ground arith, omega arith, omega arith, ground arith))
  ]
  | no le ↦ elim (ℕ_discrete c m) [
    | yes e ↦ elim (Bool-cases (wraps_to_top mode)) [
      | inl w ↦ inr (inr (ground arith, e, ground arith))
      | inr w ↦ inl (ground arith, ground arith)
    ]
    | no e ↦ inr (inl (m - c, ground arith, omega arith, omega arith, ground arith))
  ]
]

pub up_fixup-cases :
    (mode : WrapMode) (m c count : ℕ)
    → c ≤ m
    → ((up_fixup mode m c count ≡ fixup false 0) × (up_target mode (suc m) c count ≡ c))
      ⊎ (((k : ℕ) × (up_fixup mode m c count ≡ fixup false k)
            × (0 < k)
            × (k ≤ c)
            × (up_target mode (suc m) c count ≡ c - k))
          ⊎ ((up_fixup mode m c count ≡ fixup true (suc m))
              × (c ≤ 1)
              × (up_target mode (suc m) c count ≡ m)))
unfolding up_fixup up_target
up_fixup-cases mode m c count h = elim (dec_le count c) [
  | yes le ↦ elim (ℕ_discrete count 0) [
    | yes z ↦ inl (ground arith, ground arith)
    | no z ↦ inr (inl (count, ground arith, omega arith, omega arith, ground arith))
  ]
  | no le ↦ elim (Bool-cases (wraps_to_bottom mode && leb c 1)) [
    | inl w ↦ inr (inr (ground arith, ground arith, ground arith))
    | inr w ↦ elim (ℕ_discrete c 0) [
      | yes e ↦ inl (ground arith, ground arith)
      | no e ↦ inr (inl (c, ground arith, omega arith, omega arith, ground arith))
    ]
  ]
]
