-- ===== src/Crawler/Steps.antt =====
-- One step of the crawler's cursor, whose filter hides nothing (src/directory_crawler.hh,
-- src/listnav.hh).
use drcpd.Common.{
  ℕ, zero, suc, ◌≤◌, ◌<◌, ◌≡◌, ◌⊎◌, inl, inr, Bool, true, false, some, u32_mod, arith, refl, ap,
  dec_lt,
}
use drcpd.ListNav.{
  Nav, WrapMode, recover_cursor_and_selection, is_selectable, wraps_to_top, wraps_to_bottom,
}
use drcpd.ListNav.Moves.{
  down, up, move_down, move_up, check_selection, fixup_down_count_by_wrap_mode,
  fixup_up_count_by_wrap_mode, fixup_down, fixup_up, get_line_number_by_item, int_max,
}
use drcpd.ListNav.Laws.{
  filter_of, lower, higher, fixup_down_all, fixup_up_all, down_fixup, up_fixup,
}
use drcpd.ListNav.Cursor.{shown_from, move_down-lower, move_up-higher, move_none}
use drcpd.Crawler.{Direction, Cursor, advance, moved_to}

-- The cursor is in the list, or at its start if it is empty; the list has at most 2^31 items.
pub record IsSteady (n : ℕ) (nav : Nav) : Type 0 where
  pub within : (nav.cursor_ < n) ⊎ ((n ≡ 0) × (nav.cursor_ ≡ 0))
  pub on_display : nav.selected_line_number_ < nav.maximum_number_of_displayed_lines_
  pub lines : nav.maximum_number_of_displayed_lines_ < u32_mod
  pub wrap : nav.wrap_mode_ ≡ WrapMode.no_wrap
  pub size : n ≤ suc int_max

down_once :
    (m : ℕ) (nav : Nav)
    → IsSteady (suc m) nav
    → nav.cursor_ < m
    → down (filter_of (suc m)) nav 1 ≡ some (shown_from (lower 1 nav), true)
unfolding down down_fixup
down_once m nav s h =
    let size = s.size in
    let f = fixup_down_all m nav 1 (omega arith) (omega arith) (omega arith) in
    let e =
      move_down-lower m 1 nav (omega arith) (omega arith) (omega arith) s.on_display s.lines in
    ground arith

down_stops :
    (m : ℕ) (nav : Nav)
    → IsSteady (suc m) nav
    → nav.cursor_ ≡ m
    → down (filter_of (suc m)) nav 1 ≡ some (nav, false)
unfolding down down_fixup wraps_to_top
down_stops m nav s h =
    let size = s.size in
    let wrap = s.wrap in
    let f = fixup_down_all m nav 1 (omega arith) (omega arith) (omega arith) in
    let (e, e') = move_none m nav in ground arith

up_once :
    (m : ℕ) (nav : Nav)
    → IsSteady (suc m) nav
    → nav.cursor_ ≤ m
    → 0 < nav.cursor_
    → up (filter_of (suc m)) nav 1 ≡ some (shown_from (higher 1 nav), true)
unfolding up up_fixup
up_once m nav s h h' =
    let size = s.size in
    let f = fixup_up_all m nav 1 (omega arith) (omega arith) (omega arith) in
    let e =
      move_up-higher m 1 nav (omega arith) (omega arith) (omega arith) (omega arith) s.on_display
        s.lines in
    ground arith

up_stops :
    (m : ℕ) (nav : Nav)
    → IsSteady (suc m) nav
    → nav.cursor_ ≡ 0
    → up (filter_of (suc m)) nav 1 ≡ some (nav, false)
unfolding up up_fixup wraps_to_bottom
up_stops m nav s h =
    let size = s.size in
    let wrap = s.wrap in
    let f = fixup_up_all m nav 1 (omega arith) (omega arith) (omega arith) in
    let (e, e') = move_none m nav in ground arith

-- What is left of the navigation in an empty list.
unfoldable pub emptied : Nav → Nav
emptied nav = record nav { cursor_ = 0; first_displayed_item_ = 0; selected_line_number_ = 0 }

stays_empty :
    (nav : Nav)
    → (down (filter_of 0) nav 1 ≡ some (emptied nav, false))
      × (up (filter_of 0) nav 1 ≡ some (emptied nav, false))
unfolding down up fixup_down_count_by_wrap_mode fixup_up_count_by_wrap_mode check_selection
    is_selectable recover_cursor_and_selection filter_of fixup_down fixup_up move_down move_up
    get_line_number_by_item emptied
stays_empty nav = (ground arith, ground arith)

-- Where a step leads in a list of `n` items.
unfoldable pub Stepped : ℕ → Direction → Nav → Nav → Bool → Type 0
Stepped n Direction.no_direction nav nav' moved = (moved ≡ false) × (nav'.cursor_ ≡ nav.cursor_)
Stepped n Direction.forward nav nav' moved =
    ((moved ≡ true) × (nav'.cursor_ ≡ suc nav.cursor_) × (suc nav.cursor_ < n))
    ⊎ ((moved ≡ false) × (nav'.cursor_ ≡ nav.cursor_) × (n ≤ suc nav.cursor_))
Stepped n Direction.backward nav nav' moved =
    ((moved ≡ true) × (suc nav'.cursor_ ≡ nav.cursor_))
    ⊎ ((moved ≡ false) × (nav'.cursor_ ≡ nav.cursor_) × (nav.cursor_ ≡ 0))

emptied-IsSteady : (nav : Nav) → IsSteady 0 nav → IsSteady 0 (emptied nav)
unfolding emptied
emptied-IsSteady nav s = record {
  within = inr (refl, refl);
  on_display = omega (arith, s.on_display);
  lines = s.lines;
  wrap = s.wrap;
  size = s.size;
}

forward_lem :
    (n : ℕ) (nav : Nav)
    → IsSteady n nav
    → (nav' : Nav) × (moved : Bool) × (down (filter_of n) nav 1 ≡ some (nav', moved))
      × IsSteady n nav'
      × (nav'.maximum_number_of_displayed_lines_ ≡ nav.maximum_number_of_displayed_lines_)
      × Stepped n Direction.forward nav nav' moved
unfolding Stepped lower shown_from emptied
forward_lem zero nav s = (
  emptied nav,
  false,
  (stays_empty nav).0,
  emptied-IsSteady nav s,
  refl,
  inr (refl, ground (arith, s.within), omega arith),
)
forward_lem (suc m) nav s = elim (dec_lt nav.cursor_ m) [
  | yes h ↦ (
    shown_from (lower 1 nav),
    true,
    down_once m nav s h,
    record {
      within = inl (omega arith);
      on_display = omega (arith, s.on_display);
      lines = s.lines;
      wrap = s.wrap;
      size = s.size;
    },
    refl,
    inl (refl, omega arith, omega arith),
  )
  | no h ↦ (
    nav,
    false,
    down_stops m nav s (ground (arith, s.within)),
    s,
    refl,
    inr (refl, refl, omega arith),
  )
]

backward_lem :
    (n : ℕ) (nav : Nav)
    → IsSteady n nav
    → (nav' : Nav) × (moved : Bool) × (up (filter_of n) nav 1 ≡ some (nav', moved))
      × IsSteady n nav'
      × (nav'.maximum_number_of_displayed_lines_ ≡ nav.maximum_number_of_displayed_lines_)
      × Stepped n Direction.backward nav nav' moved
unfolding Stepped higher shown_from emptied
backward_lem zero nav s = (
  emptied nav,
  false,
  (stays_empty nav).1,
  emptied-IsSteady nav s,
  refl,
  inr (refl, ground (arith, s.within), ground (arith, s.within)),
)
backward_lem (suc m) nav s = elim (dec_lt 0 nav.cursor_) [
  | yes h ↦ (
    shown_from (higher 1 nav),
    true,
    up_once m nav s (ground (arith, s.within)) h,
    record {
      within = inl (ground (arith, s.within));
      on_display = omega (arith, s.on_display);
      lines = s.lines;
      wrap = s.wrap;
      size = s.size;
    },
    refl,
    inl (refl, omega arith),
  )
  | no h ↦ (nav, false, up_stops m nav s (omega arith), s, refl, inr (refl, refl, omega arith))
]

-- Advancing the cursor by one item: it stays in the list, and says whether it has moved.
pub advance_lem :
    (c : Cursor) (d : Direction)
    → IsSteady c.items_ c.nav_
    → (nav : Nav) × (moved : Bool) × (advance c d ≡ some (record c { nav_ = nav }, moved))
      × IsSteady c.items_ nav
      × (nav.maximum_number_of_displayed_lines_ ≡ c.nav_.maximum_number_of_displayed_lines_)
      × Stepped c.items_ d c.nav_ nav moved
unfolding advance moved_to Stepped
advance_lem c Direction.no_direction s = (c.nav_, false, refl, s, refl, (refl, refl))
advance_lem c Direction.forward s =
    let (nav, moved, e, steady, lines, stepped) = forward_lem c.items_ c.nav_ s in
    (nav, moved, ap (moved_to c) e, steady, lines, stepped)
advance_lem c Direction.backward s =
    let (nav, moved, e, steady, lines, stepped) = backward_lem c.items_ c.nav_ s in
    (nav, moved, ap (moved_to c) e, steady, lines, stepped)
