-- ===== src/ListNav/Browse.antt =====
-- Browsing a list of which no item is hidden by any sequence of operations.
use drcpd.Common.{
  ℕ, suc, ◌+◌, ◌-◌, ◌/◌, ◌≤◌, ◌<◌, ◌≡◌, ◌⊎◌, inl, Option, some, arith, refl, ◌∙◌, sym, subst,
  u32_mod, List, [], ◌∷◌, get_elem?, ◌>>=◌, All,
}
use drcpd.ListNav.{Nav, WrapMode}
use drcpd.ListNav.Moves.{construct, set_cursor_by_line_number, down, up, int_max, distance_to_top}
use drcpd.ListNav.Lines.{displayed_items}
use drcpd.ListNav.Laws.{filter_of, IsPlaced, recover_cursor_all, total_all}
use drcpd.ListNav.Cursor.{center}
use drcpd.ListNav.Walk.{down_lem, up_lem, set_cursor_by_line_number_lem, displayed_items_lem}

-- What the user does while browsing; `goes_to` is used for lines found by a search, too.
pub data Action : Type 0 where
  moves_down moves_up goes_to : ℕ → Action

pub act : Action → ℕ → Nav → Option Nav
act (moves_down count) m nav = down (filter_of (suc m)) nav count >>= λ p. some p.0
act (moves_up count) m nav = up (filter_of (suc m)) nav count >>= λ p. some p.0
act (goes_to line) m nav = set_cursor_by_line_number (filter_of (suc m)) nav line

pub browse : List Action → ℕ → Nav → Option Nav
browse [] m nav = some nav
browse (a ∷ actions) m nav = act a m nav >>= browse actions m

-- The argument is an `unsigned int`, and no line is gone to that is nearer to the top than the
-- middle of the display, but the first one.
unfoldable pub IsPlain : ℕ → Action → Type 0
IsPlain middle (moves_down count) = count < u32_mod
IsPlain middle (moves_up count) = count < u32_mod
IsPlain middle (goes_to line) = (middle ≤ line) ⊎ (line ≡ 0)

act-IsPlaced :
    (m : ℕ) (a : Action) (nav : Nav)
    → m ≤ int_max
    → nav.maximum_number_of_displayed_lines_ < u32_mod
    → IsPlain (center nav) a
    → IsPlaced (suc m) nav
    → (nav' : Nav) × (act a m nav ≡ some nav')
      × IsPlaced (suc m) nav'
      × (nav'.maximum_number_of_displayed_lines_ ≡ nav.maximum_number_of_displayed_lines_)
unfolding act IsPlain
act-IsPlaced m (moves_down count) nav hm hd hp h =
    let (nav', moved, e, p, r, t, x) = down_lem m nav count hm hd hp h in (nav', ground arith, p, x)
act-IsPlaced m (moves_up count) nav hm hd hp h =
    let (nav', moved, e, p, r, t, x) = up_lem m nav count hm hd hp h in (nav', ground arith, p, x)
act-IsPlaced m (goes_to line) nav hm hd hp h =
    let (nav', e, p, r, x) =
      set_cursor_by_line_number_lem m nav line (omega arith) (omega (arith, h.on_display)) hd
        (ground (arith, hp)) in
    (nav', e, p, x)

browse-IsPlaced :
    (actions : List Action) (m : ℕ) (nav : Nav)
    → m ≤ int_max
    → nav.maximum_number_of_displayed_lines_ < u32_mod
    → All (IsPlain (center nav)) actions
    → IsPlaced (suc m) nav
    → (nav' : Nav) × (browse actions m nav ≡ some nav')
      × IsPlaced (suc m) nav'
      × (nav'.maximum_number_of_displayed_lines_ ≡ nav.maximum_number_of_displayed_lines_)
unfolding browse
browse-IsPlaced [] m nav hm hd hp h = (nav, refl, h, refl)
browse-IsPlaced (a ∷ actions) m nav hm hd (hp, hps) h =
    let (nav', e, p, x) = act-IsPlaced m a nav hm hd hp h in
    let center' = λ (displayed : ℕ). All (IsPlain ((displayed + 1) / 2 - 1)) actions in
    let (nav'', e', p', x') =
      browse-IsPlaced actions m nav' hm (omega (arith, x)) (subst center' (sym x) hps) p in
    (nav'', ground arith, p', x' ∙ x)

-- Whatever is done, as long as the line gone to is not one near the top, in a list of at most 2^31
-- items that are all visible and from a new cursor on, with a display of at least one line: no operation goes beyond the list, and the selected line of the
-- display shows the item at the cursor.
pub browse_shows_cursor :
    (actions : List Action) (m displayed : ℕ) (mode : WrapMode)
    → m ≤ int_max
    → 0 < displayed
    → displayed < u32_mod
    → All (IsPlain ((displayed + 1) / 2 - 1)) actions
    → (nav : Nav) × (items : List ℕ) × ((construct (filter_of (suc m)) displayed mode
          >>= browse actions m)
        ≡ some nav)
      × (displayed_items (filter_of (suc m)) nav ≡ some items)
      × (get_elem? items (distance_to_top (filter_of (suc m)) nav) ≡ some nav.cursor_)
unfolding construct distance_to_top
browse_shows_cursor actions m displayed mode hm h0 hd hp =
    let start : Nav = record {
      cursor_ = 0;
      first_displayed_item_ = 0;
      selected_line_number_ = 0;
      wrap_mode_ = mode;
      maximum_number_of_displayed_lines_ = displayed;
    } in
    let r = recover_cursor_all m start in
    let placed : IsPlaced (suc m) start = record {
      within = omega arith;
      on_display = h0;
      shown = refl;
      filled = inl refl;
    } in
    let (nav, e, p, x) = browse-IsPlaced actions m start hm hd hp placed in
    let (items, d, i, g) = displayed_items_lem m nav (omega arith) (omega (arith, x)) p in
    let t = total_all m (omega arith) in (nav, items, ground arith, d, ground arith)
