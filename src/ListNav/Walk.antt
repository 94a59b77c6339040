-- ===== src/ListNav/Walk.antt =====
-- Browsing a list of which no item is hidden: where the cursor goes, and what is displayed.
use Prim.Native.Nat.{min}
use drcpd.Common.{
  ℕ, zero, suc, ◌+◌, ◌-◌, ◌≤◌, ◌<◌, ◌≡◌, ◌≢◌, ◌⊎◌, ◌↔◌, inl, inr, Bool, true, false, some, ltb, leb,
  if◌then◌else◌, u32_mod, arith, refl, ◌∙◌, sym, ap, ℕ_discrete, dec_le, List, [], ◌∷◌, get_elem?,
}
use drcpd.ListNav.{Nav, step_forward_visible}
use drcpd.ListNav.Moves.{set_cursor_by_line_number, down, up, int_max}
use drcpd.ListNav.Lines.{find_next_visible_item, const_iterator, items_until, displayed_items}
use drcpd.ListNav.Laws.{
  filter_of, IsPlaced, lower, higher, fixup_down_all, fixup_up_all, last_visible_all,
  is_visible_all, step_forward_once,
}
use drcpd.ListNav.Cursor.{
  center, line_of, jump, top, down_target, up_target, shown_from, move_none, move_down-lower,
  move_up-higher, move_down_wrapped, move_up_wrapped, lower-IsPlaced, higher-IsPlaced, top-IsPlaced,
  jump-IsPlaced, down_fixup-cases, up_fixup-cases, set_cursor_top, set_cursor_outside,
  set_cursor_inside,
}

-- A cursor that is placed as it should be goes down by as many lines as there are, or to the top
-- if it stands at the last line and wraps; it is placed as it should be again, and the answer tells
-- whether it has moved. The list has at most 2^31 items, the display fewer than 2^32 lines.
pub down_lem :
    (m : ℕ) (nav : Nav) (count : ℕ)
    → m ≤ int_max
    → nav.maximum_number_of_displayed_lines_ < u32_mod
    → count < u32_mod
    → IsPlaced (suc m) nav
    → (nav' : Nav) × (moved : Bool) × (down (filter_of (suc m)) nav count ≡ some (nav', moved))
      × IsPlaced (suc m) nav'
      × (nav'.cursor_ ≡ down_target nav.wrap_mode_ (suc m) nav.cursor_ count)
      × ((moved ≡ true) ↔ (nav'.cursor_ ≢ nav.cursor_))
      × (nav'.maximum_number_of_displayed_lines_ ≡ nav.maximum_number_of_displayed_lines_)
unfolding down lower shown_from top
down_lem m nav count hm hd hcount h =
    let c = nav.cursor_ in
    let mode = nav.wrap_mode_ in
    let f = fixup_down_all m nav count hm (omega (arith, h.within)) hcount in
    elim (down_fixup-cases mode m c count (omega (arith, h.within))) [
      | inl (e, t) ↦ (
        nav,
        false,
        ground (arith, move_none m nav),
        h,
        sym t,
        (λ x. absurd (ground (arith, x)), λ x. absurd (x refl)),
        refl,
      )
      | inr (inl (k, e, hk, le, t)) ↦
          let s = move_down-lower m k nav hm le hk h.on_display hd in
          (
            shown_from (lower k nav),
            true,
            ground arith,
            lower-IsPlaced m k nav le h,
            ground arith,
            (λ x y. absurd (omega (arith, y)), λ x. refl),
            refl,
          )
      | inr (inr (e, last, t)) ↦
          let s = move_down_wrapped m nav in
          (
            top nav,
            ltb 0 m,
            ground arith,
            top-IsPlaced m nav (omega (arith, h.on_display)),
            ground arith,
            (λ x y. absurd (ground (arith, x, y)), λ x. ground arith),
            refl,
          )
    ]

-- A cursor that is placed as it should be goes up by as many lines as there are, or to the bottom
-- if it stands at one of the first two lines, wraps, and is to go further than to the top; it is
-- placed as it should be again, and nothing has changed unless the answer says so. The list has at
-- most 2^31 items, the display fewer than 2^32 lines.
pub up_lem :
    (m : ℕ) (nav : Nav) (count : ℕ)
    → m ≤ int_max
    → nav.maximum_number_of_displayed_lines_ < u32_mod
    → count < u32_mod
    → IsPlaced (suc m) nav
    → (nav' : Nav) × (moved : Bool) × (up (filter_of (suc m)) nav count ≡ some (nav', moved))
      × IsPlaced (suc m) nav'
      × (nav'.cursor_ ≡ up_target nav.wrap_mode_ (suc m) nav.cursor_ count)
      × ((moved ≡ false) → nav' ≡ nav)
      × (nav'.maximum_number_of_displayed_lines_ ≡ nav.maximum_number_of_displayed_lines_)
unfolding up higher shown_from top jump
up_lem m nav count hm hd hcount h =
    let c = nav.cursor_ in
    let mode = nav.wrap_mode_ in
    let f = fixup_up_all m nav count hm (omega (arith, h.within)) hcount in
    elim (up_fixup-cases mode m c count (omega (arith, h.within))) [
      | inl (e, t) ↦ (nav, false, ground (arith, move_none m nav), h, sym t, (λ _. refl), refl)
      | inr (inl (k, e, hk, le, t)) ↦
          let s = move_up-higher m k nav hm (omega (arith, h.within)) le hk h.on_display hd in
          (
            shown_from (higher k nav),
            true,
            ground arith,
            higher-IsPlaced m k nav le h,
            ground arith,
            (λ x. absurd (ground (arith, x))),
            refl,
          )
      | inr (inr (e, last, t)) ↦
          let p : 0 < nav.maximum_number_of_displayed_lines_ = omega (arith, h.on_display) in
          let s = move_up_wrapped m nav hm hd p in
          elim (ℕ_discrete m 0) [
            | yes z ↦ (
              top nav,
              false,
              ground arith,
              top-IsPlaced m nav p,
              ground arith,
              (λ x. ground (arith, h.shown, h.within)),
              refl,
            )
            | no z ↦ (
              jump m nav m,
              true,
              ground arith,
              jump-IsPlaced m m nav (omega arith) p (ground arith),
              ground arith,
              (λ x. absurd (ground (arith, x))),
              refl,
            )
          ]
    ]

-- A line outside the list takes the cursor to the top, another line takes it there; the display is
-- placed as it should be, unless the line is nearer to the top than the middle of the display, in
-- a list that fills the display.
pub set_cursor_by_line_number_lem :
    (m : ℕ) (nav : Nav) (line : ℕ)
    → suc m < u32_mod
    → 0 < nav.maximum_number_of_displayed_lines_
    → nav.maximum_number_of_displayed_lines_ < u32_mod
    → ((suc m < nav.maximum_number_of_displayed_lines_) ⊎ (center nav ≤ line)) ⊎ (line ≡ 0)
    → (nav' : Nav) × (set_cursor_by_line_number (filter_of (suc m)) nav line ≡ some nav')
      × IsPlaced (suc m) nav'
      × (nav'.cursor_ ≡ (if leb line m then line else 0))
      × (nav'.maximum_number_of_displayed_lines_ ≡ nav.maximum_number_of_displayed_lines_)
unfolding jump top
set_cursor_by_line_number_lem m nav zero hm hp hd h =
    (top nav, set_cursor_top m nav, top-IsPlaced m nav hp, ground arith, refl)
set_cursor_by_line_number_lem m nav (suc line) hm hp hd h = elim (dec_le (suc line) m) [
  | yes le ↦ (
    jump m nav (suc line),
    set_cursor_inside m nav (suc line) hm le (omega arith) hd hp,
    jump-IsPlaced m (suc line) nav le hp (ground (arith, h)),
    ground arith,
    refl,
  )
  | no le ↦ (
    top nav,
    set_cursor_outside m nav (suc line) (omega arith),
    top-IsPlaced m nav hp,
    ground arith,
    refl,
  )
]

-- In a list that fills the display, a line nearer to the top than the middle of the display is
-- displayed from the first item on, but the middle line is taken for the selected one.
pub set_cursor_near_top :
    (m : ℕ) (nav : Nav) (line : ℕ)
    → suc m < u32_mod
    → nav.maximum_number_of_displayed_lines_ ≤ suc m
    → 0 < line
    → line < center nav
    → (nav' : Nav) × (set_cursor_by_line_number (filter_of (suc m)) nav line ≡ some nav')
      × (nav'.cursor_ ≡ line)
      × (nav'.first_displayed_item_ ≡ 0)
      × (nav'.selected_line_number_ ≡ center nav)
unfolding jump line_of
set_cursor_near_top m nav line hm hd h0 h = (
  jump m nav line,
  set_cursor_inside m nav line hm (omega arith) h0 (omega arith) (omega arith),
  refl,
  ground arith,
  ground arith,
)

pub upto : ℕ → ℕ → List ℕ
upto start zero = []
upto start (suc count) = start ∷ upto (suc start) count

step_forward_visible_all :
    (m c : ℕ) → c < m → m < u32_mod → step_forward_visible (filter_of (suc m)) c ≡ some (suc c)
unfolding step_forward_visible
step_forward_visible_all m c h hm =
    step_forward_once _ _ c (omega (arith, last_visible_all m)) (omega arith)
      (is_visible_all m (suc c))

items_until_end :
    (m max k item : ℕ)
    → items_until (filter_of (suc m)) max max k (record { item_ = item; line_number_ = max })
      ≡ some []
unfolding items_until
items_until_end m max zero item = ground arith
items_until_end m max (suc k) item = ground arith

items_until_all :
    (m max k item line : ℕ)
    → m < u32_mod
    → max < u32_mod
    → item ≤ m
    → line + k ≡ max
    → items_until (filter_of (suc m)) max max k (record { item_ = item; line_number_ = line })
      ≡ some (upto item (min k (suc m - item)))
unfolding items_until find_next_visible_item upto
items_until_all m max zero item line hm hx hi hk =
    let n : min 0 (suc m - item) ≡ 0 = omega arith in
    let e : upto item (min 0 (suc m - item)) ≡ [] = ap (upto item) n in ground arith
items_until_all m max (suc k) item line hm hx hi hk =
    let v = last_visible_all m in
    elim (dec_le (suc item) m) [
      | yes lt ↦
          let s = step_forward_visible_all m item lt hm in
          let r = items_until_all m max k (suc item) (suc line) hm hx lt (omega arith) in
          let n : min (suc k) (suc m - item) ≡ suc (min k (suc m - suc item)) = omega arith in
          let e = ap (upto item) n in ground arith
      | no lt ↦
          let r = items_until_end m max k item in
          let n : min (suc k) (suc m - item) ≡ 1 = omega arith in
          let e = ap (upto item) n in ground arith
    ]

get_elem?-upto : (count start i : ℕ) → i < count → get_elem? (upto start count) i ≡ some (start + i)
unfolding upto
get_elem?-upto zero start i h = absurd (omega arith)
get_elem?-upto (suc count) start zero h = ap some (omega arith)
get_elem?-upto (suc count) start (suc i) h =
    get_elem?-upto count (suc start) i (omega arith) ∙ ap some (omega arith)

tied_all : (m : ℕ) → (filter_of m).is_tied ≡ true
unfolding filter_of
tied_all m = refl

-- When the cursor is placed as it should be, the items displayed are those from the first
-- displayed one on, as many as there are lines and items; the cursor is on the selected line.
pub displayed_items_lem :
    (m : ℕ) (nav : Nav)
    → suc m < u32_mod
    → nav.maximum_number_of_displayed_lines_ < u32_mod
    → IsPlaced (suc m) nav
    → (items : List ℕ) × (displayed_items (filter_of (suc m)) nav ≡ some items)
      × (items
          ≡ upto nav.first_displayed_item_
              (min nav.maximum_number_of_displayed_lines_ (suc m - nav.first_displayed_item_)))
      × (get_elem? items nav.selected_line_number_ ≡ some nav.cursor_)
unfolding displayed_items const_iterator
displayed_items_lem m nav hm hd h =
    let max = nav.maximum_number_of_displayed_lines_ in
    let first = nav.first_displayed_item_ in
    let t = tied_all (suc m) in
    let v = is_visible_all m first in
    let r =
      items_until_all m max max first 0 (omega arith) hd (omega (arith, h.shown, h.within))
        (omega arith) in
    (
      upto first (min max (suc m - first)),
      ground arith,
      refl,
      get_elem?-upto _ first nav.selected_line_number_
            (omega (arith, h.shown, h.within, h.on_display))
          ∙ ap some h.shown,
    )
