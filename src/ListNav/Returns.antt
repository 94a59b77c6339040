-- ===== src/ListNav/Returns.antt =====
-- For every filter that keeps its promises, moving the cursor returns.
use drcpd.Common.{
  ℕ, zero, suc, ◌-◌, ◌<◌, ◌≡◌, ◌⊎◌, inl, inr, Bool, true, false, some, ltb, leb, ◌==◌, u32_mod,
  arith, refl, Bool-cases, ℕ_discrete, subst, sym, not, ◌&&◌,
}
use drcpd.ListNav.{
  recover_cursor_and_selection, recover_first_displayed_item_by_cursor, NavItemFilter, Nav,
}
use drcpd.ListNav.Moves.{
  Fixup, fixup, check_selection, set_cursor_by_line_number, at_last, at_first, down_lines, up_lines,
  move_down, move_up, down, up, fixup_down, fixup_up, fixup_down_count_by_wrap_mode,
  fixup_up_count_by_wrap_mode, get_line_number_by_item,
}
use drcpd.ListNav.Laws.{filter_of, is_selectable_all, is_visible_all}
use drcpd.ListNav.Terminates.{
  IsLawful, Spot, on_item, on_nothing, check_selection-returns, down_lines-returns,
  up_lines-returns, recover_first-Spot, set_cursor-returns, fixup_down_empty, fixup_up_empty,
}

module _ (f : NavItemFilter) (law : IsLawful f) where
  at_last-cursor : (nav : Nav) → (at_last f nav).cursor_ ≡ nav.cursor_
  unfolding at_last
  at_last-cursor nav = ground arith

  at_first-cursor : (nav : Nav) → (at_first f nav).cursor_ ≡ nav.cursor_
  unfolding at_first
  at_first-cursor nav = ground arith

  down_lines-Spot :
      (count : ℕ) (nav : Nav)
      → Spot f nav.cursor_
      → (f.is_list_nonempty ≡ true) ⊎ (count ≡ 0)
      → (nav' : Nav) × (down_lines f count nav ≡ some nav') × Spot f nav'.cursor_
  unfolding down_lines
  down_lines-Spot zero nav h c = (nav, refl, h)
  down_lines-Spot (suc count) nav (on_item e s h) c =
      let (nav', q, b, t) = down_lines-returns f law (suc count) nav e h s in
      (nav', q, on_item e t b)
  down_lines-Spot (suc count) nav (on_nothing e z) c = absurd (ground (arith, c))

  up_lines-Spot :
      (count : ℕ) (nav : Nav)
      → Spot f nav.cursor_
      → (f.is_list_nonempty ≡ true) ⊎ (count ≡ 0)
      → (nav' : Nav) × (up_lines f count nav ≡ some nav') × Spot f nav'.cursor_
  unfolding up_lines
  up_lines-Spot zero nav h c = (nav, refl, h)
  up_lines-Spot (suc count) nav (on_item e s h) c =
      let (nav', q, b, t) = up_lines-returns f law (suc count) nav e h s in (nav', q, on_item e t b)
  up_lines-Spot (suc count) nav (on_nothing e z) c = absurd (ground (arith, c))

  move_down-returns :
      (nav : Nav) (count : ℕ)
      → nav.cursor_ < u32_mod
      → (f.is_list_nonempty ≡ true) ⊎ (count ≡ 0)
      → (r : Nav × Bool) × (move_down f nav (fixup false count) ≡ some r)
  unfolding move_down
  move_down-returns nav count h c = elim (Bool-cases ((count == 0) && not f.ensure_consistency)) [
    | inl t ↦ ((nav, false), ground arith)
    | inr t ↦
        let (n1, q1, s1) = check_selection-returns f law nav h in
        let (n2, q2, s2) = down_lines-Spot count n1 s1 c in
        let (n3, q3, s3) =
          recover_first-Spot f law (at_last f n2) (subst (Spot f) (sym (at_last-cursor n2)) s2) in
        ((n3, true), ground arith)
  ]

  move_up-returns :
      (nav : Nav) (count : ℕ)
      → nav.cursor_ < u32_mod
      → (f.is_list_nonempty ≡ true) ⊎ (count ≡ 0)
      → (r : Nav × Bool) × (move_up f nav (fixup false count) ≡ some r)
  unfolding move_up
  move_up-returns nav count h c = elim (Bool-cases ((count == 0) && not f.ensure_consistency)) [
    | inl t ↦ ((nav, false), ground arith)
    | inr t ↦
        let (n1, q1, s1) = check_selection-returns f law nav h in
        let (n2, q2, s2) = up_lines-Spot count n1 s1 c in
        let (n3, q3, s3) =
          recover_first-Spot f law (at_first f n2) (subst (Spot f) (sym (at_first-cursor n2)) s2) in
        elim (Bool-cases (leb n1.cursor_ f.get_first_selectable_item)) [
          | inl t' ↦ ((n1, false), ground arith)
          | inr t' ↦ ((n3, true), ground arith)
        ]
  ]

  check_selection_keeps :
      (nav nav' : Nav)
      → check_selection f nav ≡ some nav'
      → nav'.maximum_number_of_displayed_lines_ ≡ nav.maximum_number_of_displayed_lines_
  unfolding check_selection recover_cursor_and_selection recover_first_displayed_item_by_cursor
  check_selection_keeps nav nav' e = ground (arith, e)

  Spot-bounded : {c : ℕ} → Spot f c → c < u32_mod
  Spot-bounded (on_item e s h) = h
  Spot-bounded (on_nothing e z) = omega arith

  fixed_down-returns :
      (nav : Nav) (x : Fixup)
      → 0 < nav.maximum_number_of_displayed_lines_
      → nav.maximum_number_of_displayed_lines_ < u32_mod
      → nav.cursor_ < u32_mod
      → (f.is_list_nonempty ≡ true) ⊎ (x ≡ fixup false 0)
      → (r : Nav × Bool) × (move_down f nav x ≡ some r)
  unfolding move_down
  fixed_down-returns nav (fixup true count) hp hd h c =
      let (nav', q, s) = set_cursor-returns f law nav 0 hp hd in ((nav', ltb 1 count), ground arith)
  fixed_down-returns nav (fixup false count) hp hd h c =
      move_down-returns nav count h (ground (arith, c))

  fixed_up-returns :
      (nav : Nav) (x : Fixup)
      → 0 < nav.maximum_number_of_displayed_lines_
      → nav.maximum_number_of_displayed_lines_ < u32_mod
      → nav.cursor_ < u32_mod
      → (f.is_list_nonempty ≡ true) ⊎ (x ≡ fixup false 0)
      → (r : Nav × Bool) × (move_up f nav x ≡ some r)
  unfolding move_up
  fixed_up-returns nav (fixup true count) hp hd h c =
      let (nav', q, s) = set_cursor-returns f law nav (count - 1) hp hd in
      elim (Bool-cases (ltb 0 count)) [
        | inl t ↦ ((nav', ltb 1 count), ground arith)
        | inr t ↦ ((nav, ltb 1 count), ground arith)
      ]
  fixed_up-returns nav (fixup false count) hp hd h c =
      move_up-returns nav count h (ground (arith, c))

  down-returns :
      (nav : Nav) (count : ℕ)
      → 0 < nav.maximum_number_of_displayed_lines_
      → nav.maximum_number_of_displayed_lines_ < u32_mod
      → nav.cursor_ < u32_mod
      → (r : Nav × Bool) × (down f nav count ≡ some r)
  unfolding down fixup_down_count_by_wrap_mode
  down-returns nav count hp hd h = elim (ℕ_discrete count 0) [
    | yes z ↦
        let (r, q) = fixed_down-returns nav (fixup false 0) hp hd h (inr refl) in (r, ground arith)
    | no z ↦
        let (n1, q1, s1) = check_selection-returns f law nav h in
        let k = check_selection_keeps nav n1 q1 in
        let x = fixup_down f n1.wrap_mode_ (get_line_number_by_item f n1.cursor_) count in
        let c : (f.is_list_nonempty ≡ true) ⊎ (x ≡ fixup false 0) =
          elim (Bool-cases f.is_list_nonempty) [
            | inl t ↦ inl t
            | inr t ↦ inr (fixup_down_empty f law _ _ count t)
          ] in
        let (r, q) =
          fixed_down-returns n1 x (omega (arith, k, hp)) (omega (arith, k, hd)) (Spot-bounded s1)
            c in
        (r, ground arith)
  ]

  up-returns :
      (nav : Nav) (count : ℕ)
      → 0 < nav.maximum_number_of_displayed_lines_
      → nav.maximum_number_of_displayed_lines_ < u32_mod
      → nav.cursor_ < u32_mod
      → (r : Nav × Bool) × (up f nav count ≡ some r)
  unfolding up fixup_up_count_by_wrap_mode
  up-returns nav count hp hd h = elim (ℕ_discrete count 0) [
    | yes z ↦
        let (r, q) = fixed_up-returns nav (fixup false 0) hp hd h (inr refl) in (r, ground arith)
    | no z ↦
        let (n1, q1, s1) = check_selection-returns f law nav h in
        let k = check_selection_keeps nav n1 q1 in
        let x = fixup_up f n1.wrap_mode_ (get_line_number_by_item f n1.cursor_) count in
        let c : (f.is_list_nonempty ≡ true) ⊎ (x ≡ fixup false 0) =
          elim (Bool-cases f.is_list_nonempty) [
            | inl t ↦ inl t
            | inr t ↦ inr (fixup_up_empty f law _ _ count t)
          ] in
        let (r, q) =
          fixed_up-returns n1 x (omega (arith, k, hp)) (omega (arith, k, hd)) (Spot-bounded s1) c in
        (r, ground arith)
  ]

-- With a filter that keeps its promises, whatever the list is, and a display of at least one line,
-- every operation comes to an end: no assertion fails, and none of them runs past the end of the
-- list for want of a visible or selectable item.
pub moves_return :
    (f : NavItemFilter) (nav : Nav) (count : ℕ)
    → IsLawful f
    → nav.cursor_ < u32_mod
    → 0 < nav.maximum_number_of_displayed_lines_
    → nav.maximum_number_of_displayed_lines_ < u32_mod
    → ((r : Nav × Bool) × (down f nav count ≡ some r))
      × ((r : Nav × Bool) × (up f nav count ≡ some r))
      × ((nav' : Nav) × (set_cursor_by_line_number f nav count ≡ some nav') × Spot f nav'.cursor_)
moves_return f nav count law h hp hd = (
  down-returns f law nav count hp hd h,
  up-returns f law nav count hp hd h,
  set_cursor-returns f law nav count hp hd,
)

-- The filter that hides nothing keeps its promises.
pub filter_of-IsLawful : (m : ℕ) → suc m < u32_mod → IsLawful (filter_of (suc m))
unfolding filter_of
filter_of-IsLawful m h = record {
  visible_first = omega arith;
  selectable_order = omega arith;
  visible_last = omega arith;
  bounded = ground arith;
  first_selectable = λ e. is_selectable_all m _;
  last_selectable = λ e. is_selectable_all m _;
  first_visible = λ e. is_visible_all m _;
  last_visible = λ e. is_visible_all m _;
  empty_total = λ e. absurd (ground (arith, e));
  empty_line = λ e line. absurd (ground (arith, e));
  mapped = λ line e. ground (arith, e);
  mapped_line = λ line e. ground (arith, e);
  total_bounded = ground arith;
}
