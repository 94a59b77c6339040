-- ===== src/ListNav/Terminates.antt =====
-- For every filter that keeps its promises, the searches for the next item end within the list, and
-- so every operation returns.
use drcpd.Common.{
  ℕ, zero, suc, ◌+◌, ◌-◌, ◌≤◌, ◌<◌, ◌≡◌, inl, inr, Bool, true, false, Option, some, none, ltb,
  if◌then◌else◌, add32, sub32, u32_mod, arith, refl, Bool-cases, ℕ_discrete, dec_le, subst, sym,
  Option-cases,
}
use drcpd.ListNav.{
  NavItemFilter, Nav, WrapMode, is_visible, is_selectable, step_forward, step_back,
  step_forward_selection, step_back_selection, step_forward_visible, step_back_visible,
  display_from, count_lines, recover_first_displayed_item_by_cursor, recover_cursor_and_selection,
}
use drcpd.ListNav.Moves.{
  fixup, check_selection, set_cursor_by_line_number, centered_line, holds_line, is_some_selectable,
  written, down_lines, up_lines, fixup_down, fixup_up,
}

-- What an operation relies on: the first and the last items are what they are said to be, and an
-- empty list has no lines.
pub record IsLawful (f : NavItemFilter) : Type 0 where
  pub visible_first : f.get_first_visible_item ≤ f.get_first_selectable_item
  pub selectable_order : f.get_first_selectable_item ≤ f.get_last_selectable_item
  pub visible_last : f.get_last_selectable_item ≤ f.get_last_visible_item
  pub bounded : f.get_last_visible_item < u32_mod
  pub first_selectable :
      f.is_list_nonempty ≡ true → is_selectable f f.get_first_selectable_item ≡ true
  pub last_selectable :
      f.is_list_nonempty ≡ true → is_selectable f f.get_last_selectable_item ≡ true
  pub first_visible : f.is_list_nonempty ≡ true → is_visible f f.get_first_visible_item ≡ true
  pub last_visible : f.is_list_nonempty ≡ true → is_visible f f.get_last_visible_item ≡ true
  pub empty_total : f.is_list_nonempty ≡ false → f.get_total_number_of_visible_items ≡ 0
  pub empty_line : f.is_list_nonempty ≡ false → (line : ℕ) → f.map_line_number_to_item line ≡ none
  pub mapped :
      (line : ℕ) {item : ℕ}
      → f.map_line_number_to_item line ≡ some item
      → item ≤ f.get_last_visible_item
  pub mapped_line :
      (line : ℕ) {item : ℕ}
      → f.map_line_number_to_item line ≡ some item
      → line < f.get_total_number_of_visible_items
  pub total_bounded : f.get_total_number_of_visible_items < u32_mod

-- An item that is accepted is found, at the last one at the latest.
pub step_forward_lem :
    (p : ℕ → Bool) (k item last : ℕ)
    → item + k ≡ last
    → 0 < k
    → last < u32_mod
    → p last ≡ true
    → (r : ℕ) × (step_forward p k item ≡ some r) × (item < r) × (r ≤ last) × (p r ≡ true)
unfolding step_forward
step_forward_lem p zero item last e hk h hp = absurd (omega arith)
step_forward_lem p (suc k) item last e hk h hp =
    let s : add32 item 1 ≡ suc item = omega arith in
    elim (Bool-cases (p (suc item))) [
      | inl t ↦ (suc item, ground arith, omega arith, omega arith, t)
      | inr t ↦ elim (ℕ_discrete k 0) [
        | yes z ↦ absurd (let q : last ≡ suc item = omega arith in ground arith)
        | no z ↦
            let (r, e', a, b, c) =
              step_forward_lem p k (suc item) last (omega arith) (omega arith) h hp in
            (r, ground arith, omega arith, b, c)
      ]
    ]

pub step_back_lem :
    (p : ℕ → Bool) (k item first : ℕ)
    → first + k ≡ item
    → 0 < k
    → item < u32_mod
    → p first ≡ true
    → (r : ℕ) × (step_back p k item ≡ some r) × (first ≤ r) × (r < item) × (p r ≡ true)
unfolding step_back
step_back_lem p zero item first e hk h hp = absurd (omega arith)
step_back_lem p (suc k) item first e hk h hp =
    let s : sub32 item 1 ≡ item - 1 = omega arith in
    elim (Bool-cases (p (item - 1))) [
      | inl t ↦ (item - 1, ground arith, omega arith, omega arith, t)
      | inr t ↦ elim (ℕ_discrete k 0) [
        | yes z ↦ absurd (let q : first ≡ item - 1 = omega arith in ground arith)
        | no z ↦
            let (r, e', a, b, c) =
              step_back_lem p k (item - 1) first (omega arith) (omega arith) (omega arith) hp in
            (r, ground arith, a, omega arith, c)
      ]
    ]

-- The cursor is at an item that can be selected, or the list is empty.
pub data Spot (f : NavItemFilter) (cursor : ℕ) : Type 0 where
  on_item :
      f.is_list_nonempty ≡ true → is_selectable f cursor ≡ true → cursor < u32_mod → Spot f cursor
  on_nothing : f.is_list_nonempty ≡ false → cursor ≡ 0 → Spot f cursor

nonempty-selectable :
    (f : NavItemFilter) (i : ℕ) → is_selectable f i ≡ true → f.is_list_nonempty ≡ true
unfolding is_selectable
nonempty-selectable f i e = ground arith

module _ (f : NavItemFilter) (law : IsLawful f) where
  display_from-returns :
      (k c : ℕ) → f.is_list_nonempty ≡ true → c < u32_mod → (r : ℕ) × (display_from f k c ≡ some r)
  unfolding display_from step_back_visible
  display_from-returns zero c e h = (c, refl)
  display_from-returns (suc k) c e h = elim (dec_le c f.get_first_visible_item) [
    | yes le ↦ (c, ground arith)
    | no le ↦
        let (c', s, a, b, v) =
          step_back_lem (is_visible f) (c - f.get_first_visible_item) c f.get_first_visible_item
            (omega arith) (omega arith) h (law.first_visible e) in
        let (r, q) = display_from-returns k c' e (omega arith) in (r, ground arith)
  ]

  recover_first-returns :
      (nav : Nav)
      → f.is_list_nonempty ≡ true
      → nav.cursor_ < u32_mod
      → (nav' : Nav) × (recover_first_displayed_item_by_cursor f nav ≡ some nav')
        × (nav'.cursor_ ≡ nav.cursor_)
  unfolding recover_first_displayed_item_by_cursor
  recover_first-returns nav e h =
      let (r, q) = display_from-returns nav.selected_line_number_ nav.cursor_ e h in
      (record nav { first_displayed_item_ = r }, ground arith, refl)

  count_lines-returns :
      (k c item line : ℕ)
      → f.is_list_nonempty ≡ true
      → c ≤ f.get_last_visible_item
      → (r : ℕ) × (count_lines f k c item line ≡ some r)
  unfolding count_lines step_forward_visible
  count_lines-returns zero c item line e h = (line, refl)
  count_lines-returns (suc k) c item line e h = elim (dec_le c item) [
    | yes le ↦ (line, ground arith)
    | no le ↦
        let (next, s, a, b, v) =
          step_forward_lem (is_visible f) (f.get_last_visible_item - item) item
            f.get_last_visible_item (omega arith) (omega arith) law.bounded (law.last_visible e) in
        let (r, q) = count_lines-returns k c next (suc line) e h in (r, ground arith)
  ]

  pub recover_cursor-returns :
      (nav : Nav)
      → (nav' : Nav) × (recover_cursor_and_selection f nav ≡ some nav') × Spot f nav'.cursor_
  unfolding recover_cursor_and_selection
  recover_cursor-returns nav = elim (Bool-cases f.is_list_nonempty) [
    | inl e ↦
        let first = f.get_first_selectable_item in
        let o : first ≤ f.get_last_visible_item =
          omega (arith, law.selectable_order, law.visible_last) in
        let (line, q) =
          count_lines-returns nav.maximum_number_of_displayed_lines_ first f.get_first_visible_item
            0 e o in
        let (nav', q', c) =
          recover_first-returns (record nav { cursor_ = first; selected_line_number_ = line }) e
            (omega (arith, law.bounded)) in
        (
          nav',
          ground arith,
          on_item e (subst (λ (i : ℕ). is_selectable f i ≡ true) (sym c) (law.first_selectable e))
              (omega (arith, c, law.bounded)),
        )
    | inr e ↦ (
      record nav { cursor_ = 0; first_displayed_item_ = 0; selected_line_number_ = 0 },
      ground arith,
      on_nothing e refl,
    )
  ]

  pub check_selection-returns :
      (nav : Nav)
      → nav.cursor_ < u32_mod
      → (nav' : Nav) × (check_selection f nav ≡ some nav') × Spot f nav'.cursor_
  unfolding check_selection
  check_selection-returns nav h = elim (Bool-cases (is_selectable f nav.cursor_)) [
    | inl e ↦ (nav, ground arith, on_item (nonempty-selectable f nav.cursor_ e) e h)
    | inr e ↦ let (nav', q, a) = recover_cursor-returns nav in (nav', ground arith, a)
  ]

  pub down_lines-returns :
      (k : ℕ) (nav : Nav)
      → f.is_list_nonempty ≡ true
      → nav.cursor_ < u32_mod
      → is_selectable f nav.cursor_ ≡ true
      → (nav' : Nav) × (down_lines f k nav ≡ some nav')
        × (nav'.cursor_ < u32_mod)
        × (is_selectable f nav'.cursor_ ≡ true)
  unfolding down_lines step_forward_selection
  down_lines-returns zero nav e h s = (nav, refl, h, s)
  down_lines-returns (suc k) nav e h s =
      let last = f.get_last_selectable_item in
      elim (dec_le last nav.cursor_) [
        | yes le ↦ (nav, ground arith, h, s)
        | no le ↦
            let (next, q, a, b, v) =
              step_forward_lem (is_selectable f) (last - nav.cursor_) nav.cursor_ last (omega arith)
                (omega arith) (omega (arith, law.visible_last, law.bounded))
                (law.last_selectable e) in
            let lines =
              if ltb nav.selected_line_number_ (sub32 nav.maximum_number_of_displayed_lines_ 1)
              then add32 nav.selected_line_number_ 1
              else nav.selected_line_number_ in
            let (nav', q', c, w) =
              down_lines-returns k (record nav { cursor_ = next; selected_line_number_ = lines }) e
                (omega (arith, law.visible_last, law.bounded)) v in
            (nav', ground arith, c, w)
      ]

  pub up_lines-returns :
      (k : ℕ) (nav : Nav)
      → f.is_list_nonempty ≡ true
      → nav.cursor_ < u32_mod
      → is_selectable f nav.cursor_ ≡ true
      → (nav' : Nav) × (up_lines f k nav ≡ some nav')
        × (nav'.cursor_ < u32_mod)
        × (is_selectable f nav'.cursor_ ≡ true)
  unfolding up_lines step_back_selection
  up_lines-returns zero nav e h s = (nav, refl, h, s)
  up_lines-returns (suc k) nav e h s =
      let first = f.get_first_selectable_item in
      elim (dec_le nav.cursor_ first) [
        | yes le ↦ (nav, ground arith, h, s)
        | no le ↦
            let (next, q, a, b, v) =
              step_back_lem (is_selectable f) (nav.cursor_ - first) nav.cursor_ first (omega arith)
                (omega arith) h (law.first_selectable e) in
            let (nav', q', c, w) =
              up_lines-returns k
                (record nav {
                  cursor_ = next;
                  selected_line_number_ = nav.selected_line_number_ - 1;
                })
                e (omega arith) v in
            (nav', ground arith, c, w)
      ]

  display_from-zero : (k c : ℕ) → c ≡ 0 → display_from f k c ≡ some c
  unfolding display_from
  display_from-zero zero c z = refl
  display_from-zero (suc k) c z = ground arith

  pub recover_first-Spot :
      (nav : Nav)
      → Spot f nav.cursor_
      → (nav' : Nav) × (recover_first_displayed_item_by_cursor f nav ≡ some nav')
        × Spot f nav'.cursor_
  unfolding recover_first_displayed_item_by_cursor
  recover_first-Spot nav (on_item e s h) =
      let (nav', q, c) = recover_first-returns nav e h in
      (nav', q, subst (Spot f) (sym c) (on_item e s h))
  recover_first-Spot nav (on_nothing e z) =
      let q = display_from-zero nav.selected_line_number_ nav.cursor_ z in
      (record nav { first_displayed_item_ = nav.cursor_ }, ground arith, on_nothing e z)

  mapped-nonempty :
      (line i : ℕ) → f.map_line_number_to_item line ≡ some i → f.is_list_nonempty ≡ true
  mapped-nonempty line i e = elim (Bool-cases f.is_list_nonempty) [
    | inl t ↦ t
    | inr t ↦ let n = law.empty_line t line in absurd (ground arith)
  ]

  centered_line_bound :
      (displayed total line : ℕ)
      → line < total
      → total < u32_mod
      → 0 < displayed
      → displayed < u32_mod
      → centered_line displayed total line < displayed
  unfolding centered_line
  centered_line_bound displayed total line h ht hp hd = ground arith

  pub set_cursor-returns :
      (nav : Nav) (line : ℕ)
      → 0 < nav.maximum_number_of_displayed_lines_
      → nav.maximum_number_of_displayed_lines_ < u32_mod
      → (nav' : Nav) × (set_cursor_by_line_number f nav line ≡ some nav') × Spot f nav'.cursor_
  unfolding set_cursor_by_line_number is_some_selectable written is_selectable holds_line
  set_cursor-returns nav line hp hd = elim (ℕ_discrete line 0) [
    | yes z ↦ let (nav', q, a) = recover_cursor-returns nav in (nav', ground arith, a)
    | no z ↦
        let item = f.map_line_number_to_item line in
        elim (Option-cases item) [
          | inl e ↦ let (nav', q, a) = recover_cursor-returns nav in (nav', ground arith, a)
          | inr (i, e) ↦ elim (Bool-cases (f.is_selectable (f.get_flags_for_item i))) [
            | inl t ↦
                let full = mapped-nonempty line i e in
                let below = law.mapped_line line e in
                let on_display =
                  centered_line_bound nav.maximum_number_of_displayed_lines_
                    f.get_total_number_of_visible_items line below law.total_bounded hp hd in
                let sel : is_selectable f i ≡ true = ground arith in
                let nav'' = record nav {
                  cursor_ = i;
                  selected_line_number_ =
                      centered_line nav.maximum_number_of_displayed_lines_
                        f.get_total_number_of_visible_items line;
                } in
                let (nav', q, a) =
                  recover_first-Spot nav''
                    (on_item full sel (omega (arith, law.mapped line e, law.bounded))) in
                (nav', ground arith, a)
            | inr t ↦
                let (nav', q, a) = recover_cursor-returns (record nav { cursor_ = i }) in
                (nav', ground arith, a)
          ]
        ]
  ]

  pub fixup_down_empty :
      (mode : WrapMode) (line : Option ℕ) (count : ℕ)
      → f.is_list_nonempty ≡ false
      → fixup_down f mode line count ≡ fixup false 0
  unfolding fixup_down
  fixup_down_empty mode none count e = refl
  fixup_down_empty mode (some line) count e = let z = law.empty_total e in ground arith

  pub fixup_up_empty :
      (mode : WrapMode) (line : Option ℕ) (count : ℕ)
      → f.is_list_nonempty ≡ false
      → fixup_up f mode line count ≡ fixup false 0
  unfolding fixup_up
  fixup_up_empty mode none count e = refl
  fixup_up_empty mode (some line) count e = let z = law.empty_total e in ground arith
