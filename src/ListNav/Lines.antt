-- ===== src/ListNav/Lines.antt =====
-- src/listnav.hh: the iterator over the displayed items.
use drcpd.Common.{
  ℕ, zero, suc, Option, some, none, List, [], ◌∷◌, ltb, leb, ◌==◌, if◌then◌else◌, add32, ◌>>=◌,
}
use drcpd.ListNav.{NavItemFilter, Nav, is_visible, step_forward_visible}

pub record Iterator : Type 0 where
  pub item_ : ℕ
  pub line_number_ : ℕ

module _ (f : NavItemFilter) (maximum : ℕ) where
  unfoldable pub find_next_visible_item : Iterator → Option Iterator
  find_next_visible_item it =
      if leb maximum it.line_number_
      then some it
      else if ltb it.item_ f.get_last_visible_item
      then (step_forward_visible f it.item_ >>= λ item.
          some (record { item_ = item; line_number_ = add32 it.line_number_ 1 }))
      else some (record it { line_number_ = maximum })

  unfoldable pub const_iterator : ℕ → ℕ → Option Iterator
  const_iterator item line_number =
      if f.is_tied
      then (if is_visible f item
          then some (record { item_ = item; line_number_ = line_number })
          else find_next_visible_item (record { item_ = item; line_number_ = line_number }))
      else some (record { item_ = item; line_number_ = maximum })

  -- The items that a range-based loop goes through, up to an iterator at line `last`.
  unfoldable pub items_until : ℕ → ℕ → Iterator → Option (List ℕ)
  items_until last zero it = if it.line_number_ == last then some [] else none
  items_until last (suc steps) it =
      if it.line_number_ == last
      then some []
      else (find_next_visible_item it >>= items_until last steps >>= λ items.
          some (it.item_ ∷ items))

unfoldable pub displayed_items : NavItemFilter → Nav → Option (List ℕ)
displayed_items f nav =
    let maximum = nav.maximum_number_of_displayed_lines_ in
    const_iterator f maximum nav.first_displayed_item_ 0 >>= λ begin.
    const_iterator f maximum nav.first_displayed_item_ maximum >>= λ end.
    items_until f maximum end.line_number_ maximum begin
