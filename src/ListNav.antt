-- ===== src/ListNav.antt =====
-- src/listnav.hh: the filter that hides items of a list, and the cursor and the displayed lines of
-- a list that is browsed through a filter. A line number that is -1 in the source is `none`; a
-- loop that finds no item up to the last one, and so goes on beyond the list, has no result.
pub mod Lines
pub mod Terminates
pub mod Returns
pub mod Laws
pub mod Moves
pub mod Cursor
pub mod Walk
pub mod Browse
use drcpd.Common.{
  ℕ, zero, suc, ◌+◌, ◌-◌, ◌/◌, Bool, true, false, not, ◌&&◌, ◌||◌, Option, none, some, ltb, leb,
  ◌==◌, if◌then◌else◌, add32, sub32, u32_max, ◌>>=◌,
}

-- The answers that a filter gives while an operation runs.
pub record NavItemFilter : Type 0 where
  pub is_list_nonempty : Bool
  pub is_tied : Bool
  pub ensure_consistency : Bool
  pub is_visible : ℕ → Bool
  pub is_selectable : ℕ → Bool
  pub get_first_selectable_item : ℕ
  pub get_last_selectable_item : ℕ
  pub get_first_visible_item : ℕ
  pub get_last_visible_item : ℕ
  pub get_total_number_of_visible_items : ℕ
  pub get_flags_for_item : ℕ → ℕ
  pub map_line_number_to_item : ℕ → Option ℕ
  pub map_item_to_line_number : ℕ → Option ℕ

-- The list and the viewport are named by numbers.
pub record NavItemNoFilter : Type 0 where
  pub list_ : Option ℕ
  pub viewport_ : Option ℕ
  pub number_of_items_minus_1_ : ℕ
  pub contains_items_ : Bool

pub is_named : Option ℕ → ℕ → Bool
is_named none id = false
is_named (some other) id = other == id

pub size_of : (ℕ → ℕ) → Option ℕ → ℕ
size_of get_number_of_items none = 0
size_of get_number_of_items (some list) = get_number_of_items list

unfoldable pub list_content_changed : (ℕ → ℕ) → NavItemNoFilter → NavItemNoFilter
unfolding size_of
list_content_changed get_number_of_items filter =
    let n = size_of get_number_of_items filter.list_ in
    record filter {
      contains_items_ = ltb 0 n;
      number_of_items_minus_1_ = if ltb 0 n then n - 1 else 0;
    }

unfoldable pub tie : (ℕ → ℕ) → NavItemNoFilter → ℕ → ℕ → NavItemNoFilter
unfolding is_named list_content_changed
tie get_number_of_items filter vp list =
    if is_named filter.viewport_ vp && is_named filter.list_ list
    then filter
    else if is_named filter.list_ list
    then record filter { viewport_ = some vp }
    else list_content_changed get_number_of_items
        (record filter { viewport_ = some vp; list_ = some list })

unfoldable pub untie : NavItemNoFilter → NavItemNoFilter
untie filter = record filter { list_ = none; viewport_ = none }

abbrev pub is_some : Option ℕ → Bool
is_some none = false
is_some (some a) = true

unfoldable pub no_filter : (ℕ → ℕ) → NavItemNoFilter → NavItemFilter
unfolding size_of
no_filter get_number_of_items filter =
    let last = filter.number_of_items_minus_1_ in
    let within : ℕ → Option ℕ =
      λ i. if not filter.contains_items_ || ltb last i then none else some i in
    record {
      is_list_nonempty = not (size_of get_number_of_items filter.list_ == 0);
      is_tied = is_some filter.list_;
      ensure_consistency = false;
      is_visible = λ flags. filter.contains_items_;
      is_selectable = λ flags. filter.contains_items_;
      get_first_selectable_item = 0;
      get_last_selectable_item = last;
      get_first_visible_item = 0;
      get_last_visible_item = last;
      get_total_number_of_visible_items = if filter.contains_items_ then add32 last 1 else 0;
      get_flags_for_item = λ item. 0;
      map_line_number_to_item = within;
      map_item_to_line_number = within;
    }

pub data WrapMode : Type 0 where
  no_wrap wrap_to_top wrap_to_bottom full_wrap : WrapMode

pub record Nav : Type 0 where
  pub cursor_ : ℕ
  pub first_displayed_item_ : ℕ
  pub selected_line_number_ : ℕ
  pub wrap_mode_ : WrapMode
  pub maximum_number_of_displayed_lines_ : ℕ

unfoldable pub wraps_to_top : WrapMode → Bool
wraps_to_top WrapMode.no_wrap = false
wraps_to_top WrapMode.wrap_to_top = true
wraps_to_top WrapMode.wrap_to_bottom = false
wraps_to_top WrapMode.full_wrap = true

unfoldable pub wraps_to_bottom : WrapMode → Bool
wraps_to_bottom WrapMode.no_wrap = false
wraps_to_bottom WrapMode.wrap_to_top = false
wraps_to_bottom WrapMode.wrap_to_bottom = true
wraps_to_bottom WrapMode.full_wrap = true

pub step_forward : (ℕ → Bool) → ℕ → ℕ → Option ℕ
step_forward accepts zero item = none
step_forward accepts (suc steps) item = elim (accepts (add32 item 1)) [
  | true ↦ some (add32 item 1)
  | false ↦ step_forward accepts steps (add32 item 1)
]

pub step_back : (ℕ → Bool) → ℕ → ℕ → Option ℕ
step_back accepts zero item = none
step_back accepts (suc steps) item = elim (accepts (sub32 item 1)) [
  | true ↦ some (sub32 item 1)
  | false ↦ step_back accepts steps (sub32 item 1)
]

module _ (f : NavItemFilter) where
  unfoldable pub is_visible : ℕ → Bool
  is_visible item = if f.is_list_nonempty then f.is_visible (f.get_flags_for_item item) else false

  unfoldable pub is_selectable : ℕ → Bool
  is_selectable item =
      if f.is_list_nonempty then f.is_selectable (f.get_flags_for_item item) else false

  unfoldable pub step_forward_selection : ℕ → Option ℕ
  step_forward_selection item = step_forward is_selectable (f.get_last_selectable_item - item) item

  unfoldable pub step_back_selection : ℕ → Option ℕ
  step_back_selection item = step_back is_selectable (item - f.get_first_selectable_item) item

  unfoldable pub step_forward_visible : ℕ → Option ℕ
  step_forward_visible item = step_forward is_visible (f.get_last_visible_item - item) item

  unfoldable pub step_back_visible : ℕ → Option ℕ
  step_back_visible item = step_back is_visible (item - f.get_first_visible_item) item

  pub display_from : ℕ → ℕ → Option ℕ
  display_from zero first = some first
  display_from (suc lines) first = elim (ltb f.get_first_visible_item first) [
    | true ↦ step_back_visible first >>= display_from lines
    | false ↦ some first
  ]

  unfoldable pub recover_first_displayed_item_by_cursor : Nav → Option Nav
  recover_first_displayed_item_by_cursor nav =
      display_from nav.selected_line_number_ nav.cursor_ >>= λ first.
      some (record nav { first_displayed_item_ = first })

  -- The number of visible items before the cursor, up to the number of lines that are left.
  pub count_lines : ℕ → ℕ → ℕ → ℕ → Option ℕ
  count_lines zero cursor item line = some line
  count_lines (suc lines) cursor item line = elim (ltb item cursor) [
    | true ↦ step_forward_visible item >>= λ next. count_lines lines cursor next (suc line)
    | false ↦ some line
  ]

  unfoldable pub recover_cursor_and_selection : Nav → Option Nav
  recover_cursor_and_selection nav =
      if f.is_list_nonempty
      then (count_lines nav.maximum_number_of_displayed_lines_ f.get_first_selectable_item
            f.get_first_visible_item 0
          >>= λ line.
              recover_first_displayed_item_by_cursor (record nav {
                cursor_ = f.get_first_selectable_item;
                selected_line_number_ = line;
              }))
      else some (record nav { cursor_ = 0; first_displayed_item_ = 0; selected_line_number_ = 0 })
