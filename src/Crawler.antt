-- ===== src/Crawler.antt =====
-- src/playlist_crawler.hh, src/playlist_crawler_ops.hh, src/directory_crawler.hh and
-- src/directory_crawler.cc: the state of the crawler that finds the streams of a directory
-- hierarchy, and the cursor that it moves. A list ID is a number, 0 if it is not valid; a text with
-- its preloaded meta data is known by a number. A failed assertion, a search of the navigation that
-- runs off the list and a call of an empty function are `none`.
pub mod Operation
pub mod FindNext
pub mod Events
pub mod Steps
pub mod Rounds
pub mod Walk
pub mod Entered
pub mod Turns
pub mod Tree
pub mod Finds
pub mod Explore
pub mod First
pub mod Start
pub mod Lives
pub mod Backward
pub mod Bounds
use drcpd.Common.{
  ℕ, zero, suc, ◌+◌, ◌-◌, Bool, true, false, not, ◌&&◌, ◌||◌, Option, none, some, ltb, leb, ◌==◌,
  if◌then◌else◌, add32, sub32, ◌>>=◌,
}
use drcpd.ListNav.{Nav}
use drcpd.ListNav.Moves.{down, up, set_cursor_by_line_number, copy_state_from}
use drcpd.ListNav.Laws.{filter_of}

pub data Direction : Type 0 where
  no_direction forward backward : Direction

unfoldable pub is_forward_direction : Direction → Bool
is_forward_direction Direction.no_direction = true
is_forward_direction Direction.forward = true
is_forward_direction Direction.backward = false

pub data RecursiveMode : Type 0 where
  flat depth_first : RecursiveMode

pub data PositionalState : Type 0 where
  unknown somewhere_in_list reached_start_of_list reached_end_of_list : PositionalState

pub data FindMode : Type 0 where
  find_first find_next : FindMode

pub data CallerId : Type 0 where
  enter_root enter_child enter_parent enter_context_root enter_anywhere reload_list : CallerId
  crawler_reset_position crawler_first_entry crawler_descend crawler_ascend : CallerId

pub data OpResult : Type 0 where
  started busy succeeded failed canceled : OpResult

pub record Item : Type 0 where
  pub is_directory : Bool
  pub text : ℕ

-- The errors of the list broker.
pub data ListError : Type 0 where
  ok internal invalid_id invalid_uri inconsistent out_of_range empty overflown : ListError
  underflown invalid_stream_url invalid_strbo_url not_found busy_500 busy_1000 : ListError
  busy_1500 busy_3000 busy_5000 busy interrupted physical_media_io net_io protocol : ListError
  authentication not_supported permission_denied : ListError

pub data ChildAnswer : Type 0 where
  child_id : ℕ → ChildAnswer
  exception : ListError → ChildAnswer

-- What the list broker and the D-Bus list answer while an event is handled.
pub record World : Type 0 where
  pub get_number_of_items : ℕ → ℕ
  pub get_item_async_set_hint : ℕ → ℕ → ℕ → OpResult
  pub get_item_async : ℕ → ℕ → OpResult
  pub item : ℕ → ℕ → Option Item
  pub get_child_item_id : ℕ → ℕ → ChildAnswer
  pub get_parent_link_id : ℕ → Option (ℕ × ℕ)
  pub enter_list_async : ℕ → ℕ → CallerId → OpResult

-- `items_` is the number of items that the cursor's filter has seen in the list.
pub record Cursor : Type 0 where
  pub list_id_ : ℕ
  pub nav_ : Nav
  pub items_ : ℕ
  pub directory_depth_ : ℕ
  pub requested_list_id_ : ℕ
  pub requested_line_ : ℕ

unfoldable pub moved_to : Cursor → Option (Nav × Bool) → Option (Cursor × Bool)
moved_to c none = none
moved_to c (some (nav, moved)) = some (record c { nav_ = nav }, moved)

unfoldable pub advance : Cursor → Direction → Option (Cursor × Bool)
unfolding moved_to
advance c Direction.no_direction = some (c, false)
advance c Direction.forward = moved_to c (down (filter_of c.items_) c.nav_ 1)
advance c Direction.backward = moved_to c (up (filter_of c.items_) c.nav_ 1)

unfoldable pub sync_list_id_with_request : Cursor → ℕ → Cursor
sync_list_id_with_request c depth = record c {
  list_id_ = c.requested_list_id_;
  directory_depth_ = depth;
}

unfoldable pub sync_request_with_pos : Cursor → Cursor
sync_request_with_pos c = record c {
  requested_line_ = c.nav_.cursor_;
  requested_list_id_ = c.list_id_;
}

unfoldable pub assign : Cursor → Cursor → Cursor
unfolding copy_state_from
assign c src = record src { nav_ = copy_state_from c.nav_ src.nav_; items_ = c.items_ }

unfoldable pub clear_cursor : Cursor → Option Cursor
clear_cursor c = set_cursor_by_line_number (filter_of c.items_) c.nav_ 0 >>= λ nav. some (record c {
  list_id_ = 0;
  directory_depth_ = 0;
  requested_list_id_ = 0;
  requested_line_ = 0;
  nav_ = nav;
})

unfoldable pub list_invalidate : Cursor → ℕ → ℕ → Cursor × Bool
list_invalidate c list_id replacement_id =
    let c' = record c {
      requested_list_id_ =
          if c.requested_list_id_ == list_id then replacement_id else c.requested_list_id_;
    } in
    if c.list_id_ == list_id then (record c' { list_id_ = replacement_id }, true) else (c', false)

unfoldable pub is_list_empty : Cursor → Bool
is_list_empty c = c.items_ == 0

-- The lines that are asked for: the first one and how many.
unfoldable pub hint_range : Cursor → Bool → ℕ × ℕ
hint_range c is_forward =
    let hint_count = c.nav_.maximum_number_of_displayed_lines_ in
    let cursor_pos = c.nav_.cursor_ in
    if leb c.items_ hint_count
    then (0, c.items_)
    else if is_forward
    then (
      if leb (add32 cursor_pos hint_count) c.items_ then cursor_pos else sub32 c.items_ hint_count,
      hint_count,
    )
    else (
      if leb hint_count cursor_pos then sub32 cursor_pos (sub32 hint_count 1) else 0,
      hint_count,
    )

-- `list` is the list that the D-Bus list has entered.
unfoldable pub hint_planned_access : World → ℕ → Cursor → Bool → Option OpResult
unfolding hint_range
hint_planned_access w list c is_forward =
    let (start_pos, count) = hint_range c is_forward in
    if c.nav_.maximum_number_of_displayed_lines_ == 0
    then none
    else some (w.get_item_async_set_hint list start_pos count)
