-- ===== src/Crawler/FindNext.antt =====
-- src/directory_crawler.hh and src/directory_crawler_find_next_op.cc: the operation that finds the
-- next stream. `list_id` is the list that the D-Bus list has entered, `entering` the list that is
-- being entered. Of the meta data is known from which item they are taken. A step of the operation
-- takes the answers of the world while it runs.
use drcpd.Common.{
  ℕ, zero, suc, ◌+◌, Bool, true, false, not, ◌&&◌, ◌||◌, Option, none, some, leb, ◌==◌,
  if◌then◌else◌, ◌>>=◌,
}
use drcpd.Crawler.{
  Direction, is_forward_direction, RecursiveMode, PositionalState, FindMode, CallerId, OpResult,
  Item, ListError, ChildAnswer, child_id, exception, World, Cursor, advance, hint_planned_access,
}
use drcpd.Crawler.Operation.{OperationBase, operation_finished, is_op_canceled}

pub record EnterList : Type 0 where
  pub list_id_ : ℕ
  pub line_ : ℕ
  pub caller_id : CallerId

pub record FindNextOp : Type 0 where
  pub base : OperationBase
  pub recursive_mode_ : RecursiveMode
  pub direction_ : Direction
  pub directory_depth_ : ℕ
  pub find_mode_ : FindMode
  pub directories_skipped_ : ℕ
  pub directories_entered_ : ℕ
  pub pos_state_ : PositionalState
  pub meta_data_ : Option ℕ
  pub position_ : Cursor
  pub entering_list_caller_id_ : CallerId
  pub is_waiting_for_item_hint_ : Bool
  pub has_skipped_first_ : Bool
  pub file_item_ : Option Item
  pub list_id : ℕ
  pub entering : Option EnterList

abbrev pub max_directory_depth : ℕ
max_directory_depth = 100

unfoldable pub first_caller_id : Direction → CallerId
first_caller_id Direction.no_direction = CallerId.crawler_reset_position
first_caller_id Direction.forward = CallerId.crawler_first_entry
first_caller_id Direction.backward = CallerId.crawler_first_entry

-- `list_id` is what the D-Bus list has entered before.
unfoldable pub construct :
    OperationBase → RecursiveMode → Direction → Cursor → FindMode → ℕ → FindNextOp
construct base mode direction position find_mode list_id = record {
  base = base;
  recursive_mode_ = mode;
  direction_ = direction;
  directory_depth_ = position.directory_depth_;
  find_mode_ = find_mode;
  directories_skipped_ = 0;
  directories_entered_ = 0;
  pos_state_ = PositionalState.unknown;
  meta_data_ = none;
  position_ = position;
  entering_list_caller_id_ = first_caller_id direction;
  is_waiting_for_item_hint_ = false;
  has_skipped_first_ = false;
  file_item_ = none;
  list_id = list_id;
  entering = none;
}

pub data Continue : Type 0 where
  not_with_error not_with_success later with_this_item : Continue

unfoldable pub check_skip_directory : RecursiveMode → ℕ → Bool
check_skip_directory RecursiveMode.flat depth = true
check_skip_directory RecursiveMode.depth_first depth = leb max_directory_depth depth

unfoldable pub finish_op : FindNextOp → Bool → Option FindNextOp
finish_op op is_successful =
    operation_finished is_successful op.base >>= λ base. some (record op { base = base })

-- Has the operation finished, or does it wait?
unfoldable pub finish_op_if_possible : FindNextOp → Continue → Option (FindNextOp × Bool)
unfolding finish_op
finish_op_if_possible op Continue.not_with_error = finish_op op false >>= λ o. some (o, true)
finish_op_if_possible op Continue.not_with_success = finish_op op true >>= λ o. some (o, true)
finish_op_if_possible op Continue.later = some (op, true)
finish_op_if_possible op Continue.with_this_item = some (op, false)

unfoldable pub is_hard_error : ListError → Bool
is_hard_error ListError.ok = true
is_hard_error ListError.internal = true
is_hard_error ListError.invalid_id = true
is_hard_error ListError.invalid_uri = true
is_hard_error ListError.inconsistent = true
is_hard_error ListError.out_of_range = true
is_hard_error ListError.empty = true
is_hard_error ListError.overflown = true
is_hard_error ListError.underflown = true
is_hard_error ListError.invalid_stream_url = true
is_hard_error ListError.invalid_strbo_url = true
is_hard_error ListError.not_found = true
is_hard_error ListError.busy_500 = false
is_hard_error ListError.busy_1000 = false
is_hard_error ListError.busy_1500 = false
is_hard_error ListError.busy_3000 = false
is_hard_error ListError.busy_5000 = false
is_hard_error ListError.busy = false
is_hard_error ListError.interrupted = false
is_hard_error ListError.physical_media_io = false
is_hard_error ListError.net_io = false
is_hard_error ListError.protocol = false
is_hard_error ListError.authentication = false
is_hard_error ListError.not_supported = false
is_hard_error ListError.permission_denied = false

-- The list to enter, 0 if there is none, and whether that is a hard error.
unfoldable pub get_child_id_for_enter : ChildAnswer → ℕ × Bool
unfolding is_hard_error
get_child_id_for_enter (child_id list) = (list, false)
get_child_id_for_enter (exception e) = (0, is_hard_error e)

unfoldable pub text_of : Option Item → Option ℕ → Option ℕ
text_of none md = md
text_of (some i) md = some i.text

unfoldable pub fill_in_meta_data : FindNextOp → FindNextOp
unfolding text_of
fill_in_meta_data op = record op { meta_data_ = text_of op.file_item_ op.meta_data_ }

-- The operation has a result, which is not an item yet.
unfoldable pub found : FindNextOp → PositionalState → FindNextOp
unfolding fill_in_meta_data
found op state = fill_in_meta_data (record op { pos_state_ = state })

unfoldable pub end_of_list : Direction → PositionalState
unfolding is_forward_direction
end_of_list d =
    if is_forward_direction d
    then PositionalState.reached_end_of_list
    else PositionalState.reached_start_of_list

-- What becomes of the operation with the answer to entering a list.
unfoldable pub entered : FindNextOp → EnterList → OpResult → Option (FindNextOp × Continue)
entered op e OpResult.started = some (record op { entering = some e }, Continue.later)
entered op e OpResult.failed = some (op, Continue.not_with_error)
entered op e OpResult.succeeded = some (op, Continue.not_with_error)
entered op e OpResult.canceled = if is_op_canceled op.base then some (op, Continue.later) else none
entered op e OpResult.busy = none

unfoldable pub enter : World → FindNextOp → ℕ → ℕ → CallerId → Option (FindNextOp × Continue)
unfolding entered
enter w op list line cid =
    entered
      (record op {
        entering_list_caller_id_ = cid;
        position_ = record op.position_ { requested_list_id_ = list; requested_line_ = line };
      })
      (record { list_id_ = list; line_ = line; caller_id = cid }) (w.enter_list_async list line cid)

unfoldable pub to_parent : World → FindNextOp → Option (ℕ × ℕ) → Option (FindNextOp × Continue)
unfolding enter
to_parent w op none = some (op, Continue.not_with_error)
to_parent w op (some (list, line)) =
    if list == 0
    then some (op, Continue.not_with_error)
    else enter w op list line CallerId.crawler_ascend

-- The position has not moved.
unfoldable pub at_end : World → FindNextOp → Direction → Option (FindNextOp × Continue)
unfolding found end_of_list to_parent
at_end w op Direction.no_direction =
    some (found op PositionalState.somewhere_in_list, Continue.not_with_success)
at_end w op Direction.forward =
    if leb op.directory_depth_ 1
    then some (found op (end_of_list Direction.forward), Continue.not_with_success)
    else to_parent w op (w.get_parent_link_id op.list_id)
at_end w op Direction.backward =
    if leb op.directory_depth_ 1
    then some (found op (end_of_list Direction.backward), Continue.not_with_success)
    else to_parent w op (w.get_parent_link_id op.list_id)

unfoldable pub continue_search : World → FindNextOp → Option (FindNextOp × Continue)
unfolding at_end advance
continue_search w op = advance op.position_ op.direction_ >>= λ p.
    if p.1
    then some (record op { position_ = p.0 }, Continue.with_this_item)
    else at_end w (record op { position_ = p.0 }) op.direction_

unfoldable pub was_ascending : CallerId → Bool
was_ascending CallerId.enter_root = false
was_ascending CallerId.enter_child = false
was_ascending CallerId.enter_parent = false
was_ascending CallerId.enter_context_root = false
was_ascending CallerId.enter_anywhere = false
was_ascending CallerId.reload_list = false
was_ascending CallerId.crawler_reset_position = false
was_ascending CallerId.crawler_first_entry = false
was_ascending CallerId.crawler_descend = false
was_ascending CallerId.crawler_ascend = true

-- Is the present item passed over before anything is read?
unfoldable pub passes_over : FindNextOp → Direction → Bool
unfolding was_ascending
passes_over op Direction.no_direction = false
passes_over op Direction.forward =
    not op.has_skipped_first_
    && (leb op.position_.items_ op.position_.nav_.cursor_
        || was_ascending op.entering_list_caller_id_)
passes_over op Direction.backward =
    not op.has_skipped_first_
    && ((op.position_.nav_.cursor_ == 0) || was_ascending op.entering_list_caller_id_)

unfoldable pub descend : World → FindNextOp → ℕ × Bool → Option (FindNextOp × Continue)
unfolding enter continue_search
descend w op (list, is_hard) =
    if list == 0
    then (if is_hard
        then some (op, Continue.not_with_error)
        else continue_search w (record op { directories_skipped_ = op.directories_skipped_ + 1 }))
    else enter w op list 0 CallerId.crawler_descend

unfoldable pub is_standing : Direction → Bool
is_standing Direction.no_direction = true
is_standing Direction.forward = false
is_standing Direction.backward = false

unfoldable pub use_item : World → FindNextOp → Option Item → Option (FindNextOp × Continue)
unfolding found is_standing check_skip_directory continue_search descend get_child_id_for_enter
use_item w op none = some (op, Continue.not_with_error)
use_item w op' (some item) =
    let op = record op' { file_item_ = some item } in
    if not item.is_directory
    then some (found op PositionalState.somewhere_in_list, Continue.not_with_success)
    else if is_standing op.direction_
    then some (op, Continue.not_with_error)
    else if check_skip_directory op.recursive_mode_ op.directory_depth_
    then continue_search w (record op { directories_skipped_ = op.directories_skipped_ + 1 })
    else descend w op
        (get_child_id_for_enter (w.get_child_item_id op.list_id op.position_.nav_.cursor_))

-- After the answer to the request of the item.
unfoldable pub got_item : World → FindNextOp → OpResult → Option (FindNextOp × Continue)
unfolding use_item
got_item w op OpResult.succeeded = use_item w op (w.item op.list_id op.position_.nav_.cursor_)
got_item w op OpResult.started = some (op, Continue.later)
got_item w op OpResult.failed = some (op, Continue.not_with_error)
got_item w op OpResult.canceled = if is_op_canceled op.base then some (op, Continue.later) else none
got_item w op OpResult.busy = some (op, Continue.later)

-- After the answer to the hint.
unfoldable pub hinted : World → FindNextOp → OpResult → Option (FindNextOp × Continue)
unfolding got_item
hinted w op OpResult.succeeded =
    got_item w op (w.get_item_async op.list_id op.position_.nav_.cursor_)
hinted w op OpResult.started = some (record op { is_waiting_for_item_hint_ = true }, Continue.later)
hinted w op OpResult.busy = some (op, Continue.later)
hinted w op OpResult.failed = some (op, Continue.not_with_error)
hinted w op OpResult.canceled = if is_op_canceled op.base then some (op, Continue.later) else none

unfoldable pub finish_with_current_item_or_continue :
    World → FindNextOp → Option (FindNextOp × Continue)
unfolding passes_over was_ascending continue_search hinted hint_planned_access
finish_with_current_item_or_continue w op =
    if op.is_waiting_for_item_hint_
    then some (op, Continue.later)
    else if passes_over op op.direction_
    then continue_search w (record op {
      has_skipped_first_ = was_ascending op.entering_list_caller_id_ || op.has_skipped_first_;
    })
    else (hint_planned_access w op.list_id op.position_ (is_forward_direction op.direction_)
        >>= hinted w op)

-- The loop, on fuel.
unfoldable pub run_rounds : ℕ → World → FindNextOp → Option FindNextOp
unfolding finish_with_current_item_or_continue finish_op_if_possible
run_rounds zero w op = none
run_rounds (suc rounds) w op = finish_with_current_item_or_continue w op >>= λ p.
    finish_op_if_possible p.0 p.1 >>= λ q. elim q.1 [
      | true ↦ some q.0
      | false ↦ run_rounds rounds w q.0
    ]

unfoldable pub run_as_far_as_possible : World → FindNextOp → Option FindNextOp
unfolding run_rounds
run_as_far_as_possible w op = run_rounds (suc (suc op.position_.items_)) w op
