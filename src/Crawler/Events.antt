-- ===== src/Crawler/Events.antt =====
-- src/directory_crawler_find_next_op.cc, src/directory_crawler.cc and src/playlist_crawler.hh: what
-- happens to the operation that finds the next stream: its start, the end of an asynchronous entering
-- of a list, the end of a hint, its continuation and its cancelation.
use drcpd.Common.{
  ℕ, Bool, true, false, not, ◌&&◌, ◌||◌, Option, none, some, leb, ◌==◌, if◌then◌else◌, add32, sub32,
  ◌>>=◌,
}
use drcpd.ListNav.Moves.{set_cursor_by_line_number}
use drcpd.ListNav.Laws.{filter_of}
use drcpd.Crawler.{
  Direction, is_forward_direction, PositionalState, FindMode, CallerId, OpResult, World, Cursor,
  sync_list_id_with_request, is_list_empty,
}
use drcpd.Crawler.Operation.{
  OpState, OperationBase, operation_yield, operation_finished, is_op_active, is_op_canceled,
}
use drcpd.Crawler.Operation
use drcpd.Crawler.FindNext.{
  EnterList, FindNextOp, finish_op, finish_op_if_possible, found, end_of_list, continue_search,
  run_as_far_as_possible,
}

-- Numbers for the caller IDs, in the order of the source.
unfoldable pub value : CallerId → ℕ
value CallerId.enter_root = 0
value CallerId.enter_child = 1
value CallerId.enter_parent = 2
value CallerId.enter_context_root = 3
value CallerId.enter_anywhere = 4
value CallerId.reload_list = 5
value CallerId.crawler_reset_position = 6
value CallerId.crawler_first_entry = 7
value CallerId.crawler_descend = 8
value CallerId.crawler_ascend = 9

unfoldable pub matches_async_result : FindNextOp → EnterList → Bool
unfolding value
matches_async_result op ctx =
    (value op.entering_list_caller_id_ == value ctx.caller_id)
    && (ctx.list_id_ == op.position_.requested_list_id_)
    && (ctx.line_ == op.position_.requested_line_)

-- The line to which the cursor is set in a list of `lines` lines.
unfoldable pub line_for : Direction → ℕ → ℕ → ℕ
unfolding is_forward_direction
line_for direction lines line =
    if lines == 0
    then 0
    else if leb lines line
    then (if is_forward_direction direction then sub32 lines 1 else 0)
    else if not (is_forward_direction direction)
    then sub32 (sub32 lines 1) line
    else line

unfoldable pub update_navigation : World → ℕ → Cursor → Direction → ℕ → Option Cursor
unfolding line_for
update_navigation w list c direction line =
    let lines = w.get_number_of_items list in
    set_cursor_by_line_number (filter_of lines) c.nav_ (line_for direction lines line) >>= λ nav.
    some (record c { nav_ = nav; items_ = lines })

-- The list at which the search begins was entered.
unfoldable pub first_entered : World → FindNextOp → Option FindNextOp
unfolding finish_op found end_of_list is_list_empty run_as_far_as_possible
first_entered w op =
    let op' = record op {
      directories_entered_ = 1;
      position_ = sync_list_id_with_request op.position_ op.directory_depth_;
    } in
    if is_list_empty op'.position_
    then finish_op (found op' (end_of_list op.direction_)) true
    else run_as_far_as_possible w op'

unfoldable pub after_finish : World → FindNextOp × Bool → Option FindNextOp
unfolding run_as_far_as_possible
after_finish w (op, true) = some op
after_finish w (op, false) = run_as_far_as_possible w op

unfoldable pub descended : World → FindNextOp → Bool → Option FindNextOp
unfolding is_list_empty after_finish continue_search finish_op_if_possible
descended w op has_succeeded =
    let op' =
      if has_succeeded
      then record op {
        directory_depth_ = add32 op.directory_depth_ 1;
        directories_entered_ = add32 op.directories_entered_ 1;
        has_skipped_first_ = false;
        position_ = sync_list_id_with_request op.position_ (add32 op.directory_depth_ 1);
      }
      else op in
    if not has_succeeded || is_list_empty op'.position_
    then (continue_search w op' >>= λ p. finish_op_if_possible p.0 p.1 >>= after_finish w)
    else run_as_far_as_possible w op'

unfoldable pub ascended : World → FindNextOp → Option FindNextOp
unfolding is_list_empty finish_op run_as_far_as_possible
ascended w op =
    let op' = record op {
      directory_depth_ = sub32 op.directory_depth_ 1;
      has_skipped_first_ = false;
      position_ = sync_list_id_with_request op.position_ (sub32 op.directory_depth_ 1);
    } in
    if is_list_empty op'.position_ then finish_op op' false else run_as_far_as_possible w op'

-- The second half of the handler.
unfoldable pub proceed : World → FindNextOp → CallerId → Bool → Option FindNextOp
unfolding first_entered descended ascended finish_op
proceed w op CallerId.enter_root ok = finish_op op false
proceed w op CallerId.enter_child ok = finish_op op false
proceed w op CallerId.enter_parent ok = finish_op op false
proceed w op CallerId.enter_context_root ok = finish_op op false
proceed w op CallerId.enter_anywhere ok = finish_op op false
proceed w op CallerId.reload_list ok = finish_op op false
proceed w op CallerId.crawler_reset_position ok =
    if (op.directories_entered_ == 0) && not op.is_waiting_for_item_hint_
    then (if ok then first_entered w op else finish_op op false)
    else none
proceed w op CallerId.crawler_first_entry ok =
    if (op.directory_depth_ == 0)
      && ((op.directories_entered_ == 0) && not op.is_waiting_for_item_hint_)
    then (if ok then first_entered w (record op { directory_depth_ = 1 }) else finish_op op false)
    else none
proceed w op CallerId.crawler_descend ok = descended w op ok
proceed w op CallerId.crawler_ascend ok = if ok then ascended w op else finish_op op false

unfoldable pub forgets_item : CallerId → Bool
forgets_item CallerId.enter_root = true
forgets_item CallerId.enter_child = true
forgets_item CallerId.enter_parent = true
forgets_item CallerId.enter_context_root = true
forgets_item CallerId.enter_anywhere = true
forgets_item CallerId.reload_list = true
forgets_item CallerId.crawler_reset_position = false
forgets_item CallerId.crawler_first_entry = false
forgets_item CallerId.crawler_descend = true
forgets_item CallerId.crawler_ascend = true

unfoldable pub entering_direction : CallerId → Direction → Direction
entering_direction CallerId.enter_root d = d
entering_direction CallerId.enter_child d = d
entering_direction CallerId.enter_parent d = d
entering_direction CallerId.enter_context_root d = d
entering_direction CallerId.enter_anywhere d = d
entering_direction CallerId.reload_list d = d
entering_direction CallerId.crawler_reset_position d = d
entering_direction CallerId.crawler_first_entry d = d
entering_direction CallerId.crawler_descend d = d
entering_direction CallerId.crawler_ascend d = Direction.forward

unfoldable pub enter_list_event : World → OpResult → EnterList → FindNextOp → Option FindNextOp
unfolding update_navigation proceed forgets_item entering_direction
enter_list_event w OpResult.succeeded ctx op =
    let cid = ctx.caller_id in
    update_navigation w op.list_id op.position_ (entering_direction cid op.direction_)
      op.position_.requested_line_
    >>= λ position.
        proceed w
          (record op {
            file_item_ = if forgets_item cid then none else op.file_item_;
            position_ = position;
          })
          cid true
enter_list_event w OpResult.failed ctx op = proceed w op ctx.caller_id false
enter_list_event w OpResult.started ctx op = some op
enter_list_event w OpResult.canceled ctx op = if is_op_canceled op.base then some op else none
enter_list_event w OpResult.busy ctx op = none

-- The D-Bus list has entered the list, or has failed.
unfoldable pub async_list__enter_list_event :
    World → OpResult → EnterList → FindNextOp → Option FindNextOp
unfolding matches_async_result enter_list_event
async_list__enter_list_event w OpResult.succeeded ctx op' =
    let op = record op' { list_id = ctx.list_id_; entering = none } in
    if matches_async_result op ctx then enter_list_event w OpResult.succeeded ctx op else some op
async_list__enter_list_event w OpResult.failed ctx op' =
    let op = record op' { entering = none } in
    if matches_async_result op ctx then enter_list_event w OpResult.failed ctx op else some op
async_list__enter_list_event w OpResult.canceled ctx op' =
    let op = record op' { entering = none } in
    if matches_async_result op ctx then enter_list_event w OpResult.canceled ctx op else some op
async_list__enter_list_event w OpResult.started ctx op = some op
async_list__enter_list_event w OpResult.busy ctx op = none

-- The callback of the hint.
unfoldable pub hint_done : World → FindNextOp → Option FindNextOp
unfolding run_as_far_as_possible
hint_done w op =
    if not (is_op_active op.base)
    then some op
    else run_as_far_as_possible w (record op { is_waiting_for_item_hint_ = false })

unfoldable pub yield : FindNextOp → Option FindNextOp
yield op = operation_yield op.base >>= λ base. some (record op { base = base })

unfoldable pub is_find_next : FindMode → Bool
is_find_next FindMode.find_first = false
is_find_next FindMode.find_next = true

-- What becomes of the start with the answer to entering the list.
unfoldable pub start_entering : FindNextOp → EnterList → OpResult → Option (FindNextOp × Bool)
start_entering op e OpResult.started = some (record op { entering = some e }, true)
start_entering op e OpResult.busy = none
start_entering op e OpResult.succeeded = some (op, false)
start_entering op e OpResult.failed = some (op, false)
start_entering op e OpResult.canceled = some (op, false)

unfoldable pub do_start : World → FindNextOp → Option (FindNextOp × Bool)
unfolding yield is_find_next start_entering
do_start w op =
    let c = op.position_ in
    if (c.requested_list_id_ == op.list_id) || is_find_next op.find_mode_
    then (yield op >>= λ o. some (o, true))
    else start_entering op
        (record {
          list_id_ = c.requested_list_id_;
          line_ = c.requested_line_;
          caller_id = op.entering_list_caller_id_;
        })
        (w.enter_list_async c.requested_list_id_ c.requested_line_ op.entering_list_caller_id_)

unfoldable pub skipped_first : World → FindNextOp × Bool → Option FindNextOp
unfolding run_as_far_as_possible
skipped_first w (op, true) = some op
skipped_first w (op, false) = run_as_far_as_possible w (record op { has_skipped_first_ = true })

unfoldable pub do_continue : World → FindNextOp → Option FindNextOp
unfolding is_find_next run_as_far_as_possible continue_search finish_op_if_possible skipped_first
do_continue w op =
    if is_find_next op.find_mode_
    then (continue_search w op >>= λ p. finish_op_if_possible p.0 p.1 >>= skipped_first w)
    else run_as_far_as_possible w op

-- Did the start work?
unfoldable pub start : World → FindNextOp → Option (FindNextOp × Bool)
unfolding do_start Operation.begin
start w op =
    let (base, starts) = Operation.begin op.base in
    if not starts
    then some (record op { base = base }, false)
    else (do_start w (record op { base = base }) >>= λ p.
        if p.1
        then some p
        else some (record p.0 { base = record p.0.base { state_ = OpState.failed } }, false))

unfoldable pub continue_running : World → FindNextOp → Option (FindNextOp × Bool)
unfolding do_continue finish_op
continue_running w op = elim op.base.state_ [
  | OpState.running ↦ do_continue w op >>= λ o. some (o, true)
  | OpState.canceling ↦ finish_op op false >>= λ o. some (o, true)
  | OpState.not_started ↦ some (op, false)
  | OpState.done ↦ some (op, false)
  | OpState.failed ↦ some (op, false)
  | OpState.canceled ↦ some (op, false)
]

-- With `do_cancel`, all asynchronous calls of the D-Bus list are canceled.
unfoldable pub cancel : FindNextOp → FindNextOp
unfolding Operation.cancel
cancel op =
    let (base, cancels) = Operation.cancel op.base in
    record op { base = base; entering = if cancels then none else op.entering }

unfoldable pub do_restart : FindNextOp → FindNextOp × Bool
do_restart op = (record op { pos_state_ = PositionalState.unknown; meta_data_ = none }, false)
