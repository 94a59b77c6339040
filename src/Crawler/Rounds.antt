-- ===== src/Crawler/Rounds.antt =====
-- The rounds of the search (src/directory_crawler_find_next_op.cc) in a list whose items can all be
-- read at once.
use drcpd.Common.{ℕ, suc, ◌<◌, ◌≡◌, Bool, true, false, some, ◌∷◌, arith, ap}
use drcpd.Crawler.{
  Direction, is_forward_direction, CallerId, OpResult, Item, World, Cursor, hint_planned_access,
  hint_range,
}
use drcpd.Crawler.Operation.{OpState, OpDone, operation_finished, finish_as}
use drcpd.Crawler.FindNext.{
  FindNextOp, Continue, finish_op, finish_op_if_possible, continue_search, passes_over,
  was_ascending, use_item, got_item, hinted, finish_with_current_item_or_continue, run_rounds,
}
use drcpd.Crawler.Steps.{IsSteady}

-- Hints and reads succeed, and lists are entered.
pub record IsObliging (w : World) : Type 0 where
  pub hints :
      (list start count : ℕ) → w.get_item_async_set_hint list start count ≡ OpResult.succeeded
  pub reads : (list line : ℕ) → w.get_item_async list line ≡ OpResult.succeeded
  pub enters :
      (list line : ℕ) (cid : CallerId) → w.enter_list_async list line cid ≡ OpResult.started

-- The operation is in the middle of its search, in its list.
pub record IsSearching (op : FindNextOp) : Type 0 where
  pub runs : op.base.state_ ≡ OpState.running
  pub tells : op.base.op_done_notification_callback_ ≡ true
  pub free : op.is_waiting_for_item_hint_ ≡ false
  pub steady : IsSteady op.position_.items_ op.position_.nav_

-- The operation after it has finished.
unfoldable pub finished_with : FindNextOp → OpState → FindNextOp
finished_with op state = record op {
  base = record op.base {
    state_ = state;
    told = OpDone.finished ∷ op.base.told;
    op_done_notification_callback_ = false;
  };
}

hint_succeeds :
    (w : World) (c : Cursor) (list : ℕ) (is_forward : Bool)
    → IsObliging w
    → 0 < c.nav_.maximum_number_of_displayed_lines_
    → hint_planned_access w list c is_forward ≡ some OpResult.succeeded
unfolding hint_planned_access
hint_succeeds w c list is_forward o h =
    let e = o.hints list (hint_range c is_forward).0 (hint_range c is_forward).1 in ground arith

pub reads_item :
    (w : World) (op : FindNextOp) (item : Item)
    → IsObliging w
    → IsSearching op
    → passes_over op op.direction_ ≡ false
    → w.item op.list_id op.position_.nav_.cursor_ ≡ some item
    → finish_with_current_item_or_continue w op ≡ use_item w op (some item)
unfolding finish_with_current_item_or_continue hinted got_item
reads_item w op item o s p h =
    let free = s.free in
    let lines = s.steady.on_display in
    let e1 =
      hint_succeeds w op.position_ op.list_id (is_forward_direction op.direction_) o
        (omega arith) in
    let e2 = o.reads op.list_id op.position_.nav_.cursor_ in ground arith

pub passes :
    (w : World) (op : FindNextOp)
    → op.is_waiting_for_item_hint_ ≡ false
    → op.direction_ ≡ Direction.forward
    → op.has_skipped_first_ ≡ false
    → op.entering_list_caller_id_ ≡ CallerId.crawler_ascend
    → finish_with_current_item_or_continue w op
      ≡ continue_search w (record op { has_skipped_first_ = true })
unfolding finish_with_current_item_or_continue passes_over was_ascending
passes w op free d h c =
    let p = ap (passes_over op) d in
    let a : was_ascending op.entering_list_caller_id_ ≡ true = ap was_ascending c in ground arith

pub round_on :
    (k : ℕ) (w : World) (op op' : FindNextOp)
    → finish_with_current_item_or_continue w op ≡ some (op', Continue.with_this_item)
    → run_rounds (suc k) w op ≡ run_rounds k w op'
unfolding run_rounds finish_op_if_possible
round_on k w op op' e = ground arith

pub round_waits :
    (k : ℕ) (w : World) (op op' : FindNextOp)
    → finish_with_current_item_or_continue w op ≡ some (op', Continue.later)
    → run_rounds (suc k) w op ≡ some op'
unfolding run_rounds finish_op_if_possible
round_waits k w op op' e = ground arith

pub round_succeeds :
    (k : ℕ) (w : World) (op op' : FindNextOp)
    → finish_with_current_item_or_continue w op ≡ some (op', Continue.not_with_success)
    → op'.base.state_ ≡ OpState.running
    → op'.base.op_done_notification_callback_ ≡ true
    → run_rounds (suc k) w op ≡ some (finished_with op' OpState.done)
unfolding run_rounds finish_op_if_possible finish_op operation_finished finish_as finished_with
round_succeeds k w op op' e runs tells = ground arith

pub finishes :
    (op : FindNextOp)
    → op.base.state_ ≡ OpState.running
    → op.base.op_done_notification_callback_ ≡ true
    → finish_op_if_possible op Continue.not_with_success
      ≡ some (finished_with op OpState.done, true)
unfolding finish_op_if_possible finish_op operation_finished finish_as finished_with
finishes op runs tells = ground arith
