-- ===== src/Tests/Crawler.antt =====
-- The crawler (src/directory_crawler_find_next_op.cc) in a small hierarchy: list 1 has an empty
-- directory, a directory with one file, and a file.
use drcpd.Common.{
  ℕ, ◌+◌, ◌≤◌, ◌<◌, ◌≡◌, inl, inr, true, false, Option, none, some, List, [], ◌∷◌, ◌==◌, arith,
  refl, if◌then◌else◌, ◌&&◌,
}
use drcpd.ListNav.{Nav, WrapMode}
use drcpd.Crawler.{
  Direction, RecursiveMode, PositionalState, FindMode, OpResult, Item, World, Cursor, ChildAnswer,
  child_id, exception, ListError, hint_range,
}
use drcpd.Crawler.Operation.{OpState, CompletionCallbackFilter, OperationBase, begin}
use drcpd.Crawler.Operation
use drcpd.Crawler.FindNext.{FindNextOp, construct, run_as_far_as_possible}
use drcpd.Crawler.Events.{start, continue_running}
use drcpd.Crawler.Steps.{IsSteady}
use drcpd.Crawler.Rounds.{IsObliging}
use drcpd.Crawler.Walk.{IsAt}
use drcpd.Crawler.Tree.{
  Forest, nothing, file, folder, first_in, or_else, Shows, ends, shows_file, shows_folder, Settles,
}
use drcpd.Crawler.First.{Outcome, top, under, finds_next}
use drcpd.Crawler.Start.{new_search, started_op, finds_first}
use drcpd.Crawler.Bounds.{hint_range_covers}
use drcpd.Crawler.Lives.{
  OpEvent, yields, finishes, cancels, notifies, run, step, times_finished, has_ended, run-told,
}
use drcpd.Crawler.Backward.{misses_line_0}

abbrev counts : ℕ → ℕ
counts list = if list == 1 then 3 else if list == 3 then 1 else 0

abbrev items : ℕ → ℕ → Option Item
items list line =
    if (list == 1) && (line == 0)
    then some (record { is_directory = true; text = 20 })
    else if (list == 1) && (line == 1)
    then some (record { is_directory = true; text = 21 })
    else if (list == 1) && (line == 2)
    then some (record { is_directory = false; text = 8 })
    else if (list == 3) && (line == 0)
    then some (record { is_directory = false; text = 7 })
    else none

abbrev children : ℕ → ℕ → ChildAnswer
children list line =
    if (list == 1) && (line == 0)
    then child_id 2
    else if (list == 1) && (line == 1)
    then child_id 3
    else exception ListError.not_found

abbrev parents : ℕ → Option (ℕ × ℕ)
parents list = if list == 2 then some (1, 0) else if list == 3 then some (1, 1) else none

abbrev world : World
world = record {
  get_number_of_items = counts;
  get_item_async_set_hint = λ list start count. OpResult.succeeded;
  get_item_async = λ list line. OpResult.succeeded;
  item = items;
  get_child_item_id = children;
  get_parent_link_id = parents;
  enter_list_async = λ list line cid. OpResult.started;
}

obliging : IsObliging world
obliging = record {
  hints = λ list start count. refl;
  reads = λ list line. refl;
  enters = λ list line cid. refl;
}

abbrev forest : Forest
forest = folder 20 2 nothing (folder 21 3 (file 7 nothing) (file 8 nothing))

last_shown : Shows world 1 2 (file 8 nothing)
last_shown = shows_file refl (ends refl)

shown : Shows world 1 0 forest
shown =
    shows_folder refl refl refl refl (omega arith) (ends refl)
      (shows_folder refl refl refl refl (omega arith) (shows_file refl (ends refl)) last_shown)

abbrev nav_at : ℕ → Nav
nav_at line = record {
  cursor_ = line;
  first_displayed_item_ = 0;
  selected_line_number_ = 0;
  wrap_mode_ = WrapMode.no_wrap;
  maximum_number_of_displayed_lines_ = 20;
}

abbrev cursor : ℕ → ℕ → ℕ → ℕ → Cursor
cursor list line count depth = record {
  list_id_ = list;
  nav_ = nav_at line;
  items_ = count;
  directory_depth_ = depth;
  requested_list_id_ = list;
  requested_line_ = line;
}

no_list-IsSteady : IsSteady 0 (nav_at 0)
no_list-IsSteady = record {
  within = inr (refl, refl);
  on_display = omega arith;
  lines = omega arith;
  wrap = refl;
  size = omega arith;
}

finds_first_example :
    (op1 : FindNextOp) × (op2 : FindNextOp) × (start world (
        new_search RecursiveMode.depth_first CompletionCallbackFilter.unfiltered true
          (cursor 0 0 0 0)
          1
          0
          9)
      ≡ some (op1, true))
    × Settles world op1 op2
    × Outcome (some (record { list = 3; line = 0; text = 7 })) op2
unfolding first_in or_else
finds_first_example =
    finds_first world RecursiveMode.depth_first CompletionCallbackFilter.unfiltered true
      (cursor 0 0 0 0) 1 0 9 forest obliging refl refl no_list-IsSteady (omega arith)
      (inl (omega arith)) shown

-- An operation that is to continue, behind the file in list 3.
abbrev continued : Direction → ℕ → ℕ → ℕ → ℕ → FindNextOp
continued direction list line count depth = started_op (
    construct (Operation.construct CompletionCallbackFilter.unfiltered true)
      RecursiveMode.depth_first direction (cursor list line count depth) FindMode.find_next list)

single-IsSteady : IsSteady 1 (nav_at 0)
single-IsSteady = record {
  within = inl (omega arith);
  on_display = omega arith;
  lines = omega arith;
  wrap = refl;
  size = omega arith;
}

continued-IsAt : IsAt world (continued Direction.forward 3 0 1 2) RecursiveMode.depth_first 3 0 2
unfolding started_op construct
continued-IsAt = record {
  searching = record { runs = refl; tells = refl; free = refl; steady = single-IsSteady };
  direction = refl;
  recursion = refl;
  here = refl;
  at_line = refl;
  items = refl;
  deep = refl;
  rests = refl;
}

finds_next_example :
    (op1 : FindNextOp) × (op2 : FindNextOp) × (continue_running world
        (continued Direction.forward 3 0 1 2)
      ≡ some (op1, true))
    × Settles world op1 op2
    × Outcome (some (record { list = 1; line = 2; text = 8 })) op2
unfolding first_in or_else started_op construct
finds_next_example =
    finds_next world RecursiveMode.depth_first (continued Direction.forward 3 0 1 2) 3 0 2 nothing
      (some (record { list = 1; line = 2; text = 8 })) obliging continued-IsAt refl (omega arith)
      refl (omega arith) (omega arith) (ends refl)
      (under 1 1 1 (file 8 nothing) none (omega arith) (omega arith) refl refl (omega arith)
        (omega arith) last_shown top)

misses_line_0_example :
    (op' : FindNextOp) × (run_as_far_as_possible world (continued Direction.backward 3 0 1 1)
      ≡ some op')
    × (op'.base.state_ ≡ OpState.done)
    × (op'.pos_state_ ≡ PositionalState.reached_start_of_list)
    × (op'.file_item_ ≡ none)
unfolding started_op construct
misses_line_0_example =
    misses_line_0 world (continued Direction.backward 3 0 1 1)
      (record { runs = refl; tells = refl; free = refl; steady = single-IsSteady }) refl refl refl
      (omega arith)

hint_range_covers_example :
    ((hint_range (cursor 1 90 100 1) true).0 ≤ 90)
    × (90 < (hint_range (cursor 1 90 100 1) true).0 + (hint_range (cursor 1 90 100 1) true).1)
    × ((hint_range (cursor 1 90 100 1) true).0 + (hint_range (cursor 1 90 100 1) true).1 ≤ 100)
    × ((hint_range (cursor 1 90 100 1) true).1 ≡ 20)
hint_range_covers_example =
    hint_range_covers (cursor 1 90 100 1) true (omega arith) (omega arith) (omega arith)
      (omega arith)

abbrev life : List OpEvent
life = yields ∷ cancels ∷ yields ∷ finishes true ∷ notifies ∷ []

abbrev after_life : OperationBase
after_life = record {
  state_ = OpState.canceled;
  was_canceled_after_done_ = false;
  started_counter_ = 1;
  yielded_counter_ = 2;
  completion_callback_filter_ = CompletionCallbackFilter.suppress_canceled;
  op_done_notification_callback_ = false;
  completion_callback_ = false;
  told = Operation.OpDone.finished ∷ Operation.OpDone.yielding ∷ Operation.OpDone.yielding ∷ [];
}

life-ends :
    run (begin (Operation.construct CompletionCallbackFilter.suppress_canceled true)).0 life
    ≡ some after_life
unfolding run step begin Operation.construct Operation.operation_yield Operation.cancel
    Operation.operation_finished Operation.notify_caller
life-ends = refl

run-told_example : times_finished after_life.told ≡ (if has_ended after_life.state_ then 1 else 0)
run-told_example =
    run-told CompletionCallbackFilter.suppress_canceled true life after_life life-ends
