-- ===== src/Crawler/Start.antt =====
-- Starting the search for the first file (src/directory_crawler_find_next_op.cc,
-- src/playlist_crawler.hh), with a list broker that answers every question at once and enters every
-- list.
use drcpd.Common.{
  ℕ, suc, ◌≤◌, ◌<◌, ◌≡◌, ◌⊎◌, inr, Bool, true, false, Option, none, some, ◌==◌, arith, refl, ap,
  sym, ◌∙◌, subst, dec_lt,
}
use drcpd.ListNav.{Nav}
use drcpd.ListNav.Moves.{int_max}
use drcpd.Crawler.{
  Direction, is_forward_direction, RecursiveMode, PositionalState, FindMode, CallerId, OpResult,
  World, Cursor, is_list_empty, sync_list_id_with_request,
}
use drcpd.Crawler.Operation.{
  OpState, OperationBase, CompletionCallbackFilter, begin, operation_finished, finish_as,
}
use drcpd.Crawler.Operation
use drcpd.Crawler.FindNext.{
  FindNextOp, run_as_far_as_possible, found, end_of_list, construct, first_caller_id,
  fill_in_meta_data, finish_op, was_ascending,
}
use drcpd.Crawler.Events.{
  async_list__enter_list_event, enter_list_event, proceed, first_entered, do_start, start,
  start_entering, is_find_next, forgets_item, entering_direction,
}
use drcpd.Crawler.Steps.{IsSteady}
use drcpd.Crawler.Rounds.{IsObliging, finished_with}
use drcpd.Crawler.Walk.{IsAt}
use drcpd.Crawler.Entered.{entering_op, matches_lem, update_navigation_lem}
use drcpd.Crawler.Tree.{
  Forest, Spot, first_in, or_else, Shows, Settles, settled, enters, Reach, nothing_left,
}
use drcpd.Crawler.Finds.{IsFresh}
use drcpd.Crawler.First.{Outcome, explore_from, ends_above, top}

-- The operation that is to find the first file from a line of a list on.
unfoldable pub new_search :
    RecursiveMode → CompletionCallbackFilter → Bool → Cursor → ℕ → ℕ → ℕ → FindNextOp
unfolding construct
new_search mode filter callback c root line old =
    construct (Operation.construct filter callback) mode Direction.forward
      (record c { directory_depth_ = 0; requested_list_id_ = root; requested_line_ = line })
      FindMode.find_first old

unfoldable pub started_op : FindNextOp → FindNextOp
started_op op = record op {
  base = record op.base {
    op_done_notification_callback_ = true;
    started_counter_ = 1;
    state_ = OpState.running;
  };
}

starts :
    (w : World) (mode : RecursiveMode) (filter : CompletionCallbackFilter) (callback : Bool)
    (c : Cursor) (root line old : ℕ)
    → IsObliging w
    → (root == old) ≡ false
    → start w (new_search mode filter callback c root line old)
      ≡ some (
        entering_op
            (started_op (new_search mode filter callback c root line old))
            root
            line
            CallerId.crawler_first_entry,
        true,
      )
unfolding start do_start start_entering is_find_next begin new_search started_op entering_op
    Operation.construct first_caller_id
starts w mode filter callback c root line old o ne =
    let e = o.enters root line CallerId.crawler_first_entry in ground arith

-- The operation when the first list is entered.
unfoldable pub first_op : FindNextOp → ℕ → Nav → ℕ → FindNextOp
first_op op root nav n = record op {
  list_id = root;
  entering = none;
  directory_depth_ = 1;
  position_ = record op.position_ { nav_ = nav; items_ = n };
}

first_event :
    (w : World) (mode : RecursiveMode) (filter : CompletionCallbackFilter) (callback : Bool)
    (c : Cursor) (root line old n : ℕ)
    → IsSteady c.items_ c.nav_
    → w.get_number_of_items root ≡ n
    → n ≤ suc int_max
    → (line < n) ⊎ ((n ≡ 0) × (line ≡ 0))
    → (nav : Nav) × (async_list__enter_list_event w OpResult.succeeded
          (record { list_id_ = root; line_ = line; caller_id = CallerId.crawler_first_entry })
          (entering_op
            (started_op (new_search mode filter callback c root line old))
            root
            line
            CallerId.crawler_first_entry)
        ≡ first_entered w
            (first_op (started_op (new_search mode filter callback c root line old)) root nav n))
      × IsSteady n nav
      × (nav.cursor_ ≡ line)
unfolding async_list__enter_list_event enter_list_event proceed new_search started_op entering_op
    first_op forgets_item entering_direction first_caller_id
first_event w mode filter callback c root line old n s en size h =
    let op = started_op (new_search mode filter callback c root line old) in
    let (nav, u, steady, at) =
      update_navigation_lem w (entering_op op root line CallerId.crawler_first_entry).position_
        Direction.forward c.items_ root line n s refl en size h in
    let m = matches_lem op root line CallerId.crawler_first_entry in (nav, ground arith, steady, at)

-- The operation when it begins to search in the first list.
unfoldable pub searching_op : FindNextOp → FindNextOp
searching_op op = record op {
  directories_entered_ = 1;
  position_ = sync_list_id_with_request op.position_ op.directory_depth_;
}

enters_empty :
    (w : World) (op : FindNextOp)
    → op.direction_ ≡ Direction.forward
    → op.base.state_ ≡ OpState.running
    → op.base.op_done_notification_callback_ ≡ true
    → op.position_.items_ ≡ 0
    → first_entered w op
      ≡ some
          (finished_with (found (searching_op op) PositionalState.reached_end_of_list) OpState.done)
unfolding first_entered searching_op is_list_empty sync_list_id_with_request finish_op
    operation_finished finish_as found fill_in_meta_data finished_with end_of_list
    is_forward_direction
enters_empty w op d r t n = let e = ap end_of_list d in ground arith

enters_full :
    (w : World) (op : FindNextOp)
    → 0 < op.position_.items_
    → first_entered w op ≡ run_as_far_as_possible w (searching_op op)
unfolding first_entered searching_op is_list_empty sync_list_id_with_request
enters_full w op n = ground arith

searching-IsAt :
    (w : World) (mode : RecursiveMode) (filter : CompletionCallbackFilter) (callback : Bool)
    (c : Cursor) (root line old n : ℕ) (nav : Nav)
    → w.get_number_of_items root ≡ n
    → IsSteady n nav
    → nav.cursor_ ≡ line
    → IsAt w
        (searching_op
          (first_op (started_op (new_search mode filter callback c root line old)) root nav n))
        mode
        root
        line
        1
unfolding searching_op first_op started_op new_search sync_list_id_with_request
searching-IsAt w mode filter callback c root line old n nav e s at = record {
  searching = record { runs = refl; tells = refl; free = refl; steady = s };
  direction = refl;
  recursion = refl;
  here = refl;
  at_line = at;
  items = sym e;
  deep = refl;
  rests = refl;
}

or_else_right : (a : Option Spot) → or_else a none ≡ a
unfolding or_else
or_else_right none = refl
or_else_right (some s) = refl

-- A new operation that is to find the first file from a line of a list on, forward, starts and comes
-- to an end: it has found the first file there, in the order of depth first, or the end of the list
-- if there is none; directories are passed over at a depth of 100, and if it is not to enter any. The
-- list is not the one that the D-Bus list has entered already, its ID is valid, it has at most 2^31
-- items, and the line is one of them unless there is none. The list broker answers every question at
-- once and enters every list.
pub finds_first :
    (w : World) (mode : RecursiveMode) (filter : CompletionCallbackFilter) (callback : Bool)
    (c : Cursor) (root line old : ℕ) (forest : Forest)
    → IsObliging w
    → (root == 0) ≡ false
    → (root == old) ≡ false
    → IsSteady c.items_ c.nav_
    → w.get_number_of_items root ≤ suc int_max
    → (line < w.get_number_of_items root) ⊎ ((w.get_number_of_items root ≡ 0) × (line ≡ 0))
    → Shows w root line forest
    → (op1 : FindNextOp) × (op2 : FindNextOp) × (start w
          (new_search mode filter callback c root line old)
        ≡ some (op1, true))
      × Settles w op1 op2
      × Outcome (first_in mode 1 root line forest) op2
unfolding Outcome IsFresh run_as_far_as_possible first_op searching_op started_op new_search
    was_ascending finished_with found fill_in_meta_data entering_op Reach first_caller_id
    sync_list_id_with_request
finds_first w mode filter callback c root line old forest o z ne s size inside shows =
    let n = w.get_number_of_items root in
    let op0 = started_op (new_search mode filter callback c root line old) in
    let (nav, e, steady, at) =
      first_event w mode filter callback c root line old n s refl size inside in
    let op1 = first_op op0 root nav n in
    let begun = starts w mode filter callback c root line old o ne in
    elim (dec_lt 0 n) [
      | yes full ↦
          let (op2, op3, e2, st, q) =
            explore_from w o mode forest (searching_op op1) root line 1 (suc (suc n)) none
              (searching-IsAt w mode filter callback c root line old n nav refl steady at)
              (inr refl) (omega arith) z size shows (ground (arith, inside)) (omega arith)
              (λ op' last el a. ends_above w o mode op' root last 1 none top a (omega arith)) in
          (
            entering_op op0 root line CallerId.crawler_first_entry,
            op3,
            begun,
            enters refl (e ∙ enters_full w op1 full ∙ e2) st,
            subst (λ b. Outcome b op3) (or_else_right (first_in mode 1 root line forest)) q,
          )
      | no empty ↦
          let op2 =
            finished_with (found (searching_op op1) PositionalState.reached_end_of_list)
              OpState.done in
          (
            entering_op op0 root line CallerId.crawler_first_entry,
            op2,
            begun,
            enters refl (e ∙ enters_empty w op1 refl refl refl (omega arith)) (settled refl),
            subst (λ b. Outcome b op2)
                (sym (nothing_left w mode 1 root line forest shows (ground (arith, inside, empty))))
                (refl, refl),
          )
    ]
