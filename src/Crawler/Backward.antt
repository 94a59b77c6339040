-- ===== src/Crawler/Backward.antt =====
-- The search backward (src/directory_crawler_find_next_op.cc).
use drcpd.Common.{ℕ, suc, ◌≤◌, ◌≡◌, inl, inr, Bool, true, false, some, leb, arith, refl, ap, ◌∙◌}
use drcpd.ListNav.{Nav}
use drcpd.Crawler.{Direction, is_forward_direction, PositionalState, World, advance}
use drcpd.Crawler.Operation.{OpState}
use drcpd.Crawler.FindNext.{
  FindNextOp, Continue, found, end_of_list, continue_search, at_end, passes_over, was_ascending,
  finish_with_current_item_or_continue, run_as_far_as_possible, fill_in_meta_data,
}
use drcpd.Crawler.Steps.{Stepped, advance_lem}
use drcpd.Crawler.Rounds.{IsSearching, finished_with, round_succeeds}

passes_line_0 :
    (w : World) (op : FindNextOp)
    → op.is_waiting_for_item_hint_ ≡ false
    → op.direction_ ≡ Direction.backward
    → op.has_skipped_first_ ≡ false
    → op.position_.nav_.cursor_ ≡ 0
    → finish_with_current_item_or_continue w op
      ≡ continue_search w
          (record op { has_skipped_first_ = was_ascending op.entering_list_caller_id_ })
unfolding finish_with_current_item_or_continue passes_over
passes_line_0 w op free d h c =
    let p : passes_over op op.direction_ ≡ true = ap (passes_over op) d ∙ ground arith in
    ground arith

stays :
    (n : ℕ) (nav nav' : Nav) (moved : Bool)
    → nav.cursor_ ≡ 0
    → Stepped n Direction.backward nav nav' moved
    → moved ≡ false
unfolding Stepped
stays n nav nav' moved z (inl (m, c)) = absurd (omega arith)
stays n nav nav' moved z (inr (m, c, b)) = m

stops_at_start :
    (w : World) (op : FindNextOp) (nav : Nav)
    → op.direction_ ≡ Direction.backward
    → op.directory_depth_ ≤ 1
    → advance op.position_ Direction.backward ≡ some (record op.position_ { nav_ = nav }, false)
    → continue_search w op
      ≡ some (
        found
            (record op { position_ = record op.position_ { nav_ = nav } })
            PositionalState.reached_start_of_list,
        Continue.not_with_success,
      )
unfolding continue_search at_end end_of_list is_forward_direction
stops_at_start w op nav d depth e =
    let e' = ap (advance op.position_) d ∙ e in
    let l : leb op.directory_depth_ 1 ≡ true = ground arith in ground arith

-- A search backward that has not passed over an item in its list, at the top of the hierarchy, ends
-- as soon as it is at the first line, at the start of the list: the item there is not looked at,
-- whatever it is.
pub misses_line_0 :
    (w : World) (op : FindNextOp)
    → IsSearching op
    → op.direction_ ≡ Direction.backward
    → op.has_skipped_first_ ≡ false
    → op.position_.nav_.cursor_ ≡ 0
    → op.directory_depth_ ≤ 1
    → (op' : FindNextOp) × (run_as_far_as_possible w op ≡ some op')
      × (op'.base.state_ ≡ OpState.done)
      × (op'.pos_state_ ≡ PositionalState.reached_start_of_list)
      × (op'.file_item_ ≡ op.file_item_)
unfolding run_as_far_as_possible found fill_in_meta_data finished_with
misses_line_0 w op s d h c depth =
    let op0 = record op { has_skipped_first_ = was_ascending op.entering_list_caller_id_ } in
    let (nav, moved, e, steady, lines, stepped) =
      advance_lem op.position_ Direction.backward s.steady in
    let stuck =
      e
      ∙ ap (λ m. some (record op.position_ { nav_ = nav }, m))
          (stays _ op.position_.nav_ nav moved c stepped) in
    let op1 = record op0 { position_ = record op.position_ { nav_ = nav } } in
    let op2 = found op1 PositionalState.reached_start_of_list in
    (
      finished_with op2 OpState.done,
      round_succeeds (suc op.position_.items_) w op op2
          (passes_line_0 w op s.free d h c ∙ stops_at_start w op0 nav d depth stuck) s.runs s.tells,
      refl,
      refl,
      refl,
    )
