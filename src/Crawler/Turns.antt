-- ===== src/Crawler/Turns.antt =====
-- Going down into a directory and back up (src/directory_crawler_find_next_op.cc), with a list broker
-- that answers every question at once and enters every list.
use drcpd.Common.{
  ℕ, suc, ◌≤◌, ◌<◌, ◌≡◌, inl, inr, true, false, arith, refl, sym, ◌∙◌, ◌>>=◌, u32_max, add32, sub32,
}
use drcpd.ListNav.{Nav}
use drcpd.ListNav.Moves.{int_max}
use drcpd.Crawler.{
  RecursiveMode, CallerId, OpResult, World, sync_list_id_with_request, is_list_empty,
}
use drcpd.Crawler.FindNext.{
  FindNextOp, finish_op_if_possible, continue_search, run_as_far_as_possible, was_ascending,
}
use drcpd.Crawler.Events.{
  async_list__enter_list_event, proceed, descended, ascended, after_finish, entering_direction,
  forgets_item,
}
use drcpd.Crawler.Steps.{IsSteady}
use drcpd.Crawler.Walk.{IsAt}
use drcpd.Crawler.Entered.{entering_op, arrived, settled_in, arrive}

unfoldable pub settled_down : FindNextOp → ℕ → FindNextOp
settled_down op depth = record (settled_in op depth) {
  directories_entered_ = add32 op.directories_entered_ 1;
}

settled-IsAt :
    (w : World) (op : FindNextOp) (mode : RecursiveMode) (list line depth to to_line n depth' : ℕ)
    (nav : Nav) (cid : CallerId)
    → IsAt w op mode list line depth
    → w.get_number_of_items to ≡ n
    → IsSteady n nav
    → nav.cursor_ ≡ to_line
    → IsAt w (settled_in (arrived op to to_line nav n cid) depth') mode to to_line depth'
unfolding settled_in arrived sync_list_id_with_request
settled-IsAt w op mode list line depth to to_line n depth' nav cid a e s at = record {
  searching = record {
    runs = a.searching.runs;
    tells = a.searching.tells;
    free = a.searching.free;
    steady = s;
  };
  direction = a.direction;
  recursion = a.recursion;
  here = refl;
  at_line = at;
  items = sym e;
  deep = refl;
  rests = refl;
}

counted-IsAt :
    (w : World) (op : FindNextOp) (mode : RecursiveMode) (list line depth k : ℕ)
    → IsAt w op mode list line depth
    → IsAt w (record op { directories_entered_ = k }) mode list line depth
counted-IsAt w op mode list line depth k a = record {
  searching = record {
    runs = a.searching.runs;
    tells = a.searching.tells;
    free = a.searching.free;
    steady = a.searching.steady;
  };
  direction = a.direction;
  recursion = a.recursion;
  here = a.here;
  at_line = a.at_line;
  items = a.items;
  deep = a.deep;
  rests = a.rests;
}

descended_full :
    (w : World) (op : FindNextOp) (depth : ℕ)
    → op.directory_depth_ ≡ depth
    → depth < u32_max
    → 0 < op.position_.items_
    → proceed w op CallerId.crawler_descend true
      ≡ run_as_far_as_possible w (settled_down op (suc depth))
unfolding proceed descended is_list_empty settled_down settled_in sync_list_id_with_request
descended_full w op depth d h n =
    let e : add32 op.directory_depth_ 1 ≡ suc depth = ground arith in ground arith

descended_empty :
    (w : World) (op : FindNextOp) (depth : ℕ)
    → op.directory_depth_ ≡ depth
    → depth < u32_max
    → op.position_.items_ ≡ 0
    → proceed w op CallerId.crawler_descend true ≡ (
        continue_search w (settled_down op (suc depth)) >>= λ p.
        finish_op_if_possible p.0 p.1 >>= after_finish w)
unfolding proceed descended is_list_empty settled_down settled_in sync_list_id_with_request
descended_empty w op depth d h n =
    let e : add32 op.directory_depth_ 1 ≡ suc depth = ground arith in ground arith

ascended_full :
    (w : World) (op : FindNextOp) (depth : ℕ)
    → op.directory_depth_ ≡ suc depth
    → depth < u32_max
    → 0 < op.position_.items_
    → proceed w op CallerId.crawler_ascend true ≡ run_as_far_as_possible w (settled_in op depth)
unfolding proceed ascended is_list_empty settled_in sync_list_id_with_request
ascended_full w op depth d h n =
    let e : sub32 op.directory_depth_ 1 ≡ depth = ground arith in ground arith

module _ (w : World) (op : FindNextOp) (mode : RecursiveMode) (list line depth : ℕ)
    (a : IsAt w op mode list line depth) where
  pub descends_full :
      (child : ℕ)
      → depth < u32_max
      → 0 < w.get_number_of_items child
      → w.get_number_of_items child ≤ suc int_max
      → (op' : FindNextOp) × (async_list__enter_list_event w OpResult.succeeded
            (record { list_id_ = child; line_ = 0; caller_id = CallerId.crawler_descend })
            (entering_op op child 0 CallerId.crawler_descend)
          ≡ run_as_far_as_possible w op')
        × IsAt w op' mode child 0 (suc depth)
        × (was_ascending op'.entering_list_caller_id_ ≡ false)
  unfolding entering_direction forgets_item settled_down settled_in arrived was_ascending
  descends_full child deep h size =
      let n = w.get_number_of_items child in
      let (nav, e, steady, at) =
        arrive w op mode list line depth child 0 n CallerId.crawler_descend a refl a.direction refl
          size (inl h) in
      let here = arrived op child 0 nav n CallerId.crawler_descend in
      let settled =
        counted-IsAt w (settled_in here (suc depth)) mode child 0 (suc depth)
          (add32 op.directories_entered_ 1)
          (settled-IsAt w op mode list line depth child 0 n (suc depth) nav CallerId.crawler_descend
            a refl steady at) in
      let d = a.deep in
      (settled_down here (suc depth), e ∙ descended_full w here depth a.deep deep h, settled, refl)

  pub descends_empty :
      (child : ℕ)
      → depth < u32_max
      → w.get_number_of_items child ≡ 0
      → (op' : FindNextOp) × (async_list__enter_list_event w OpResult.succeeded
            (record { list_id_ = child; line_ = 0; caller_id = CallerId.crawler_descend })
            (entering_op op child 0 CallerId.crawler_descend)
          ≡ (continue_search w op' >>= λ p. finish_op_if_possible p.0 p.1 >>= after_finish w))
        × IsAt w op' mode child 0 (suc depth)
  unfolding entering_direction forgets_item settled_down arrived
  descends_empty child deep h =
      let (nav, e, steady, at) =
        arrive w op mode list line depth child 0 0 CallerId.crawler_descend a refl a.direction h
          (omega arith) (inr (refl, refl)) in
      let here = arrived op child 0 nav 0 CallerId.crawler_descend in
      let settled =
        counted-IsAt w (settled_in here (suc depth)) mode child 0 (suc depth)
          (add32 op.directories_entered_ 1)
          (settled-IsAt w op mode list line depth child 0 0 (suc depth) nav CallerId.crawler_descend
            a h steady at) in
      let d = a.deep in
      (settled_down here (suc depth), e ∙ descended_empty w here depth a.deep deep refl, settled)

  pub ascends :
      (parent to_line : ℕ) (depth' : ℕ)
      → depth ≡ suc depth'
      → depth < u32_max
      → to_line < w.get_number_of_items parent
      → w.get_number_of_items parent ≤ suc int_max
      → (op' : FindNextOp) × (async_list__enter_list_event w OpResult.succeeded
            (record { list_id_ = parent; line_ = to_line; caller_id = CallerId.crawler_ascend })
            (entering_op op parent to_line CallerId.crawler_ascend)
          ≡ run_as_far_as_possible w op')
        × IsAt w op' mode parent to_line depth'
        × (op'.has_skipped_first_ ≡ false)
        × (op'.entering_list_caller_id_ ≡ CallerId.crawler_ascend)
  unfolding entering_direction forgets_item settled_in arrived
  ascends parent to_line depth' ed deep h size =
      let n = w.get_number_of_items parent in
      let (nav, e, steady, at) =
        arrive w op mode list line depth parent to_line n CallerId.crawler_ascend a refl refl refl
          size (inl h) in
      let here = arrived op parent to_line nav n CallerId.crawler_ascend in
      let settled =
        settled-IsAt w op mode list line depth parent to_line n depth' nav CallerId.crawler_ascend a
          refl steady at in
      let d = a.deep in
      (
        settled_in here depth',
        e ∙ ascended_full w here depth' (a.deep ∙ ed) (omega arith) (omega arith),
        settled,
        refl,
        refl,
      )
