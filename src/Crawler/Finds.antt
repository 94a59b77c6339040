-- ===== src/Crawler/Finds.antt =====
-- The search through a hierarchy of directories (src/directory_crawler_find_next_op.cc), forward, with
-- a list broker that answers every question at once and enters every list.
use drcpd.Common.{
  ℕ, suc, ◌+◌, ◌<◌, ◌≡◌, ◌⊎◌, Bool, true, false, Option, none, some, leb, ◌==◌, arith, refl, ap,
  ◌∙◌,
}
use drcpd.Crawler.{RecursiveMode, PositionalState, CallerId, Item, World, child_id}
use drcpd.Crawler.Operation.{OpState}
use drcpd.Crawler.FindNext.{
  FindNextOp, Continue, continue_search, run_rounds, finish_with_current_item_or_continue,
  passes_over, was_ascending, use_item, is_standing, check_skip_directory, descend,
  get_child_id_for_enter, found, fill_in_meta_data, text_of,
}
use drcpd.Crawler.Rounds.{IsObliging, finished_with, reads_item, round_succeeds}
use drcpd.Crawler.Walk.{IsAt}
use drcpd.Crawler.Entered.{entering_op, enter_lem}
use drcpd.Crawler.Tree.{IsFound}

-- The present item has not been seen yet, and is to be looked at.
unfoldable pub IsFresh : FindNextOp → Type 0
IsFresh op = (op.has_skipped_first_ ≡ true) ⊎ (was_ascending op.entering_list_caller_id_ ≡ false)

-- The operation with other notes.
unfoldable pub noted : FindNextOp → Option Item → ℕ → Bool → FindNextOp
noted op item skipped first = record op {
  file_item_ = item;
  directories_skipped_ = skipped;
  has_skipped_first_ = first;
}

pub noted-IsAt :
    (w : World) (op : FindNextOp) (mode : RecursiveMode) (list line depth : ℕ) (item : Option Item)
    (skipped : ℕ) (first : Bool)
    → IsAt w op mode list line depth
    → IsAt w (noted op item skipped first) mode list line depth
unfolding noted
noted-IsAt w op mode list line depth item skipped first a = record {
  searching = record {
    runs = a.searching.runs;
    tells = a.searching.tells;
    free = a.searching.free;
    steady = a.searching.steady;
  };
  direction = a.direction;
  recursion = a.recursion;
  here = a.here;
  at_line = a.at_line;
  items = a.items;
  deep = a.deep;
  rests = a.rests;
}

fresh_stays :
    (w : World) (op : FindNextOp) (mode : RecursiveMode) (list line depth : ℕ)
    → IsAt w op mode list line depth
    → IsFresh op
    → line < w.get_number_of_items list
    → passes_over op op.direction_ ≡ false
unfolding IsFresh passes_over
fresh_stays w op mode list line depth a f h =
    let at = a.at_line in
    let items = a.items in
    let b : leb op.position_.items_ op.position_.nav_.cursor_ ≡ false = ground arith in
    ap (passes_over op) a.direction ∙ ground (arith, f)

module _ (w : World) (o : IsObliging w) (mode : RecursiveMode) (op : FindNextOp)
    (list line depth : ℕ) (a : IsAt w op mode list line depth) (f : IsFresh op)
    (h : line < w.get_number_of_items list) where
  looks :
      (item : Item)
      → w.item list line ≡ some item
      → finish_with_current_item_or_continue w op ≡ use_item w op (some item)
  looks item e =
      reads_item w op item o a.searching (fresh_stays w op mode list line depth a f h)
        (ap (λ l. w.item l op.position_.nav_.cursor_) a.here ∙ ap (w.item list) a.at_line ∙ e)

  pub looks_file :
      (text k : ℕ)
      → w.item list line ≡ some (record { is_directory = false; text = text })
      → (op' : FindNextOp) × (run_rounds (suc k) w op ≡ some op')
        × (op'.entering ≡ none)
        × IsFound op' (record { list = list; line = line; text = text })
  unfolding use_item found finished_with fill_in_meta_data text_of
  looks_file text k e =
      let item : Item = record { is_directory = false; text = text } in
      let op' = found (record op { file_item_ = some item }) PositionalState.somewhere_in_list in
      (
        finished_with op' OpState.done,
        round_succeeds k w op op' (looks item e) a.searching.runs a.searching.tells,
        a.rests,
        record {
          is_done = refl;
          somewhere = refl;
          in_list = a.here;
          at_line = a.at_line;
          with_text = refl;
        },
      )

  pub skips :
      (text : ℕ)
      → w.item list line ≡ some (record { is_directory = true; text = text })
      → check_skip_directory mode depth ≡ true
      → (op' : FindNextOp) × (finish_with_current_item_or_continue w op ≡ continue_search w op')
        × IsAt w op' mode list line depth
        × IsFresh op'
  unfolding use_item is_standing IsFresh noted
  skips text e skip =
      let item : Item = record { is_directory = true; text = text } in
      let op' = noted op (some item) (op.directories_skipped_ + 1) op.has_skipped_first_ in
      let d = ap is_standing a.direction in
      let s : check_skip_directory op.recursive_mode_ op.directory_depth_ ≡ true =
        ap (λ m. check_skip_directory m op.directory_depth_) a.recursion
        ∙ ap (check_skip_directory mode) a.deep
        ∙ skip in
      (
        op',
        looks item e ∙ ground arith,
        noted-IsAt w op mode list line depth (some item) (op.directories_skipped_ + 1)
            op.has_skipped_first_ a,
        f,
      )

  pub goes_in :
      (text child : ℕ)
      → w.item list line ≡ some (record { is_directory = true; text = text })
      → check_skip_directory mode depth ≡ false
      → w.get_child_item_id list line ≡ child_id child
      → (child == 0) ≡ false
      → (op' : FindNextOp) × (finish_with_current_item_or_continue w op
          ≡ some (entering_op op' child 0 CallerId.crawler_descend, Continue.later))
        × IsAt w op' mode list line depth
  unfolding use_item is_standing descend get_child_id_for_enter noted
  goes_in text child e skip c z =
      let item : Item = record { is_directory = true; text = text } in
      let op' = noted op (some item) op.directories_skipped_ op.has_skipped_first_ in
      let d = ap is_standing a.direction in
      let s : check_skip_directory op.recursive_mode_ op.directory_depth_ ≡ false =
        ap (λ m. check_skip_directory m op.directory_depth_) a.recursion
        ∙ ap (check_skip_directory mode) a.deep
        ∙ skip in
      let q =
        ap (λ l. w.get_child_item_id l op.position_.nav_.cursor_) a.here
        ∙ ap (w.get_child_item_id list) a.at_line
        ∙ c in
      let n = enter_lem w op' child 0 CallerId.crawler_descend o in
      (
        op',
        looks item e ∙ ground arith,
        noted-IsAt w op mode list line depth (some item) op.directories_skipped_
            op.has_skipped_first_ a,
      )
