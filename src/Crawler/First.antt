-- ===== src/Crawler/First.antt =====
-- The first and the next file of a hierarchy of directories (src/directory_crawler_find_next_op.cc),
-- with a list broker that answers every question at once and enters every list.
use drcpd.Common.{
  ℕ, suc, ◌+◌, ◌≤◌, ◌<◌, ◌≡◌, inl, true, false, Option, none, some, leb, ◌==◌, arith, refl, ap, sym,
  ◌∙◌, subst, ◌>>=◌, dec_lt,
}
use drcpd.ListNav.Moves.{int_max}
use drcpd.Crawler.{Direction, is_forward_direction, RecursiveMode, PositionalState, FindMode, World}
use drcpd.Crawler.Operation.{OpState}
use drcpd.Crawler.FindNext.{
  FindNextOp, Continue, finish_op_if_possible, continue_search, run_as_far_as_possible, run_rounds,
  at_end, found, end_of_list, fill_in_meta_data,
}
use drcpd.Crawler.Events.{is_find_next, do_continue, skipped_first, continue_running}
use drcpd.Crawler.Rounds.{IsObliging, finished_with, finishes}
use drcpd.Crawler.Walk.{IsAt, with_nav, continues, stops}
use drcpd.Crawler.Tree.{
  Forest, Spot, first_in, or_else, Shows, Settles, settled, IsFound, Reach, Ends, nothing_left,
}
use drcpd.Crawler.Finds.{IsFresh, noted, noted-IsAt}
use drcpd.Crawler.Explore.{explore, comes_back, or_else-none, or_else-some}

-- The operation has found the file, or the end of the hierarchy if there is none.
unfoldable pub Outcome : Option Spot → FindNextOp → Type 0
Outcome none op =
    (op.base.state_ ≡ OpState.done) × (op.pos_state_ ≡ PositionalState.reached_end_of_list)
Outcome (some spot) op = IsFound op spot

-- The way from a list up to the top of the hierarchy, and the first file behind it.
pub data Above (w : World) (mode : RecursiveMode) : ℕ → ℕ → Option Spot → Type 0 where
  top : {list : ℕ} → Above w mode 1 list none
  under :
      {list : ℕ} (depth parent line : ℕ) (rest : Forest) (behind : Option Spot)
      → 1 ≤ depth
      → depth < 100
      → (parent == 0) ≡ false
      → w.get_parent_link_id list ≡ some (parent, line)
      → line < w.get_number_of_items parent
      → w.get_number_of_items parent ≤ suc int_max
      → Shows w parent (suc line) rest
      → Above w mode depth parent behind
      → Above w mode (suc depth) list (or_else (first_in mode depth parent (suc line) rest) behind)

reaches_end :
    (w : World) (op : FindNextOp)
    → leb op.directory_depth_ 1 ≡ true
    → at_end w op Direction.forward
      ≡ some (found op PositionalState.reached_end_of_list, Continue.not_with_success)
unfolding at_end end_of_list is_forward_direction
reaches_end w op d = ground arith

ends_at_top :
    (w : World) (mode : RecursiveMode) (op : FindNextOp) (list line : ℕ)
    → IsAt w op mode list line 1
    → w.get_number_of_items list ≤ suc line
    → Ends w op (Outcome none)
unfolding Ends Outcome found fill_in_meta_data finished_with
ends_at_top w mode op list line a h =
    let (nav, e, a1) = stops w op mode list line 1 a h in
    let op1 = with_nav op nav in
    let op2 = found op1 PositionalState.reached_end_of_list in
    (
      op2,
      Continue.not_with_success,
      finished_with op2 OpState.done,
      finished_with op2 OpState.done,
      e ∙ reaches_end w op1 (ap (λ x. leb x 1) a1.deep),
      finishes op2 a1.searching.runs a1.searching.tells,
      settled a1.rests,
      (refl, refl),
    )

-- From a line of a list on, the search comes to the first file there, or to the first one behind.
pub explore_from :
    (w : World) (o : IsObliging w) (mode : RecursiveMode) (forest : Forest) (op : FindNextOp)
    (list line depth k : ℕ) (behind : Option Spot)
    → IsAt w op mode list line depth
    → IsFresh op
    → 1 ≤ depth
    → (list == 0) ≡ false
    → w.get_number_of_items list ≤ suc int_max
    → Shows w list line forest
    → line < w.get_number_of_items list
    → w.get_number_of_items list < line + k
    → ((op' : FindNextOp) (last : ℕ)
        → suc last ≡ w.get_number_of_items list
        → IsAt w op' mode list last depth
        → Ends w op' (Outcome behind))
    → Reach w (run_rounds k w op) (Outcome (or_else (first_in mode depth list line forest) behind))
unfolding Outcome
explore_from w o mode forest op list line depth k behind a f d z size s h hk ended =
    explore w o mode _ forest op list line depth k a f d z size s h hk
      (λ spot op' e is. subst (λ b. Outcome b op') (sym (or_else-some _ behind spot e)) is)
      (λ op' last no el a'.
        subst (λ b. Ends w op' (Outcome b)) (sym (or_else-none _ behind no)) (ended op' last el a'))

-- Behind the last item of a list, the search comes to the first file behind the list.
pub ends_above :
    (w : World) (o : IsObliging w) (mode : RecursiveMode) (op : FindNextOp) (list last depth : ℕ)
    (behind : Option Spot)
    → Above w mode depth list behind
    → IsAt w op mode list last depth
    → w.get_number_of_items list ≤ suc last
    → Ends w op (Outcome behind)
ends_above w o mode op list last depth behind top a h = ends_at_top w mode op list last a h
ends_above w o mode op list last depth behind
      (under depth' parent line rest behind' h1 h100 z p inside size s up) a h =
    comes_back w (Outcome (or_else (first_in mode depth' parent (suc line) rest) behind')) o mode
      parent line depth' inside
      (λ op' k a' f h' hk.
        explore_from w o mode rest op' parent (suc line) depth' k behind' a' f h1 z size s h' hk
          (λ op'' last' el a''.
            ends_above w o mode op'' parent last' depth' behind' up a'' (omega arith)))
      (λ op' el a'.
        subst (λ b. Ends w op' (Outcome b))
          (sym
            (or_else-none _ behind' (nothing_left w mode depth' parent (suc line) rest s (sym el))))
          (ends_above w o mode op' parent line depth' behind' up a' (omega arith)))
      op list last a h1 h100 z size h p

continues_on :
    (w : World) (op op' : FindNextOp)
    → op.base.state_ ≡ OpState.running
    → op.find_mode_ ≡ FindMode.find_next
    → continue_search w op ≡ some (op', Continue.with_this_item)
    → continue_running w op ≡ (
        run_as_far_as_possible w (noted op' op'.file_item_ op'.directories_skipped_ true) >>= λ o.
        some (o, true))
unfolding continue_running do_continue is_find_next finish_op_if_possible skipped_first noted
continues_on w op op' r m e = ground arith

continues_last :
    (w : World) (op op1 op2 : FindNextOp) (c : Continue)
    → op.base.state_ ≡ OpState.running
    → op.find_mode_ ≡ FindMode.find_next
    → continue_search w op ≡ some (op1, c)
    → finish_op_if_possible op1 c ≡ some (op2, true)
    → continue_running w op ≡ some (op2, true)
unfolding continue_running do_continue is_find_next skipped_first
continues_last w op op1 op2 c r m e e' = ground arith

-- A running operation that continues to find the next file from an item of a hierarchy, forward,
-- comes to an end: it has found the first file behind the item, in the order of depth first, or the
-- end of the hierarchy if there is none. Files in directories that are passed over do not count:
-- these are all directories if the operation is not to enter any, and else those at a depth of 100.
-- The list of the item has at most 2^31 items. The list broker answers every question at once and
-- enters every list.
pub finds_next :
    (w : World) (mode : RecursiveMode) (op : FindNextOp) (list line depth : ℕ) (rest : Forest)
    (behind : Option Spot)
    → IsObliging w
    → IsAt w op mode list line depth
    → op.find_mode_ ≡ FindMode.find_next
    → 1 ≤ depth
    → (list == 0) ≡ false
    → w.get_number_of_items list ≤ suc int_max
    → line < w.get_number_of_items list
    → Shows w list (suc line) rest
    → Above w mode depth list behind
    → (op1 : FindNextOp) × (op2 : FindNextOp) × (continue_running w op ≡ some (op1, true))
      × Settles w op1 op2
      × Outcome (or_else (first_in mode depth list (suc line) rest) behind) op2
unfolding Reach Ends run_as_far_as_possible IsFresh noted with_nav
finds_next w mode op list line depth rest behind o a m d z size h s up =
    elim (dec_lt (suc line) (w.get_number_of_items list)) [
      | yes lt ↦
          let (nav, c, a') = continues w op mode list line depth a lt in
          let op' = with_nav op nav in
          let (op1, op2, e, st, q) =
            explore_from w o mode rest (noted op' op'.file_item_ op'.directories_skipped_ true) list
              (suc line) depth (suc (suc op'.position_.items_)) behind
              (noted-IsAt w op' mode list (suc line) depth op'.file_item_ op'.directories_skipped_
                true a')
              (inl refl) d z size s lt (omega (arith, a'.items))
              (λ op'' last el a''.
                ends_above w o mode op'' list last depth behind up a'' (omega arith)) in
          (
            op1,
            op2,
            continues_on w op op' a.searching.runs m c ∙ ap (λ r. r >>= λ o'. some (o', true)) e,
            st,
            q,
          )
      | no ge ↦
          let (op1, c, op2, op3, e1, e2, st, q) =
            ends_above w o mode op list line depth behind up a (omega arith) in
          (
            op2,
            op3,
            continues_last w op op1 op2 c a.searching.runs m e1 e2,
            st,
            subst (λ b. Outcome b op3)
                (sym (
                  or_else-none _ behind
                    (nothing_left w mode depth list (suc line) rest s (omega arith))))
                q,
          )
    ]
