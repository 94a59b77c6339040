-- ===== src/Crawler/Explore.antt =====
-- The search through a hierarchy of directories (src/directory_crawler_find_next_op.cc), forward, with
-- a list broker that answers every question at once and enters every list: it finds the first file.
use drcpd.Common.{
  ℕ, zero, suc, ◌+◌, ◌≤◌, ◌<◌, ◌≡◌, inl, inr, true, false, Option, none, some, leb, ◌==◌, arith,
  refl, ap, sym, ◌∙◌, subst, ◌>>=◌, Bool-cases, dec_lt,
}
use drcpd.ListNav.Moves.{int_max}
use drcpd.Crawler.{Direction, RecursiveMode, CallerId, OpResult, World}
use drcpd.Crawler.FindNext.{
  FindNextOp, Continue, finish_op_if_possible, continue_search, run_as_far_as_possible, run_rounds,
  finish_with_current_item_or_continue, check_skip_directory, at_end, to_parent,
}
use drcpd.Crawler.Events.{async_list__enter_list_event, after_finish}
use drcpd.Crawler.Rounds.{IsObliging, passes, round_on, round_waits}
use drcpd.Crawler.Walk.{IsAt, with_nav, continues, stops}
use drcpd.Crawler.Entered.{entering_op, enter_lem}
use drcpd.Crawler.Turns.{descends_full, descends_empty, ascends}
use drcpd.Crawler.Tree.{
  Forest, nothing, file, folder, Spot, first_in, or_else, Shows, ends, shows_file, shows_folder,
  Settles, settled, enters, IsFound, Reach, Ends, nothing_left,
}
use drcpd.Crawler.Finds.{IsFresh, noted, noted-IsAt, looks_file, skips, goes_in}

depth_of_skip :
    (mode : RecursiveMode) (depth : ℕ) → check_skip_directory mode depth ≡ false → depth < 100
unfolding check_skip_directory
depth_of_skip RecursiveMode.flat depth h = absurd (ground (arith, h))
depth_of_skip RecursiveMode.depth_first depth h = ground (arith, h)

leaves :
    (w : World) (op : FindNextOp) (list line : ℕ)
    → IsObliging w
    → leb op.directory_depth_ 1 ≡ false
    → w.get_parent_link_id op.list_id ≡ some (list, line)
    → (list == 0) ≡ false
    → at_end w op Direction.forward
      ≡ some (entering_op op list line CallerId.crawler_ascend, Continue.later)
unfolding at_end to_parent
leaves w op list line o d p z =
    let n = enter_lem w op list line CallerId.crawler_ascend o in ground arith

module _ (w : World) (Q : FindNextOp → Type 0) where
  round_ends :
      (k : ℕ) (op op' : FindNextOp)
      → finish_with_current_item_or_continue w op ≡ continue_search w op'
      → Ends w op' Q
      → Reach w (run_rounds (suc k) w op) Q
  unfolding Ends Reach run_rounds
  round_ends k op op' e (op1, c, op2, op3, q1, q2, s, q) = (op2, op3, ground arith, s, q)

  event_ends :
      (op : FindNextOp)
      → Ends w op Q
      → Reach w (continue_search w op >>= λ p. finish_op_if_possible p.0 p.1 >>= after_finish w) Q
  unfolding Ends Reach after_finish
  event_ends op (op1, c, op2, op3, q1, q2, s, q) = (op2, op3, ground arith, s, q)

  -- A list is entered.
  enters_list :
      (op : FindNextOp) (list line : ℕ) (cid : CallerId) (r : Option FindNextOp)
      → async_list__enter_list_event w OpResult.succeeded
          (record { list_id_ = list; line_ = line; caller_id = cid })
          (entering_op op list line cid)
        ≡ r
      → Reach w r Q
      → (op2 : FindNextOp) × Settles w (entering_op op list line cid) op2 × Q op2
  unfolding Reach entering_op
  enters_list op list line cid r e (op1, op2, q1, s, q) = (op2, enters refl (e ∙ q1) s, q)

  module _ (o : IsObliging w) (mode : RecursiveMode) (list line depth : ℕ)
      (inside : line < w.get_number_of_items list)
      (next_item : (op : FindNextOp) (k : ℕ)
        → IsAt w op mode list (suc line) depth
        → IsFresh op
        → suc line < w.get_number_of_items list
        → w.get_number_of_items list < suc line + k
        → Reach w (run_rounds k w op) Q)
      (last_item : (op : FindNextOp)
        → suc line ≡ w.get_number_of_items list
        → IsAt w op mode list line depth
        → Ends w op Q) where
    -- The item at the line is done with.
    goes_on :
        (op op' : FindNextOp) (k : ℕ)
        → finish_with_current_item_or_continue w op ≡ continue_search w op'
        → IsAt w op' mode list line depth
        → IsFresh op'
        → w.get_number_of_items list < line + suc k
        → Reach w (run_rounds (suc k) w op) Q
    unfolding IsFresh with_nav
    goes_on op op' k e a f h = elim (dec_lt (suc line) (w.get_number_of_items list)) [
      | yes lt ↦
          let (nav, c, a') = continues w op' mode list line depth a lt in
          subst (λ r. Reach w r Q) (sym (round_on k w op (with_nav op' nav) (e ∙ c)))
            (next_item (with_nav op' nav) k a' f lt (omega arith))
      | no ge ↦ round_ends k op op' e (last_item op' (omega arith) a)
    ]

    -- The end of the directory at the line is reached.
    pub comes_back :
        (op : FindNextOp) (child child_line : ℕ)
        → IsAt w op mode child child_line (suc depth)
        → 1 ≤ depth
        → depth < 100
        → (list == 0) ≡ false
        → w.get_number_of_items list ≤ suc int_max
        → w.get_number_of_items child ≤ suc child_line
        → w.get_parent_link_id child ≡ some (list, line)
        → Ends w op Q
    unfolding Ends finish_op_if_possible IsFresh noted run_as_far_as_possible
    comes_back op child child_line a h1 h100 z size last p =
        let (nav, e, a1) = stops w op mode child child_line (suc depth) a last in
        let op1 = with_nav op nav in
        let parent = ap w.get_parent_link_id a1.here ∙ p in
        let d : leb op1.directory_depth_ 1 ≡ false = ap (λ x. leb x 1) a1.deep ∙ ground arith in
        let (op2, e2, a2, h2, c2) =
          ascends w op1 mode child child_line (suc depth) a1 list line depth refl (omega arith)
            inside size in
        let op3 = noted op2 op2.file_item_ op2.directories_skipped_ true in
        let back =
          goes_on op2 op3 (suc (op2.position_.items_))
            (passes w op2 a2.searching.free a2.direction h2 c2)
            (noted-IsAt w op2 mode list line depth op2.file_item_ op2.directories_skipped_ true a2)
            (inl refl) (omega (arith, a2.items)) in
        let (op4, s, q) = enters_list op1 list line CallerId.crawler_ascend _ e2 back in
        (
          entering_op op1 list line CallerId.crawler_ascend,
          Continue.later,
          entering_op op1 list line CallerId.crawler_ascend,
          op4,
          e ∙ leaves w op1 list line o d parent z,
          refl,
          s,
          q,
        )

pub or_else-none : (a b : Option Spot) → a ≡ none → or_else a b ≡ b
unfolding or_else
or_else-none a b e = ground arith

pub or_else-some : (a b : Option Spot) (s : Spot) → a ≡ some s → or_else a b ≡ some s
unfolding or_else
or_else-some a b s e = ground arith

both_none : (a b : Option Spot) → or_else a b ≡ none → (a ≡ none) × (b ≡ none)
unfolding or_else
both_none none b h = (refl, h)
both_none (some s) b h = absurd (ground (arith, h))

skip_first :
    (mode : RecursiveMode) (depth list line text child : ℕ) (kids rest : Forest)
    → check_skip_directory mode depth ≡ true
    → first_in mode depth list line (folder text child kids rest)
      ≡ first_in mode depth list (suc line) rest
unfolding first_in
skip_first mode depth list line text child kids rest h = ground arith

enter_first :
    (mode : RecursiveMode) (depth list line text child : ℕ) (kids rest : Forest)
    → check_skip_directory mode depth ≡ false
    → first_in mode depth list line (folder text child kids rest)
      ≡ or_else (first_in mode (suc depth) child 0 kids) (first_in mode depth list (suc line) rest)
unfolding first_in
enter_first mode depth list line text child kids rest h = ground arith

-- What the search comes to from a line of a list on, if `Q` holds when the first file is found, and
-- comes to hold when the end of the list is reached and there is none.
pub explore :
    (w : World) (o : IsObliging w) (mode : RecursiveMode) (Q : FindNextOp → Type 0)
    (forest : Forest) (op : FindNextOp) (list line depth k : ℕ)
    → IsAt w op mode list line depth
    → IsFresh op
    → 1 ≤ depth
    → (list == 0) ≡ false
    → w.get_number_of_items list ≤ suc int_max
    → Shows w list line forest
    → line < w.get_number_of_items list
    → w.get_number_of_items list < line + k
    → ((spot : Spot) (op' : FindNextOp)
        → first_in mode depth list line forest ≡ some spot
        → IsFound op' spot
        → Q op')
    → ((op' : FindNextOp) (last : ℕ)
        → first_in mode depth list line forest ≡ none
        → suc last ≡ w.get_number_of_items list
        → IsAt w op' mode list last depth
        → Ends w op' Q)
    → Reach w (run_rounds k w op) Q
unfolding Reach first_in run_as_far_as_possible IsFresh
explore w o mode Q nothing op list line depth k a f d z size (ends e) h hk found_it ended =
    absurd (omega arith)
explore w o mode Q forest op list line depth zero a f d z size s h hk found_it ended =
    absurd (omega arith)
explore w o mode Q (file text rest) op list line depth (suc k) a f d z size (shows_file i s) h hk
      found_it ended =
    let (op', e, r, is) = looks_file w o mode op list line depth a f h text k i in
    (op', op', e, settled r, found_it _ op' refl is)
explore w o mode Q (folder text child kids rest) op list line depth (suc k) a f d z size
      (shows_folder i c p cz csize below s) h hk found_it ended =
    let next_item : first_in mode depth list line (folder text child kids rest)
          ≡ first_in mode depth list (suc line) rest
        → (op' : FindNextOp) (k' : ℕ) → IsAt w op' mode list (suc line) depth
        → IsFresh op'
        → suc line < w.get_number_of_items list
        → w.get_number_of_items list < suc line + k'
        → Reach w (run_rounds k' w op') Q =
      λ eq op' k' a' f' h' hk'.
        explore w o mode Q rest op' list (suc line) depth k' a' f' d z size s h' hk'
          (λ spot op'' q is. found_it spot op'' (eq ∙ q) is)
          (λ op'' last q el is. ended op'' last (eq ∙ q) el is) in
    let last_item : first_in mode depth list line (folder text child kids rest)
          ≡ first_in mode depth list (suc line) rest
        → (op' : FindNextOp) → suc line ≡ w.get_number_of_items list
        → IsAt w op' mode list line depth
        → Ends w op' Q =
      λ eq op' el is.
        ended op' line (eq ∙ nothing_left w mode depth list (suc line) rest s (sym el)) el is in
    elim (Bool-cases (check_skip_directory mode depth)) [
      | inl skip ↦
          let eq = skip_first mode depth list line text child kids rest skip in
          let (op', e, a', f') = skips w o mode op list line depth a f h text i skip in
          goes_on w Q o mode list line depth h (next_item eq) (last_item eq) op op' k e a' f'
            (omega arith)
      | inr goes ↦
          let eq = enter_first mode depth list line text child kids rest goes in
          let d100 = depth_of_skip mode depth goes in
          let (op', e, a') = goes_in w o mode op list line depth a f h text child i goes c cz in
          let op1 = entering_op op' child 0 CallerId.crawler_descend in
          let back : first_in mode (suc depth) child 0 kids ≡ none
              → (op2 : FindNextOp) (child_line : ℕ) → IsAt w op2 mode child child_line (suc depth)
              → w.get_number_of_items child ≤ suc child_line
              → Ends w op2 Q =
            λ no op2 child_line a2 last.
              let eq' = eq ∙ or_else-none _ (first_in mode depth list (suc line) rest) no in
              comes_back w Q o mode list line depth h (next_item eq') (last_item eq') op2 child
                child_line a2 d d100 z size last p in
          let there : (op2 : FindNextOp) × Settles w op1 op2 × Q op2 =
            elim (dec_lt 0 (w.get_number_of_items child)) [
              | yes full ↦
                  let (op2, e2, a2, f2) =
                    descends_full w op' mode list line depth a' child (omega arith) full csize in
                  enters_list w Q op' child 0 CallerId.crawler_descend _ e2 (
                    explore w o mode Q kids op2 child 0 (suc depth) (suc (suc op2.position_.items_))
                      a2 (inr f2) (omega arith) cz csize below full (omega (arith, a2.items))
                      (λ spot op'' q is. found_it spot op'' (eq ∙ or_else-some _ _ spot q) is)
                      (λ op'' last q el is. back q op'' last is (omega arith)))
              | no empty ↦
                  let (op2, e2, a2) =
                    descends_empty w op' mode list line depth a' child (omega arith)
                      (omega arith) in
                  enters_list w Q op' child 0 CallerId.crawler_descend _ e2 (
                    event_ends w Q op2 (
                      back (nothing_left w mode (suc depth) child 0 kids below (omega arith)) op2 0
                        a2 (omega arith)))
            ] in
          (op1, there.0, round_waits k w op op1 e, there.1, there.2)
    ]
