-- ===== src/Crawler/Tree.antt =====
-- The hierarchy in which the crawler searches, and what it is meant to find there
-- (src/playlist_crawler_ops.hh): the first file, depth first.
use drcpd.Common.{
  ℕ, suc, ◌≤◌, ◌≡◌, true, false, Option, none, some, ◌==◌, arith, refl, if◌then◌else◌,
}
use drcpd.ListNav.Moves.{int_max}
use drcpd.Crawler.{RecursiveMode, PositionalState, OpResult, World, child_id}
use drcpd.Crawler.Operation.{OpState}
use drcpd.Crawler.FindNext.{
  EnterList, FindNextOp, Continue, check_skip_directory, finish_op_if_possible, continue_search,
}
use drcpd.Crawler.Events.{async_list__enter_list_event}

-- The items of a list from one line on: files with their texts, and folders with their texts, the IDs
-- of their lists, and what is in them.
pub data Forest : Type 0 where
  nothing : Forest
  file : (text : ℕ) → Forest → Forest
  folder : (text list : ℕ) → Forest → Forest → Forest

-- A file, by its list, its line and its text.
pub record Spot : Type 0 where
  pub list : ℕ
  pub line : ℕ
  pub text : ℕ

unfoldable pub or_else : Option Spot → Option Spot → Option Spot
or_else none b = b
or_else (some s) b = some s

-- The first file of the items from a line on, in a list at a depth.
unfoldable pub first_in : RecursiveMode → ℕ → ℕ → ℕ → Forest → Option Spot
unfolding check_skip_directory
first_in mode depth list line nothing = none
first_in mode depth list line (file text rest) =
    some (record { list = list; line = line; text = text })
first_in mode depth list line (folder text child kids rest) =
    let below = first_in mode (suc depth) child 0 kids in
    let behind = first_in mode depth list (suc line) rest in
    if check_skip_directory mode depth then behind else or_else below behind

-- The list broker shows the items from a line on. Lists have at most 2^31 items.
pub data Shows (w : World) : ℕ → ℕ → Forest → Type 0 where
  ends : {list line : ℕ} → w.get_number_of_items list ≡ line → Shows w list line nothing
  shows_file :
      {list line text : ℕ} {rest : Forest}
      → w.item list line ≡ some (record { is_directory = false; text = text })
      → Shows w list (suc line) rest
      → Shows w list line (file text rest)
  shows_folder :
      {list line text child : ℕ} {kids rest : Forest}
      → w.item list line ≡ some (record { is_directory = true; text = text })
      → w.get_child_item_id list line ≡ child_id child
      → w.get_parent_link_id child ≡ some (list, line)
      → (child == 0) ≡ false
      → w.get_number_of_items child ≤ suc int_max
      → Shows w child 0 kids
      → Shows w list (suc line) rest
      → Shows w list line (folder text child kids rest)

-- The operation goes on as long as it enters lists, which succeeds each time.
pub data Settles (w : World) : FindNextOp → FindNextOp → Type 0 where
  settled : {op : FindNextOp} → op.entering ≡ none → Settles w op op
  enters :
      {op op1 op2 : FindNextOp} {e : EnterList}
      → op.entering ≡ some e
      → async_list__enter_list_event w OpResult.succeeded e op ≡ some op1
      → Settles w op1 op2
      → Settles w op op2

-- The operation has found the file, and stands there.
pub record IsFound (op : FindNextOp) (spot : Spot) : Type 0 where
  pub is_done : op.base.state_ ≡ OpState.done
  pub somewhere : op.pos_state_ ≡ PositionalState.somewhere_in_list
  pub in_list : op.list_id ≡ spot.list
  pub at_line : op.position_.nav_.cursor_ ≡ spot.line
  pub with_text : op.meta_data_ ≡ some spot.text

-- There is a step, and then the operation comes to an end of which `Q` holds.
unfoldable pub Reach : World → Option FindNextOp → (FindNextOp → Type 0) → Type 0
Reach w r Q = (op1 : FindNextOp) × (op2 : FindNextOp) × (r ≡ some op1) × Settles w op1 op2 × Q op2

-- The search does not go on with the present item, and comes to an end of which `Q` holds.
unfoldable pub Ends : World → FindNextOp → (FindNextOp → Type 0) → Type 0
Ends w op Q =
    (op1 : FindNextOp) × (c : Continue) × (op2 : FindNextOp) × (op3 : FindNextOp) × (continue_search
        w op
      ≡ some (op1, c))
    × (finish_op_if_possible op1 c ≡ some (op2, true))
    × Settles w op2 op3
    × Q op3

pub Shows-bound :
    (w : World) (list line : ℕ) (forest : Forest)
    → Shows w list line forest
    → line ≤ w.get_number_of_items list
Shows-bound w list line nothing (ends e) = omega arith
Shows-bound w list line (file text rest) (shows_file i s) =
    let b = Shows-bound w list (suc line) rest s in omega arith
Shows-bound w list line (folder text child kids rest) (shows_folder i c p z n k s) =
    let b = Shows-bound w list (suc line) rest s in omega arith

pub nothing_left :
    (w : World) (mode : RecursiveMode) (depth list line : ℕ) (forest : Forest)
    → Shows w list line forest
    → w.get_number_of_items list ≡ line
    → first_in mode depth list line forest ≡ none
unfolding first_in
nothing_left w mode depth list line nothing (ends e) h = refl
nothing_left w mode depth list line (file text rest) (shows_file i s) h =
    let b = Shows-bound w list (suc line) rest s in absurd (omega arith)
nothing_left w mode depth list line (folder text child kids rest) (shows_folder i c p z n k s) h =
    let b = Shows-bound w list (suc line) rest s in absurd (omega arith)
