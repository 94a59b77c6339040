-- ===== src/Crawler/Walk.antt =====
-- The search forward (src/directory_crawler_find_next_op.cc), with a list broker that answers every
-- question at once and enters every list: one move of the operation at a time.
use drcpd.Common.{ℕ, suc, ◌≤◌, ◌<◌, ◌≡◌, inl, inr, none, some, arith, ap, ◌∙◌}
use drcpd.ListNav.{Nav}
use drcpd.Crawler.{Direction, RecursiveMode, World, advance}
use drcpd.Crawler.FindNext.{FindNextOp, Continue, continue_search, at_end}
use drcpd.Crawler.Steps.{IsSteady, Stepped, advance_lem}
use drcpd.Crawler.Rounds.{IsSearching}

-- The operation searches forward, at a line of a list at a depth.
pub record IsAt (w : World) (op : FindNextOp) (mode : RecursiveMode) (list line depth : ℕ)
    : Type 0 where
  pub searching : IsSearching op
  pub direction : op.direction_ ≡ Direction.forward
  pub recursion : op.recursive_mode_ ≡ mode
  pub here : op.list_id ≡ list
  pub at_line : op.position_.nav_.cursor_ ≡ line
  pub items : op.position_.items_ ≡ w.get_number_of_items list
  pub deep : op.directory_depth_ ≡ depth
  pub rests : op.entering ≡ none

unfoldable pub with_nav : FindNextOp → Nav → FindNextOp
with_nav op nav = record op { position_ = record op.position_ { nav_ = nav } }

with_nav-IsAt :
    (w : World) (op : FindNextOp) (mode : RecursiveMode) (list line line' depth : ℕ) (nav : Nav)
    → IsAt w op mode list line depth
    → IsSteady op.position_.items_ nav
    → nav.cursor_ ≡ line'
    → IsAt w (with_nav op nav) mode list line' depth
unfolding with_nav
with_nav-IsAt w op mode list line line' depth nav a s e = record {
  searching = record {
    runs = a.searching.runs;
    tells = a.searching.tells;
    free = a.searching.free;
    steady = s;
  };
  direction = a.direction;
  recursion = a.recursion;
  here = a.here;
  at_line = e;
  items = a.items;
  deep = a.deep;
  rests = a.rests;
}

module _ (w : World) (op : FindNextOp) (mode : RecursiveMode) (list line depth : ℕ)
    (a : IsAt w op mode list line depth) where
  pub continues :
      suc line < w.get_number_of_items list
      → (nav : Nav) × (continue_search w op ≡ some (with_nav op nav, Continue.with_this_item))
        × IsAt w (with_nav op nav) mode list (suc line) depth
  unfolding continue_search Stepped with_nav
  continues h =
      let (nav, moved, e, steady, lines, stepped) =
        advance_lem op.position_ Direction.forward a.searching.steady in
      let e' = ap (advance op.position_) a.direction ∙ e in
      let at = a.at_line in
      let items = a.items in
      elim stepped [
        | inl (m, c, b) ↦ (
          nav,
          ground arith,
          with_nav-IsAt w op mode list line (suc line) depth nav a steady (omega arith),
        )
        | inr (m, c, b) ↦ absurd (omega arith)
      ]

  pub stops :
      w.get_number_of_items list ≤ suc line
      → (nav : Nav) × (continue_search w op ≡ at_end w (with_nav op nav) Direction.forward)
        × IsAt w (with_nav op nav) mode list line depth
  unfolding continue_search Stepped with_nav
  stops h =
      let (nav, moved, e, steady, lines, stepped) =
        advance_lem op.position_ Direction.forward a.searching.steady in
      let e' = ap (advance op.position_) a.direction ∙ e in
      let at = a.at_line in
      let items = a.items in
      let d = a.direction in
      elim stepped [
        | inl (m, c, b) ↦ absurd (omega arith)
        | inr (m, c, b) ↦ (
          nav,
          ground arith,
          with_nav-IsAt w op mode list line line depth nav a steady (omega arith),
        )
      ]
