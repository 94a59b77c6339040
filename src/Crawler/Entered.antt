-- ===== src/Crawler/Entered.antt =====
-- Entering a list (src/directory_crawler_find_next_op.cc), forward, with a list broker that answers
-- every question at once and enters every list.
use drcpd.Common.{
  ℕ, zero, suc, ◌≤◌, ◌<◌, ◌≡◌, ◌⊎◌, inl, inr, true, false, none, some, ◌==◌, arith, refl, ap, sym,
  ◌∙◌, subst,
}
use drcpd.ListNav.{Nav, recover_cursor_and_selection}
use drcpd.ListNav.Moves.{set_cursor_by_line_number, int_max}
use drcpd.ListNav.Laws.{filter_of}
use drcpd.ListNav.Cursor.{top, jump, line_of, set_cursor_top, set_cursor_inside}
use drcpd.Crawler.{
  Direction, is_forward_direction, RecursiveMode, CallerId, OpResult, World, Cursor,
  sync_list_id_with_request,
}
use drcpd.Crawler.FindNext.{FindNextOp, Continue, enter, entered}
use drcpd.Crawler.Events.{
  async_list__enter_list_event, matches_async_result, enter_list_event, update_navigation, line_for,
  proceed, value, forgets_item, entering_direction,
}
use drcpd.Crawler.Steps.{IsSteady}
use drcpd.Crawler.Rounds.{IsObliging}
use drcpd.Crawler.Walk.{IsAt}

set_cursor_empty : (nav : Nav) → set_cursor_by_line_number (filter_of 0) nav 0 ≡ some (top nav)
unfolding set_cursor_by_line_number recover_cursor_and_selection filter_of top
set_cursor_empty nav = ground arith

-- The cursor can be set to every line of a list, and to the start of an empty list.
pub set_cursor_lem :
    (n old : ℕ) (nav : Nav) (line : ℕ)
    → IsSteady old nav
    → n ≤ suc int_max
    → (line < n) ⊎ ((n ≡ 0) × (line ≡ 0))
    → (nav' : Nav) × (set_cursor_by_line_number (filter_of n) nav line ≡ some nav')
      × IsSteady n nav'
      × (nav'.cursor_ ≡ line)
unfolding top jump line_of
set_cursor_lem n old nav line s size (inr (e, z)) =
    let set : set_cursor_by_line_number (filter_of n) nav line ≡ some (top nav) =
      subst (λ k. set_cursor_by_line_number (filter_of k) nav line ≡ some (top nav)) (sym e)
        (subst (λ k. set_cursor_by_line_number (filter_of 0) nav k ≡ some (top nav)) (sym z)
          (set_cursor_empty nav)) in
    (
      top nav,
      set,
      record {
        within = inr (e, refl);
        on_display = omega (arith, s.on_display);
        lines = s.lines;
        wrap = s.wrap;
        size = size;
      },
      sym z,
    )
set_cursor_lem zero old nav line s size (inl h) = absurd (omega arith)
set_cursor_lem (suc m) old nav zero s size (inl h) = (
  top nav,
  set_cursor_top m nav,
  record {
    within = inl (omega arith);
    on_display = omega (arith, s.on_display);
    lines = s.lines;
    wrap = s.wrap;
    size = size;
  },
  refl,
)
set_cursor_lem (suc m) old nav (suc line) s size (inl h) =
    let display = s.on_display in
    (
      jump m nav (suc line),
      set_cursor_inside m nav (suc line) (omega arith) (omega arith) (omega arith) s.lines
          (omega arith),
      record {
        within = inl h;
        on_display = ground arith;
        lines = s.lines;
        wrap = s.wrap;
        size = size;
      },
      refl,
    )

-- The operation while it enters a list.
unfoldable pub entering_op : FindNextOp → ℕ → ℕ → CallerId → FindNextOp
entering_op op list line cid = record op {
  entering_list_caller_id_ = cid;
  position_ = record op.position_ { requested_list_id_ = list; requested_line_ = line };
  entering = some (record { list_id_ = list; line_ = line; caller_id = cid });
}

pub enter_lem :
    (w : World) (op : FindNextOp) (list line : ℕ) (cid : CallerId)
    → IsObliging w
    → enter w op list line cid ≡ some (entering_op op list line cid, Continue.later)
unfolding enter entered entering_op
enter_lem w op list line cid o = let e = o.enters list line cid in ground arith

-- The operation when it has entered a list, and has its navigation there.
unfoldable pub arrived : FindNextOp → ℕ → ℕ → Nav → ℕ → CallerId → FindNextOp
arrived op list line nav n cid = record op {
  entering_list_caller_id_ = cid;
  list_id = list;
  entering = none;
  file_item_ = none;
  position_ = record op.position_ {
    requested_list_id_ = list;
    requested_line_ = line;
    nav_ = nav;
    items_ = n;
  };
}

-- The operation goes on in the list that it has entered.
unfoldable pub settled_in : FindNextOp → ℕ → FindNextOp
settled_in op depth = record op {
  directory_depth_ = depth;
  has_skipped_first_ = false;
  position_ = sync_list_id_with_request op.position_ depth;
}

value_self : (cid : CallerId) → (value cid == value cid) ≡ true
value_self cid = ground arith

line_for_forward :
    (n line : ℕ) → (line < n) ⊎ ((n ≡ 0) × (line ≡ 0)) → line_for Direction.forward n line ≡ line
unfolding line_for is_forward_direction
line_for_forward n line h = ground arith

pub matches_lem :
    (op : FindNextOp) (to to_line : ℕ) (cid : CallerId)
    → matches_async_result
        (record (entering_op op to to_line cid) { list_id = to; entering = none })
        (record { list_id_ = to; line_ = to_line; caller_id = cid })
      ≡ true
unfolding matches_async_result entering_op
matches_lem op to to_line cid = let v = value_self cid in ground arith

pub update_navigation_lem :
    (w : World) (c : Cursor) (towards : Direction) (old to line n : ℕ)
    → IsSteady old c.nav_
    → towards ≡ Direction.forward
    → w.get_number_of_items to ≡ n
    → n ≤ suc int_max
    → (line < n) ⊎ ((n ≡ 0) × (line ≡ 0))
    → (nav : Nav) × (update_navigation w to c towards line
        ≡ some (record c { nav_ = nav; items_ = n }))
      × IsSteady n nav
      × (nav.cursor_ ≡ line)
unfolding update_navigation
update_navigation_lem w c towards old to line n s d e size h =
    let (nav, set, steady, at) = set_cursor_lem n old c.nav_ line s size h in
    let l = ap (λ x. line_for x n line) d ∙ line_for_forward n line h in
    (nav, ground arith, steady, at)

pub arrive :
    (w : World) (op : FindNextOp) (mode : RecursiveMode) (list line depth to to_line n : ℕ)
    (cid : CallerId)
    → IsAt w op mode list line depth
    → forgets_item cid ≡ true
    → (entering_direction cid op.direction_ ≡ Direction.forward)
    → w.get_number_of_items to ≡ n
    → n ≤ suc int_max
    → (to_line < n) ⊎ ((n ≡ 0) × (to_line ≡ 0))
    → (nav : Nav) × (async_list__enter_list_event w OpResult.succeeded
          (record { list_id_ = to; line_ = to_line; caller_id = cid })
          (entering_op op to to_line cid)
        ≡ proceed w (arrived op to to_line nav n cid) cid true)
      × IsSteady n nav
      × (nav.cursor_ ≡ to_line)
unfolding async_list__enter_list_event enter_list_event arrived entering_op
arrive w op mode list line depth to to_line n cid a fo dir en size h =
    let (nav, u, steady, at) =
      update_navigation_lem w (entering_op op to to_line cid).position_ _ op.position_.items_ to
        to_line n a.searching.steady dir en size h in
    let m = matches_lem op to to_line cid in (nav, ground arith, steady, at)
