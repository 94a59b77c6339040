-- ===== src/Viewport.antt =====
-- src/dbuslist_viewport.hh and .cc: the window of list items that is cached, and the view on it.
-- Locks are left out: each operation is one step. `A` is the type of the list items, made from
-- the received entries by `new_item_fn`; a read or write out of bounds gives no result.
pub mod Overlap
pub mod Cells
pub mod Update
use Prim.Native.String.{String}
use drcpd.Common.{
  ℕ, suc, Bool, true, false, not, ◌&&◌, Option, none, some, List, [], ◌∷◌, ltb, leb, ◌==◌,
  if◌then◌else◌, length, is_empty, get_elem?, add32, sub32, u32_max,
}
use drcpd.CacheSegment.{
  SegmentIntersection, Segment, contains_line, intersection, disjoint, equal, top_remains,
  bottom_remains, center_remains, included_in_other,
}
use drcpd.RamList.{get_nonconst_item, append, replace, shift_up, shift_down}

pub data CacheSegmentState : Type 0 where
  empty loading loading_top_empty_bottom loading_bottom_empty_top loading_center : CacheSegmentState
  cached cached_top_loading_bottom cached_bottom_loading_top : CacheSegmentState
  cached_top_empty_bottom cached_bottom_empty_top : CacheSegmentState
  cached_top_loading_center_empty_bottom : CacheSegmentState
  cached_bottom_loading_center_empty_top cached_center : CacheSegmentState

pub record DBusListViewport (A : Type 0) : Type 0 where
  pub view_segment : Segment
  pub items_segment : Segment
  pub items : List (Option A)
  pub cache_size : ℕ

pub overlap_state : SegmentIntersection → CacheSegmentState
overlap_state disjoint = CacheSegmentState.empty
overlap_state equal = CacheSegmentState.cached
overlap_state included_in_other = CacheSegmentState.cached
overlap_state top_remains = CacheSegmentState.cached_top_empty_bottom
overlap_state bottom_remains = CacheSegmentState.cached_bottom_empty_top
overlap_state center_remains = CacheSegmentState.cached_center

pub view_of : ℕ → ℕ → ℕ → Segment
view_of line count total =
    if leb (add32 line count) total
    then record { line = line; count = count }
    else if leb count total
    then record { line = sub32 total count; count = count }
    else record { line = 0; count = total }

pub missing_of : Segment → SegmentIntersection × ℕ → Segment
missing_of view (disjoint, k) = view
missing_of view (center_remains, k) = view
missing_of view (equal, k) = record { line = view.line; count = 0 }
missing_of view (included_in_other, k) = record { line = view.line; count = 0 }
missing_of view (top_remains, k) = record { line = add32 view.line k; count = sub32 view.count k }
missing_of view (bottom_remains, k) = record { line = view.line; count = sub32 view.count k }

module _ {A : Type 0} where
  -- The state, and `cached_lines_count`.
  unfoldable pub compute_overlap : DBusListViewport A → Segment → CacheSegmentState × ℕ
  unfolding overlap_state
  compute_overlap vp segment =
      let (kind, cached_lines_count) = intersection segment vp.items_segment in
      let cached_state = overlap_state kind in
      (
        if cached_lines_count == 0 then CacheSegmentState.empty else cached_state,
        cached_lines_count,
      )

  unfoldable pub set_view :
      DBusListViewport A → ℕ → ℕ → ℕ → DBusListViewport A × (CacheSegmentState × ℕ)
  unfolding view_of
  set_view vp line count total =
      let line' = if ltb (sub32 u32_max count) line then sub32 u32_max count else line in
      let vp' = record vp { view_segment = view_of line' count total } in
      (vp', compute_overlap vp' vp'.view_segment)

  unfoldable pub get_missing_segment : DBusListViewport A → Segment
  unfolding missing_of
  get_missing_segment vp =
      missing_of vp.view_segment (intersection vp.view_segment vp.items_segment)

  -- The shifted cache, and `beginning_of_gap`.
  pub prepare_by : DBusListViewport A → SegmentIntersection × ℕ → Option (DBusListViewport A × ℕ)
  prepare_by vp (disjoint, k) = some (record vp { items = [] }, 0)
  prepare_by vp (center_remains, k) = some (record vp { items = [] }, 0)
  prepare_by vp (equal, k) = some (vp, 0)
  prepare_by vp (included_in_other, k) = some (vp, 0)
  prepare_by vp (top_remains, k) = elim (shift_up vp.items (sub32 (length vp.items) k)) [
    | none ↦ none
    | some items ↦ some (record vp { items = items }, k)
  ]
  prepare_by vp (bottom_remains, k) = elim (shift_down vp.items (sub32 (length vp.items) k)) [
    | none ↦ none
    | some items ↦ some (record vp { items = items }, 0)
  ]

  unfoldable pub prepare_update : DBusListViewport A → Option (DBusListViewport A × ℕ)
  unfolding prepare_by
  prepare_update vp = prepare_by vp (intersection vp.view_segment vp.items_segment)

  -- The loop over the received items, in replace mode and in append mode.
  pub put_items : Bool → List (Option A) → ℕ → List A → Option (List (Option A))
  put_items mode items index [] = some items
  put_items true items index (x ∷ xs) = elim (replace items index (some x)) [
    | none ↦ none
    | some items' ↦ put_items true items' (suc index) xs
  ]
  put_items false items index (x ∷ xs) = put_items false (append items (some x)).0 index xs

  pub update_cache_region : DBusListViewport A → ℕ → List A → Option (DBusListViewport A)
  update_cache_region vp index [] = some vp
  update_cache_region vp index (x ∷ xs) =
      elim (put_items (not (is_empty vp.items)) vp.items index (x ∷ xs)) [
        | none ↦ none
        | some items ↦ some (record vp { items = items; items_segment = vp.view_segment })
      ]

  -- The cached item, and whether the line is in view.
  unfoldable pub item_at : DBusListViewport A → ℕ → Option A × Bool
  item_at vp line = (
    if contains_line vp.items_segment line
        then get_nonconst_item vp.items (sub32 line vp.items_segment.line)
        else none,
    contains_line vp.view_segment line,
  )

  unfoldable pub clear_for_line : DBusListViewport A → ℕ → DBusListViewport A
  clear_for_line vp line = record vp {
    items = [];
    items_segment = record { line = line; count = 0 };
  }

-- A received entry without and with meta data: names, index of the primary name, item kind.
pub record SimpleEntry : Type 0 where
  pub name : String
  pub item_kind : ℕ

pub record MetaEntry : Type 0 where
  pub names : List String
  pub primary_name_index : ℕ
  pub item_kind : ℕ

-- `GetRangeResult`, whose `have_meta_data_` says which of the two formats the list has.
pub data GetRangeResult : Type 0 where
  simple : List SimpleEntry → GetRangeResult
  with_meta_data : List MetaEntry → GetRangeResult

-- `new_item_fn`, from name, kind and (for entries with meta data) all names; and the kind
-- `LOCKED`, whose value is declared outside these sources.
pub record ItemKinds (A : Type 0) : Type 0 where
  pub new_item_fn : String → ℕ → Option (List String) → A
  pub locked : ℕ

module _ {A : Type 0} (kinds : ItemKinds A) where
  open kinds use {new_item_fn, locked}

  simple_items : List SimpleEntry → List A
  simple_items [] = []
  simple_items (e ∷ es) = new_item_fn e.name e.item_kind none ∷ simple_items es

  -- An index above the number of names counts as 0; reading `names` out of bounds is undefined.
  unfoldable pub meta_item : MetaEntry → Option A
  meta_item e =
      let index =
        if ltb 3 e.primary_name_index && not (e.primary_name_index == 255)
        then 0
        else e.primary_name_index in
      if index == 255
      then some (new_item_fn "----" locked (some e.names))
      else elim (get_elem? e.names index) [
        | none ↦ none
        | some name ↦ some (new_item_fn name e.item_kind (some e.names))
      ]

  meta_items : List MetaEntry → Option (List A)
  meta_items [] = some []
  meta_items (e ∷ es) = elim (meta_item e) [
    | none ↦ none
    | some x ↦ elim (meta_items es) [ none ↦ none | some xs ↦ some (x ∷ xs) ]
  ]

  unfoldable pub items_of : GetRangeResult → Option (List A)
  unfolding simple_items meta_items
  items_of (simple es) = some (simple_items es)
  items_of (with_meta_data es) = meta_items es

  -- `update_viewport_cache` of src/dbuslist.cc.
  unfoldable pub update_viewport_cache :
      DBusListViewport A → GetRangeResult → Option (DBusListViewport A)
  update_viewport_cache vp result = elim (prepare_update vp) [
    | none ↦ none
    | some (vp', beginning_of_gap) ↦ elim (items_of result) [
      | none ↦ none
      | some xs ↦ update_cache_region vp' beginning_of_gap xs
    ]
  ]
