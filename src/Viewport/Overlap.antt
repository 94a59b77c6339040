-- ===== src/Viewport/Overlap.antt =====
-- What the view, the cached segment and the missing segment have to do with one another.
use Prim.Native.Nat.{min, max}
use drcpd.Common.{ℕ, ◌+◌, ◌-◌, ◌≤◌, ◌<◌, ◌≡◌, ◌⊎◌, ◌↔◌, refl, arith, u32_mod, if◌then◌else◌, ◌==◌}
use drcpd.CacheSegment.{
  SegmentIntersection, Segment, disjoint, equal, top_remains, bottom_remains, center_remains,
  included_in_other,
}
use drcpd.CacheSegment.Laws.{Fits, Holds, Overlap, intersection-Overlap, intersection_size}
use drcpd.Viewport.{
  DBusListViewport, CacheSegmentState, view_of, missing_of, overlap_state, set_view,
  get_missing_segment, compute_overlap,
}

module _ {A : Type 0} where
  -- `set_view` on a list of `total` lines shows `count` lines, or all if there are fewer, from
  -- `line` on or, where that would leave the list, up to its end; the cache is not touched.
  pub set_view_clips :
      (vp : DBusListViewport A) (line count total : ℕ)
      → line < u32_mod
      → count < u32_mod
      → total < u32_mod
      → let vp' = (set_view vp line count total).0 in
        (vp'.view_segment.line ≡ min line (total - count))
        × (vp'.view_segment.count ≡ min count total)
        × (vp'.items ≡ vp.items)
        × (vp'.items_segment ≡ vp.items_segment)
  unfolding set_view view_of
  set_view_clips vp line count total hl hc ht = (ground arith, ground arith, refl, refl)

abbrev pub MissingRight : Segment → Segment → SegmentIntersection × ℕ → ℕ → Type 0
MissingRight view items r n =
    (Holds (missing_of view r) n → Holds view n)
    × (Holds view n → Holds items n ⊎ Holds (missing_of view r) n)
    × (Holds (missing_of view r) n
        → Holds items n
        → (view.line < items.line) × (items.line + items.count < view.line + view.count))

missing_of_right :
    (view items : Segment) (r : SegmentIntersection × ℕ) (n : ℕ)
    → Fits view
    → Fits items
    → Overlap view items r
    → MissingRight view items r n
unfolding missing_of
missing_of_right view items (disjoint, k) n hv hi o = ground arith
missing_of_right view items (equal, k) n hv hi o = ground arith
missing_of_right view items (center_remains, k) n hv hi o = ground arith
missing_of_right view items (included_in_other, k) n hv hi o = ground arith
missing_of_right view items (top_remains, k) n hv hi o = ground arith
missing_of_right view items (bottom_remains, k) n hv hi o = ground arith

missing_of_within :
    (view items : Segment) (r : SegmentIntersection × ℕ)
    → Fits view
    → Overlap view items r
    → (missing_of view r).line + (missing_of view r).count ≤ view.line + view.count
unfolding missing_of
missing_of_within view items (disjoint, k) hv o = omega arith
missing_of_within view items (equal, k) hv o = omega arith
missing_of_within view items (center_remains, k) hv o = omega arith
missing_of_within view items (included_in_other, k) hv o = omega arith
missing_of_within view items (top_remains, k) hv o = omega arith
missing_of_within view items (bottom_remains, k) hv o = omega arith

pub get_missing_segment_within :
    {A : Type 0} (vp : DBusListViewport A)
    → Fits vp.view_segment
    → Fits vp.items_segment
    → let missing = get_missing_segment vp in
      missing.line + missing.count ≤ vp.view_segment.line + vp.view_segment.count
unfolding get_missing_segment
get_missing_segment_within vp hv hi =
    missing_of_within vp.view_segment vp.items_segment _ hv
      (intersection-Overlap vp.view_segment vp.items_segment hv hi)

-- The segment that is asked for lies in the view, together with the cached lines it covers the
-- view, and no cached line is in it unless the cached lines are in the middle of the view, with lines of
-- the view on both sides.
pub get_missing_segment_covers :
    {A : Type 0} (vp : DBusListViewport A) (n : ℕ)
    → Fits vp.view_segment
    → Fits vp.items_segment
    → let missing = get_missing_segment vp in
      (Holds missing n → Holds vp.view_segment n)
      × (Holds vp.view_segment n → Holds vp.items_segment n ⊎ Holds missing n)
      × (Holds missing n
          → Holds vp.items_segment n
          → (vp.view_segment.line < vp.items_segment.line)
            × (vp.items_segment.line + vp.items_segment.count
                < vp.view_segment.line + vp.view_segment.count))
unfolding get_missing_segment
get_missing_segment_covers vp n hv hi =
    missing_of_right vp.view_segment vp.items_segment _ n hv hi
      (intersection-Overlap vp.view_segment vp.items_segment hv hi)

overlap_state_right :
    (s t : Segment) (r : SegmentIntersection × ℕ)
    → Overlap s t r
    → r.1 ≡ min (s.line + s.count) (t.line + t.count) - max s.line t.line
    → let state = if r.1 == 0 then CacheSegmentState.empty else overlap_state r.0 in
      (r.1 ≡ min (s.line + s.count) (t.line + t.count) - max s.line t.line)
      × ((state ≡ CacheSegmentState.empty) ↔ (r.1 ≡ 0))
      × ((state ≡ CacheSegmentState.cached) ↔ ((0 < s.count) × (r.1 ≡ s.count)))
unfolding overlap_state
overlap_state_right s t (disjoint, k) o e = ground arith
overlap_state_right s t (equal, k) o e = ground arith
overlap_state_right s t (center_remains, k) o e = ground arith
overlap_state_right s t (included_in_other, k) o e = ground arith
overlap_state_right s t (top_remains, k) o e = ground arith
overlap_state_right s t (bottom_remains, k) o e = ground arith

-- A segment counts as cached only if all its lines are, and as empty exactly if none is.
pub compute_overlap_right :
    {A : Type 0} (vp : DBusListViewport A) (s : Segment)
    → Fits s
    → Fits vp.items_segment
    → let (state, cached_lines_count) = compute_overlap vp s in
      (cached_lines_count
        ≡ min (s.line + s.count) (vp.items_segment.line + vp.items_segment.count)
          - max s.line vp.items_segment.line)
      × ((state ≡ CacheSegmentState.empty) ↔ (cached_lines_count ≡ 0))
      × ((state ≡ CacheSegmentState.cached) ↔ ((0 < s.count) × (cached_lines_count ≡ s.count)))
unfolding compute_overlap overlap_state
compute_overlap_right vp s hs hi =
    overlap_state_right s vp.items_segment _ (intersection-Overlap s vp.items_segment hs hi)
      (intersection_size s vp.items_segment hs hi)
