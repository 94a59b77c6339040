-- ===== src/Rnf/GetRange/Laws.antt =====
-- The states that src/rnfcall_get_range.hh reports, in terms of the lines of the list.
use Prim.Native.Nat.{min, max}
use drcpd.Common.{ℕ, ◌+◌, ◌-◌, ◌<◌, ◌≡◌, ◌⊎◌, ◌↔◌, refl, true, false, arith, ltb, if◌then◌else◌}
use drcpd.CacheSegment.{
  SegmentIntersection, Segment, segment_eq, contains_line, disjoint, equal, top_remains,
  bottom_remains, center_remains, included_in_other,
}
use drcpd.CacheSegment.Laws.{Fits, Holds, Overlap, intersection-Overlap, intersection_size}
use drcpd.Viewport.{CacheSegmentState}
use drcpd.Rnf.{CallState}
use drcpd.Rnf.GetRange.{
  LoadingState, loading_state, get_cache_segment_state, is_segment_loading, is_line_loading,
  line_loading,
}

loading_state_right :
    (s t : Segment) (r : SegmentIntersection × ℕ)
    → Overlap s t r
    → let state = if ltb 0 r.1 then loading_state r.0 else CacheSegmentState.empty in
      ((state ≡ CacheSegmentState.empty) ↔ (r.1 ≡ 0))
      × ((state ≡ CacheSegmentState.loading) ↔ ((0 < s.count) × (r.1 ≡ s.count)))
unfolding loading_state
loading_state_right s t (disjoint, k) o = ground arith
loading_state_right s t (equal, k) o = ground arith
loading_state_right s t (center_remains, k) o = ground arith
loading_state_right s t (included_in_other, k) o = ground arith
loading_state_right s t (top_remains, k) o = ground arith
loading_state_right s t (bottom_remains, k) o = ground arith

-- For a call that has not failed, the number of loading lines of a segment is that of the lines
-- it has in common with what is loaded; the segment is empty exactly if there are none, and
-- loading exactly if it has lines and they are all loaded. For a failed call nothing is loaded.
pub get_cache_segment_state_right :
    (loading_segment segment : Segment)
    → Fits loading_segment
    → Fits segment
    → let (state, size) = get_cache_segment_state false loading_segment segment in
      (size
        ≡ min (segment.line + segment.count) (loading_segment.line + loading_segment.count)
          - max segment.line loading_segment.line)
      × ((state ≡ CacheSegmentState.empty) ↔ (size ≡ 0))
      × ((state ≡ CacheSegmentState.loading) ↔ ((0 < segment.count) × (size ≡ segment.count)))
      × (get_cache_segment_state true loading_segment segment ≡ (CacheSegmentState.empty, 0))
unfolding get_cache_segment_state
get_cache_segment_state_right l s hl hs =
    let (e, f) = loading_state_right s l _ (intersection-Overlap s l hs hl) in
    (intersection_size s l hs hl, e, f, refl)

-- A line of a segment that is reported as loading is itself in the range of the call, and is
-- reported as loading or done.
pub segment-line_loading :
    (s : CallState) (loading_segment segment : Segment) (line : ℕ)
    → Fits loading_segment
    → Fits segment
    → (is_segment_loading s loading_segment segment).0 ≡ true
    → Holds segment line
    → (is_line_loading s loading_segment line ≡ LoadingState.loading)
      ⊎ (is_line_loading s loading_segment line ≡ LoadingState.done)
unfolding is_segment_loading is_line_loading segment_eq contains_line line_loading
segment-line_loading s l t line hl ht e h = ground arith
