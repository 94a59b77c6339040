-- ===== src/Rnf/GetRange.antt =====
-- src/rnfcall_get_range.hh: what a call for a range of a list says of the lines it loads. The call
-- is given by its state, its loading segment, and whether its list error is a failure.
pub mod Laws
use drcpd.Common.{ℕ, Bool, true, false, ltb, if◌then◌else◌}
use drcpd.CacheSegment.{
  SegmentIntersection, Segment, segment_eq, contains_line, intersection, disjoint, equal,
  top_remains, bottom_remains, center_remains, included_in_other,
}
use drcpd.Viewport.{CacheSegmentState}
use drcpd.Rnf.{
  CallState, initialized, wait_for_notification, ready_to_fetch, result_fetched, aborting,
  aborted_by_list_broker, failed, about_to_destroy,
}

pub data LoadingState : Type 0 where
  inactive out_of_range loading done failed_or_aborted : LoadingState

unfoldable pub loading_state : SegmentIntersection → CacheSegmentState
loading_state disjoint = CacheSegmentState.empty
loading_state equal = CacheSegmentState.loading
loading_state included_in_other = CacheSegmentState.loading
loading_state top_remains = CacheSegmentState.loading_top_empty_bottom
loading_state bottom_remains = CacheSegmentState.loading_bottom_empty_top
loading_state center_remains = CacheSegmentState.loading_center

-- The state, and `size_of_loading_segment`.
unfoldable pub get_cache_segment_state : Bool → Segment → Segment → CacheSegmentState × ℕ
unfolding loading_state
get_cache_segment_state has_failed loading_segment segment =
    let (kind, size) = intersection segment loading_segment in
    if has_failed
    then (CacheSegmentState.empty, 0)
    else (if ltb 0 size then loading_state kind else CacheSegmentState.empty, size)

-- The result, and `can_abort`.
unfoldable pub is_segment_loading : CallState → Segment → Segment → Bool × Bool
is_segment_loading s loading_segment segment = elim s [
  | initialized ↦ (false, true)
  | wait_for_notification ↦ (segment_eq segment loading_segment, true)
  | ready_to_fetch ↦ (segment_eq segment loading_segment, true)
  | result_fetched ↦ (segment_eq segment loading_segment, true)
  | aborting ↦ (false, false)
  | aborted_by_list_broker ↦ (false, false)
  | failed ↦ (false, false)
  | about_to_destroy ↦ (false, false)
]

unfoldable pub line_loading : CallState → LoadingState
line_loading initialized = LoadingState.loading
line_loading wait_for_notification = LoadingState.loading
line_loading ready_to_fetch = LoadingState.loading
line_loading aborting = LoadingState.failed_or_aborted
line_loading aborted_by_list_broker = LoadingState.failed_or_aborted
line_loading failed = LoadingState.failed_or_aborted
line_loading result_fetched = LoadingState.done
line_loading about_to_destroy = LoadingState.done

unfoldable pub is_line_loading : CallState → Segment → ℕ → LoadingState
is_line_loading s loading_segment line =
    if contains_line loading_segment line then line_loading s else LoadingState.out_of_range
