-- ===== src/CacheSegment.antt =====
-- src/cache_segment.hh: a run of list lines, and how two runs lie to one another.
-- Line numbers and sizes are `unsigned int`; sums that the source forms wrap (`add32`).
pub mod Laws
use drcpd.Common.{
  ℕ, ◌+◌, ◌-◌, ◌≤◌, ◌<◌, Bool, ◌&&◌, ◌||◌, ltb, leb, ◌==◌, if◌then◌else◌, add32, sub32,
}

pub data SegmentIntersection : Type 0 where
  disjoint equal top_remains bottom_remains center_remains included_in_other : SegmentIntersection

pub record Segment : Type 0 where
  pub line : ℕ
  pub count : ℕ

-- `operator==`: all empty segments are equal.
unfoldable pub segment_eq : Segment → Segment → Bool
segment_eq s t = (s.line == t.line && s.count == t.count) || (s.count == 0 && t.count == 0)

unfoldable pub beyond : Segment → ℕ
beyond s = add32 s.line s.count

unfoldable pub shrink_up : Segment → ℕ → Segment
shrink_up s n = record s { count = sub32 s.count n }

unfoldable pub shrink_down : Segment → ℕ → Segment
shrink_down s n = record { line = add32 s.line n; count = sub32 s.count n }

unfoldable pub contains_line : Segment → ℕ → Bool
contains_line s n = leb s.line n && ltb n (add32 s.line s.count)

-- Two segments that are not empty and start at different lines.
intersection_apart : Segment → Segment → SegmentIntersection × ℕ
unfolding beyond
intersection_apart s t =
    if ltb s.line t.line
    then if leb (beyond s) t.line
      then (SegmentIntersection.disjoint, 0)
      else if leb (beyond s) (beyond t)
      then (SegmentIntersection.bottom_remains, sub32 (beyond s) t.line)
      else (SegmentIntersection.center_remains, t.count)
    else if leb (beyond t) s.line
    then (SegmentIntersection.disjoint, 0)
    else if ltb (beyond t) (beyond s)
    then (SegmentIntersection.top_remains, sub32 (beyond t) s.line)
    else (SegmentIntersection.included_in_other, s.count)

-- The kind of overlap, and `isize`.
unfoldable pub intersection : Segment → Segment → SegmentIntersection × ℕ
unfolding intersection_apart contains_line
intersection s t =
    if s.count == 0
    then if t.count == 0
      then (if s.line == t.line then SegmentIntersection.equal else SegmentIntersection.disjoint, 0)
      else (
        if contains_line t s.line
            then SegmentIntersection.included_in_other
            else SegmentIntersection.disjoint,
        0,
      )
    else if t.count == 0
    then (
      if contains_line s t.line
          then SegmentIntersection.center_remains
          else SegmentIntersection.disjoint,
      0,
    )
    else if s.line == t.line
    then if ltb s.count t.count
      then (SegmentIntersection.included_in_other, s.count)
      else if ltb t.count s.count
      then (SegmentIntersection.top_remains, t.count)
      else (SegmentIntersection.equal, s.count)
    else intersection_apart s t
