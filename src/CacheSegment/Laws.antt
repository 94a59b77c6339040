-- ===== src/CacheSegment/Laws.antt =====
-- What the intersection of two segments says about the lines of either.
use Prim.Native.Nat.{min, max}
use drcpd.Common.{ℕ, ◌+◌, ◌-◌, ◌≤◌, ◌<◌, ◌≡◌, ◌≢◌, ◌⊎◌, ◌↔◌, arith, u32_mod, subst}
use drcpd.CacheSegment.{
  SegmentIntersection, Segment, beyond, contains_line, intersection, intersection_apart, disjoint,
  equal, top_remains, bottom_remains, center_remains, included_in_other,
}

-- No line number of the segment wraps.
abbrev pub Fits : Segment → Type 0
Fits s = s.line + s.count < u32_mod

abbrev pub Holds : Segment → ℕ → Type 0
Holds s n = (s.line ≤ n) × (n < s.line + s.count)

-- What each kind of overlap promises of this segment `s`, the other one `t` and the size `k`.
abbrev pub Overlap : Segment → Segment → SegmentIntersection × ℕ → Type 0
Overlap s t (disjoint, k) =
    (k ≡ 0)
    × (((s.line < t.line) × (s.line + s.count ≤ t.line))
        ⊎ ((t.line < s.line) × (t.line + t.count ≤ s.line)))
Overlap s t (equal, k) = (k ≡ s.count) × (s.line ≡ t.line) × (s.count ≡ t.count)
Overlap s t (top_remains, k) =
    (k < s.count) × (0 < k) × (t.line ≤ s.line) × (t.line + t.count ≡ s.line + k)
Overlap s t (bottom_remains, k) =
    (k < s.count)
    × (0 < k)
    × (s.line + (s.count - k) ≡ t.line)
    × (s.line + s.count ≤ t.line + t.count)
Overlap s t (center_remains, k) =
    (k ≡ t.count)
    × (((s.line < t.line) × (t.line + t.count < s.line + s.count))
        ⊎ ((t.count ≡ 0) × (s.line ≤ t.line) × (t.line < s.line + s.count)))
Overlap s t (included_in_other, k) =
    (k ≡ s.count)
    × (s.count < t.count)
    × (t.line ≤ s.line)
    × (s.line + s.count ≤ t.line + t.count)
    × ((s.count ≡ 0) → (s.line < t.line + t.count))

intersection_apart-Overlap :
    (s t : Segment)
    → Fits s
    → Fits t
    → s.line ≢ t.line
    → 0 < s.count
    → 0 < t.count
    → Overlap s t (intersection_apart s t)
unfolding intersection_apart beyond
intersection_apart-Overlap s t hs ht d ps pt = ground arith

-- What `intersection` computes is right on every branch.
pub intersection-Overlap : (s t : Segment) → Fits s → Fits t → Overlap s t (intersection s t)
unfolding intersection contains_line
intersection-Overlap s t hs ht = ground (arith, intersection_apart-Overlap s t hs ht)

-- What is right is computed.
intersection_of :
    (s t : Segment) (r : SegmentIntersection × ℕ)
    → Fits s
    → Fits t
    → Overlap s t r
    → intersection s t ≡ r
unfolding intersection intersection_apart contains_line beyond
intersection_of s t (disjoint, k) hs ht o = ground (arith, o)
intersection_of s t (equal, k) hs ht o = ground (arith, o)
intersection_of s t (top_remains, k) hs ht o = ground (arith, o)
intersection_of s t (bottom_remains, k) hs ht o = ground (arith, o)
intersection_of s t (center_remains, k) hs ht o = ground (arith, o)
intersection_of s t (included_in_other, k) hs ht o = ground (arith, o)

-- `intersection` computes the one kind and size that is right: nothing in common, the same lines,
-- the top or the bottom of this segment, something within it or at none of its ends, or all of this
-- segment in a larger one.
pub intersection_lem :
    (s t : Segment) (r : SegmentIntersection × ℕ)
    → Fits s
    → Fits t
    → (intersection s t ≡ r) ↔ Overlap s t r
intersection_lem s t r hs ht = (
  λ e. subst (Overlap s t) e (intersection-Overlap s t hs ht),
  λ o. intersection_of s t r hs ht o,
)

-- The size is that of the common lines: the smaller end less the larger start.
pub intersection_size :
    (s t : Segment)
    → Fits s
    → Fits t
    → (intersection s t).1 ≡ min (s.line + s.count) (t.line + t.count) - max s.line t.line
unfolding intersection
intersection_size s t hs ht = ground arith
