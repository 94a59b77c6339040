-- ===== src/Tests/Lists.antt =====
-- Segments, viewports and list reads (src/cache_segment.hh, src/dbuslist_viewport.cc,
-- src/dbuslist.cc) at concrete inputs.
use drcpd.Common.{
  ◌<◌, ◌↔◌, ◌+◌, ℕ, ◌≡◌, ◌⊎◌, inl, refl, ap, Option, none, some, List, [], ◌∷◌, arith, zero, suc,
}
use drcpd.CacheSegment.{bottom_remains, Segment, intersection}
use drcpd.CacheSegment.Laws.{Overlap, Holds, intersection_lem}
use drcpd.Viewport.{
  DBusListViewport, ItemKinds, GetRangeResult, SimpleEntry, simple, set_view, get_missing_segment,
  update_viewport_cache, items_of,
}
use drcpd.Viewport.Cells.{slice}
use drcpd.Viewport.Overlap.{set_view_clips, get_missing_segment_covers}
use drcpd.Viewport.Update.{IsRefreshed, update_refreshes}
use drcpd.SyncList.{DBusList, add_referrer, get_item}
use drcpd.SyncList.Reads.{IsReady, Reads, get_item_right}

-- The list has the numbers of its lines as item kinds, and items are their kinds.
abbrev kinds : ItemKinds ℕ
kinds = record { new_item_fn = λ name item_kind names. item_kind; locked = 99 }

abbrev line_of : ℕ → ℕ
line_of n = n

entries : ℕ → ℕ → List SimpleEntry
entries l zero = []
entries l (suc n) = record { name = "entry"; item_kind = l } ∷ entries (suc l) n

broker : Segment → Option GetRangeResult
broker s = some (simple (entries s.line s.count))

items_of-entries : (l n : ℕ) → items_of kinds (simple (entries l n)) ≡ some (slice line_of l n)
unfolding items_of entries
items_of-entries l zero = refl
items_of-entries l (suc n) =
    ap
      (λ (o : Option (List ℕ)). elim o as (λ _. Option (List ℕ)) [
        | none ↦ none
        | some xs ↦ some (l ∷ xs)
      ])
      (items_of-entries (suc l) n)

-- Lines 2 to 4 are cached; the view is on lines 3 to 5.
abbrev scrolled : DBusListViewport ℕ
scrolled = record {
  view_segment = record { line = 3; count = 3 };
  items_segment = record { line = 2; count = 3 };
  items = some 2 ∷ some 3 ∷ some 4 ∷ [];
  cache_size = 3;
}

abbrev missing_entries : GetRangeResult
missing_entries = simple (entries 5 1)

abbrev upper : Segment
upper = record { line = 2; count = 3 }

abbrev lower : Segment
lower = record { line = 4; count = 6 }

intersection_lem_example :
    (intersection upper lower ≡ (bottom_remains, 5)) ↔ Overlap upper lower (bottom_remains, 5)
intersection_lem_example =
    intersection_lem upper lower (bottom_remains, 5) (omega arith) (omega arith)

set_view_clips_example :
    let vp' = (set_view scrolled 9 3 10).0 in
    (vp'.view_segment.line ≡ 7)
    × (vp'.view_segment.count ≡ 3)
    × (vp'.items ≡ scrolled.items)
    × (vp'.items_segment ≡ scrolled.items_segment)
set_view_clips_example = set_view_clips scrolled 9 3 10 (omega arith) (omega arith) (omega arith)

get_missing_segment_covers_example :
    let missing = get_missing_segment scrolled in
    (Holds missing 5 → Holds scrolled.view_segment 5)
    × (Holds scrolled.view_segment 5 → Holds scrolled.items_segment 5 ⊎ Holds missing 5)
    × (Holds missing 5
        → Holds scrolled.items_segment 5
        → (scrolled.view_segment.line < scrolled.items_segment.line)
          × (scrolled.items_segment.line + scrolled.items_segment.count
              < scrolled.view_segment.line + scrolled.view_segment.count))
get_missing_segment_covers_example =
    get_missing_segment_covers scrolled 5 (omega arith) (omega arith)

missing_entries_are : items_of kinds missing_entries ≡ some (slice line_of 5 1)
missing_entries_are = items_of-entries 5 1

update_refreshes_example :
    (vp' : DBusListViewport ℕ) × (update_viewport_cache kinds scrolled missing_entries ≡ some vp')
    × IsRefreshed line_of scrolled vp'
unfolding get_missing_segment intersection
update_refreshes_example =
    update_refreshes kinds line_of scrolled missing_entries (omega arith) (omega arith) refl
      (inl refl) missing_entries_are

abbrev ten_lines : DBusList
ten_lines = record { number_of_items = 10; referrers = [] }

scrolled-IsReady : IsReady line_of 10 scrolled
scrolled-IsReady = record {
  coherent = refl;
  fits = omega arith;
  sizes = inl refl;
  cache_size_fits = omega arith;
  cache_size_pos = omega arith;
}

get_item_right_example :
    Reads line_of (add_referrer ten_lines 1) 8 10 (get_item kinds broker ten_lines 1 scrolled 8)
unfolding broker
get_item_right_example =
    get_item_right kinds broker line_of ten_lines 1 scrolled 8 (omega arith)
      (λ s h. (simple (entries s.line s.count), refl, items_of-entries s.line s.count))
      scrolled-IsReady
