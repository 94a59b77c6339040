-- ===== src/SyncList/Reads.antt =====
-- Reading lines one by one yields the items of the list in the broker.
use Prim.Native.Nat.{min}
use native.Mathlib.Nat.{add-zero, suc-add, add-suc}
use drcpd.Common.{
  ℕ, zero, suc, ◌+◌, ◌-◌, ◌≤◌, ◌<◌, ◌≡◌, ◌⊎◌, ◌∙◌, sub32, ltb, if◌then◌else◌, subst, refl, ap, sym,
  inl, inr, Option, none, some, false, true, List, arith, length, get_elem?, u32_mod, Option-cases,
  Bool-cases, leb,
}
use drcpd.CacheSegment.{Segment, contains_line}
use drcpd.CacheSegment.Laws.{Fits, Holds}
use drcpd.RamList.{get_nonconst_item}
use drcpd.Viewport.{
  DBusListViewport, ItemKinds, GetRangeResult, item_at, set_view, get_missing_segment,
  update_viewport_cache, items_of,
}
use drcpd.Viewport.Cells.{slice, cells, length-slice, length-cells}
use drcpd.Viewport.Overlap.{set_view_clips, get_missing_segment_within}
use drcpd.Viewport.Update.{Coherent, IsRefreshed, update_refreshes}
use drcpd.SyncList.{DBusList, Read, add_referrer, get_item, get_item_uncached}

get_elem?-slice :
    {A : Type 0} (f : ℕ → A) (l n i : ℕ)
    → i < n
    → get_elem? (cells (slice f l n)) i ≡ some (some (f (l + i)))
get_elem?-slice f l zero i h = absurd (omega arith)
get_elem?-slice f l (suc n) zero h = rw add-zero
get_elem?-slice f l (suc n) (suc i) h =
    get_elem?-slice f (suc l) n i (omega arith) ∙ rw (suc-add, add-suc)

-- A coherent cache answers for exactly the lines of the cached segment, and rightly.
pub item_at_hit :
    {A : Type 0} (f : ℕ → A) (vp : DBusListViewport A) (line : ℕ)
    → Coherent f vp
    → Fits vp.items_segment
    → Holds vp.items_segment line
    → (item_at vp line).0 ≡ some (f line)
unfolding item_at contains_line get_nonconst_item
item_at_hit {A} f vp line coh hf h =
    let i = line - vp.items_segment.line in
    let e : vp.items_segment.line + i ≡ line = omega arith in
    let found : get_elem? vp.items i ≡ some (some (f line)) =
      ap (λ (ys : List (Option A)). get_elem? ys i) coh
      ∙ get_elem?-slice f vp.items_segment.line vp.items_segment.count i (omega arith)
      ∙ ap (λ (n : ℕ). some (some (f n))) e in
    let size : length vp.items ≡ vp.items_segment.count =
      ap length coh ∙ length-cells _ ∙ length-slice f _ _ in
    let offset : sub32 line vp.items_segment.line ≡ i = omega arith in rw offset (ground arith)

pub item_at_within :
    {A : Type 0} (vp : DBusListViewport A) (line : ℕ) {item : A}
    → Fits vp.items_segment
    → (item_at vp line).0 ≡ some item
    → Holds vp.items_segment line
unfolding item_at contains_line
item_at_within vp line h e = ground arith

-- What a viewport is like between two reads of a list `f` of `total` lines.
pub record IsReady {A : Type 0} (f : ℕ → A) (total : ℕ) (vp : DBusListViewport A) : Type 0 where
  pub coherent : Coherent f vp
  pub fits : Fits vp.items_segment
  pub sizes : (vp.items_segment.count ≡ min vp.cache_size total) ⊎ (vp.items_segment.count ≡ 0)
  pub cache_size_fits : vp.cache_size < u32_mod
  pub cache_size_pos : 0 < vp.cache_size

IsReady-refreshed :
    {A : Type 0} (f : ℕ → A) (total : ℕ) (vp vp1 vp2 : DBusListViewport A)
    → IsReady f total vp
    → vp1.view_segment.count ≡ min vp.cache_size total
    → vp1.items_segment.count ≡ vp.items_segment.count
    → vp1.cache_size ≡ vp.cache_size
    → IsRefreshed f vp1 vp2
    → IsReady f total vp2
IsReady-refreshed f total vp vp1 vp2 ready v i c r = record {
  coherent = r.coherent;
  fits = r.fits;
  sizes =
      subst (λ (n : ℕ). (vp2.items_segment.count ≡ min n total) ⊎ (vp2.items_segment.count ≡ 0))
        (sym (r.same_size ∙ c)) (ground (arith, ready.sizes, r.kept_size));
  cache_size_fits = omega (arith, r.same_size, c, ready.cache_size_fits);
  cache_size_pos = omega (arith, r.same_size, c, ready.cache_size_pos);
}

-- What a read of `line` is to give.
abbrev pub Reads : {A : Type 0} → (ℕ → A) → DBusList → ℕ → ℕ → Option (Read A) → Type 0
Reads {A} f list line total r =
    (vp' : DBusListViewport A) × (r
      ≡ some (record {
        list = list;
        viewport = vp';
        item = if ltb line total then some (f line) else none;
      }))
    × IsReady f total vp'

-- The broker answers each request for lines of the list with the items of those lines.
abbrev pub Answers :
    {A : Type 0} → ItemKinds A → (Segment → Option GetRangeResult) → (ℕ → A) → ℕ → Type 0
Answers kinds fetch f total =
    (s : Segment)
    → s.line + s.count ≤ total
    → (result : GetRangeResult) × (fetch s ≡ some result)
      × (items_of kinds result ≡ some (slice f s.line s.count))

inside_lt : (line total : ℕ) → leb total line ≡ false → line < total
inside_lt line total h = ground arith

inside : (line total : ℕ) → leb total line ≡ false → ltb line total ≡ true
inside line total h = ground arith

add_referrer-number_of_items :
    (l : DBusList) (id : ℕ) → (add_referrer l id).number_of_items ≡ l.number_of_items
unfolding add_referrer
add_referrer-number_of_items l id = ground arith

module _ {A : Type 0} (kinds : ItemKinds A) (fetch : Segment → Option GetRangeResult) (f : ℕ → A)
    (list : DBusList) (total_fits : list.number_of_items < u32_mod)
    (answers : Answers kinds fetch f list.number_of_items) where
  uncached_steps :
      (vp : DBusListViewport A) (line : ℕ) (result : GetRangeResult) (vp2 : DBusListViewport A)
      → let vp1 = (set_view vp line vp.cache_size list.number_of_items).0 in
        fetch (get_missing_segment vp1) ≡ some result
        → update_viewport_cache kinds vp1 result ≡ some vp2
        → (item_at vp2 line).0 ≡ some (f line)
        → get_item_uncached kinds fetch list vp line
          ≡ some (record { list = list; viewport = vp2; item = some (f line) })
  unfolding get_item_uncached
  uncached_steps vp line result vp2 p q r = rw (p, q, r, get_item_uncached)

  get_item_uncached_right :
      (vp : DBusListViewport A) (line : ℕ)
      → IsReady f list.number_of_items vp
      → line < list.number_of_items
      → (vp' : DBusListViewport A) × (get_item_uncached kinds fetch list vp line
          ≡ some (record { list = list; viewport = vp'; item = some (f line) }))
        × IsReady f list.number_of_items vp'
  unfolding set_view
  get_item_uncached_right vp line ready h =
      let vp1 = (set_view vp line vp.cache_size list.number_of_items).0 in
      let clips =
        set_view_clips vp line vp.cache_size list.number_of_items (omega arith) (omega arith)
          total_fits in
      let within = get_missing_segment_within vp1 (omega (arith, clips.0, clips.1)) ready.fits in
      let (result, fetched, items) =
        answers (get_missing_segment vp1) (omega (arith, clips.0, clips.1, within)) in
      let (vp2, updated, refreshed) =
        update_refreshes kinds f vp1 result (omega (arith, clips.0, clips.1)) ready.fits
          ready.coherent (omega (arith, clips.1)) items in
      let hit =
        item_at_hit f vp2 line refreshed.coherent refreshed.fits
          (refreshed.covers line (omega (arith, clips.0, clips.1))) in
      (
        vp2,
        uncached_steps vp line result vp2 fetched updated hit,
        IsReady-refreshed f list.number_of_items vp vp1 vp2 ready clips.1
            (ap (λ (s : Segment). s.count) clips.3) refl refreshed,
      )

  look_up :
      (vp : DBusListViewport A) (line : ℕ)
      → IsReady f list.number_of_items vp
      → Reads f list line list.number_of_items (
          if leb list.number_of_items line
          then some (record { list = list; viewport = vp; item = none })
          else elim (item_at vp line).0 [
            | some item ↦ some (record { list = list; viewport = vp; item = some item })
            | none ↦ get_item_uncached kinds fetch list vp line
          ])
  look_up vp line ready = elim (Bool-cases (leb list.number_of_items line)) [
    | inl out ↦ (vp, ground arith, ready)
    | inr within ↦ elim (Option-cases (item_at vp line).0) [
      | inl miss ↦
          rw (within, miss, inside line list.number_of_items within)
            (get_item_uncached_right vp line ready (inside_lt line list.number_of_items within))
      | inr (item, hit) ↦
          rw
            (
              within,
              item_at_hit f vp line ready.coherent ready.fits
                  (item_at_within vp line ready.fits hit),
              inside line list.number_of_items within,
            )
            (vp, refl, ready)
    ]
  ]

-- If the list broker answers every request without an exception and with exactly the items asked for,
-- `get_item` on a ready viewport returns the item of the line (or a null pointer if there is no such
-- line in the list, which has fewer than 2^32 lines), without going out of bounds anywhere, and
-- leaves the viewport ready. A list is entered, as the code asserts.
pub get_item_right :
    {A : Type 0} (kinds : ItemKinds A) (fetch : Segment → Option GetRangeResult) (f : ℕ → A)
    (list : DBusList) (id : ℕ) (vp : DBusListViewport A) (line : ℕ)
    → list.number_of_items < u32_mod
    → Answers kinds fetch f list.number_of_items
    → IsReady f list.number_of_items vp
    → Reads f
        (add_referrer list id)
        line
        list.number_of_items
        (get_item kinds fetch list id vp line)
unfolding get_item
get_item_right kinds fetch f list id vp line =
    let l = add_referrer list id in
    subst
      (λ (n : ℕ).
        n < u32_mod
        → Answers kinds fetch f n
        → IsReady f n vp
        → Reads f l line n (get_item kinds fetch list id vp line))
      (add_referrer-number_of_items list id)
      (λ fits answers ready. look_up kinds fetch f l fits answers vp line ready)
