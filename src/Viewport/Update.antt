-- ===== src/Viewport/Update.antt =====
-- Fetching the missing segment brings cache and view together.
use mathlib.Core.List.{append-nil}
use drcpd.Common.{
  ℕ, zero, suc, ◌+◌, ◌-◌, ◌≤◌, ◌<◌, ◌≡◌, ◌⊎◌, refl, ap, sym, subst, ◌∙◌, false, Option, none, some,
  List, [], ◌∷◌, ◌++◌, arith, length, is_empty, take, drop, replicate, length-replicate,
  length-append, sub32, add32, inl, inr,
}
use drcpd.CacheSegment.{
  SegmentIntersection, intersection, disjoint, equal, top_remains, bottom_remains, center_remains,
  included_in_other,
}
use drcpd.CacheSegment.Laws.{Fits, Holds, Overlap, intersection-Overlap}
use drcpd.RamList.{shift_up, shift_down}
use drcpd.Viewport.{
  DBusListViewport, ItemKinds, GetRangeResult, missing_of, get_missing_segment, prepare_by,
  prepare_update, update_cache_region, items_of, update_viewport_cache, put_items,
}
use drcpd.Viewport.Cells.{
  slice, cells, length-slice, length-cells, drop-cells-slice, take_all, take-cells-slice,
  cells-slice-append, put_items_over, put_items_append,
}

module _ {A : Type 0} where
  -- The cache holds the items of list `f` that belong to the cached segment, and no others.
  abbrev pub Coherent : (ℕ → A) → DBusListViewport A → Type 0
  Coherent f vp = vp.items ≡ cells (slice f vp.items_segment.line vp.items_segment.count)

  -- `vp'` is `vp` with a cache that covers the view.
  pub record IsRefreshed (f : ℕ → A) (vp vp' : DBusListViewport A) : Type 0 where
    pub coherent : Coherent f vp'
    pub fits : Fits vp'.items_segment
    pub same_view : vp'.view_segment ≡ vp.view_segment
    pub same_size : vp'.cache_size ≡ vp.cache_size
    pub covers : (n : ℕ) → Holds vp.view_segment n → Holds vp'.items_segment n
    pub kept_size :
        (vp'.items_segment.count ≡ vp.items_segment.count)
        ⊎ (vp'.items_segment.count ≡ vp.view_segment.count)

  shift_up_lem :
      (items : List (Option A)) (count : ℕ)
      → count ≤ length items
      → shift_up items count ≡ some (drop count items ++ replicate count none)
  unfolding shift_up
  shift_up_lem items zero h = rw append-nil
  shift_up_lem items (suc n) h = ground arith

  shift_down_lem :
      (items : List (Option A)) (d k : ℕ)
      → d + k ≡ length items
      → shift_down items d ≡ some (replicate d none ++ take k items)
  unfolding shift_down
  shift_down_lem items zero k h = ap some (sym (take_all k items (omega arith)))
  shift_down_lem items (suc d) k h = let e : length items - suc d ≡ k = omega arith in ground arith

  non_empty : (xs : List (Option A)) → 0 < length xs → is_empty xs ≡ false
  non_empty [] h = absurd (omega arith)
  non_empty (x ∷ xs) h = refl

  update_over :
      (vp : DBusListViewport A) (pre mid post : List (Option A)) (xs : List A)
      → vp.items ≡ pre ++ (mid ++ post)
      → length mid ≡ length xs
      → 0 < length xs
      → update_cache_region vp (length pre) xs
        ≡ some (record vp { items = pre ++ (cells xs ++ post); items_segment = vp.view_segment })
  unfolding update_cache_region
  update_over vp pre mid post [] e h p = absurd (omega arith)
  update_over vp pre mid post (x ∷ xs) e h p = rw (
    e,
    non_empty (pre ++ (mid ++ post))
        (omega (arith, length-append pre (mid ++ post), length-append mid post)),
    put_items_over pre mid post (x ∷ xs) h,
    update_cache_region,
  )

  update_append :
      (vp : DBusListViewport A) (i : ℕ) (xs : List A)
      → vp.items ≡ []
      → 0 < length xs
      → update_cache_region vp i xs
        ≡ some (record vp { items = cells xs; items_segment = vp.view_segment })
  unfolding update_cache_region put_items
  update_append vp i [] e p = absurd (omega arith)
  update_append vp i (x ∷ xs) e p = rw (e, put_items_append [] i (x ∷ xs))

  -- The steps of an update that succeeds.
  abbrev Refreshes : (ℕ → A) → DBusListViewport A → SegmentIntersection × ℕ → List A → Type 0
  Refreshes f vp r xs =
      (vp1 : DBusListViewport A) × (g : ℕ) × (vp2 : DBusListViewport A) × (prepare_by vp r
        ≡ some (vp1, g))
      × (update_cache_region vp1 g xs ≡ some vp2)
      × IsRefreshed f vp vp2

  module _ (f : ℕ → A) (vp : DBusListViewport A) (hv : Fits vp.view_segment)
      (hi : Fits vp.items_segment) (coh : Coherent f vp)
      (sizes : (vp.items_segment.count ≡ vp.view_segment.count)
        ⊎ (vp.items_segment.count ≡ 0)) where
    refresh_none :
        vp.items_segment.line ≤ vp.view_segment.line
        → vp.view_segment.line + vp.view_segment.count
          ≤ vp.items_segment.line + vp.items_segment.count
        → IsRefreshed f vp vp
    refresh_none h k = record {
      coherent = coh;
      fits = hi;
      same_view = refl;
      same_size = refl;
      covers = λ n m. (omega arith, omega arith);
      kept_size = inl refl;
    }

    refreshed :
        (items : List (Option A))
        → items ≡ cells (slice f vp.view_segment.line vp.view_segment.count)
        → IsRefreshed f vp (record vp { items = items; items_segment = vp.view_segment })
    refreshed items e = record {
      coherent = e;
      fits = hv;
      same_view = refl;
      same_size = refl;
      covers = λ n m. m;
      kept_size = inr refl;
    }

    length_items : length vp.items ≡ vp.items_segment.count
    length_items = ap length coh ∙ length-cells _ ∙ length-slice f _ _

    refresh_all :
        (r : SegmentIntersection × ℕ) (n : ℕ)
        → vp.view_segment.count ≡ n
        → prepare_by vp r ≡ some (record vp { items = [] }, 0)
        → Refreshes f vp r (slice f vp.view_segment.line n)
    unfolding update_cache_region
    refresh_all r zero e p =
        let none_cached : vp.items_segment.count ≡ 0 = omega arith in
        (
          record vp { items = [] },
          0,
          record vp { items = [] },
          p,
          refl,
          record {
            coherent = rw none_cached refl;
            fits = hi;
            same_view = refl;
            same_size = refl;
            covers = λ n m. absurd (omega arith);
            kept_size = inl refl;
          },
        )
    refresh_all r (suc n) e p = (
      record vp { items = [] },
      0,
      record vp {
        items = cells (slice f vp.view_segment.line (suc n));
        items_segment = vp.view_segment;
      },
      p,
      update_append (record vp { items = [] }) 0 (slice f vp.view_segment.line (suc n)) refl
          (omega arith),
      refreshed (cells (slice f vp.view_segment.line (suc n))) (rw e),
    )

    cells-eq : {l l' n n' : ℕ} → l ≡ l' → n ≡ n' → cells (slice f l n) ≡ cells (slice f l' n')
    cells-eq p q = cc

    shift_top :
        (k d : ℕ)
        → Overlap vp.view_segment vp.items_segment (top_remains, k)
        → d + k ≡ vp.view_segment.count
        → shift_up vp.items (sub32 (length vp.items) k)
          ≡ some (cells (slice f vp.view_segment.line k) ++ (replicate d none ++ []))
    shift_top k d o e =
        let n : sub32 (length vp.items) k ≡ d = omega (arith, length_items) in
        rw (n, shift_up_lem vp.items d (omega (arith, length_items)), append-nil)
          (ap (λ (ys : List (Option A)). some (ys ++ replicate d none))
            (ap (drop d) coh ∙ drop-cells-slice f d _ _ ∙ cells-eq (omega arith) (omega arith)))

    refresh_top :
        (k d : ℕ)
        → Overlap vp.view_segment vp.items_segment (top_remains, k)
        → d + k ≡ vp.view_segment.count
        → Refreshes f vp (top_remains, k) (slice f (vp.view_segment.line + k) d)
    unfolding prepare_by
    refresh_top k d o e =
        let pre = cells (slice f vp.view_segment.line k) in
        let xs = slice f (vp.view_segment.line + k) d in
        let vp1 : DBusListViewport A = record vp { items = pre ++ (replicate d none ++ []) } in
        (
          vp1,
          k,
          record vp { items = pre ++ (cells xs ++ []); items_segment = vp.view_segment },
          rw (prepare_by, shift_top k d o e),
          subst
              (λ (i : ℕ).
                update_cache_region vp1 i xs
                ≡ some (record vp {
                  items = pre ++ (cells xs ++ []);
                  items_segment = vp.view_segment;
                }))
              (length-cells (slice f vp.view_segment.line k)
                ∙ length-slice f vp.view_segment.line k)
              (update_over vp1 pre (replicate d none) [] xs refl
                (length-replicate d none ∙ sym (length-slice f _ d))
                (omega (arith, length-slice f (vp.view_segment.line + k) d))),
          refreshed (pre ++ (cells xs ++ [])) (
              rw append-nil
                (cells-slice-append f vp.view_segment.line k d ∙ cells-eq refl (omega arith))),
        )

    shift_bottom :
        (k d : ℕ)
        → Overlap vp.view_segment vp.items_segment (bottom_remains, k)
        → d + k ≡ vp.view_segment.count
        → shift_down vp.items (sub32 (length vp.items) k)
          ≡ some (replicate d none ++ cells (slice f (vp.view_segment.line + d) k))
    shift_bottom k d o e =
        let n : sub32 (length vp.items) k ≡ d = omega (arith, length_items) in
        rw (n, shift_down_lem vp.items d k (omega (arith, length_items)))
          (ap (λ (ys : List (Option A)). some (replicate d none ++ ys))
            (ap (take k) coh
              ∙ take-cells-slice f k _ _ (omega arith)
              ∙ cells-eq (omega arith) refl))

    refresh_bottom :
        (k d : ℕ)
        → Overlap vp.view_segment vp.items_segment (bottom_remains, k)
        → d + k ≡ vp.view_segment.count
        → Refreshes f vp (bottom_remains, k) (slice f vp.view_segment.line d)
    unfolding prepare_by
    refresh_bottom k d o e =
        let post = cells (slice f (vp.view_segment.line + d) k) in
        let xs = slice f vp.view_segment.line d in
        let vp1 : DBusListViewport A = record vp { items = replicate d none ++ post } in
        (
          vp1,
          0,
          record vp { items = cells xs ++ post; items_segment = vp.view_segment },
          rw (prepare_by, shift_bottom k d o e),
          update_over vp1 [] (replicate d none) post xs refl
              (length-replicate d none ∙ sym (length-slice f _ d))
              (omega (arith, length-slice f vp.view_segment.line d)),
          refreshed (cells xs ++ post)
              (cells-slice-append f vp.view_segment.line d k ∙ cells-eq refl e),
        )

    refresh_by :
        (r : SegmentIntersection × ℕ)
        → Overlap vp.view_segment vp.items_segment r
        → let missing = missing_of vp.view_segment r in
          Refreshes f vp r (slice f missing.line missing.count)
    unfolding missing_of prepare_by update_cache_region
    refresh_by (disjoint, k) o = refresh_all (disjoint, k) vp.view_segment.count refl refl
    refresh_by (center_remains, k) o =
        refresh_all (center_remains, k) vp.view_segment.count refl refl
    refresh_by (equal, k) o = (vp, 0, vp, refl, refl, refresh_none (omega arith) (omega arith))
    refresh_by (included_in_other, k) o =
        (vp, 0, vp, refl, refl, refresh_none (omega arith) (omega arith))
    refresh_by (top_remains, k) o =
        let l : add32 vp.view_segment.line k ≡ vp.view_segment.line + k = omega arith in
        let n : sub32 vp.view_segment.count k ≡ vp.view_segment.count - k = omega arith in
        rw (l, n) (refresh_top k (vp.view_segment.count - k) o (omega arith))
    refresh_by (bottom_remains, k) o =
        let n : sub32 vp.view_segment.count k ≡ vp.view_segment.count - k = omega arith in
        rw n (refresh_bottom k (vp.view_segment.count - k) o (omega arith))

update_steps :
    {A : Type 0} (kinds : ItemKinds A) (vp : DBusListViewport A) (result : GetRangeResult)
    {vp1 vp2 : DBusListViewport A} {g : ℕ} {xs : List A}
    → prepare_update vp ≡ some (vp1, g)
    → items_of kinds result ≡ some xs
    → update_cache_region vp1 g xs ≡ some vp2
    → update_viewport_cache kinds vp result ≡ some vp2
unfolding update_viewport_cache
update_steps kinds vp result p q r = rw (p, q, update_viewport_cache) r

-- If the cache is coherent, is empty or as large as the view, and what was received are the
-- items of the missing segment, then the update reads and writes nothing out of bounds, and
-- afterwards the cache is coherent and has every line of the view; the view stays as it was.
pub update_refreshes :
    {A : Type 0} (kinds : ItemKinds A) (f : ℕ → A) (vp : DBusListViewport A)
    (result : GetRangeResult)
    → Fits vp.view_segment
    → Fits vp.items_segment
    → Coherent f vp
    → (vp.items_segment.count ≡ vp.view_segment.count) ⊎ (vp.items_segment.count ≡ 0)
    → let missing = get_missing_segment vp in
      items_of kinds result ≡ some (slice f missing.line missing.count)
      → (vp' : DBusListViewport A) × (update_viewport_cache kinds vp result ≡ some vp')
        × IsRefreshed f vp vp'
unfolding get_missing_segment prepare_update
update_refreshes kinds f vp result hv hi coh sizes e =
    let (vp1, g, vp2, prepared, updated, refreshed) =
      refresh_by f vp hv hi coh sizes (intersection vp.view_segment vp.items_segment)
        (intersection-Overlap vp.view_segment vp.items_segment hv hi) in
    (vp2, update_steps kinds vp result prepared e updated, refreshed)
