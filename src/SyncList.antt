-- ===== src/SyncList.antt =====
-- src/dbuslist.cc: reading one item of a list in the broker, synchronously, by `get_item`.
-- `fetch_window_sync`, the call into the list broker, is a parameter; no value is an exception.
-- No result at all stands for undefined behaviour.
pub mod Reads
use drcpd.Common.{
  ℕ, Bool, true, false, Option, none, some, List, [], ◌∷◌, leb, ◌==◌, ◌||◌, if◌then◌else◌,
}
use drcpd.CacheSegment.{Segment}
use drcpd.Viewport.{
  DBusListViewport, ItemKinds, GetRangeResult, item_at, set_view, get_missing_segment,
  update_viewport_cache,
}

-- The keys of `viewports_and_fetchers_` whose fetcher is null, by the viewports' identities.
pub record DBusList : Type 0 where
  pub number_of_items : ℕ
  pub referrers : List ℕ

contains : List ℕ → ℕ → Bool
contains [] id = false
contains (x ∷ xs) id = x == id || contains xs id

unfoldable pub add_referrer : DBusList → ℕ → DBusList
unfolding contains
add_referrer l id = if contains l.referrers id then l else record l { referrers = id ∷ l.referrers }

pub record Read (A : Type 0) : Type 0 where
  pub list : DBusList
  pub viewport : DBusListViewport A
  pub item : Option A

module _ {A : Type 0} (kinds : ItemKinds A)
    (fetch_window_sync : Segment → Option GetRangeResult) where
  -- The part behind the cache look-up: move the view, fetch what is missing, look again.
  pub get_item_uncached : DBusList → DBusListViewport A → ℕ → Option (Read A)
  get_item_uncached l vp line =
      let vp' = (set_view vp line vp.cache_size l.number_of_items).0 in
      elim (fetch_window_sync (get_missing_segment vp')) [
        | none ↦ some (record { list = l; viewport = vp'; item = none })
        | some result ↦ elim (update_viewport_cache kinds vp' result) [
          | none ↦ none
          | some vp'' ↦ some (record { list = l; viewport = vp''; item = (item_at vp'' line).0 })
        ]
      ]

  -- The assertion that a list is entered is left out.
  pub get_item : DBusList → ℕ → DBusListViewport A → ℕ → Option (Read A)
  get_item list id vp line =
      let l = add_referrer list id in
      if leb l.number_of_items line
      then some (record { list = l; viewport = vp; item = none })
      else elim (item_at vp line).0 [
        | some item ↦ some (record { list = l; viewport = vp; item = some item })
        | none ↦ get_item_uncached l vp line
      ]
