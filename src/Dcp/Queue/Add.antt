-- ===== src/Dcp/Queue/Add.antt =====
-- The queue as a map from views to pending updates, in the order of the first request.
use Prim.Native.Nat.{bit_or, max}
use drcpd.Common.{
  ℕ, ◌+◌, ◌≤◌, ℕ_discrete, ◌≡◌, refl, ap, Bool, false, ◌||◌, Option, none, some, List, [], ◌∷◌,
  ◌++◌, arith, ◌==◌, if◌then◌else◌,
}
use drcpd.Dcp.Queue.{Data, Queue, add, add_to, merge}

unfoldable pub find : ℕ → List Data → Option Data
find v [] = none
find v (d ∷ ds) = if d.view == v then some d else find v ds

unfoldable pub views : List Data → List ℕ
views [] = []
views (d ∷ ds) = d.view ∷ views ds

unfoldable pub has_view : ℕ → List Data → Bool
has_view v [] = false
has_view v (d ∷ ds) = d.view == v || has_view v ds

pub count_view : ℕ → List Data → ℕ
count_view v [] = 0
count_view v (d ∷ ds) = (if d.view == v then 1 else 0) + count_view v ds

-- Both updates in one: all flags that either has, and the newer busy flag if there is one.
abbrev pub merged : Data → Option Data → Data
merged new none = new
merged new (some d) = record {
  view = d.view;
  view_update_flags = bit_or d.view_update_flags new.view_update_flags;
  busy_flag = elim new.busy_flag [ none ↦ d.busy_flag | some b ↦ some b ];
  is_full_serialize = d.is_full_serialize || new.is_full_serialize;
}

merge-merged : (new d : Data) → merge new d ≡ merged new (some d)
unfolding merge
merge-merged new d = ground arith

merge-view : (new d : Data) → (merge new d).view ≡ d.view
unfolding merge
merge-view new d = refl

find-add_to :
    (new : Data) (v : ℕ) (ds : List Data)
    → find v (add_to new ds) ≡ (if v == new.view then some (merged new (find v ds)) else find v ds)
unfolding find add_to
find-add_to new v [] = ground arith
find-add_to new v (d ∷ ds) =
    ground (arith, merge-view new d, merge-merged new d, find-add_to new v ds)

views-add_to :
    (new : Data) (ds : List Data)
    → views (add_to new ds) ≡ (if has_view new.view ds then views ds else views ds ++ new.view ∷ [])
unfolding views add_to has_view
views-add_to new [] = refl
views-add_to new (d ∷ ds) = ground (arith, merge-view new d, views-add_to new ds)

count-other :
    (new : Data) (v : ℕ) (ds : List Data)
    → (new.view ≡ v → ⊥)
    → count_view v (add_to new ds) ≡ count_view v ds
unfolding count_view add_to
count-other new v [] h = ground arith
count-other new v (d ∷ ds) h = ground (arith, merge-view new d, count-other new v ds)

count-same :
    (new : Data) (ds : List Data)
    → count_view new.view (add_to new ds) ≡ max 1 (count_view new.view ds)
unfolding count_view add_to
count-same new [] = ground arith
count-same new (d ∷ ds) = ground (arith, merge-view new d, count-same new ds)

count-add_to :
    (new : Data) (v : ℕ) (ds : List Data) → count_view v ds ≤ 1 → count_view v (add_to new ds) ≤ 1
count-add_to new v ds h = elim (ℕ_discrete new.view v) [
  | yes e ↦ rw (← e) (omega (arith, count-same new ds, ap (λ (n : ℕ). count_view n ds) e))
  | no e ↦ omega (arith, count-other new v ds e)
]

-- A request is put into the pending one of its view, which then has all flags that either had and
-- the newer busy flag if there is one; the other views' requests stay.
pub find-add :
    (q : Queue) (new : Data) (v : ℕ)
    → find v (add q new).data_
      ≡ (if v == new.view then some (merged new (find v q.data_)) else find v q.data_)
unfolding add
find-add q new v = find-add_to new v q.data_

-- The views keep their places, and a view that was not in the queue gets the last one; so each
-- view is in the queue at most once if that was so before.
pub views-add :
    (q : Queue) (new : Data)
    → (views (add q new).data_
        ≡ (if has_view new.view q.data_ then views q.data_ else views q.data_ ++ new.view ∷ []))
      × ((v : ℕ) → count_view v q.data_ ≤ 1 → count_view v (add q new).data_ ≤ 1)
unfolding add
views-add q new = (views-add_to new q.data_, λ v. count-add_to new v q.data_)

-- A merged request asks for all that either asked for.
pub merge_all :
    (new d : Data)
    → ((merge new d).is_full_serialize ≡ (d.is_full_serialize || new.is_full_serialize))
      × ((merge new d).view_update_flags ≡ bit_or d.view_update_flags new.view_update_flags)
      × ((b : Bool) → new.busy_flag ≡ some b → (merge new d).busy_flag ≡ some b)
      × (new.busy_flag ≡ none → (merge new d).busy_flag ≡ d.busy_flag)
unfolding merge
merge_all new d = (ground arith, refl, ground arith, ground arith)
