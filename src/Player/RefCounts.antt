-- ===== src/Player/RefCounts.antt =====
-- src/player_data.cc: how often each list is referenced. The map is the list of its entries.
use drcpd.Common.{ℕ, suc, ◌-◌, Option, none, some, List, [], ◌∷◌, ltb, ◌==◌, if◌then◌else◌}

abbrev pub RefCounts : Type 0
RefCounts = List (ℕ × ℕ)

unfoldable pub find_count : RefCounts → ℕ → Option ℕ
find_count [] list_id = none
find_count ((key, n) ∷ counts) list_id =
    let rest = find_count counts list_id in if key == list_id then some n else rest

unfoldable pub set_count : RefCounts → ℕ → ℕ → RefCounts
set_count [] list_id n = (list_id, n) ∷ []
set_count ((key, m) ∷ counts) list_id n =
    let rest = set_count counts list_id n in
    if key == list_id then (key, n) ∷ counts else (key, m) ∷ rest

unfoldable pub erase_count : RefCounts → ℕ → RefCounts
erase_count [] list_id = []
erase_count ((key, m) ∷ counts) list_id =
    let rest = erase_count counts list_id in if key == list_id then rest else (key, m) ∷ rest

unfoldable pub ref_list_id : RefCounts → ℕ → RefCounts
ref_list_id counts list_id = elim (find_count counts list_id) [
  | none ↦ set_count counts list_id 1
  | some n ↦ set_count counts list_id (suc n)
]

unfoldable pub unref_list_id : RefCounts → ℕ → RefCounts
unref_list_id counts list_id = elim (find_count counts list_id) [
  | none ↦ counts
  | some n ↦ if n - 1 == 0 then erase_count counts list_id else set_count counts list_id (n - 1)
]

unfoldable pub append_referenced_lists : RefCounts → List ℕ
append_referenced_lists [] = []
append_referenced_lists ((key, n) ∷ counts) =
    let rest = append_referenced_lists counts in if ltb 0 n then key ∷ rest else rest
