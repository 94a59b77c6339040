-- ===== src/Tests/Busy.antt =====
-- The busy state (src/busy.cc) at concrete inputs.
use drcpd.Common.{◌<◌, ◌≡◌, ◌⊎◌, ◌↔◌, true, false, List, [], ◌∷◌}
use drcpd.Busy.{Source, init, is_busy, value, getting_list_range, resuming_playback}
use drcpd.Busy.Cells.{count}
use drcpd.Busy.Calls.{Call, run, pending, IsToldLast, sets, clears, reads}
use drcpd.Busy.Laws.{run-init}

abbrev session : List Call
session =
    sets getting_list_range
    ∷ sets resuming_playback
    ∷ clears getting_list_range
    ∷ clears getting_list_range
    ∷ reads
    ∷ []

run-init_example :
    let s = run init session in
    ((src : Source) → count s.busy_counts_ (value src) ≡ pending (value src) 0 session)
    × (((is_busy s).1 ≡ true)
        ↔ ((false ≡ true) ⊎ ((src : Source) × (0 < pending (value src) 0 session))))
    × IsToldLast (is_busy s).1 s.notify_busy_state_changed_
run-init_example = run-init session
