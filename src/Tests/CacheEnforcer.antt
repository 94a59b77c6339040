-- ===== src/Tests/CacheEnforcer.antt =====
-- The cache enforcer (src/cacheenforcer.cc) at concrete inputs: a list that expires after 3 minutes,
-- one that expires after 10 minutes, and one life.
use Prim.Native.Nat.{◌*◌}
use drcpd.Common.{◌<◌, ◌≤◌, ◌≡◌, ◌&&◌, ◌||◌, true, false, none, some, List, [], ◌∷◌, arith}
use drcpd.CacheEnforcer.{EnforcerState, compute_enforcer_refresh_seconds, construct}
use drcpd.CacheEnforcer.Laws.{
  is_gone, called_back, Event, starts, times, answers, stops, is_some, run, refresh_in_time,
  refresh_too_late, run-life,
}

refresh_in_time_example :
    (0 < compute_enforcer_refresh_seconds 180000)
    × (compute_enforcer_refresh_seconds 180000 * 1000 * 5 ≤ 180000 * 4)
refresh_in_time_example = refresh_in_time 180000 (omega arith) (omega arith)

refresh_too_late_example : 600000 < compute_enforcer_refresh_seconds 600000 * 1000
refresh_too_late_example = refresh_too_late 600000 (omega arith) (omega arith)

abbrev life : List Event
life = starts true ∷ answers (some 60000) ∷ times true ∷ stops ∷ answers none ∷ []

run-life_example :
    let e = run construct life in
    ((is_some e.timer || e.call) ≡ true → (e.owned || e.pointer_to_self_) ≡ true)
    × ((is_some e.timer && e.call) ≡ false)
    × (e.state_ ≡ EnforcerState.started → (is_some e.timer || e.call) ≡ true)
    × (e.pointer_to_self_ ≡ true
        → (e.owned ≡ false)
          × ((is_some e.timer || e.call) ≡ true)
          × (is_gone (called_back e true (some 60000)) ≡ true))
run-life_example = run-life life true (some 60000)
