-- ===== src/Busy/Notifications.antt =====
-- The notifications of src/busy.cc follow the flags.
use drcpd.Common.{◌≡◌, refl, Bool, true, false, not, List, [], ◌∷◌, arith}
use drcpd.Busy.{
  GlobalBusyState, is_busy__uncached, has_busy_state_changed, notify_if_necessary, set, clear,
  set_direct, clear_direct, is_busy,
}
use drcpd.Busy.Calls.{
  Call, call, run, IsToldLast, Told, sets, clears, sets_direct, clears_direct, reads,
}

alternating_cons :
    (b : Bool) (log : List Bool) → IsToldLast b log → IsToldLast (not b) (not b ∷ log)
alternating_cons b log t = ground arith

Told-notified :
    (s : GlobalBusyState) (previous now : Bool)
    → s.last_notified_busy_state_ ≡ previous
    → is_busy__uncached s ≡ now
    → IsToldLast previous s.notify_busy_state_changed_
    → Told (notify_if_necessary s).0
unfolding notify_if_necessary has_busy_state_changed is_busy__uncached
Told-notified s true true e h t = ground arith
Told-notified s true false e h t = ground arith
Told-notified s false true e h t = ground arith
Told-notified s false false e h t = ground arith

-- The callback learns of a state that it was not told before, and only of such.
notify-Told :
    (s : GlobalBusyState)
    → IsToldLast s.last_notified_busy_state_ s.notify_busy_state_changed_
    → Told (notify_if_necessary s).0
notify-Told s t = Told-notified s s.last_notified_busy_state_ (is_busy__uncached s) refl refl t

changed-Told :
    (s s' : GlobalBusyState)
    → s'.last_notified_busy_state_ ≡ s.last_notified_busy_state_
    → s'.notify_busy_state_changed_ ≡ s.notify_busy_state_changed_
    → Told s
    → Told (notify_if_necessary s').0
changed-Told s s' e f t = notify-Told s' (rw (e, f, t.notified) t.log)

call-Told : (s : GlobalBusyState) (c : Call) → Told s → Told (call s c).0
unfolding call set clear set_direct clear_direct is_busy is_busy__uncached
call-Told s (sets src) t = changed-Told s _ refl refl t
call-Told s (clears src) t = changed-Told s _ refl refl t
call-Told s (sets_direct src) t = changed-Told s _ refl refl t
call-Told s (clears_direct src) t = changed-Told s _ refl refl t
call-Told s reads t = record { notified = t.notified; log = t.log }

pub run-Told : (s : GlobalBusyState) (cs : List Call) → Told s → Told (run s cs)
unfolding run
run-Told s [] t = t
run-Told s (c ∷ cs) t = run-Told (call s c).0 cs (call-Told s c t)
