-- ===== src/CacheEnforcer/Laws.antt =====
-- The time between two calls of the cache enforcer, and its life (src/cacheenforcer.cc).
use Prim.Native.Nat.{◌*◌}
use drcpd.Common.{
  ℕ, ◌≤◌, ◌<◌, ◌≡◌, inl, inr, refl, Bool, true, false, not, ◌&&◌, ◌||◌, Option, none, some, List,
  [], ◌∷◌, arith, if◌then◌else◌, Bool-cases,
}
use drcpd.CacheEnforcer.{
  CacheEnforcer, EnforcerState, compute_enforcer_refresh_seconds, construct, release, process_by,
  process_dbus, process_timer, is_refused, start, stop, is_stopped,
}

-- The call is repeated before the list expires, with a fifth of the time or more to spare, if the
-- list expires after 1.25 seconds or more, and after 3.5 minutes at most.
pub refresh_in_time :
    (timeout_ms : ℕ)
    → 1250 ≤ timeout_ms
    → timeout_ms ≤ 210000
    → (0 < compute_enforcer_refresh_seconds timeout_ms)
      × (compute_enforcer_refresh_seconds timeout_ms * 1000 * 5 ≤ timeout_ms * 4)
unfolding compute_enforcer_refresh_seconds
refresh_in_time timeout_ms h1 h2 = (ground arith, ground arith)

-- Between 211 seconds and half an hour, the call is repeated after half an hour, when the list has
-- expired.
pub refresh_too_late :
    (timeout_ms : ℕ)
    → 211000 ≤ timeout_ms
    → timeout_ms < 1800000
    → timeout_ms < compute_enforcer_refresh_seconds timeout_ms * 1000
unfolding compute_enforcer_refresh_seconds
refresh_too_late timeout_ms h1 h2 = ground arith

-- What happens to an enforcer: its user starts it once and stops it once, and each callback comes
-- as it was ordered. Anything else does not happen.
pub data Event : Type 0 where
  starts times : Bool → Event
  answers : Option ℕ → Event
  stops : Event

pub is_some : Option ℕ → Bool
is_some none = false
is_some (some n) = true

is_created : EnforcerState → Bool
is_created EnforcerState.created = true
is_created EnforcerState.started = false
is_created EnforcerState.stopped = false

pub step : CacheEnforcer → Event → CacheEnforcer
step e (starts proxy) = if e.owned && is_created e.state_ then start e proxy else e
step e (times proxy) = if is_some e.timer then process_timer e proxy else e
step e (answers answer) = if e.call then process_dbus e answer else e
step e stops = if e.owned then stop e else e

pub run : CacheEnforcer → List Event → CacheEnforcer
run e [] = e
run e (event ∷ events) = run (step e event) events

-- Is exactly one callback coming?
waits_once : CacheEnforcer → Bool
waits_once e = if is_some e.timer then not e.call else e.call

waits : CacheEnforcer → Bool
waits e = is_some e.timer || e.call

-- An enforcer that is not started or was refused waits for nothing; a started one waits for one
-- callback; one that was stopped meanwhile owns itself until the callback comes.
sound_by : EnforcerState → CacheEnforcer → Bool
sound_by EnforcerState.created e = e.owned && not e.pointer_to_self_ && not (waits e)
sound_by EnforcerState.started e = e.owned && not e.pointer_to_self_ && waits_once e
sound_by EnforcerState.stopped e =
    if e.pointer_to_self_ then not e.owned && waits_once e else not (waits e)

is_sound : CacheEnforcer → Bool
is_sound e = sound_by e.state_ e

step_by :
    (s : EnforcerState) (e : CacheEnforcer) (event : Event)
    → sound_by s e ≡ true
    → is_sound (step (record e { state_ = s }) event) ≡ true
unfolding step is_sound sound_by waits waits_once is_some is_created start stop process_timer
    process_dbus process_by release
step_by EnforcerState.created e (starts proxy) h = ground arith
step_by EnforcerState.created e (times proxy) h = ground arith
step_by EnforcerState.created e (answers answer) h = ground arith
step_by EnforcerState.created e stops h = ground arith
step_by EnforcerState.started e (starts proxy) h = ground arith
step_by EnforcerState.started e (times proxy) h = ground arith
step_by EnforcerState.started e (answers answer) h = elim (Bool-cases (is_refused answer)) [
  | inl r ↦ ground arith
  | inr r ↦ ground arith
]
step_by EnforcerState.started e stops h = ground arith
step_by EnforcerState.stopped e (starts proxy) h = ground arith
step_by EnforcerState.stopped e (times proxy) h = ground arith
step_by EnforcerState.stopped e (answers answer) h = elim (Bool-cases (is_refused answer)) [
  | inl r ↦ ground arith
  | inr r ↦ ground arith
]
step_by EnforcerState.stopped e stops h = ground arith

-- The callback that is waited for comes.
pub called_back : CacheEnforcer → Bool → Option ℕ → CacheEnforcer
called_back e proxy answer =
    if is_some e.timer then process_timer e proxy else process_dbus e answer

-- Nothing owns the object and nothing is waited for.
pub is_gone : CacheEnforcer → Bool
unfolding waits
is_gone e = not e.owned && not e.pointer_to_self_ && not (waits e)

life_by :
    (s : EnforcerState) (e : CacheEnforcer) (proxy : Bool) (answer : Option ℕ)
    → sound_by s e ≡ true
    → ((is_some e.timer || e.call) ≡ true → (e.owned || e.pointer_to_self_) ≡ true)
      × ((is_some e.timer && e.call) ≡ false)
      × (s ≡ EnforcerState.started → (is_some e.timer || e.call) ≡ true)
      × (e.pointer_to_self_ ≡ true
          → (e.owned ≡ false)
            × ((is_some e.timer || e.call) ≡ true)
            × (is_gone (called_back (record e { state_ = s }) proxy answer) ≡ true))
unfolding sound_by is_gone called_back process_timer process_dbus process_by release is_stopped
    waits waits_once is_some
life_by EnforcerState.created e proxy answer h = (
  λ x. ground (arith, x),
  ground arith,
  λ x. ground (arith, x),
  λ x. (ground (arith, x), ground (arith, x), ground (arith, x)),
)
life_by EnforcerState.started e proxy answer h = (
  λ x. ground (arith, x),
  ground arith,
  λ x. ground (arith, x),
  λ x. (ground (arith, x), ground (arith, x), ground (arith, x)),
)
life_by EnforcerState.stopped e proxy answer h = (
  λ x. ground (arith, x),
  ground arith,
  λ x. ground (arith, x),
  λ x. (ground (arith, x), ground (arith, x), ground (arith, x)),
)

run-is_sound :
    (e : CacheEnforcer) (events : List Event) → is_sound e ≡ true → is_sound (run e events) ≡ true
unfolding run is_sound
run-is_sound e [] h = h
run-is_sound e (event ∷ events) h = run-is_sound (step e event) events (step_by e.state_ e event h)

-- Whatever happens, a callback never finds the object destroyed, only one is waited for at a time,
-- a started enforcer waits for one, and an object that owns itself does so only until the callback
-- comes: then neither its user nor itself owns it any more, and nothing is waited for.
pub run-life :
    (events : List Event) (proxy : Bool) (answer : Option ℕ)
    → let e = run construct events in
      ((is_some e.timer || e.call) ≡ true → (e.owned || e.pointer_to_self_) ≡ true)
      × ((is_some e.timer && e.call) ≡ false)
      × (e.state_ ≡ EnforcerState.started → (is_some e.timer || e.call) ≡ true)
      × (e.pointer_to_self_ ≡ true
          → (e.owned ≡ false)
            × ((is_some e.timer || e.call) ≡ true)
            × (is_gone (called_back e proxy answer) ≡ true))
unfolding is_sound sound_by construct waits is_some
run-life events proxy answer =
    let e = run construct events in
    life_by e.state_ e proxy answer (run-is_sound construct events refl)
