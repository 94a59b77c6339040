-- ===== src/CacheEnforcer.antt =====
-- src/cacheenforcer.hh and src/cacheenforcer.cc: keeping a list in the cache of the list broker, by a
-- call that is repeated before the list expires. The object is owned by its user or by itself, and
-- what is owned by neither is destroyed. `timer` and `call` are the callbacks that will come: a
-- timer after so many seconds, and the answer of a D-Bus call. Times are assumed to be so short that
-- no product leaves 64 bits.
pub mod Laws
use Prim.Native.Nat.{◌/◌, ◌*◌}
use drcpd.Common.{
  ℕ, suc, ◌+◌, ◌-◌, Bool, true, false, not, ◌&&◌, ◌||◌, Option, none, some, ltb, leb, ◌==◌,
  if◌then◌else◌,
}

pub data EnforcerState : Type 0 where
  created started stopped : EnforcerState

pub record CacheEnforcer : Type 0 where
  pub pointer_to_self_ : Bool
  pub state_ : EnforcerState
  pub owned : Bool
  pub timer : Option ℕ
  pub call : Bool

unfoldable pub compute_enforcer_refresh_seconds : ℕ → ℕ
compute_enforcer_refresh_seconds timeout_ms =
    let plausible_maximum_seconds : ℕ = 1800 in
    let t_ms = timeout_ms * 80 / 100 in
    let t_seconds = t_ms / 1000 in
    let shorter = (timeout_ms - 42000) / 1000 in
    if ltb 0 t_seconds && leb t_seconds plausible_maximum_seconds
    then (if leb timeout_ms (t_ms + 42000)
        then t_seconds
        else if shorter == 0
        then 1
        else plausible_maximum_seconds)
    else if t_seconds == 0
    then 1
    else plausible_maximum_seconds

unfoldable pub construct : CacheEnforcer
construct = record {
  pointer_to_self_ = false;
  state_ = EnforcerState.created;
  owned = true;
  timer = none;
  call = false;
}

-- The last step of either callback: `last_ref` goes out of scope.
unfoldable pub release : CacheEnforcer → CacheEnforcer
release e = record e { state_ = EnforcerState.stopped; pointer_to_self_ = false }

-- The answer is an error, or the time in milliseconds after which the list expires.
unfoldable pub is_refused : Option ℕ → Bool
is_refused none = true
is_refused (some list_expiry_ms) = list_expiry_ms == 0

unfoldable pub refresh_of : Option ℕ → ℕ
refresh_of none = compute_enforcer_refresh_seconds 0
refresh_of (some list_expiry_ms) = compute_enforcer_refresh_seconds list_expiry_ms

unfoldable pub process_by : EnforcerState → CacheEnforcer → Option ℕ → CacheEnforcer
unfolding release refresh_of
process_by EnforcerState.created e answer = e
process_by EnforcerState.started e answer = record e { timer = some (refresh_of answer) }
process_by EnforcerState.stopped e answer = release e

unfoldable pub process_dbus : CacheEnforcer → Option ℕ → CacheEnforcer
unfolding process_by
process_dbus e answer =
    let state = if is_refused answer then EnforcerState.stopped else e.state_ in
    process_by state (record e { call = false; state_ = state }) answer

unfoldable pub is_stopped : EnforcerState → Bool
is_stopped EnforcerState.created = false
is_stopped EnforcerState.started = false
is_stopped EnforcerState.stopped = true

unfoldable pub process_timer : CacheEnforcer → Bool → CacheEnforcer
unfolding release is_stopped
process_timer e has_proxy =
    let e' = record e { timer = none } in
    if is_stopped e.state_
    then release e'
    else if has_proxy
    then record e' { state_ = EnforcerState.started; call = true }
    else release e'

unfoldable pub start : CacheEnforcer → Bool → CacheEnforcer
start e has_proxy = process_timer e has_proxy

unfoldable pub is_started : EnforcerState → Bool
is_started EnforcerState.created = false
is_started EnforcerState.started = true
is_started EnforcerState.stopped = false

-- The owner gives the object away; a call that removes the override has no callback.
unfoldable pub stop : CacheEnforcer → CacheEnforcer
unfolding is_started
stop e = record e {
  pointer_to_self_ = e.pointer_to_self_ || is_started e.state_;
  owned = false;
  state_ = EnforcerState.stopped;
}
