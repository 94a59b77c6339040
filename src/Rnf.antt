-- ===== src/Rnf.antt =====
-- src/rnfcall_state.hh, src/rnfcall.hh and src/rnfcall.cc: calls of D-Bus methods in the
-- request, notification, fetch style. Locks are left out: each operation is one step, but what
-- other threads do to the call while its lock is released is a parameter of the step. `R` is the
-- type of results, `E` that of exceptions. Log messages and asserted conditions have no effect.
pub mod Request
pub mod Invariant
pub mod Abort
pub mod Start
pub mod Runs
pub mod GetRange
use drcpd.Common.{
  ℕ, Bool, true, false, not, ◌&&◌, Option, none, some, List, [], ◌∷◌, ◌==◌, if◌then◌else◌,
}

pub data CallState : Type 0 where
  initialized wait_for_notification ready_to_fetch result_fetched aborting : CallState
  aborted_by_list_broker failed about_to_destroy : CallState

unfoldable pub state_is_success : CallState → Bool
state_is_success result_fetched = true
state_is_success initialized = false
state_is_success wait_for_notification = false
state_is_success ready_to_fetch = false
state_is_success aborting = false
state_is_success aborted_by_list_broker = false
state_is_success failed = false
state_is_success about_to_destroy = false

unfoldable pub state_is_failure : CallState → Bool
state_is_failure aborted_by_list_broker = true
state_is_failure failed = true
state_is_failure initialized = false
state_is_failure wait_for_notification = false
state_is_failure ready_to_fetch = false
state_is_failure aborting = false
state_is_failure result_fetched = false
state_is_failure about_to_destroy = false

-- `promise_` and its `future_`: nothing set, a value, an exception, or already retrieved.
pub data Promise (R E : Type 0) : Type 0 where
  unset : Promise R E
  value : R → Promise R E
  exception : E → Promise R E
  retrieved : Promise R E

-- `CallBase` and `Call`. `status_watcher_fn_` is known by the states it was told, latest first,
-- and `Busy::set(BS)` and `Busy::clear(BS)` by a list of `true` and `false`, latest first.
pub record Call (R E : Type 0) : Type 0 where
  pub state_ : CallState
  pub was_aborted_after_done_ : Bool
  pub detached_ : Bool
  pub cookie_ : ℕ
  pub cleared_cookie_ : ℕ
  pub busy_source_set_ : Bool
  pub promise_ : Promise R E
  pub watched : List CallState
  pub busy_calls : List Bool

unfoldable pub same : CallState → CallState → Bool
same initialized initialized = true
same wait_for_notification wait_for_notification = true
same ready_to_fetch ready_to_fetch = true
same result_fetched result_fetched = true
same aborting aborting = true
same aborted_by_list_broker aborted_by_list_broker = true
same failed failed = true
same about_to_destroy about_to_destroy = true
same s t = false

-- What `abort_cookie_fn_` does: its answer, or an exception.
pub data AbortAnswer : Type 0 where
  accepted refused thrown : AbortAnswer

module _ {R E : Type 0} where
  unfoldable pub construct : Call R E
  construct = record {
    state_ = CallState.initialized;
    was_aborted_after_done_ = false;
    detached_ = false;
    cookie_ = 0;
    cleared_cookie_ = 0;
    busy_source_set_ = false;
    promise_ = unset;
    watched = CallState.initialized ∷ [];
    busy_calls = [];
  }

  unfoldable pub set_state : Call R E → CallState → Call R E
  unfolding same
  set_state c new_state =
      if same c.state_ new_state
      then c
      else record c { state_ = new_state; watched = new_state ∷ c.watched }

  unfoldable pub clear_cookie : Call R E → Call R E × ℕ
  clear_cookie c = (record c { cleared_cookie_ = c.cookie_; cookie_ = 0 }, c.cookie_)

  -- The call to the peer, during which `meanwhile` happens to the call.
  unfoldable pub abort_cookie : Call R E → (Call R E → Call R E) → AbortAnswer → Call R E × Bool
  unfolding set_state
  abort_cookie c meanwhile accepted = (set_state (meanwhile c) CallState.aborting, true)
  abort_cookie c meanwhile refused = (meanwhile c, false)
  abort_cookie c meanwhile thrown = (meanwhile c, false)

  unfoldable pub abort_active : Call R E → (Call R E → Call R E) → AbortAnswer → Call R E × Bool
  unfolding set_state clear_cookie abort_cookie
  abort_active c meanwhile answer =
      let (c', cookie) = clear_cookie c in
      if cookie == 0
      then (set_state c' CallState.aborted_by_list_broker, true)
      else abort_cookie c' meanwhile answer

  unfoldable pub abort_done : Call R E → Call R E × Bool
  abort_done c =
      if c.was_aborted_after_done_
      then (c, false)
      else (record c { was_aborted_after_done_ = true }, true)

  unfoldable pub abort_request_internal :
      Call R E → (Call R E → Call R E) → AbortAnswer → Call R E × Bool
  unfolding abort_active abort_done
  abort_request_internal c meanwhile answer = elim c.state_ [
    | initialized ↦ abort_active c meanwhile answer
    | wait_for_notification ↦ abort_active c meanwhile answer
    | ready_to_fetch ↦ abort_active c meanwhile answer
    | result_fetched ↦ abort_done c
    | failed ↦ abort_done c
    | aborting ↦ (c, false)
    | aborted_by_list_broker ↦ (c, false)
    | about_to_destroy ↦ (c, true)
  ]

  unfoldable pub notification : Call R E → ℕ → CallState → Call R E
  unfolding set_state
  notification c cookie new_state =
      if cookie == 0
      then c
      else if not (cookie == c.cookie_) && not (cookie == c.cleared_cookie_)
      then c
      else elim c.state_ [
        | wait_for_notification ↦ set_state c new_state
        | aborting ↦ set_state c new_state
        | _ ↦ c
      ]

  unfoldable pub result_available_notification : Call R E → ℕ → Call R E
  unfolding notification
  result_available_notification c cookie = notification c cookie CallState.ready_to_fetch

  unfoldable pub aborted_notification : Call R E → ℕ → Call R E
  unfolding notification
  aborted_notification c cookie = notification c cookie CallState.aborted_by_list_broker
