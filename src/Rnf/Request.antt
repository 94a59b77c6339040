-- ===== src/Rnf/Request.antt =====
-- src/rnfcall.hh, class template `Call`: request, fetch and the result.
-- `BadStateError`, `AbortedError` and `NoResultError` are results here, as are the exceptions.
use drcpd.Common.{ℕ, Bool, true, false, Option, none, some, List, [], ◌∷◌, ◌==◌, if◌then◌else◌}
use drcpd.Rnf.{
  CallState, initialized, wait_for_notification, ready_to_fetch, result_fetched, aborting,
  aborted_by_list_broker, failed, about_to_destroy, Call, unset, value, exception, retrieved,
  set_state, clear_cookie,
}

-- What `do_request` does: it returns a cookie and may set the promise, or it throws.
pub data RequestAnswer (R E : Type 0) : Type 0 where
  answered : ℕ → Option R → RequestAnswer R E
  throws : E → RequestAnswer R E

-- What `do_fetch` does: it sets the promise or throws.
pub data FetchAnswer (R E : Type 0) : Type 0 where
  fetched : R → FetchAnswer R E
  throws : E → FetchAnswer R E

pub data Result (R E : Type 0) : Type 0 where
  ok : R → Result R E
  bad_state aborted no_result blocks : Result R E
  thrown : E → Result R E

module _ {R E : Type 0} where
  -- Setting a promise that is set already throws (no value), and leaves it as it is.
  unfoldable pub set_value : Call R E → Option R → Option (Call R E)
  set_value c none = some c
  set_value c (some r) = elim c.promise_ [
    | unset ↦ some (record c { promise_ = value r })
    | _ ↦ none
  ]

  unfoldable pub set_exception : Call R E → E → Call R E
  set_exception c e = elim c.promise_ [ unset ↦ record c { promise_ = exception e } | _ ↦ c ]

  -- The handler of `request`.
  unfoldable pub request_failed : Call R E → E → Call R E
  unfolding set_exception set_state
  request_failed c e = set_state (set_exception c e) CallState.failed

  unfoldable pub after_callback : Call R E → Option E → Call R E
  unfolding request_failed
  after_callback c none = c
  after_callback c (some e) = request_failed c e

  -- With a cookie: it is kept and passed to `manage_cookie`, which may throw.
  unfoldable pub request_deferred : Call R E → ℕ → Option E → Call R E
  unfolding set_state request_failed
  request_deferred c cookie none =
      set_state (record c { cookie_ = cookie; detached_ = true }) CallState.wait_for_notification
  request_deferred c cookie (some e) =
      request_failed (record c { cookie_ = cookie; detached_ = true }) e

  -- Without a cookie: `fast_path` is called, which may throw.
  unfoldable pub request_fast : Call R E → Option E → Call R E
  unfolding set_state after_callback
  request_fast c e = after_callback (set_state c CallState.result_fetched) e

  unfoldable pub request_answered : Call R E → ℕ → Option E → Call R E
  unfolding request_deferred request_fast
  request_answered c cookie callback =
      if cookie == 0 then request_fast c callback else request_deferred c cookie callback

  unfoldable pub request_started : Call R E → RequestAnswer R E → Option E → Call R E
  unfolding set_value request_answered request_failed set_state
  request_started c (throws e) callback = request_failed c e
  request_started c (answered cookie r) callback = elim (set_value c r) [
    | none ↦ set_state c CallState.failed
    | some c' ↦ request_answered c' cookie callback
  ]

  -- The returned state, or `none` for `BadStateError`.
  unfoldable pub request : Call R E → RequestAnswer R E → Option E → Call R E × Option CallState
  unfolding request_started
  request c answer callback = elim c.state_ [
    | initialized ↦
        let c' =
          request_started (record c { busy_source_set_ = true; busy_calls = true ∷ c.busy_calls })
            answer callback in
        (c', some c'.state_)
    | _ ↦ (c, none)
  ]

  unfoldable pub fetch_ready : Call R E → FetchAnswer R E → Call R E × Bool
  unfolding set_value set_exception clear_cookie set_state
  fetch_ready c (fetched r) = elim (set_value c (some r)) [
    | none ↦ (set_state (clear_cookie c).0 CallState.failed, false)
    | some c' ↦ (set_state (clear_cookie c').0 CallState.result_fetched, true)
  ]
  fetch_ready c (throws e) =
      (set_state (clear_cookie (set_exception c e)).0 CallState.failed, false)

  -- `do_fetch` is asked with the cookie of the call; `none` is `BadStateError`.
  unfoldable pub fetch_unlocked : Call R E → (ℕ → FetchAnswer R E) → Call R E × Option Bool
  unfolding fetch_ready
  fetch_unlocked c do_fetch = elim c.state_ [
    | ready_to_fetch ↦ let (c', success) = fetch_ready c (do_fetch c.cookie_) in (c', some success)
    | result_fetched ↦ (c, some true)
    | aborting ↦ (c, some false)
    | aborted_by_list_broker ↦ (c, some false)
    | failed ↦ (c, some false)
    | initialized ↦ (c, none)
    | wait_for_notification ↦ (c, none)
    | about_to_destroy ↦ (c, none)
  ]

  -- The wait takes what other threads do to the call, one after the other, until the state is no
  -- longer `wait_for_notification`. No value: it is still waiting after all of them.
  unfoldable pub fetch_blocking :
      Call R E
      → List (Call R E → Call R E)
      → (ℕ → FetchAnswer R E)
      → Option (Call R E × Option Bool)
  unfolding fetch_unlocked
  fetch_blocking c [] do_fetch = elim c.state_ [
    | wait_for_notification ↦ none
    | _ ↦ some (fetch_unlocked c do_fetch)
  ]
  fetch_blocking c (event ∷ events) do_fetch =
      let waited = fetch_blocking (event c) events do_fetch in
      elim c.state_ [ wait_for_notification ↦ waited | _ ↦ some (fetch_unlocked c do_fetch) ]

  -- `future_.get()` on a valid future, which blocks while nothing is set.
  unfoldable pub future_get : Call R E → Call R E × Result R E
  unfolding set_state
  future_get c = elim c.promise_ [
    | unset ↦ (c, blocks)
    | value r ↦ (record c { promise_ = retrieved }, ok r)
    | exception e ↦ (set_state (record c { promise_ = retrieved }) CallState.failed, thrown e)
    | retrieved ↦ (c, no_result)
  ]

  unfoldable pub get_result_done : Call R E → Call R E × Result R E
  unfolding future_get
  get_result_done c = if c.was_aborted_after_done_ then (c, aborted) else future_get c

  unfoldable pub get_result_unlocked : Call R E → Call R E × Result R E
  unfolding get_result_done
  get_result_unlocked c = elim c.state_ [
    | result_fetched ↦ get_result_done c
    | failed ↦ get_result_done c
    | initialized ↦ (c, bad_state)
    | wait_for_notification ↦ (c, bad_state)
    | ready_to_fetch ↦ (c, bad_state)
    | about_to_destroy ↦ (c, bad_state)
    | aborting ↦ (c, aborted)
    | aborted_by_list_broker ↦ (c, aborted)
  ]

  -- The destructors `~Call` and `~CallBase`.
  unfoldable pub destroy : Call R E → Call R E
  unfolding set_state
  destroy c =
      set_state (if c.busy_source_set_ then record c { busy_calls = false ∷ c.busy_calls } else c)
        CallState.about_to_destroy
