-- ===== src/Rnf/Runs.antt =====
-- The life of an RNF call (src/rnfcall.hh, src/rnfcall.cc).
use drcpd.Common.{
  ℕ, ◌<◌, ◌≡◌, ◌≢◌, ◌⊎◌, refl, ap, true, false, Option, none, some, List, [], ◌∷◌, arith, All,
}
use drcpd.Rnf.{
  CallState, Call, AbortAnswer, initialized, wait_for_notification, ready_to_fetch, result_fetched,
  aborting, aborted_by_list_broker, failed, about_to_destroy, refused, construct, set_state,
  clear_cookie, abort_request_internal, abort_active, abort_cookie, notification,
  result_available_notification, aborted_notification, same,
}
use drcpd.Rnf.Request.{
  RequestAnswer, FetchAnswer, Result, answered, fetched, ok, set_value, request, request_started,
  request_answered, request_deferred, fetch_unlocked, fetch_ready, get_result_unlocked,
  get_result_done, future_get, destroy,
}
use drcpd.Rnf.Invariant.{
  History, Inv, construct-Inv, available-Inv, aborted-Inv, fetch-Inv, result-Inv, never_blocks,
}
use drcpd.Rnf.Abort.{Event, is_available, is_aborted, happens, abort-Inv}
use drcpd.Rnf.Start.{MeetsRequirements, request-Inv}

pub data Op (R E : Type 0) : Type 0 where
  requests : RequestAnswer R E → Option E → Op R E
  hears : Event → Op R E
  fetches : (ℕ → FetchAnswer R E) → Op R E
  aborts : List Event → AbortAnswer → Op R E
  asks : Op R E

module _ {R E : Type 0} where
  unfoldable pub apply : Call R E → Op R E → Call R E
  apply c (requests answer callback) = (request c answer callback).0
  apply c (hears (is_available cookie)) = result_available_notification c cookie
  apply c (hears (is_aborted cookie)) = aborted_notification c cookie
  apply c (fetches do_fetch) = (fetch_unlocked c do_fetch).0
  apply c (aborts events answer) = (abort_request_internal c (happens events) answer).0
  apply c asks = (get_result_unlocked c).0

  unfoldable pub run : Call R E → List (Op R E) → Call R E
  run c [] = c
  run c (op ∷ ops) = run (apply c op) ops

  abbrev pub IsAllowed : Op R E → Type 0
  IsAllowed (requests answer callback) = MeetsRequirements answer
  IsAllowed (hears event) = Unit
  IsAllowed (fetches do_fetch) = Unit
  IsAllowed (aborts events answer) = Unit
  IsAllowed asks = Unit

  apply-Inv : (c : Call R E) (op : Op R E) → IsAllowed op → Inv c → Inv (apply c op)
  unfolding apply
  apply-Inv c (requests answer callback) h v = request-Inv c answer callback h v
  apply-Inv c (hears (is_available cookie)) h v = available-Inv c cookie v
  apply-Inv c (hears (is_aborted cookie)) h v = aborted-Inv c cookie v
  apply-Inv c (fetches do_fetch) h v = fetch-Inv c do_fetch v
  apply-Inv c (aborts events answer) h v = abort-Inv c events answer v
  apply-Inv c asks h v = result-Inv c v

  run-Inv : (c : Call R E) (ops : List (Op R E)) → All IsAllowed ops → Inv c → Inv (run c ops)
  unfolding run
  run-Inv c [] h v = v
  run-Inv c (op ∷ ops) h v = run-Inv (apply c op) ops h.1 (apply-Inv c op h.0 v)

  -- Whatever is done to a new call, in any order and with any notifications while it is being
  -- aborted, as long as `do_request` meets its requirements: the status watcher sees changes of
  -- state of the relation `Next` only, and asking for the result never blocks.
  pub run_right :
      (ops : List (Op R E))
      → All IsAllowed ops
      → let c = run construct ops in
        History c.state_ c.watched × ((get_result_unlocked c).1 ≢ Result.blocks)
  run_right ops h =
      let v = run-Inv construct ops h construct-Inv in
      (v.history, never_blocks (run construct ops) v)

  -- A call that lived through any such operations has, when it is destroyed, cleared its busy
  -- source as often as it had set it, which is at most once.
  pub destroy-busy :
      (ops : List (Op R E))
      → All IsAllowed ops
      → let c = destroy (run construct ops) in
        (c.busy_calls ≡ []) ⊎ (c.busy_calls ≡ false ∷ true ∷ [])
  unfolding destroy set_state
  destroy-busy ops h = let v = run-Inv construct ops h construct-Inv in ground (arith, v.busy)

  -- A request that is answered with a cookie, the notification for that cookie, and fetching
  -- give the value that `do_fetch` has for the cookie; asking again gives no result.
  pub request-notify-fetch-result :
      (cookie : ℕ) (do_fetch : ℕ → FetchAnswer R E) (r : R)
      → 0 < cookie
      → do_fetch cookie ≡ fetched r
      → let c0 = (request construct (answered cookie none) none).0 in
        let c1 = result_available_notification c0 cookie in
        let (c2, success) = fetch_unlocked c1 do_fetch in
        let (c3, result) = get_result_unlocked c2 in
        (c0.state_ ≡ wait_for_notification)
        × (success ≡ some true)
        × (result ≡ ok r)
        × ((get_result_unlocked c3).1 ≡ Result.no_result)
  unfolding construct request request_started request_answered request_deferred set_value
      result_available_notification notification set_state same fetch_unlocked fetch_ready
      clear_cookie get_result_unlocked get_result_done future_get
  request-notify-fetch-result cookie do_fetch r h e = ground arith

  -- A notification with a cookie that the call neither has nor had last, or in a state in which
  -- none is expected, changes nothing; any other puts the call into the notified state.
  pub notification_right :
      (c : Call R E) (cookie : ℕ) (t : CallState)
      → let expected =
          (0 < cookie)
          × ((cookie ≡ c.cookie_) ⊎ (cookie ≡ c.cleared_cookie_))
          × ((c.state_ ≡ wait_for_notification) ⊎ (c.state_ ≡ aborting)) in
        (expected → (notification c cookie t).state_ ≡ t)
        × ((expected → ⊥) → notification c cookie t ≡ c)
  unfolding notification set_state same
  notification_right c cookie t = (ground arith, ground arith)

  -- The call after a refused abort, and after the notification that follows.
  without_cookie : Call R E → Call R E
  without_cookie c = record c { cookie_ = 0; cleared_cookie_ = c.cookie_ }

  refused_abort :
      (c : Call R E)
      → c.state_ ≡ wait_for_notification
      → 0 < c.cookie_
      → (abort_request_internal c (happens []) refused).0 ≡ without_cookie c
  unfolding abort_request_internal abort_active clear_cookie abort_cookie happens without_cookie
  refused_abort c s h = ground arith

  available_late_lem :
      (c : Call R E)
      → c.state_ ≡ wait_for_notification
      → 0 < c.cookie_
      → let c' = result_available_notification (without_cookie c) c.cookie_ in
        (c'.state_ ≡ ready_to_fetch) × (c'.cookie_ ≡ 0)
  unfolding result_available_notification notification set_state same without_cookie
  available_late_lem c s h = ground arith

  fetch_without_cookie_by :
      (c : Call R E) (s : CallState) (do_fetch : ℕ → FetchAnswer R E)
      → c.cookie_ ≡ 0
      → let c' = record c { state_ = s } in
        fetch_unlocked c' do_fetch ≡ fetch_unlocked c' (λ cookie. do_fetch 0)
  unfolding fetch_unlocked
  fetch_without_cookie_by c ready_to_fetch do_fetch e =
      ap
        (λ (cookie : ℕ).
          let (c', success) =
            fetch_ready (record c { state_ = ready_to_fetch }) (do_fetch cookie) in
          (c', some success))
        e
  fetch_without_cookie_by c initialized do_fetch e = refl
  fetch_without_cookie_by c wait_for_notification do_fetch e = refl
  fetch_without_cookie_by c result_fetched do_fetch e = refl
  fetch_without_cookie_by c aborting do_fetch e = refl
  fetch_without_cookie_by c aborted_by_list_broker do_fetch e = refl
  fetch_without_cookie_by c failed do_fetch e = refl
  fetch_without_cookie_by c about_to_destroy do_fetch e = refl

  fetch_without_cookie :
      (c : Call R E) (do_fetch : ℕ → FetchAnswer R E)
      → c.cookie_ ≡ 0
      → fetch_unlocked c do_fetch ≡ fetch_unlocked c (λ cookie. do_fetch 0)
  fetch_without_cookie c do_fetch e = fetch_without_cookie_by c c.state_ do_fetch e

  -- If the peer refuses to abort a call that waits, and then the result is available after all,
  -- the call is ready to fetch, but has lost its cookie: `do_fetch` is asked for cookie 0.
  pub refused_abort-fetch :
      (c : Call R E) (do_fetch : ℕ → FetchAnswer R E)
      → c.state_ ≡ wait_for_notification
      → 0 < c.cookie_
      → let c1 = (abort_request_internal c (happens []) refused).0 in
        let c2 = result_available_notification c1 c.cookie_ in
        (c2.state_ ≡ ready_to_fetch)
        × (fetch_unlocked c2 do_fetch ≡ fetch_unlocked c2 (λ cookie. do_fetch 0))
  refused_abort-fetch c do_fetch s h =
      let (state, cookie) = available_late_lem c s h in
      rw (refused_abort c s h) (state, fetch_without_cookie _ do_fetch cookie)
